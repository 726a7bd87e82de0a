-- ===== src/Errors.antt =====
-- src/errors.rs: the API error and its constructors. A formatted message is the list of its pieces.
use any_player_sync_server.Prelude.{◌≡◌, Bool, true, false, String, List, [], ◌∷◌, ℤ, Text}

pub data Piece : Type 0 where
  lit : String → Piece
  num : ℤ → Piece
  txt : Text → Piece

abbrev pub Message : Type 0
Message = List Piece

abbrev pub plain : String → Message
plain s = lit s ∷ []

-- The status codes that the server answers with.
pub data StatusCode : Type 0 where
  ok_200 created_201 no_content_204 not_modified_304 : StatusCode
  bad_request_400 unauthorized_401 forbidden_403 not_found_404 : StatusCode
  conflict_409 too_many_requests_429 internal_server_error_500 : StatusCode
  service_unavailable_503 : StatusCode

pub record ApiError : Type 0 where
  pub status : StatusCode
  pub code : String
  pub message : Message

abbrev pub unauthorized : Message → ApiError
unauthorized m = record { status = unauthorized_401; code = "unauthorized"; message = m }

abbrev pub forbidden : Message → ApiError
forbidden m = record { status = forbidden_403; code = "forbidden"; message = m }

abbrev pub not_found : Message → ApiError
not_found m = record { status = not_found_404; code = "not_found"; message = m }

abbrev pub bad_request : Message → ApiError
bad_request m = record { status = bad_request_400; code = "bad_request"; message = m }

abbrev pub conflict : Message → ApiError
conflict m = record { status = conflict_409; code = "version_conflict"; message = m }

abbrev pub internal : Message → ApiError
internal m = record { status = internal_server_error_500; code = "internal_error"; message = m }

abbrev pub service_unavailable : Message → ApiError
service_unavailable m = record {
  status = service_unavailable_503;
  code = "service_unavailable";
  message = m;
}

abbrev pub too_many_requests : Message → ApiError
too_many_requests m = record {
  status = too_many_requests_429;
  code = "too_many_requests";
  message = m;
}

pub data Result {ℓ} (A : Type ℓ) : Type ℓ where
  ok : A → Result A
  err : ApiError → Result A
  -- A task that panics: `unreachable!`.
  panicked : Result A

infixl 10 ◌>>=◌ ◌>>◌
abbrev pub ◌>>=◌ {ℓ κ} : {A : Type ℓ} {B : Type κ} → Result A → (A → Result B) → Result B
ok a >>= f = f a
err e >>= f = err e
panicked >>= f = panicked

abbrev pub ◌>>◌ {ℓ κ} : {A : Type ℓ} {B : Type κ} → Result A → Result B → Result B
m >> k = m >>= λ _. k

abbrev pub is_ok {ℓ} : {A : Type ℓ} → Result A → Bool
is_ok (ok a) = true
is_ok (err e) = false
is_ok panicked = false

pub ok-injective {ℓ} : {A : Type ℓ} {a b : A} → ok a ≡ ok b → a ≡ b
ok-injective h = cc
