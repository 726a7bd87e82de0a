-- ===== src/Handlers/Gate.antt =====
-- Who may call the administration routes.
use any_player_sync_server.Prelude.{
  ℕ, ◌≡◌, refl, ap, Bool, true, false, Option, none, some, Text, arith, ◌⊎◌, inl, inr, Bool-cases,
}
use any_player_sync_server.Errors.{Result, ok, err, panicked, is_ok}
use any_player_sync_server.Models.{AuthenticatedUser}
use any_player_sync_server.World.{World, Action, ◌>>=◌, ◌>>◌, continue, raise, lift}
use any_player_sync_server.Accounts.Authenticate.{IsSession, authenticate_token_sound}
use any_player_sync_server.Handlers.Touched.{OnlyTouched, authenticate-OnlyTouched}
use any_player_sync_server.Handlers.{
  Headers, bearer_token_from_headers, authenticate_with_headers, or_missing, require_admin,
  admin_list_users, admin_create_user, admin_create_token, admin_revoke_token,
  admin_set_user_disabled,
}

-- The requests on accounts, with what generate_token draws and the collation of names.
pub data AdminRequest : Type 0 where
  list_users_request : (Text → Text → Bool) → AdminRequest
  create_user_request : Text → Bool → AdminRequest
  create_token_request : Text → ℕ → Option Text → AdminRequest
  revoke_token_request : ℕ → AdminRequest
  disable_request : ℕ → Bool → AdminRequest

-- Whether the request is answered `ok`, and the state after it.
abbrev pub finished {ℓ} : {A : Type ℓ} → Result A × World → Bool × World
finished (r, w) = (is_ok r, w)

module _ (hash_token : Text → Text) (headers : Headers) where
  unfoldable pub handle : AdminRequest → World → Bool × World
  handle (list_users_request name_before) w =
      finished (admin_list_users hash_token name_before headers w)
  handle (create_user_request name is_admin) w =
      finished (admin_create_user hash_token headers name is_admin w)
  handle (create_token_request random user_id label) w =
      finished (admin_create_token hash_token headers random user_id label w)
  handle (revoke_token_request token_id) w =
      finished (admin_revoke_token hash_token headers token_id w)
  handle (disable_request user_id disabled) w =
      finished (admin_set_user_disabled hash_token headers user_id disabled w)

  -- The sender is the enabled administrator of an active token.
  pub record IsAdmin (w : World) : Type 0 where
    pub token : Text
    pub user : AuthenticatedUser
    pub sent : bearer_token_from_headers headers ≡ some token
    pub session : IsSession hash_token w token user
    pub is_admin : user.is_admin ≡ true

  -- Everyone else, with the state after authentication.
  abbrev Gated : World → Result AuthenticatedUser → World → Bool × World → Type 0
  Gated w (ok user) after out =
      (user.is_admin ≡ true) ⊎ ((user.is_admin ≡ false) × (out ≡ (false, after)))
  Gated w (err e) after out = out ≡ (false, after)
  Gated w panicked after out = out ≡ (false, after)

  gated :
      {A : Type 0} (w : World) (r : Result AuthenticatedUser) (after : World)
      (rest : AuthenticatedUser → Action A)
      → Gated w r after
          (finished (continue r (λ user. lift (require_admin user) >> rest user) after))
  unfolding ◌>>=◌ require_admin
  gated w (ok user) after rest = elim (Bool-cases user.is_admin) [
    | inl e ↦ inl e
    | inr e ↦ inr (e, ground arith)
  ]
  gated w (err e) after rest = refl
  gated w panicked after rest = refl

  handle-Gated :
      (r : AdminRequest) (w : World)
      → let (a, after) = authenticate_with_headers hash_token headers w in
        Gated w a after (handle r w)
  unfolding handle admin_list_users admin_create_user admin_create_token admin_revoke_token
      admin_set_user_disabled ◌>>=◌
  handle-Gated (create_user_request name is_admin) w =
      let (r, after) = authenticate_with_headers hash_token headers w in gated w r after _
  handle-Gated _ w =
      let (r, after) = authenticate_with_headers hash_token headers w in gated w r after _

  or_missing-IsSession :
      (found : Option Text) (w : World) (user : AuthenticatedUser)
      → (or_missing hash_token found w).0 ≡ ok user
      → (token : Text) × (found ≡ some token) × IsSession hash_token w token user
  unfolding raise
  or_missing-IsSession none w user h = absurd (cc)
  or_missing-IsSession (some token) w user h =
      (token, refl, authenticate_token_sound hash_token token w user h)

  authenticate-IsSession :
      (w : World) (user : AuthenticatedUser)
      → (authenticate_with_headers hash_token headers w).0 ≡ ok user
      → (token : Text) × (bearer_token_from_headers headers ≡ some token)
        × IsSession hash_token w token user
  unfolding authenticate_with_headers
  authenticate-IsSession w user h =
      or_missing-IsSession (bearer_token_from_headers headers) w user h

  -- Refused, with nothing done but to note the use of a token.
  pub record IsRefused (w : World) (out : Bool × World) : Type 0 where
    pub answer : out.0 ≡ false
    pub touched : OnlyTouched w out.1

  decide_gate :
      (w : World) (r : Result AuthenticatedUser) (after : World) (out : Bool × World)
      → (authenticate_with_headers hash_token headers w).0 ≡ r
      → OnlyTouched w after
      → Gated w r after out
      → IsAdmin w ⊎ IsRefused w out
  decide_gate w (ok user) after out same touched (inl admin) =
      let (token, sent, session) = authenticate-IsSession w user same in
      inl (record { token = token; user = user; sent = sent; session = session; is_admin = admin })
  decide_gate w (ok user) after out same touched (inr (not_admin, eq)) =
      inr (record { answer = ap (λ x. x.0) eq; touched = rw eq touched })
  decide_gate w (err e) after out same touched eq =
      inr (record { answer = ap (λ x. x.0) eq; touched = rw eq touched })
  decide_gate w panicked after out same touched eq =
      inr (record { answer = ap (λ x. x.0) eq; touched = rw eq touched })

  -- Whatever statement fails: the sender of an administration request is the enabled administrator
  -- of an active token, or the request is refused, the users, the documents and the jobs are as
  -- they were, and so are the tokens but for the time of their last use.
  pub administration_gated : (r : AdminRequest) (w : World) → IsAdmin w ⊎ IsRefused w (handle r w)
  administration_gated r w =
      decide_gate w _ _ _ refl (authenticate-OnlyTouched hash_token headers w) (handle-Gated r w)
