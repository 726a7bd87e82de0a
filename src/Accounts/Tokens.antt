-- ===== src/Accounts/Tokens.antt =====
-- A created token authenticates its user.
use any_player_sync_server.Prelude.{
  ℕ, ◌+◌, ◌≡◌, refl, true, false, Option, none, some, List, [], ◌∷◌, ◌++◌, Text, text_eq,
  text_eq_refl, any, find, arith, ap, ◌∙◌, All,
}
use any_player_sync_server.Errors.{ok}
use any_player_sync_server.Strings.{trim}
use any_player_sync_server.World.{World, statement, ◌>>=◌}
use any_player_sync_server.World.Rows.{UserRow, TokenRow}
use any_player_sync_server.Accounts.{
  token_prefix, generate_token, is_active, has_id, find_session, check_session, authenticate_token,
  insert_token, or_manual, create_token,
}
use any_player_sync_server.Strings.{is_ascii_alphanumeric, is_whitespace}
use any_player_sync_server.Strings.Trim.{trim_of_spaceless, is_whitespace-alphanumeric}
use any_player_sync_server.Accounts.Lookup.{find-append_new, any_of_find}
use any_player_sync_server.Accounts.Authenticate.{to_user, authenticate_calm}

All-map : {P Q : ℕ → Type 0} (f : (c : ℕ) → P c → Q c) (s : Text) → All P s → All Q s
All-map f [] h = tt
All-map f (c ∷ s) (p, h) = (f c p, All-map f s h)

-- A new token has no white space.
trim-generate_token :
    (random : Text)
    → All (λ c. is_ascii_alphanumeric c ≡ true) random
    → trim (generate_token random) ≡ generate_token random
trim-generate_token random h =
    trim_of_spaceless (generate_token random)
      (unfold is_whitespace in (refl, (refl, (refl, All-map is_whitespace-alphanumeric random h))))

not-any-is_active :
    (hash : Text) (tokens : List TokenRow)
    → any (λ t. text_eq t.token_hash hash) tokens ≡ false
    → any (is_active hash) tokens ≡ false
not-any-is_active hash [] h = refl
not-any-is_active hash (t ∷ tokens) h = ground (arith, not-any-is_active hash tokens)

module _ (hash_token : Text → Text) (random : Text) (u : UserRow) (label : Option Text) (w : World)
    (calm : w.faults ≡ []) (plain_random : All (λ c. is_ascii_alphanumeric c ≡ true) random)
    (listed : find (has_id u.id) w.users ≡ some u)
    (fresh : any (λ t. text_eq t.token_hash (hash_token (generate_token random))) w.tokens
      ≡ false) where
  abbrev token : Text
  token = generate_token random

  abbrev new_row : TokenRow
  new_row = record {
    id = w.next_token;
    user_id = u.id;
    token_hash = hash_token token;
    token_prefix = token_prefix token;
    label = or_manual label;
    created_at = w.clock;
    last_used_at = none;
    revoked_at = none;
  }

  abbrev created : World
  created = record w { tokens = w.tokens ++ new_row ∷ []; next_token = w.next_token + 1 }

  create_token-eq :
      create_token hash_token random u.id label w
      ≡ (ok (w.next_token, or_manual label, token_prefix token, token, w.clock), created)
  unfolding create_token insert_token statement ◌>>=◌
  create_token-eq = ground (arith, any_of_find (has_id u.id) w.users u listed)

  find_session-created : find_session (hash_token token) w.users created.tokens ≡ some (u, new_row)
  unfolding find_session
  find_session-created = ground (
    arith,
    find-append_new (is_active (hash_token token)) w.tokens new_row
        (not-any-is_active (hash_token token) w.tokens fresh),
    text_eq_refl (hash_token token),
  )

  -- Where no statement fails: for an enabled user, and a random part of ASCII letters and digits
  -- that gives a token whose hash is new, create_token answers with the token, and the token then
  -- authenticates as that user.
  pub create-authenticate :
      u.disabled_at ≡ none
      → ((create_token hash_token random u.id label w).0
          ≡ ok (w.next_token, or_manual label, token_prefix token, token, w.clock))
        × ((authenticate_token hash_token token (create_token hash_token random u.id label w).1).0
            ≡ ok (to_user u))
  create-authenticate enabled = (
    ap (λ x. x.0) create_token-eq,
    rw create_token-eq (
        authenticate_calm hash_token token created calm (rw trimmed refl)
        ∙ rw (trimmed, find_session-created) (unfold check_session in ground arith)),
  )
    where
      trimmed : trim token ≡ token
      trimmed = trim-generate_token random plain_random
