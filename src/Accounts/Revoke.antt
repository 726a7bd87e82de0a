-- ===== src/Accounts/Revoke.antt =====
-- What revoking a token, and disabling or enabling its owner, mean for authenticate_token.
use any_player_sync_server.Prelude.{
  ℕ, ◌≡◌, refl, Bool, true, false, none, some, List, [], ◌∷◌, Text, text_eq, if◌then◌else◌, any,
  find, find-update_where, update_where, arith, Bool-cases, inl, inr, ap, ◌∙◌, length, keep, ◌≤◌,
}
use any_player_sync_server.Errors.{ok, err, unauthorized, forbidden, plain}
use any_player_sync_server.Strings.{trim, is_empty}
use any_player_sync_server.World.{World, statement, ◌>>=◌}
use any_player_sync_server.World.Rows.{UserRow, TokenRow}
use any_player_sync_server.Accounts.{
  is_active, has_id, find_session, check_session, authenticate_token, set_user_disabled,
  is_revocable, revoke_token,
}
use any_player_sync_server.Accounts.Lookup.{any_of_find}
use any_player_sync_server.Accounts.Authenticate.{find_session_parts, to_user, authenticate_calm}

abbrev revoke : ℕ → TokenRow → TokenRow
revoke time t = record t { revoked_at = some time }

-- Without a row for the hash there is none after a revocation.
none_without_hash :
    (id time : ℕ) (hash : Text) (tokens : List TokenRow)
    → length (keep (λ x. text_eq x.token_hash hash) tokens) ≡ 0
    → find (is_active hash) (update_where (is_revocable id) (revoke time) tokens) ≡ none
none_without_hash id time hash [] h = refl
none_without_hash id time hash (x ∷ tokens) h =
    ground (arith, none_without_hash id time hash tokens)

-- A revoked row is active no more.
none_active :
    (id time : ℕ) (hash : Text) (tokens : List TokenRow) (t : TokenRow)
    → find (is_active hash) tokens ≡ some t
    → t.id ≡ id
    → length (keep (λ x. text_eq x.token_hash hash) tokens) ≤ 1
    → find (is_active hash) (update_where (is_revocable id) (revoke time) tokens) ≡ none
none_active id time hash [] t found same unique = refl
none_active id time hash (x ∷ tokens) t found same unique = elim (Bool-cases (is_active hash x)) [
  | inl here ↦ ground (arith, none_without_hash id time hash tokens)
  | inr other ↦ ground (arith, none_active id time hash tokens t)
]

any_revocable :
    (hash : Text) (tokens : List TokenRow) (t : TokenRow)
    → find (is_active hash) tokens ≡ some t
    → any (is_revocable t.id) tokens ≡ true
any_revocable hash [] t found = absurd (cc)
any_revocable hash (x ∷ tokens) t found = ground (arith, any_revocable hash tokens t)

revoke_token_ok :
    (id : ℕ) (w : World)
    → w.faults ≡ []
    → any (is_revocable id) w.tokens ≡ true
    → revoke_token id w
      ≡ (ok tt, record w { tokens = update_where (is_revocable id) (revoke w.clock) w.tokens })
unfolding revoke_token statement ◌>>=◌
revoke_token_ok id w calm there = ground arith

find_session-none :
    (hash : Text) (users : List UserRow) (tokens : List TokenRow)
    → find (is_active hash) tokens ≡ none
    → find_session hash users tokens ≡ none
unfolding find_session
find_session-none hash users tokens h = ground arith

set_user_disabled_ok :
    (id : ℕ) (disabled : Bool) (w : World)
    → w.faults ≡ []
    → any (has_id id) w.users ≡ true
    → set_user_disabled id disabled w ≡ (
      ok tt,
      record w {
        users =
            update_where
              (has_id id)
              (λ u. record u { disabled_at = if disabled then some w.clock else none })
              w.users;
      },
    )
unfolding set_user_disabled statement ◌>>=◌
set_user_disabled_ok id disabled w calm there = ground arith

find_session-some :
    (hash : Text) (users : List UserRow) (tokens : List TokenRow) (u : UserRow) (t : TokenRow)
    → find (is_active hash) tokens ≡ some t
    → find (has_id t.user_id) users ≡ some u
    → find_session hash users tokens ≡ some (u, t)
unfolding find_session
find_session-some hash users tokens u t found owner = ground arith

module _ (hash_token : Text → Text) (token : Text) (u : UserRow) (t : TokenRow) (w : World)
    (calm : w.faults ≡ []) (full : is_empty (trim token) ≡ false)
    (session : find_session (hash_token (trim token)) w.users w.tokens ≡ some (u, t)) where
  -- Where no statement fails: revoking the row of a token that has a session, where no other row
  -- has its hash, succeeds, and the token is refused by 401 after that.
  pub revoke-authenticate :
      length (keep (λ x. text_eq x.token_hash (hash_token (trim token))) w.tokens) ≤ 1
      → ((revoke_token t.id w).0 ≡ ok tt)
        × ((authenticate_token hash_token token (revoke_token t.id w).1).0
            ≡ err (unauthorized (plain "invalid bearer token")))
  revoke-authenticate unique = (
    ap (λ x. x.0) eq,
    rw eq (
        authenticate_calm hash_token token revoked calm full
        ∙ rw gone (unfold check_session in refl)),
  )
    where
      found : find (is_active (hash_token (trim token))) w.tokens ≡ some t
      found = (find_session_parts (hash_token (trim token)) w.users w.tokens u t session).0

      revoked : World
      revoked = record w { tokens = update_where (is_revocable t.id) (revoke w.clock) w.tokens }

      eq : revoke_token t.id w ≡ (ok tt, revoked)
      eq = revoke_token_ok t.id w calm (any_revocable (hash_token (trim token)) w.tokens t found)

      gone : find_session (hash_token (trim token)) w.users revoked.tokens ≡ none
      gone =
          find_session-none (hash_token (trim token)) w.users revoked.tokens
            (none_active t.id w.clock (hash_token (trim token)) w.tokens t found refl unique)

  -- Where no statement fails: what a token that has a row and an owner is answered once
  -- set_user_disabled has been called for its owner. It is 403 if the account was disabled, and the
  -- user if it was enabled.
  pub disable-authenticate :
      (disabled : Bool)
      → ((set_user_disabled t.user_id disabled w).0 ≡ ok tt)
        × ((authenticate_token hash_token token (set_user_disabled t.user_id disabled w).1).0 ≡ (
            if disabled
            then err (forbidden (plain "user account is disabled"))
            else ok (to_user u)))
  disable-authenticate disabled = (
    ap (λ x. x.0) eq,
    rw eq (
        authenticate_calm hash_token token changed calm full
        ∙ rw still (unfold check_session in ground arith)),
  )
    where
      parts :
          (find (is_active (hash_token (trim token))) w.tokens ≡ some t)
          × (find (has_id t.user_id) w.users ≡ some u)
      parts = find_session_parts (hash_token (trim token)) w.users w.tokens u t session

      mark : UserRow → UserRow
      mark x = record x { disabled_at = if disabled then some w.clock else none }

      changed : World
      changed = record w { users = update_where (has_id t.user_id) mark w.users }

      eq : set_user_disabled t.user_id disabled w ≡ (ok tt, changed)
      eq =
          set_user_disabled_ok t.user_id disabled w calm
            (any_of_find (has_id t.user_id) w.users u parts.1)

      still : find_session (hash_token (trim token)) changed.users w.tokens ≡ some (mark u, t)
      still =
          find_session-some (hash_token (trim token)) changed.users w.tokens (mark u) t parts.0
            (find-update_where (has_id t.user_id) mark w.users u (λ r. refl) parts.1)
