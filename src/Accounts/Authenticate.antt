-- ===== src/Accounts/Authenticate.antt =====
-- Whom authenticate_token lets in, and what it answers to everyone else.
use any_player_sync_server.Prelude.{
  ◌≡◌, false, none, some, List, [], Text, text_eq_iff, find, arith, Option-cases, inl, inr,
}
use any_player_sync_server.Errors.{Result, ok, err, panicked}
use any_player_sync_server.Strings.{trim, is_empty}
use any_player_sync_server.Models.{AuthenticatedUser}
use any_player_sync_server.World.{World, statement, ◌>>=◌}
use any_player_sync_server.World.Rows.{UserRow, TokenRow}
use any_player_sync_server.Accounts.{
  spawn, is_active, has_id, find_session, check_session, authenticate_token,
}
use mathlib.Core.List.{Memᴰ}
use any_player_sync_server.Accounts.Lookup.{find_sound}

-- The token names an active row of the table, and that row a user who is not disabled.
pub record IsSession (hash_token : Text → Text) (w : World) (token : Text) (a : AuthenticatedUser)
    : Type 0 where
  pub row : TokenRow
  pub user : UserRow
  pub row_listed : Memᴰ row w.tokens
  pub hash : row.token_hash ≡ hash_token (trim token)
  pub active : row.revoked_at ≡ none
  pub user_listed : Memᴰ user w.users
  pub owner : row.user_id ≡ user.id
  pub enabled : user.disabled_at ≡ none
  pub answer : a ≡ record { id = user.id; name = user.name; is_admin = user.is_admin }

module _ (hash : Text) (users : List UserRow) (tokens : List TokenRow) (u : UserRow)
    (t : TokenRow) where
  pub find_session_parts :
      find_session hash users tokens ≡ some (u, t)
      → (find (is_active hash) tokens ≡ some t) × (find (has_id t.user_id) users ≡ some u)
  unfolding find_session
  find_session_parts h = elim (Option-cases (find (is_active hash) tokens)) [
    | inl e ↦ absurd (ground arith)
    | inr (t', e) ↦ elim (Option-cases (find (has_id t'.user_id) users)) [
      | inl e' ↦ absurd (ground arith)
      | inr (u', e') ↦ (ground arith, ground arith)
    ]
  ]

abbrev pub to_user : UserRow → AuthenticatedUser
to_user u = record { id = u.id; name = u.name; is_admin = u.is_admin }

-- The answer depends on the environment only through a failure of the query.
authenticate-answer :
    (hash_token : Text → Text) (token : Text) (w : World) (a : AuthenticatedUser)
    → (authenticate_token hash_token token w).0 ≡ ok a
    → (u : UserRow) × (t : TokenRow) × (find_session (hash_token (trim token)) w.users w.tokens
        ≡ some (u, t))
      × (u.disabled_at ≡ none)
      × (a ≡ to_user u)
unfolding authenticate_token check_session spawn statement ◌>>=◌
authenticate-answer hash_token token w a h =
    elim (Option-cases (find_session (hash_token (trim token)) w.users w.tokens)) [
      | inl e ↦ absurd (ground arith)
      | inr ((u, t), e) ↦ (u, t, e, ground arith, ground arith)
    ]

-- Whatever statement fails: whom authenticate_token lets in has shown a token whose hash is that of
-- an active row of the table, and is the enabled user that the row belongs to.
pub authenticate_token_sound :
    (hash_token : Text → Text) (token : Text) (w : World) (a : AuthenticatedUser)
    → (authenticate_token hash_token token w).0 ≡ ok a
    → IsSession hash_token w token a
authenticate_token_sound hash_token token w a h =
    let (u, t, found, on, same) = authenticate-answer hash_token token w a h in
    let (found_t, found_u) =
      find_session_parts (hash_token (trim token)) w.users w.tokens u t found in
    let (t_listed, t_active) = find_sound _ w.tokens t found_t in
    let (u_listed, u_owner) = find_sound _ w.users u found_u in
    record {
      row = t;
      user = u;
      row_listed = t_listed;
      hash = ground (arith, text_eq_iff t.token_hash (hash_token (trim token)));
      active = ground arith;
      user_listed = u_listed;
      owner = ground arith;
      enabled = on;
      answer = same;
    }

abbrev pub answer_of : Result (UserRow × TokenRow) → Result AuthenticatedUser
answer_of (ok s) = ok (to_user s.0)
answer_of (err e) = err e
answer_of panicked = panicked

-- The answer where the query succeeds.
pub authenticate_calm :
    (hash_token : Text → Text) (token : Text) (w : World)
    → w.faults ≡ []
    → is_empty (trim token) ≡ false
    → (authenticate_token hash_token token w).0
      ≡ answer_of (check_session (find_session (hash_token (trim token)) w.users w.tokens))
unfolding authenticate_token spawn statement ◌>>=◌
authenticate_calm hash_token token w calm full = ground arith
