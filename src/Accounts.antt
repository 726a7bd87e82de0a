-- ===== src/Accounts.antt =====
-- src/db.rs: users and bearer tokens. `hash_token` is SHA-256 in hexadecimal, by the crate sha2: a
-- parameter. The 40 random characters of a new token are an argument.
pub mod Lookup
pub mod Authenticate
pub mod Tokens
pub mod Revoke
pub mod Unique
pub mod Calls
pub mod Listing
mod Examples
use any_player_sync_server.Prelude.{
  ℕ, ◌+◌, Bool, true, false, Option, none, some, List, [], ◌∷◌, ◌++◌, Text, codes, text_eq, ◌==◌,
  ◌&&◌, if◌then◌else◌, any, find, update_where, take, is_none, is_some,
}
use any_player_sync_server.Errors.{
  Result, ok, err, ApiError, internal, conflict, not_found, bad_request, unauthorized, forbidden,
  plain,
}
use any_player_sync_server.Strings.{trim, is_whitespace, is_empty}
use any_player_sync_server.Models.{AuthenticatedUser, UserCreatedResponse}
use any_player_sync_server.World.{
  World, Action, pure, raise, lift, statement, transaction, ◌>>=◌, ◌>>◌,
}
use any_player_sync_server.World.Rows.{UserRow, TokenRow}

-- chars().take(8)
abbrev pub token_prefix : Text → Text
token_prefix token = take 8 token

-- The token whose 40 random characters are given.
abbrev pub generate_token : Text → Text
generate_token random = codes "ap_" ++ random

-- tokio::spawn of a statement whose outcome is dropped. It is run at once.
unfoldable pub spawn : Action (Unit {0}) → Action (Unit {0})
spawn m w = (ok tt, (m w).1)

-- t.token_hash = $1 AND t.revoked_at IS NULL
abbrev pub is_active : Text → TokenRow → Bool
is_active hash t = text_eq t.token_hash hash && is_none t.revoked_at

abbrev pub has_id : ℕ → UserRow → Bool
has_id id u = u.id == id

-- FROM auth_tokens t JOIN users u ON u.id = t.user_id
unfoldable pub find_session : Text → List UserRow → List TokenRow → Option (UserRow × TokenRow)
find_session hash users tokens = elim (find (is_active hash) tokens) [
  | none ↦ none
  | some t ↦ elim (find (has_id t.user_id) users) [ none ↦ none | some u ↦ some (u, t) ]
]

unfoldable pub touch_token : ℕ → Action (Unit {0})
touch_token token_id w = (
  ok tt,
  record w {
    tokens =
        update_where (λ t. t.id == token_id) (λ t. record t { last_used_at = some w.clock })
          w.tokens;
  },
)

unfoldable pub check_session : Option (UserRow × TokenRow) → Result (UserRow × TokenRow)
check_session none = err (unauthorized (plain "invalid bearer token"))
check_session (some (u, t)) = elim u.disabled_at [
  | none ↦ ok (u, t)
  | some at ↦ err (forbidden (plain "user account is disabled"))
]

unfoldable pub authenticate_token : (Text → Text) → Text → Action AuthenticatedUser
authenticate_token hash_token token =
    let trimmed = trim token in
    let found = (do
      row ←
          statement (internal (plain "failed to validate token"))
            (λ w. (ok (find_session (hash_token trimmed) w.users w.tokens), w))
      session ← lift (check_session row)
      spawn (statement (internal []) (touch_token session.1.id))
      pure (record { id = session.0.id; name = session.0.name; is_admin = session.0.is_admin })) in
    if is_empty trimmed then raise (unauthorized (plain "missing bearer token")) else found

-- The unique index on the name is SQLSTATE 23505.
unfoldable pub insert_user : Text → Bool → Action UserCreatedResponse
insert_user name is_admin w =
    if any (λ u. text_eq u.name name) w.users
    then (err (conflict (plain "a user with that name already exists")), w)
    else (
      ok (record { id = w.next_user; name = name; is_admin = is_admin; created_at = w.clock }),
      record w {
        users =
            w.users
            ++ record {
              id = w.next_user;
              name = name;
              is_admin = is_admin;
              created_at = w.clock;
              disabled_at = none;
            }
              ∷ [];
        next_user = w.next_user + 1;
      },
    )

unfoldable pub create_user : Text → Bool → Action UserCreatedResponse
create_user name is_admin =
    let normalized_name = trim name in
    let insert =
      statement (internal (plain "failed to create user")) (insert_user normalized_name is_admin) in
    if is_empty normalized_name then raise (bad_request (plain "name is required")) else insert

-- rows_affected() == 0
abbrev pub affected : Bool → ApiError → Result (Unit {0})
affected true e = ok tt
affected false e = err e

unfoldable pub set_user_disabled : ℕ → Bool → Action (Unit {0})
set_user_disabled user_id disabled = do
  found ← statement (internal (plain "failed to update user")) λ w. (
    ok (any (has_id user_id) w.users),
    record w {
      users =
          update_where (has_id user_id)
            (λ u. record u { disabled_at = if disabled then some w.clock else none }) w.users;
    },
  )
  lift (affected found (not_found (plain "user not found")))

-- The unique index on the hash makes a second token with it an error.
unfoldable pub insert_token : ℕ → Text → Text → Text → Action (ℕ × ℕ)
insert_token user_id hash prefix label w =
    if any (λ t. text_eq t.token_hash hash) w.tokens
    then (err (internal (plain "failed to create token")), w)
    else (
      ok (w.next_token, w.clock),
      record w {
        tokens =
            w.tokens
            ++ record {
              id = w.next_token;
              user_id = user_id;
              token_hash = hash;
              token_prefix = prefix;
              label = label;
              created_at = w.clock;
              last_used_at = none;
              revoked_at = none;
            }
              ∷ [];
        next_token = w.next_token + 1;
      },
    )

abbrev pub or_manual : Option Text → Text
or_manual none = codes "manual"
or_manual (some label) = label

-- The answer is (id, label, prefix, token, created_at).
unfoldable pub create_token :
    (Text → Text) → Text → ℕ → Option Text → Action (ℕ × Text × Text × Text × ℕ)
create_token hash_token random user_id label = do
  user_exists ←
      statement (internal (plain "failed to create token"))
        (λ w. (ok (any (has_id user_id) w.users), w))
  lift (affected user_exists (not_found (plain "user not found")))
  let token = generate_token random
  row ←
      statement (internal (plain "failed to create token"))
        (insert_token user_id (hash_token token) (token_prefix token) (or_manual label))
  pure (row.0, or_manual label, token_prefix token, token, row.1)

-- id = $1 AND revoked_at IS NULL
abbrev pub is_revocable : ℕ → TokenRow → Bool
is_revocable token_id t = t.id == token_id && is_none t.revoked_at

unfoldable pub revoke_token : ℕ → Action (Unit {0})
revoke_token token_id = do
  found ← statement (internal (plain "failed to revoke token")) λ w. (
    ok (any (is_revocable token_id) w.tokens),
    record w {
      tokens =
          update_where (is_revocable token_id) (λ t. record t { revoked_at = some w.clock })
            w.tokens;
    },
  )
  lift (affected found (not_found (plain "token not found")))

-- INSERT … ON CONFLICT (name) DO UPDATE SET is_admin = TRUE RETURNING id
unfoldable pub upsert_admin : Text → Action ℕ
upsert_admin name w = elim (find (λ u. text_eq u.name name) w.users) [
  | some u ↦ (
    ok u.id,
    record w {
      users = update_where (λ x. text_eq x.name name) (λ x. record x { is_admin = true }) w.users;
    },
  )
  | none ↦ (
    ok w.next_user,
    record w {
      users =
          w.users
          ++ record {
            id = w.next_user;
            name = name;
            is_admin = true;
            created_at = w.clock;
            disabled_at = none;
          }
            ∷ [];
      next_user = w.next_user + 1;
    },
  )
]

-- INSERT … ON CONFLICT (token_hash) DO UPDATE SET user_id, token_prefix, label, revoked_at
unfoldable pub upsert_token : ℕ → Text → Text → Action (Unit {0})
upsert_token user_id hash prefix w =
    if any (λ t. text_eq t.token_hash hash) w.tokens
    then (
      ok tt,
      record w {
        tokens =
            update_where (λ t. text_eq t.token_hash hash)
              (λ t. record t {
                user_id = user_id;
                token_prefix = prefix;
                label = codes "bootstrap";
                revoked_at = none;
              })
              w.tokens;
      },
    )
    else (
      ok tt,
      record w {
        tokens =
            w.tokens
            ++ record {
              id = w.next_token;
              user_id = user_id;
              token_hash = hash;
              token_prefix = prefix;
              label = codes "bootstrap";
              created_at = w.clock;
              last_used_at = none;
              revoked_at = none;
            }
              ∷ [];
        next_token = w.next_token + 1;
      },
    )

-- The failures of this function end the start of the server: their kind does not matter.
abbrev pub startup_error : ApiError
startup_error = internal (plain "startup")

-- BEGIN and COMMIT
abbrev boundary : Action (Unit {0})
boundary = statement startup_error (pure tt)

unfoldable pub bootstrap_tx : (Text → Text) → Text → Text → Action (Unit {0})
bootstrap_tx hash_token admin_name admin_token = do
  boundary
  user_id ← statement startup_error (upsert_admin admin_name)
  statement startup_error (upsert_token user_id (hash_token admin_token) (token_prefix admin_token))
  boundary

unfoldable pub ensure_bootstrap_admin : (Text → Text) → Text → Option Text → Action (Unit {0})
ensure_bootstrap_admin hash_token admin_name none = pure tt
ensure_bootstrap_admin hash_token admin_name (some admin_token) =
    let name = trim admin_name in
    let run = transaction (bootstrap_tx hash_token name admin_token) in
    if is_empty name then raise startup_error else run

-- What a run opens.
unfoldable pub program : Unit {0}
unfolding spawn find_session touch_token check_session authenticate_token insert_user create_user
    set_user_disabled insert_token create_token revoke_token upsert_admin upsert_token bootstrap_tx
    ensure_bootstrap_admin trim is_whitespace text_eq statement transaction ◌>>=◌
program = tt
