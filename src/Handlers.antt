-- ===== src/Handlers.antt =====
-- src/handlers.rs: authentication of requests, and the handlers of the synchronisation and
-- administration routes. `hash_token` is a parameter as in Accounts.
pub mod Touched
pub mod Authenticated
pub mod Gate
pub mod Sent
pub mod Events
pub mod Isolation
mod Examples
use any_player_sync_server.Prelude.{
  ℕ, Bool, true, false, Option, none, some, List, [], ◌∷◌, ◌++◌, ℤ, Text, codes, ltb, leb_ℤ,
  if◌then◌else◌, is_none,
}
use any_player_sync_server.Errors.{
  Result, ok, err, panicked, bad_request, unauthorized, forbidden, plain,
}
use any_player_sync_server.Strings.{trim, is_empty, split_once, eq_ignore_ascii_case, len}
use any_player_sync_server.Models.{
  Snapshot, Namespace, snapshot, UpdateResponse, NamespacePayload, SnapshotPayload, UpdateEvent,
  AuthenticatedUser, UserCreatedResponse, TokenCreatedResponse, UserSummary, parse, namespace_data,
}
use any_player_sync_server.World.{World, Action, pure, raise, lift, ◌>>=◌, ◌>>◌}
use any_player_sync_server.Sync.{load_snapshot, update_namespace, replace_snapshot}
use any_player_sync_server.Accounts.Listing.{list_users}
use any_player_sync_server.Accounts.{
  authenticate_token, create_user, set_user_disabled, create_token, revoke_token,
}

-- What `headers.get(AUTHORIZATION)` and `to_str` give: no header, or its value if that is visible
-- ASCII.
pub record Headers : Type 0 where
  pub authorization : Option (Option Text)

abbrev non_empty : Text → Option Text
non_empty token = if is_empty token then none else some token

-- The part behind the scheme, if the scheme is Bearer in any case.
unfoldable pub bearer_part : Option (Text × Text) → Option Text
bearer_part none = none
bearer_part (some (scheme, token)) =
    if eq_ignore_ascii_case scheme (codes "Bearer") then non_empty (trim token) else none

unfoldable pub bearer_of : Option (Option Text) → Option Text
bearer_of none = none
bearer_of (some none) = none
bearer_of (some (some value)) = bearer_part (split_once b' ' (trim value))

unfoldable pub bearer_token_from_headers : Headers → Option Text
bearer_token_from_headers headers = bearer_of headers.authorization

unfoldable pub require_admin : AuthenticatedUser → Result (Unit {0})
require_admin user =
    if user.is_admin then ok tt else err (forbidden (plain "admin privileges are required"))

-- state.send_user_event, as an entry of the log
unfoldable pub send_user_event : ℕ → UpdateEvent → Action (Unit {0})
send_user_event user_id event w = (ok tt, record w { sent = w.sent ++ (user_id, event) ∷ [] })

-- The answer to GET /v1/snapshot: 304 or the snapshot.
pub data SnapshotReply : Type 0 where
  not_modified : SnapshotReply
  current : Snapshot → SnapshotReply

unfoldable pub reply_since : Option ℤ → Snapshot → SnapshotReply
reply_since none s = current s
reply_since (some since_version) s =
    if leb_ℤ s.version since_version then not_modified else current s

-- matches!(namespace, Namespace::Snapshot)
unfoldable pub refuse_snapshot : Namespace → Result (Unit {0})
refuse_snapshot snapshot = err (bad_request (plain "snapshot is only available via /v1/snapshot"))
refuse_snapshot _ = ok tt

abbrev pub response : Snapshot → Namespace → UpdateResponse
response s namespace = record {
  version = s.version;
  updated_at = s.updated_at;
  namespace = namespace;
  value = namespace_data s namespace;
}

module _ (hash_token : Text → Text) where
  abbrev or_missing : Option Text → Action AuthenticatedUser
  or_missing none = raise (unauthorized (plain "missing Authorization: Bearer token"))
  or_missing (some token) = authenticate_token hash_token token

  unfoldable pub authenticate_with_headers : Headers → Action AuthenticatedUser
  authenticate_with_headers headers = or_missing (bearer_token_from_headers headers)

  abbrev or_query : Option Text → Option Text → Action AuthenticatedUser
  or_query (some token) query_token = authenticate_token hash_token token
  or_query none (some token) = authenticate_token hash_token token
  or_query none none =
      raise (
        unauthorized (plain "missing bearer token (Authorization header or token query parameter)"))

  unfoldable pub authenticate_with_headers_or_query_token :
      Headers → Option Text → Action AuthenticatedUser
  authenticate_with_headers_or_query_token headers query_token =
      or_query (bearer_token_from_headers headers) query_token

  unfoldable pub get_snapshot : Headers → Option ℤ → Action SnapshotReply
  get_snapshot headers since_version = do
    user ← authenticate_with_headers headers
    loaded ← load_snapshot user.id
    pure (reply_since since_version loaded)

  unfoldable pub put_snapshot : Headers → SnapshotPayload → Action Snapshot
  put_snapshot headers payload = do
    user ← authenticate_with_headers headers
    result ← replace_snapshot user.id payload
    send_user_event user.id result.1
    pure result.0

  unfoldable pub get_namespace : Headers → Text → Action UpdateResponse
  get_namespace headers name = do
    user ← authenticate_with_headers headers
    namespace ← lift (parse name)
    lift (refuse_snapshot namespace)
    loaded ← load_snapshot user.id
    pure (response loaded namespace)

  unfoldable pub put_namespace : Headers → Text → NamespacePayload → Action UpdateResponse
  put_namespace headers name payload = do
    user ← authenticate_with_headers headers
    namespace ← lift (parse name)
    lift (refuse_snapshot namespace)
    result ← update_namespace user.id namespace payload
    send_user_event user.id result.1
    pure (response result.0 namespace)

  -- The tests of admin_create_user on the name.
  unfoldable pub check_name : Text → Result (Unit {0})
  check_name name =
      if is_empty name
      then err (bad_request (plain "username must not be empty"))
      else if ltb 255 (len name)
      then err (bad_request (plain "username must not exceed 255 characters"))
      else ok tt

  -- `name_before` is the collation, as in Accounts.Listing.
  unfoldable pub admin_list_users : (Text → Text → Bool) → Headers → Action (List UserSummary)
  admin_list_users name_before headers = do
    user ← authenticate_with_headers headers
    lift (require_admin user)
    list_users name_before

  unfoldable pub admin_create_user : Headers → Text → Bool → Action UserCreatedResponse
  admin_create_user headers given_name is_admin = do
    user ← authenticate_with_headers headers
    lift (require_admin user)
    let name = trim given_name
    lift (check_name name)
    create_user name is_admin

  unfoldable pub check_label : Option Text → Result (Unit {0})
  check_label none = ok tt
  check_label (some label) =
      if ltb 512 (len label)
      then err (bad_request (plain "token label must not exceed 512 characters"))
      else ok tt

  -- `random` is what generate_token draws.
  unfoldable pub admin_create_token : Headers → Text → ℕ → Option Text → Action TokenCreatedResponse
  admin_create_token headers random user_id label = do
    user ← authenticate_with_headers headers
    lift (require_admin user)
    lift (check_label label)
    made ← create_token hash_token random user_id label
    pure (record {
      id = made.0;
      user_id = user_id;
      label = made.1;
      token_prefix = made.2;
      token = made.3;
      created_at = made.4;
    })

  unfoldable pub admin_revoke_token : Headers → ℕ → Action (Unit {0})
  admin_revoke_token headers token_id = do
    user ← authenticate_with_headers headers
    lift (require_admin user)
    revoke_token token_id

  unfoldable pub admin_set_user_disabled : Headers → ℕ → Bool → Action (Unit {0})
  admin_set_user_disabled headers user_id disabled = do
    user ← authenticate_with_headers headers
    lift (require_admin user)
    set_user_disabled user_id disabled
