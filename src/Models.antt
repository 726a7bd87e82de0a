-- ===== src/Models.antt =====
-- src/models.rs: the synchronised snapshot, its namespaces, the requests and the events.
use any_player_sync_server.Prelude.{
  ℕ, String, Bool, Option, List, [], ◌∷◌, ℤ, Text, codes, text_eq, if◌then◌else◌,
}
use any_player_sync_server.Json.{Value, obj, end, field}
use any_player_sync_server.Errors.{Result, ok, err, bad_request, lit, txt}

pub record Snapshot : Type 0 where
  pub version : ℤ
  pub updated_at : ℕ
  pub app_state : Value
  pub playlists : Value
  pub provider_configuration : Value
  pub settings : Value

pub data Namespace : Type 0 where
  app_state playlists provider_configuration settings snapshot : Namespace

pub record UpdateResponse : Type 0 where
  pub version : ℤ
  pub updated_at : ℕ
  pub namespace : Namespace
  pub value : Value

-- The field `value` is the source's `data`.
pub record NamespacePayload : Type 0 where
  pub expected_version : Option ℤ
  pub client_id : Option Text
  pub value : Value

pub record SnapshotPayload : Type 0 where
  pub expected_version : Option ℤ
  pub client_id : Option Text
  pub app_state : Value
  pub playlists : Value
  pub provider_configuration : Value
  pub settings : Value

pub record UpdateEvent : Type 0 where
  pub event_type : String
  pub namespace : Namespace
  pub version : ℤ
  pub updated_at : ℕ
  pub source_client_id : Option Text

pub record AuthenticatedUser : Type 0 where
  pub id : ℕ
  pub name : Text
  pub is_admin : Bool

pub record TokenInfo : Type 0 where
  pub id : ℕ
  pub label : Text
  pub token_prefix : Text
  pub created_at : ℕ
  pub last_used_at : Option ℕ
  pub revoked_at : Option ℕ

pub record UserSummary : Type 0 where
  pub id : ℕ
  pub name : Text
  pub is_admin : Bool
  pub created_at : ℕ
  pub disabled_at : Option ℕ
  pub tokens : List TokenInfo

pub record UserCreatedResponse : Type 0 where
  pub id : ℕ
  pub name : Text
  pub is_admin : Bool
  pub created_at : ℕ

pub record TokenCreatedResponse : Type 0 where
  pub id : ℕ
  pub user_id : ℕ
  pub label : Text
  pub token_prefix : Text
  pub token : Text
  pub created_at : ℕ

-- Namespace::parse. The namespace `snapshot` has no name here.
unfoldable pub parse : Text → Result Namespace
parse value =
    if text_eq value (codes "app-state")
    then ok app_state
    else if text_eq value (codes "playlists")
    then ok playlists
    else if text_eq value (codes "provider-configuration")
    then ok provider_configuration
    else if text_eq value (codes "settings")
    then ok settings
    else err (
        bad_request (
          lit "unsupported namespace '"
          ∷ txt value
          ∷ lit "'. Supported: app-state, playlists, provider-configuration, settings"
          ∷ []))

unfoldable pub namespace_data : Snapshot → Namespace → Value
namespace_data s app_state = s.app_state
namespace_data s playlists = s.playlists
namespace_data s provider_configuration = s.provider_configuration
namespace_data s settings = s.settings
namespace_data s snapshot = obj (
    field (codes "app_state") s.app_state (
      field (codes "playlists") s.playlists (
        field (codes "provider_configuration") s.provider_configuration
          (field (codes "settings") s.settings end))))
