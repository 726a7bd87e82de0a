-- ===== src/Handlers/Examples.antt =====
-- Runs of the handlers, and their theorems at concrete requests.
use any_player_sync_server.Prelude.{
  ◌++◌, ◌≡◌, ◌⊎◌, refl, true, false, none, some, [], ◌∷◌, pos, Text, codes,
}
use any_player_sync_server.Json.{bool}
use any_player_sync_server.Errors.{ok}
use any_player_sync_server.Strings.{split_once, eq_ignore_ascii_case}
use any_player_sync_server.Models.{NamespacePayload, SnapshotPayload, AuthenticatedUser}
use any_player_sync_server.World.{World, empty}
use any_player_sync_server.World.Runs.{Outcome}
use any_player_sync_server.Sync
use any_player_sync_server.Accounts
use any_player_sync_server.Sync.{state_updated}
use any_player_sync_server.Sync.Others.{OthersKept}
use any_player_sync_server.Handlers.{
  Headers, bearer_of, bearer_part, bearer_token_from_headers, authenticate_with_headers,
  get_snapshot, put_namespace, reply_since, not_modified,
}
use any_player_sync_server.Handlers.Sent.{HasSent}
use any_player_sync_server.Handlers.Events.{Sends, put_namespace_announces}
use any_player_sync_server.Handlers.Gate.{
  handle, IsAdmin, IsRefused, revoke_token_request, administration_gated,
}
use any_player_sync_server.Handlers.Isolation.{serve, put_namespace_request, serve-OthersKept}

abbrev hashed : Text → Text
hashed s = codes "#" ++ s

abbrev bob : AuthenticatedUser
bob = record { id = 7; name = codes "bob"; is_admin = false }

abbrev before : World
before = record empty {
  users =
      record { id = 7; name = codes "bob"; is_admin = false; created_at = 0; disabled_at = none }
      ∷ [];
  tokens =
      record {
        id = 3;
        user_id = 7;
        token_hash = codes "#key";
        token_prefix = codes "key";
        label = codes "manual";
        created_at = 0;
        last_used_at = none;
        revoked_at = none;
      }
      ∷ [];
  next_token = 4;
  clock = 9;
}

abbrev headers : Headers
headers = record { authorization = some (some (codes "bearer  key ")) }

abbrev payload : NamespacePayload
payload = record { expected_version = some (pos 0); client_id = none; value = bool true }

abbrev whole : SnapshotPayload
whole = record {
  expected_version = none;
  client_id = none;
  app_state = bool true;
  playlists = bool true;
  provider_configuration = bool true;
  settings = bool true;
}

authenticates : (authenticate_with_headers hashed headers before).0 ≡ ok bob
unfolding Accounts.program authenticate_with_headers bearer_token_from_headers bearer_of bearer_part
    split_once eq_ignore_ascii_case
authenticates = refl

-- What is seen of a client that has the current version.
seen : (get_snapshot hashed headers (some (pos 0)) before).0 ≡ ok not_modified
unfolding Accounts.program Sync.program authenticate_with_headers bearer_token_from_headers
    bearer_of bearer_part split_once eq_ignore_ascii_case get_snapshot reply_since
seen = refl

put_namespace_announces_example :
    Outcome
      (HasSent [])
      (λ r. Sends hashed before headers (state_updated r.namespace r.version r.updated_at none))
      (put_namespace hashed headers (codes "settings") payload before)
put_namespace_announces_example =
    put_namespace_announces hashed before headers (codes "settings") payload

administration_gated_example :
    IsAdmin hashed headers before
    ⊎ IsRefused hashed headers before (handle hashed headers (revoke_token_request 3) before)
administration_gated_example = administration_gated hashed headers (revoke_token_request 3) before

serve-OthersKept_example :
    OthersKept before 7
      (serve hashed headers (put_namespace_request (codes "settings") payload) before)
serve-OthersKept_example =
    serve-OthersKept hashed headers before bob authenticates
      (put_namespace_request (codes "settings") payload)
