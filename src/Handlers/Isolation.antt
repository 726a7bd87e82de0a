-- ===== src/Handlers/Isolation.antt =====
-- A synchronisation request reaches the data of the user who has authenticated and no other's.
use any_player_sync_server.Prelude.{ℕ, ◌≡◌, refl, Option, ℤ, Text}
use any_player_sync_server.Errors.{ok}
use any_player_sync_server.Models.{
  NamespacePayload, SnapshotPayload, UpdateEvent, AuthenticatedUser,
}
use any_player_sync_server.World.{World, Action, ◌>>=◌}
use any_player_sync_server.World.Keeps.{Keeps, keeps_rules}
use any_player_sync_server.Sync.Others.{
  OthersKept, load_snapshot-OthersKept, update_namespace-OthersKept, replace_snapshot-OthersKept,
}
use any_player_sync_server.Handlers.{
  Headers, authenticate_with_headers, get_snapshot, put_snapshot, get_namespace, put_namespace,
  send_user_event,
}
use any_player_sync_server.Handlers.Touched.{OnlyTouched, authenticate-OnlyTouched}

-- The requests on the document.
pub data SyncRequest : Type 0 where
  get_snapshot_request : Option ℤ → SyncRequest
  put_snapshot_request : SnapshotPayload → SyncRequest
  get_namespace_request : Text → SyncRequest
  put_namespace_request : Text → NamespacePayload → SyncRequest

module _ (start : World) (u : ℕ) where
  send_user_event-OthersKept :
      (v : ℕ) (e : UpdateEvent) → Keeps (OthersKept start u) (send_user_event v e)
  unfolding send_user_event
  send_user_event-OthersKept v e = record { at = λ w h. record { clock = h.clock; rows = h.rows } }

  -- Authentication leaves the documents alone.
  touched-OthersKept : (w : World) → OnlyTouched start w → OthersKept start u w
  touched-OthersKept w h = record { clock = h.clock; rows = λ v ne. rw (h.documents, h.clock) refl }

  ruleset isolation_rules = (
    keeps_rules, load_snapshot-OthersKept, update_namespace-OthersKept, replace_snapshot-OthersKept,
    send_user_event-OthersKept,
  )

module _ (hash_token : Text → Text) (headers : Headers) where
  -- The state after the request.
  unfoldable pub serve : SyncRequest → World → World
  serve (get_snapshot_request since_version) w = (get_snapshot hash_token headers since_version w).1
  serve (put_snapshot_request payload) w = (put_snapshot hash_token headers payload w).1
  serve (get_namespace_request name) w = (get_namespace hash_token headers name w).1
  serve (put_namespace_request name payload) w = (put_namespace hash_token headers name payload w).1

  module _ (w : World) (user : AuthenticatedUser)
      (is_user : (authenticate_with_headers hash_token headers w).0 ≡ ok user) where
    after_authentication :
        {A : Type 0} (rest : AuthenticatedUser → Action A)
        → Keeps (OthersKept w user.id) (rest user)
        → OthersKept w user.id ((authenticate_with_headers hash_token headers >>= rest) w).1
    unfolding ◌>>=◌
    after_authentication rest keeps =
        let (r, after) = authenticate_with_headers hash_token headers w in
        rw is_user (
          keeps.at after
            (touched-OthersKept w user.id after (authenticate-OnlyTouched hash_token headers w)))

    -- Whatever statement fails, and whatever is answered: a request on the document that is
    -- authenticated as one user leaves what every other user's document holds as it was.
    pub serve-OthersKept : (r : SyncRequest) → OthersKept w user.id (serve r w)
    unfolding serve get_snapshot put_snapshot get_namespace put_namespace
    serve-OthersKept (get_snapshot_request since_version) =
        after_authentication _ (search isolation_rules)
    serve-OthersKept (put_snapshot_request payload) =
        after_authentication _ (search isolation_rules)
    serve-OthersKept (get_namespace_request name) = after_authentication _ (search isolation_rules)
    serve-OthersKept (put_namespace_request name payload) =
        after_authentication _ (search isolation_rules depth 12)
