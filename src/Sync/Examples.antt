-- ===== src/Sync/Examples.antt =====
-- Runs of the snapshot operations, and their theorems at concrete requests.
use any_player_sync_server.Prelude.{
  add_one_i64, ◌≡◌, ◌≢◌, refl, true, false, none, some, [], ◌∷◌, pos, codes, arith,
}
use any_player_sync_server.Json.{str, bool}
use any_player_sync_server.Errors.{ok, err, conflict, is_ok}
use any_player_sync_server.Models.{
  Snapshot, namespace_data, Namespace, app_state, settings, snapshot, NamespacePayload,
  SnapshotPayload,
}
use any_player_sync_server.World.{World, empty}
use any_player_sync_server.Sync.{
  to_snapshot, state_updated, update_namespace, replace_snapshot, load_snapshot, program,
  blank_document,
}
use any_player_sync_server.Sync.Documents.{stored}
use any_player_sync_server.Sync.Ensure.{stale, Updates}
use any_player_sync_server.Sync.Update
use any_player_sync_server.Sync.Replace
use any_player_sync_server.Sync.Reads
use any_player_sync_server.Sync.Rollback
use any_player_sync_server.Sync.Keys
use any_player_sync_server.Sync.Race

abbrev one_user : World
one_user = record empty {
  users =
      record { id = 7; name = codes "ann"; is_admin = true; created_at = 0; disabled_at = none }
      ∷ [];
  clock = 5;
}

abbrev failing : World
failing = record one_user { faults = false ∷ false ∷ true ∷ [] }

abbrev payload : NamespacePayload
payload = record { expected_version = some (pos 0); client_id = none; value = bool true }

abbrev other : NamespacePayload
other = record { expected_version = some (pos 0); client_id = none; value = str (codes "x") }

abbrev whole : SnapshotPayload
whole = record {
  expected_version = none;
  client_id = none;
  app_state = bool true;
  playlists = bool true;
  provider_configuration = bool true;
  settings = bool true;
}

ran :
    (update_namespace 7 settings payload one_user).0
    ≡ ok (
      to_snapshot
          (record (blank_document 7 5) { version = pos 1; updated_at = 5; settings = bool true }),
      state_updated settings (pos 1) 5 none,
    )
unfolding program
ran = refl

settings-ne : settings ≢ snapshot
settings-ne e = cc

update_namespace_ok_example :
    ((update_namespace 7 settings payload one_user).0
      ≡ ok (
        to_snapshot (Update.updated one_user 7 settings payload),
        state_updated settings (Update.updated one_user 7 settings payload).version 5 none,
      ))
    × Updates one_user
        (update_namespace 7 settings payload one_user).1
        7
        (Update.updated one_user 7 settings payload)
update_namespace_ok_example =
    Update.update_namespace_ok one_user 7 settings payload refl refl settings-ne refl

abbrev late : NamespacePayload
late = record { expected_version = some (pos 3); client_id = none; value = bool true }

abbrev late_whole : SnapshotPayload
late_whole = record whole { expected_version = some (pos 3) }

three-ne : pos 3 ≢ pos 0
three-ne = ground arith

update_namespace_refuses_example :
    ((update_namespace 7 settings late one_user).0 ≡ err (conflict (stale (pos 3) (pos 0))))
    × Updates one_user (update_namespace 7 settings late one_user).1 7 (blank_document 7 5)
update_namespace_refuses_example =
    Update.update_namespace_refuses one_user 7 settings late refl refl (pos 3) refl three-ne

replace_snapshot_ok_example :
    ((replace_snapshot 7 whole one_user).0
      ≡ ok (
        to_snapshot (Replace.replaced one_user 7 whole),
        state_updated snapshot (Replace.replaced one_user 7 whole).version 5 none,
      ))
    × Updates one_user (replace_snapshot 7 whole one_user).1 7 (Replace.replaced one_user 7 whole)
replace_snapshot_ok_example = Replace.replace_snapshot_ok one_user 7 whole refl refl tt

load-update_namespace_example :
    (s : Snapshot) × ((load_snapshot 7 (update_namespace 7 settings payload one_user).1).0 ≡ ok s)
    × (namespace_data s settings ≡ bool true)
    × (s.version ≡ add_one_i64 (pos 0))
    × ((m : Namespace)
        → m ≢ settings
        → m ≢ snapshot
        → namespace_data s m ≡ namespace_data (to_snapshot (blank_document 7 5)) m)
load-update_namespace_example =
    Reads.load-update_namespace one_user 7 settings payload refl refl settings-ne refl

failing_fails : is_ok (update_namespace 7 settings payload failing).0 ≡ false
unfolding program
failing_fails = refl

update_namespace_atomic_example :
    Rollback.SameRows failing (update_namespace 7 settings payload failing).1
update_namespace_atomic_example =
    Rollback.update_namespace_atomic failing 7 settings payload failing_fails

replacing_fails : is_ok (replace_snapshot 7 whole failing).0 ≡ false
unfolding program
replacing_fails = refl

replace_snapshot_atomic_example : Rollback.SameRows failing (replace_snapshot 7 whole failing).1
replace_snapshot_atomic_example = Rollback.replace_snapshot_atomic failing 7 whole replacing_fails

one_user-IsKeyed : Keys.IsKeyed one_user
one_user-IsKeyed = record { at_user = λ u. omega arith }

update_namespace-IsKeyed_example : Keys.IsKeyed (update_namespace 7 settings payload one_user).1
update_namespace-IsKeyed_example =
    Keys.update_namespace-IsKeyed one_user 7 settings payload one_user-IsKeyed

abbrev with_row : World
with_row = record one_user { documents = blank_document 7 3 ∷ [] }

interleaved_loses_update_example :
    ((Race.interleaved 7 settings payload settings other with_row).0
      ≡ ok (
        (
          to_snapshot (record (blank_document 7 3) {
            version = add_one_i64 (pos 0);
            updated_at = 5;
            settings = bool true;
          }),
          state_updated settings (add_one_i64 (pos 0)) 5 none,
        ),
        (
          to_snapshot (record (blank_document 7 3) {
            version = add_one_i64 (pos 0);
            updated_at = 5;
            settings = str (codes "x");
          }),
          state_updated settings (add_one_i64 (pos 0)) 5 none,
        ),
      ))
    × (stored (Race.interleaved 7 settings payload settings other with_row).1 7
        ≡ some (record (blank_document 7 3) {
          version = add_one_i64 (pos 0);
          updated_at = 5;
          settings = str (codes "x");
        }))
interleaved_loses_update_example =
    Race.interleaved_loses_update with_row 7 settings payload other (blank_document 7 3) refl refl
      settings-ne refl refl

sequential_refuses_example :
    let first = update_namespace 7 settings payload one_user in
    let second = update_namespace 7 app_state other first.1 in
    (first.0
      ≡ ok (
        to_snapshot (Update.updated one_user 7 settings payload),
        state_updated settings (Update.updated one_user 7 settings payload).version 5 none,
      ))
    × (second.0 ≡ err (conflict (stale (pos 0) (add_one_i64 (pos 0)))))
    × (stored second.1 7 ≡ some (Update.updated one_user 7 settings payload))
sequential_refuses_example =
    Race.sequential_refuses one_user 7 settings app_state payload other refl refl settings-ne refl
      refl
