-- ===== src/Sync/Reads.antt =====
-- Reading a snapshot, and reading what was written.
use any_player_sync_server.Prelude.{ℕ, ◌≡◌, ◌≢◌, refl, some, [], ℤ, arith, add_one_i64, ◌∙◌, ap}
use any_player_sync_server.Json.{Value}
use any_player_sync_server.Errors.{ok, ApiError}
use any_player_sync_server.Models.{Snapshot, Namespace, snapshot, NamespacePayload, namespace_data}
use any_player_sync_server.World.{World, statement, pure}
use any_player_sync_server.World.Steps.{bind_ok}
use any_player_sync_server.World.Rows.{DocumentRow}
use any_player_sync_server.Sync.{to_snapshot, select_document, update_namespace, load_snapshot}
use any_player_sync_server.Sync.Ensure.{
  HasUser, ensured, ensure-eq, ensure-stored, ensure-faults, Accepts, Updates, ensured-Updates,
  Updates-HasUser, Updates-current_self,
}
use any_player_sync_server.Sync.Documents.{stored, current_row}
use any_player_sync_server.Sync.Update.{updated, written, update_namespace_ok}

select_document_ok :
    (e : ApiError) (u : ℕ) (w : World) (row : DocumentRow)
    → w.faults ≡ []
    → stored w u ≡ some row
    → select_document e u w ≡ (ok row, w)
unfolding select_document statement
select_document_ok e u w row calm held = ground arith

module _ (w : World) (u : ℕ) (calm : w.faults ≡ []) (known : HasUser w u) where
  load_snapshot-eq : load_snapshot u w ≡ (ok (to_snapshot (current_row w u)), ensured w u)
  unfolding load_snapshot pure
  load_snapshot-eq =
      bind_ok _ _ w (ensured w u) tt (ensure-eq w u calm known)
      ∙ bind_ok _ _ (ensured w u) (ensured w u) (current_row w u) (
          select_document_ok _ u (ensured w u) (current_row w u) (ensure-faults w u calm known)
            (ensure-stored w u calm known))

  -- Where no statement fails, a read for a listed user answers the user's current row and changes
  -- no row, but that a blank row is there from now on if the user had none.
  pub load_snapshot_ok :
      ((load_snapshot u w).0 ≡ ok (to_snapshot (current_row w u)))
      × Updates w (load_snapshot u w).1 u (current_row w u)
  load_snapshot_ok =
      (ap (λ x. x.0) load_snapshot-eq, rw load_snapshot-eq (ensured-Updates w u calm known))

namespace_data-written_self :
    (time : ℕ) (version : ℤ) (ns : Namespace) (v : Value) (r : DocumentRow)
    → ns ≢ snapshot
    → namespace_data (to_snapshot (written time version ns v r)) ns ≡ v
unfolding namespace_data
namespace_data-written_self time version snapshot v r ne = absurd (ne refl)
namespace_data-written_self time version _ v r ne = refl

namespace_data-written_ne :
    (time : ℕ) (version : ℤ) (ns m : Namespace) (v : Value) (r : DocumentRow)
    → m ≢ ns
    → m ≢ snapshot
    → namespace_data (to_snapshot (written time version ns v r)) m
      ≡ namespace_data (to_snapshot r) m
unfolding namespace_data
namespace_data-written_ne time version ns m v r ne nsnap = ground arith

-- Where no statement fails: after an update of one of a listed user's four namespaces that names
-- no stale version, a read finds the value that was sent at a version that is one more, and in the
-- other three namespaces what a read would have found before.
pub load-update_namespace :
    (w : World) (u : ℕ) (ns : Namespace) (p : NamespacePayload)
    → w.faults ≡ []
    → HasUser w u
    → ns ≢ snapshot
    → Accepts p.expected_version (current_row w u).version
    → (s : Snapshot) × ((load_snapshot u (update_namespace u ns p w).1).0 ≡ ok s)
      × (namespace_data s ns ≡ p.value)
      × (s.version ≡ add_one_i64 (current_row w u).version)
      × ((m : Namespace)
          → m ≢ ns
          → m ≢ snapshot
          → namespace_data s m ≡ namespace_data (to_snapshot (current_row w u)) m)
load-update_namespace w u ns p calm known ne fits =
    let (answer, up) = update_namespace_ok w u ns p calm known ne fits in
    let after = (update_namespace u ns p w).1 in
    let (read, _) = load_snapshot_ok after u up.calm (Updates-HasUser up u known) in
    (
      to_snapshot (updated w u ns p),
      read ∙ ap (λ (r : DocumentRow). ok (to_snapshot r)) (Updates-current_self up),
      namespace_data-written_self w.clock _ ns p.value (current_row w u) ne,
      refl,
      λ m other whole.
          namespace_data-written_ne w.clock _ ns m p.value (current_row w u) other whole,
    )
