-- ===== src/Sync/Replace.antt =====
-- What replace_snapshot does where no statement fails: the outcome on every branch.
use any_player_sync_server.Prelude.{
  ℕ, ◌≡◌, ◌≢◌, refl, some, [], ℤ, eq_ℤ_iff, arith, add_one_i64, update_where, ◌∙◌, ap,
}
use any_player_sync_server.Errors.{ok, err, conflict}
use any_player_sync_server.Models.{snapshot, SnapshotPayload}
use any_player_sync_server.World.{World, statement, now, ◌>>=◌}
use any_player_sync_server.World.Steps.{bind_ok, transaction_ok, transaction_err}
use any_player_sync_server.World.Rows.{DocumentRow}
use any_player_sync_server.Sync.{
  is_document, to_snapshot, select_document, check_version, update_document, state_updated,
  read_version, write_snapshot, replace_snapshot_tx, replace_snapshot,
}
use any_player_sync_server.Sync.Ensure.{
  HasUser, ensured, ensure-eq, ensure-stored, ensure-stored_ne, ensure-faults, ensure-clock,
  Accepts, stale, check_version_ok, Updates, ensure-users, ensured-Updates,
}
use any_player_sync_server.Sync.Documents.{
  stored, current_row, find-update_where_self, find-update_where_ne, find-update_where-some,
}

abbrev pub replaced_row : ℕ → ℤ → SnapshotPayload → DocumentRow → DocumentRow
replaced_row time version p r = record r {
  app_state = p.app_state;
  playlists = p.playlists;
  provider_configuration = p.provider_configuration;
  settings = p.settings;
  version = version;
  updated_at = time;
}

-- The row after the request, as a function of the row before.
abbrev pub replaced : World → ℕ → SnapshotPayload → DocumentRow
replaced w u p = replaced_row w.clock (add_one_i64 (current_row w u).version) p (current_row w u)

module _ (w : World) (u : ℕ) (p : SnapshotPayload) (cur : DocumentRow) (calm : w.faults ≡ [])
    (held : stored w u ≡ some cur) where
  tx_ok :
      (time : ℕ)
      → w.clock ≡ time
      → Accepts p.expected_version cur.version
      → replace_snapshot_tx u p w ≡ (
        ok (
          to_snapshot (replaced_row time (add_one_i64 cur.version) p cur),
          state_updated snapshot (add_one_i64 cur.version) time p.client_id,
        ),
        record w {
          documents =
              update_where
                (is_document u)
                (replaced_row time (add_one_i64 cur.version) p)
                w.documents;
        },
      )
  unfolding replace_snapshot_tx read_version write_snapshot select_document check_version
      update_document statement ◌>>=◌ now
  tx_ok time at fits = ground (
    arith,
    check_version_ok p.expected_version cur.version,
    find-update_where_self u (replaced_row time (add_one_i64 cur.version) p) w.documents,
  )

  tx_conflict :
      (e : ℤ)
      → p.expected_version ≡ some e
      → e ≢ cur.version
      → replace_snapshot_tx u p w ≡ (err (conflict (stale e cur.version)), w)
  unfolding replace_snapshot_tx read_version write_snapshot select_document check_version
      update_document statement ◌>>=◌ now
  tx_conflict e x ne = ground (arith, eq_ℤ_iff e cur.version)

module _ (w : World) (u : ℕ) (p : SnapshotPayload) (calm : w.faults ≡ [])
    (known : HasUser w u) where
  module _ (fits : Accepts p.expected_version (current_row w u).version) where
    abbrev final : World
    final = record (ensured w u) {
      documents =
          update_where (is_document u)
            (replaced_row w.clock (add_one_i64 (current_row w u).version) p)
            (ensured w u).documents;
    }

    replace_snapshot-eq : replace_snapshot u p w ≡ (
      ok (
        to_snapshot (replaced w u p),
        state_updated snapshot (replaced w u p).version w.clock p.client_id,
      ),
      final,
    )
    unfolding replace_snapshot
    replace_snapshot-eq =
        bind_ok _ _ w (ensured w u) tt (ensure-eq w u calm known)
        ∙ transaction_ok (replace_snapshot_tx u p) (ensured w u) final _ (
            tx_ok (ensured w u) u p (current_row w u) (ensure-faults w u calm known)
              (ensure-stored w u calm known) w.clock (ensure-clock w u calm known) fits)

    -- Where no statement fails, a replacement for a listed user that names no stale version answers
    -- `ok` with the row that it stored: the four values that were sent at a version that is one
    -- more (it wraps around after the largest i64). No other user's row has changed.
    pub replace_snapshot_ok :
        ((replace_snapshot u p w).0
          ≡ ok (
            to_snapshot (replaced w u p),
            state_updated snapshot (replaced w u p).version w.clock p.client_id,
          ))
        × Updates w (replace_snapshot u p w).1 u (replaced w u p)
    replace_snapshot_ok = (
      ap (λ x. x.0) replace_snapshot-eq,
      record {
        stored_self = rw replace_snapshot-eq (
            find-update_where-some u _ (ensured w u).documents (current_row w u) (λ r. refl)
              (ensure-stored w u calm known));
        stored_ne = λ v ne. rw replace_snapshot-eq (
            find-update_where_ne u v _ (ensured w u).documents ne (λ r. refl)
            ∙ ensure-stored_ne w u calm known v ne);
        users = rw replace_snapshot-eq (ensure-users w u calm known);
        clock = rw replace_snapshot-eq (ensure-clock w u calm known);
        calm = rw replace_snapshot-eq (ensure-faults w u calm known);
      },
    )

  module _ (e : ℤ) (expects : p.expected_version ≡ some e)
      (stale_version : e ≢ (current_row w u).version) where
    conflict-eq :
        replace_snapshot u p w ≡ (err (conflict (stale e (current_row w u).version)), ensured w u)
    unfolding replace_snapshot
    conflict-eq =
        bind_ok _ _ w (ensured w u) tt (ensure-eq w u calm known)
        ∙ transaction_err (replace_snapshot_tx u p) (ensured w u) (ensured w u) _ (
            tx_conflict (ensured w u) u p (current_row w u) (ensure-faults w u calm known)
              (ensure-stored w u calm known) e expects stale_version)

    -- Where no statement fails, a replacement for a listed user that expects another version than
    -- the current one is answered by 409 and writes nothing but a blank row if there was none.
    pub replace_snapshot_refuses :
        ((replace_snapshot u p w).0 ≡ err (conflict (stale e (current_row w u).version)))
        × Updates w (replace_snapshot u p w).1 u (current_row w u)
    replace_snapshot_refuses =
        (ap (λ x. x.0) conflict-eq, rw conflict-eq (ensured-Updates w u calm known))
