-- ===== src/Sync/Update.antt =====
-- What update_namespace does where no statement fails: the outcome on every branch.
use any_player_sync_server.Prelude.{
  ℕ, ◌≡◌, ◌≢◌, refl, some, [], ℤ, eq_ℤ_iff, arith, add_one_i64, update_where, ◌∙◌, ap,
}
use any_player_sync_server.Json.{Value}
use any_player_sync_server.Errors.{ok, err, conflict}
use any_player_sync_server.Models.{
  Namespace, app_state, playlists, provider_configuration, settings, snapshot, NamespacePayload,
}
use any_player_sync_server.World.{World, statement, ◌>>=◌, now}
use any_player_sync_server.World.Steps.{bind_ok, transaction_ok, transaction_err}
use any_player_sync_server.World.Rows.{DocumentRow}
use any_player_sync_server.Sync.{
  is_document, to_snapshot, select_document, read_version, write_namespace, check_version,
  set_column, update_document, state_updated, update_namespace_tx, update_namespace,
}
use any_player_sync_server.Sync.Ensure.{
  HasUser, ensured, ensure-eq, ensure-stored, ensure-stored_ne, ensure-faults, ensure-clock,
  Accepts, stale, check_version_ok, Updates, ensure-users, ensured-Updates,
}
use any_player_sync_server.Sync.Documents.{
  stored, current_row, find-update_where_self, find-update_where_ne, find-update_where-some,
}

abbrev pub write : Namespace → Value → DocumentRow → DocumentRow
write app_state v r = record r { app_state = v }
write playlists v r = record r { playlists = v }
write provider_configuration v r = record r { provider_configuration = v }
write settings v r = record r { settings = v }
write snapshot v r = r

abbrev pub written : ℕ → ℤ → Namespace → Value → DocumentRow → DocumentRow
written time version ns v r = record (write ns v r) { version = version; updated_at = time }

module _ (w : World) (u : ℕ) (p : NamespacePayload) (cur : DocumentRow) (calm : w.faults ≡ [])
    (held : stored w u ≡ some cur) (fits : Accepts p.expected_version cur.version) (time : ℕ)
    (at : w.clock ≡ time) where
  tx_ok :
      (ns : Namespace)
      → ns ≢ snapshot
      → update_namespace_tx u ns p w ≡ (
        ok (
          to_snapshot (written time (add_one_i64 cur.version) ns p.value cur),
          state_updated ns (add_one_i64 cur.version) time p.client_id,
        ),
        record w {
          documents =
              update_where
                (is_document u)
                (written time (add_one_i64 cur.version) ns p.value)
                w.documents;
        },
      )
  unfolding update_namespace_tx read_version write_namespace select_document check_version
      set_column update_document statement ◌>>=◌ now
  tx_ok snapshot ne = absurd (ne refl)
  tx_ok ns ne = ground (
    arith,
    check_version_ok p.expected_version cur.version,
    find-update_where_self u (written time (add_one_i64 cur.version) ns p.value) w.documents,
  )

pub keys-written :
    (u time : ℕ) (version : ℤ) (ns : Namespace) (v : Value) (r : DocumentRow)
    → is_document u (written time version ns v r) ≡ is_document u r
keys-written u time version app_state v r = refl
keys-written u time version _ v r = refl

module _ (w : World) (u : ℕ) (p : NamespacePayload) (cur : DocumentRow) (calm : w.faults ≡ [])
    (held : stored w u ≡ some cur) where
  -- A stale version is refused before anything is written.
  tx_conflict :
      (ns : Namespace) (e : ℤ)
      → p.expected_version ≡ some e
      → e ≢ cur.version
      → update_namespace_tx u ns p w ≡ (err (conflict (stale e cur.version)), w)
  unfolding update_namespace_tx read_version write_namespace select_document check_version
      set_column update_document statement ◌>>=◌ now
  tx_conflict ns e x ne = ground (arith, eq_ℤ_iff e cur.version)

-- The row after the request, as a function of the row before.
abbrev pub updated : World → ℕ → Namespace → NamespacePayload → DocumentRow
updated w u ns p =
    written w.clock (add_one_i64 (current_row w u).version) ns p.value (current_row w u)

module _ (w : World) (u : ℕ) (ns : Namespace) (p : NamespacePayload) (calm : w.faults ≡ [])
    (known : HasUser w u) where
  module _ (ne : ns ≢ snapshot) (fits : Accepts p.expected_version (current_row w u).version) where
    abbrev final : World
    final = record (ensured w u) {
      documents =
          update_where (is_document u)
            (written w.clock (add_one_i64 (current_row w u).version) ns p.value)
            (ensured w u).documents;
    }

    update_namespace-eq : update_namespace u ns p w ≡ (
      ok (
        to_snapshot (updated w u ns p),
        state_updated ns (updated w u ns p).version w.clock p.client_id,
      ),
      final,
    )
    unfolding update_namespace
    update_namespace-eq =
        bind_ok _ _ w (ensured w u) tt (ensure-eq w u calm known)
        ∙ transaction_ok (update_namespace_tx u ns p) (ensured w u) final _ (
            tx_ok (ensured w u) u p (current_row w u) (ensure-faults w u calm known)
              (ensure-stored w u calm known) fits w.clock (ensure-clock w u calm known) ns ne)

    -- Where no statement fails, a request of a listed user for one of the four namespaces that
    -- names no stale version answers `ok` with the row that it stored: the namespace has the sent
    -- value, the version is one more (it wraps around after the largest i64) and the time is that
    -- of the clock, nothing else of the row has changed, and no other user's row has.
    pub update_namespace_ok :
        ((update_namespace u ns p w).0
          ≡ ok (
            to_snapshot (updated w u ns p),
            state_updated ns (updated w u ns p).version w.clock p.client_id,
          ))
        × Updates w (update_namespace u ns p w).1 u (updated w u ns p)
    update_namespace_ok = (
      ap (λ x. x.0) update_namespace-eq,
      record {
        stored_self = rw update_namespace-eq (
            find-update_where-some u _ (ensured w u).documents (current_row w u)
              (keys-written u w.clock (add_one_i64 (current_row w u).version) ns p.value)
              (ensure-stored w u calm known));
        stored_ne = λ v ne'. rw update_namespace-eq (
            find-update_where_ne u v _ (ensured w u).documents ne'
              (keys-written v w.clock (add_one_i64 (current_row w u).version) ns p.value)
            ∙ ensure-stored_ne w u calm known v ne');
        users = rw update_namespace-eq (ensure-users w u calm known);
        clock = rw update_namespace-eq (ensure-clock w u calm known);
        calm = rw update_namespace-eq (ensure-faults w u calm known);
      },
    )

module _ (w : World) (u : ℕ) (ns : Namespace) (p : NamespacePayload) (calm : w.faults ≡ [])
    (known : HasUser w u) (e : ℤ) (expects : p.expected_version ≡ some e)
    (stale_version : e ≢ (current_row w u).version) where
  update_namespace-conflict-eq :
      update_namespace u ns p w ≡ (err (conflict (stale e (current_row w u).version)), ensured w u)
  unfolding update_namespace
  update_namespace-conflict-eq =
      bind_ok _ _ w (ensured w u) tt (ensure-eq w u calm known)
      ∙ transaction_err (update_namespace_tx u ns p) (ensured w u) (ensured w u) _ (
          tx_conflict (ensured w u) u p (current_row w u) (ensure-faults w u calm known)
            (ensure-stored w u calm known) ns e expects stale_version)

  -- Where no statement fails, a request of a listed user that expects another version than the
  -- current one is answered by 409 and writes nothing but a blank row if there was none: the
  -- user's row is the current one still, and so is every other.
  pub update_namespace_refuses :
      ((update_namespace u ns p w).0 ≡ err (conflict (stale e (current_row w u).version)))
      × Updates w (update_namespace u ns p w).1 u (current_row w u)
  update_namespace_refuses = (
    ap (λ x. x.0) update_namespace-conflict-eq,
    rw update_namespace-conflict-eq (ensured-Updates w u calm known),
  )
