-- ===== src/Sync/Others.antt =====
-- A request of one user leaves the rows of the others alone, whatever statement fails.
use any_player_sync_server.Prelude.{ℕ, ◌≡◌, ◌≢◌, refl, Option, ℤ, [], ◌∷◌, arith}
use any_player_sync_server.Errors.{ApiError}
use any_player_sync_server.Models.{Namespace, NamespacePayload, SnapshotPayload}
use any_player_sync_server.World.{World}
use any_player_sync_server.World.Keeps.{
  Keeps, IsStable, IsRestored, keeps_rules, Keeps-statement, Keeps-bind, Keeps-bind-lift, Keeps-now,
}
use any_player_sync_server.World.Rows.{DocumentRow}
use any_player_sync_server.Sync.{
  is_document, blank_document, insert_document, ensure_user_document, select_document, set_column,
  update_document, read_version, write_namespace, write_snapshot, update_namespace_tx,
  update_namespace, replace_snapshot_tx, replace_snapshot, load_snapshot,
}
use any_player_sync_server.Sync.Documents.{
  current_row, any-eq-is_some-find, find-append, find-update_where_ne,
}
use any_player_sync_server.Sync.Keys.{set_column-keys}

-- What the users other than `u` have is what they had in the first state.
pub record OthersKept (start : World) (u : ℕ) (w : World) : Type 0 where
  pub clock : w.clock ≡ start.clock
  pub rows : (v : ℕ) → u ≢ v → current_row w v ≡ current_row start v

module _ (start : World) (u : ℕ) where
  OthersKept-stable : IsStable (OthersKept start u)
  OthersKept-stable = record { faults = λ w rest h. record { clock = h.clock; rows = h.rows } }

  OthersKept-IsRestored : IsRestored (OthersKept start u) (OthersKept start u)
  OthersKept-IsRestored = record {
    restores = λ before after h k. record { clock = h.clock; rows = h.rows };
  }

  insert-OthersKept : Keeps (OthersKept start u) (insert_document u)
  unfolding insert_document
  insert-OthersKept = record {
    at = λ w h. record {
      clock = ground (arith, h.clock);
      rows = λ v ne. ground (
        arith,
        h.rows v ne,
        any-eq-is_some-find (is_document u) w.documents,
        find-append (is_document v) w.documents (blank_document u w.clock ∷ []),
      );
    };
  }

  ensure-OthersKept : Keeps (OthersKept start u) (ensure_user_document u)
  unfolding ensure_user_document
  ensure-OthersKept = Keeps-statement OthersKept-stable _ insert-OthersKept _

  select-OthersKept : (e : ApiError) → Keeps (OthersKept start u) (select_document e u)
  unfolding select_document
  select-OthersKept e = Keeps-statement OthersKept-stable _ (record { at = λ w h. h }) _

  update-OthersKept :
      (e : ApiError) (f : DocumentRow → DocumentRow)
      → ((v : ℕ) (r : DocumentRow) → is_document v (f r) ≡ is_document v r)
      → Keeps (OthersKept start u) (update_document e u f)
  unfolding update_document
  update-OthersKept e f same =
      Keeps-statement OthersKept-stable _
        (record {
          at = λ w h. record {
            clock = h.clock;
            rows = λ v ne. rw (find-update_where_ne u v f w.documents ne (same v)) (h.rows v ne);
          };
        })
        _

  ruleset others_rules =
      (keeps_rules, OthersKept-stable, OthersKept-IsRestored, ensure-OthersKept, select-OthersKept)

  read_version-OthersKept : (e : Option ℤ) → Keeps (OthersKept start u) (read_version u e)
  unfolding read_version
  read_version-OthersKept e = search others_rules

  write_namespace-OthersKept :
      (ns : Namespace) (p : NamespacePayload) (current : ℤ)
      → Keeps (OthersKept start u) (write_namespace u ns p current)
  unfolding write_namespace
  write_namespace-OthersKept ns p current = Keeps-bind _ _ Keeps-now λ time.
      Keeps-bind-lift (set_column ns p.value) _ λ f set.
        Keeps-bind _ _ (update-OthersKept _ _ (set_column-keys ns p.value f set))
          λ row. search others_rules

  write_snapshot-OthersKept :
      (p : SnapshotPayload) (current : ℤ) → Keeps (OthersKept start u) (write_snapshot u p current)
  unfolding write_snapshot
  write_snapshot-OthersKept p current =
      Keeps-bind _ _ Keeps-now
        λ time. Keeps-bind _ _ (update-OthersKept _ _ (λ v r. refl)) λ row. search others_rules

  pub load_snapshot-OthersKept : Keeps (OthersKept start u) (load_snapshot u)
  unfolding load_snapshot
  load_snapshot-OthersKept = search others_rules

  pub update_namespace-OthersKept :
      (ns : Namespace) (p : NamespacePayload) → Keeps (OthersKept start u) (update_namespace u ns p)
  unfolding update_namespace update_namespace_tx
  update_namespace-OthersKept ns p =
      search (others_rules, read_version-OthersKept, write_namespace-OthersKept)

  pub replace_snapshot-OthersKept :
      (p : SnapshotPayload) → Keeps (OthersKept start u) (replace_snapshot u p)
  unfolding replace_snapshot replace_snapshot_tx
  replace_snapshot-OthersKept p =
      search (others_rules, read_version-OthersKept, write_snapshot-OthersKept)
