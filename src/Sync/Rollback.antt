-- ===== src/Sync/Rollback.antt =====
-- A request that does not end well changes no user's row, whatever statement fails.
use any_player_sync_server.Prelude.{ℕ, ◌≡◌, refl, false, [], ◌∷◌, arith}
use any_player_sync_server.Errors.{is_ok}
use any_player_sync_server.Models.{Namespace, NamespacePayload, SnapshotPayload}
use any_player_sync_server.World.{World}
use any_player_sync_server.World.Keeps.{Keeps, IsStable, IsRestored, Keeps-statement}
use any_player_sync_server.World.Failure.{OnFailure, OnFailure-transaction, OnFailure-bind}
use any_player_sync_server.Sync.{
  is_document, blank_document, insert_document, ensure_user_document, update_namespace_tx,
  update_namespace, replace_snapshot_tx, replace_snapshot,
}
use any_player_sync_server.Sync.Documents.{current_row, any-eq-is_some-find, find-append}

-- The current row of every user, and the clock, are those of the first state.
pub record SameRows (start w : World) : Type 0 where
  pub clock : w.clock ≡ start.clock
  pub rows : (v : ℕ) → current_row w v ≡ current_row start v

module _ (start : World) where
  SameRows-stable : IsStable (SameRows start)
  SameRows-stable = record { faults = λ w rest h. record { clock = h.clock; rows = h.rows } }

  SameRows-IsRestored : IsRestored (SameRows start) (λ _. Unit {0})
  SameRows-IsRestored = record {
    restores = λ before after h k. record { clock = h.clock; rows = h.rows };
  }

  -- The blank row that is inserted is what a read would have found anyway.
  insert-SameRows : (u : ℕ) → Keeps (SameRows start) (insert_document u)
  unfolding insert_document
  insert-SameRows u = record {
    at = λ w h. record {
      clock = ground (arith, h.clock);
      rows = λ v. ground (
        arith,
        h.rows v,
        any-eq-is_some-find (is_document u) w.documents,
        find-append (is_document v) w.documents (blank_document u w.clock ∷ []),
      );
    };
  }

  ensure-SameRows : (u : ℕ) → Keeps (SameRows start) (ensure_user_document u)
  unfolding ensure_user_document
  ensure-SameRows u = Keeps-statement SameRows-stable _ (insert-SameRows u) _

  update_namespace-OnFailure :
      (u : ℕ) (ns : Namespace) (p : NamespacePayload)
      → OnFailure (SameRows start) (update_namespace u ns p)
  unfolding update_namespace
  update_namespace-OnFailure u ns p =
      OnFailure-bind _ _ (ensure-SameRows u)
        (λ _. OnFailure-transaction SameRows-IsRestored (update_namespace_tx u ns p))

  replace_snapshot-OnFailure :
      (u : ℕ) (p : SnapshotPayload) → OnFailure (SameRows start) (replace_snapshot u p)
  unfolding replace_snapshot
  replace_snapshot-OnFailure u p =
      OnFailure-bind _ _ (ensure-SameRows u)
        (λ _. OnFailure-transaction SameRows-IsRestored (replace_snapshot_tx u p))

SameRows-refl : (w : World) → SameRows w w
SameRows-refl w = record { clock = refl; rows = λ v. refl }

-- Whichever statement fails, an update of a namespace that does not answer `ok` leaves the current
-- row of every user as it was.
pub update_namespace_atomic :
    (w : World) (u : ℕ) (ns : Namespace) (p : NamespacePayload)
    → is_ok (update_namespace u ns p w).0 ≡ false
    → SameRows w (update_namespace u ns p w).1
update_namespace_atomic w u ns p failed =
    (update_namespace-OnFailure w u ns p).at w (SameRows-refl w) failed

-- Whichever statement fails, a replacement of the snapshot that does not answer `ok` leaves the
-- current row of every user as it was.
pub replace_snapshot_atomic :
    (w : World) (u : ℕ) (p : SnapshotPayload)
    → is_ok (replace_snapshot u p w).0 ≡ false
    → SameRows w (replace_snapshot u p w).1
replace_snapshot_atomic w u p failed =
    (replace_snapshot-OnFailure w u p).at w (SameRows-refl w) failed
