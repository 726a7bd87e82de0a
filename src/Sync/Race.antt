-- ===== src/Sync/Race.antt =====
-- Two updates of one user's snapshot whose transactions interleave. PostgreSQL's default isolation
-- level READ COMMITTED allows it: the SELECT of the version takes no lock, and an UPDATE that
-- waited for a row goes on with the values that it was given.
use any_player_sync_server.Json.{Value}
use any_player_sync_server.Prelude.{
  update_where, ℕ, ◌≡◌, refl, some, [], ℤ, arith, add_one_i64, ap, ◌≢◌, Option, add_one_i64-ne, ◌∙◌,
}
use any_player_sync_server.Errors.{ok, err, conflict}
use any_player_sync_server.Models.{
  Snapshot, Namespace, app_state, snapshot, NamespacePayload, UpdateEvent,
}
use any_player_sync_server.World.{World, Action, pure, statement, ◌>>=◌, now}
use any_player_sync_server.World.Steps.{bind_ok}
use any_player_sync_server.World.Rows.{DocumentRow}
use any_player_sync_server.Sync.{
  to_snapshot, state_updated, read_version, write_namespace, select_document, check_version,
  set_column, update_document, is_document, update_namespace,
}
use any_player_sync_server.Sync.Ensure.{
  HasUser, stale, Accepts, check_version_ok, Updates-HasUser, Updates-current_self,
}
use any_player_sync_server.Sync.Documents.{
  stored, current_row, find-update_where_self, find-update_where-some,
}
use any_player_sync_server.Sync.Update.{
  written, keys-written, updated, update_namespace_ok, update_namespace_refuses,
}

-- Both clients read, then the first writes, then the second.
pub interleaved :
    ℕ
    → Namespace
    → NamespacePayload
    → Namespace
    → NamespacePayload
    → Action ((Snapshot × UpdateEvent) × (Snapshot × UpdateEvent))
interleaved u ns p ms q = do
  seen_first ← read_version u p.expected_version
  seen_second ← read_version u q.expected_version
  first ← write_namespace u ns p seen_first
  second ← write_namespace u ms q seen_second
  pure (first, second)

write_lem :
    (w : World) (u : ℕ) (ns : Namespace) (p : NamespacePayload) (cur : DocumentRow) (seen : ℤ)
    → w.faults ≡ []
    → stored w u ≡ some cur
    → ns ≢ snapshot
    → let row = written w.clock (add_one_i64 seen) ns p.value in
      write_namespace u ns p seen w ≡ (
        ok (to_snapshot (row cur), state_updated ns (add_one_i64 seen) w.clock p.client_id),
        record w { documents = update_where (is_document u) row w.documents },
      )
unfolding write_namespace set_column update_document statement ◌>>=◌ now
write_lem w u snapshot p cur seen calm held ne = absurd (ne refl)
write_lem w u ns p cur seen calm held ne =
    ground
      (arith, find-update_where_self u (written w.clock (add_one_i64 seen) ns p.value) w.documents)

read_lem :
    (w : World) (u : ℕ) (e : Option ℤ) (cur : DocumentRow)
    → w.faults ≡ []
    → stored w u ≡ some cur
    → Accepts e cur.version
    → read_version u e w ≡ (ok cur.version, w)
unfolding read_version select_document check_version statement ◌>>=◌
read_lem w u e cur calm held fits = ground (arith, check_version_ok e cur.version fits)

overwritten :
    (time : ℕ) (version : ℤ) (ns : Namespace) (v v' : Value) (r : DocumentRow)
    → written time version ns v' (written time version ns v r) ≡ written time version ns v' r
overwritten time version app_state v v' r = refl
overwritten time version _ v v' r = refl

module _ (w : World) (u : ℕ) (ns : Namespace) (p q : NamespacePayload) (cur : DocumentRow)
    (calm : w.faults ≡ []) (held : stored w u ≡ some cur) (ne : ns ≢ snapshot)
    (first_expects : p.expected_version ≡ some cur.version)
    (second_expects : q.expected_version ≡ some cur.version) where
  abbrev next : ℤ
  next = add_one_i64 cur.version

  abbrev first_row : DocumentRow
  first_row = written w.clock next ns p.value cur

  abbrev second_row : DocumentRow
  second_row = written w.clock next ns q.value cur

  abbrev between : World
  between = record w {
    documents = update_where (is_document u) (written w.clock next ns p.value) w.documents;
  }

  abbrev end_state : World
  end_state = record w {
    documents = update_where (is_document u) (written w.clock next ns q.value) between.documents;
  }

  held_between : stored between u ≡ some first_row
  held_between =
      find-update_where-some u (written w.clock next ns p.value) w.documents cur
        (keys-written u w.clock next ns p.value) held

  interleaved-eq : interleaved u ns p ns q w ≡ (
    ok (
      (to_snapshot first_row, state_updated ns next w.clock p.client_id),
      (to_snapshot second_row, state_updated ns next w.clock q.client_id),
    ),
    end_state,
  )
  unfolding interleaved pure
  interleaved-eq =
      bind_ok _ _ w w cur.version
        (read_lem w u p.expected_version cur calm held (rw first_expects refl))
      ∙ bind_ok _ _ w w cur.version
          (read_lem w u q.expected_version cur calm held (rw second_expects refl))
      ∙ bind_ok _ _ w between _ (write_lem w u ns p cur cur.version calm held ne)
      ∙ bind_ok _ _ between end_state
          (to_snapshot second_row, state_updated ns next w.clock q.client_id)
          (write_lem between u ns q first_row cur.version calm held_between ne
            ∙ ap
                (λ (r : DocumentRow).
                  (ok (to_snapshot r, state_updated ns next w.clock q.client_id), end_state))
                (overwritten w.clock next ns p.value q.value cur))

  -- Where no statement fails and both transactions, on one namespace, read before either writes:
  -- both clients that expect the current version are answered `ok`, with the same new version, and
  -- the row holds what the second one sent. The first one's value is lost without an error.
  pub interleaved_loses_update :
      ((interleaved u ns p ns q w).0
        ≡ ok (
          (to_snapshot first_row, state_updated ns next w.clock p.client_id),
          (to_snapshot second_row, state_updated ns next w.clock q.client_id),
        ))
      × (stored (interleaved u ns p ns q w).1 u ≡ some second_row)
  interleaved_loses_update = (
    ap (λ x. x.0) interleaved-eq,
    rw interleaved-eq (
        find-update_where-some u (written w.clock next ns q.value) between.documents first_row
          (keys-written u w.clock next ns q.value) held_between
        ∙ ap (λ (r : DocumentRow). some r) (overwritten w.clock next ns p.value q.value cur)),
  )

-- Where no statement fails and the updates come one after the other, the second of two clients
-- that expect the same version is refused by 409, and the row is the one that the first has stored.
pub sequential_refuses :
    (w : World) (u : ℕ) (ns ms : Namespace) (p q : NamespacePayload)
    → w.faults ≡ []
    → HasUser w u
    → ns ≢ snapshot
    → p.expected_version ≡ some (current_row w u).version
    → q.expected_version ≡ some (current_row w u).version
    → let first = update_namespace u ns p w in
      let second = update_namespace u ms q first.1 in
      (first.0
        ≡ ok (
          to_snapshot (updated w u ns p),
          state_updated ns (updated w u ns p).version w.clock p.client_id,
        ))
      × (second.0
          ≡ err
              (conflict (stale (current_row w u).version (add_one_i64 (current_row w u).version))))
      × (stored second.1 u ≡ some (updated w u ns p))
sequential_refuses w u ns ms p q calm known ne px qx =
    let (answer, up) = update_namespace_ok w u ns p calm known ne (rw px refl) in
    let after = (update_namespace u ns p w).1 in
    let current : current_row after u ≡ updated w u ns p = Updates-current_self up in
    let (refused, kept) =
      update_namespace_refuses after u ms q up.calm (Updates-HasUser up u known)
        (current_row w u).version qx (rw current (add_one_i64-ne (current_row w u).version)) in
    (
      answer,
      refused
          ∙ ap (λ (r : DocumentRow). err (conflict (stale (current_row w u).version r.version)))
              current,
      kept.stored_self ∙ ap (λ (r : DocumentRow). some r) current,
    )
