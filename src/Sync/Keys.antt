-- ===== src/Sync/Keys.antt =====
-- The primary key (user_id, id): no user has two rows.
use any_player_sync_server.Prelude.{
  ℕ, ◌≡◌, refl, Option, ℤ, arith, length, keep, keep-append, keep_of_not_any, keep-update_where,
  ◌≤◌,
}
use any_player_sync_server.Json.{Value}
use any_player_sync_server.Errors.{ok, ApiError}
use any_player_sync_server.Models.{Namespace, snapshot, NamespacePayload, SnapshotPayload}
use any_player_sync_server.World.{World}
use any_player_sync_server.World.Keeps.{
  Keeps, IsStable, IsRestored, keeps_rules, Keeps-statement, Keeps-bind, Keeps-bind-lift, Keeps-now,
}
use any_player_sync_server.World.Rows.{DocumentRow}
use any_player_sync_server.Sync.{
  is_document, blank_document, insert_document, ensure_user_document, select_document, set_column,
  update_document, read_version, write_namespace, write_snapshot, update_namespace_tx,
  update_namespace,
}

-- No two rows of the table have the key (user_id, 1).
pub record IsKeyed (w : World) : Type 0 where
  pub at_user : (u : ℕ) → length (keep (is_document u) w.documents) ≤ 1

IsKeyed-stable : IsStable IsKeyed
IsKeyed-stable = record { faults = λ w rest h. record { at_user = h.at_user } }

IsKeyed-IsRestored : IsRestored IsKeyed IsKeyed
IsKeyed-IsRestored = record { restores = λ before after h k. record { at_user = h.at_user } }

insert-IsKeyed : (u : ℕ) → Keeps IsKeyed (insert_document u)
unfolding insert_document
insert-IsKeyed u = record {
  at = λ w h. record {
    at_user = λ v. ground (
      arith,
      h.at_user v,
      keep-append (is_document v) w.documents (blank_document u w.clock),
      keep_of_not_any (is_document v) w.documents,
    );
  };
}

ensure-IsKeyed : (u : ℕ) → Keeps IsKeyed (ensure_user_document u)
unfolding ensure_user_document
ensure-IsKeyed u = Keeps-statement IsKeyed-stable _ (insert-IsKeyed u) _

update_document-IsKeyed :
    (e : ApiError) (u : ℕ) (f : DocumentRow → DocumentRow)
    → ((v : ℕ) (r : DocumentRow) → is_document v (f r) ≡ is_document v r)
    → Keeps IsKeyed (update_document e u f)
unfolding update_document
update_document-IsKeyed e u f same =
    Keeps-statement IsKeyed-stable _
      (record {
        at = λ w h. record {
          at_user = λ v. ground (
            arith,
            h.at_user v,
            keep-update_where (is_document v) (is_document u) f w.documents (same v),
          );
        };
      })
      _

pub set_column-keys :
    (ns : Namespace) (v : Value) (f : DocumentRow → DocumentRow)
    → set_column ns v ≡ ok f
    → (u : ℕ) (r : DocumentRow) → is_document u (f r) ≡ is_document u r
unfolding set_column
set_column-keys snapshot v f h u r = absurd (cc)
set_column-keys _ v f h u r = ground arith

select_document-IsKeyed : (e : ApiError) (u : ℕ) → Keeps IsKeyed (select_document e u)
unfolding select_document
select_document-IsKeyed e u = Keeps-statement IsKeyed-stable _ (record { at = λ w h. h }) _

ruleset keyed_rules =
    (keeps_rules, IsKeyed-stable, IsKeyed-IsRestored, ensure-IsKeyed, select_document-IsKeyed)

read_version-IsKeyed : (u : ℕ) (e : Option ℤ) → Keeps IsKeyed (read_version u e)
unfolding read_version
read_version-IsKeyed u e = search keyed_rules

write_namespace-IsKeyed :
    (u : ℕ) (ns : Namespace) (p : NamespacePayload) (current : ℤ)
    → Keeps IsKeyed (write_namespace u ns p current)
unfolding write_namespace
write_namespace-IsKeyed u ns p current = Keeps-bind _ _ Keeps-now λ time.
    Keeps-bind-lift (set_column ns p.value) _ λ f set.
      Keeps-bind _ _ (update_document-IsKeyed _ u _ (set_column-keys ns p.value f set))
        λ row. search keyed_rules

write_snapshot-IsKeyed :
    (u : ℕ) (p : SnapshotPayload) (current : ℤ) → Keeps IsKeyed (write_snapshot u p current)
unfolding write_snapshot
write_snapshot-IsKeyed u p current =
    Keeps-bind _ _ Keeps-now
      λ time. Keeps-bind _ _ (update_document-IsKeyed _ u _ (λ v r. refl)) λ row. search keyed_rules

-- Whatever statement fails, and whatever is answered, an update keeps the rows keyed by the user.
pub update_namespace-IsKeyed :
    (w : World) (u : ℕ) (ns : Namespace) (p : NamespacePayload)
    → IsKeyed w
    → IsKeyed (update_namespace u ns p w).1
update_namespace-IsKeyed w u ns p h = keeps.at w h
  where
    keeps : Keeps IsKeyed (update_namespace u ns p)
    keeps =
        unfold update_namespace update_namespace_tx in
        search (keyed_rules, read_version-IsKeyed, write_namespace-IsKeyed)
