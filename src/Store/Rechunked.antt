-- ===== src/Store/Rechunked.antt =====
-- The chunks of a document while they are replaced (src/passages/store.rs, `upsert_document`).
use any_player_sync_server.Prelude.{
  ℕ, suc, ◌≤◌, ◌≡◌, ◌≢◌, refl, sym, ap, ◌∙◌, subst, Bool, true, false, not, ◌&&◌, List, [], ◌∷◌,
  ◌++◌, ◌==◌, ==_refl, any, keep, length, map, arith, Bool-cases, inl, inr,
}
use mathlib.Core.List.{append-nil, append_assoc}
use any_player_sync_server.World.{World}
use any_player_sync_server.World.Rows.{DjChunkRow}
use any_player_sync_server.World.Keeps.{IsStable}
use any_player_sync_server.World.Runs.{
  Outcome, answered, refused, Runs, Outcome-bind, Outcome-pure, Outcome-weaken, Runs-statement,
}
use any_player_sync_server.Store.{
  Piece, is_chunk_of, has_document_id, delete_chunks, insert_chunk, new_chunk, insert_chunks,
  dimensions,
}
use any_player_sync_server.Store.View.{to_piece, keep-keep, keep-not}
use any_player_sync_server.Store.Upserted.{SameStore}

map-snoc :
    {A B : Type 0} (f : A → B) (xs : List A) (x : A) → map f (xs ++ x ∷ []) ≡ map f xs ++ f x ∷ []
map-snoc f [] x = refl
map-snoc f (y ∷ xs) x = ap (λ ys. f y ∷ ys) (map-snoc f xs x)

keep-snoc :
    {A : Type 0} (p : A → Bool) (xs : List A) (x : A)
    → p x ≡ true
    → keep p (xs ++ x ∷ []) ≡ keep p xs ++ x ∷ []
keep-snoc p [] x e = ground (arith, e)
keep-snoc p (y ∷ xs) x e = ground (arith, keep-snoc p xs x e)

keep-snoc_other :
    {A : Type 0} (p : A → Bool) (xs : List A) (x : A)
    → p x ≡ false
    → keep p (xs ++ x ∷ []) ≡ keep p xs
keep-snoc_other p [] x e = ground (arith, e)
keep-snoc_other p (y ∷ xs) x e = ground (arith, keep-snoc_other p xs x e)

-- While the chunks of document `id` are replaced: those stored so far, and the others untouched.
pub record Rechunks (start : World) (id : ℕ) (pieces : List Piece) (v : World) : Type 0 where
  pub documents : v.dj_documents ≡ start.dj_documents
  pub next : start.next_dj_document ≤ v.next_dj_document
  pub own : map to_piece (keep (is_chunk_of id) v.dj_chunks) ≡ pieces
  pub others :
      (i : ℕ) → i ≢ id → keep (is_chunk_of i) v.dj_chunks ≡ keep (is_chunk_of i) start.dj_chunks

pub Rechunks-stable :
    (start : World) (id : ℕ) (pieces : List Piece) → IsStable (Rechunks start id pieces)
Rechunks-stable start id pieces = record {
  faults =
      λ w rest h. record { documents = h.documents; next = h.next; own = h.own; others = h.others };
}

-- What is left of a transaction that is rolled back: no number is given twice.
pub record IsAhead (start v : World) : Type 0 where
  pub next : start.next_dj_document ≤ v.next_dj_document

module _ (start : World) (id : ℕ) where
  not_own :
      (i : ℕ) → i ≢ id → (c : DjChunkRow) → is_chunk_of i c ≡ true → not (is_chunk_of id c) ≡ true
  not_own i apart c e = elim (Bool-cases (is_chunk_of id c)) [
    | inl b ↦ absurd (apart (ground (arith, e, b)))
    | inr b ↦ ground (arith, b)
  ]

  pub delete-Rechunks : Runs (SameStore start) (λ _. Rechunks start id []) (delete_chunks id)
  unfolding delete_chunks
  delete-Rechunks = record {
    at = λ v same. answered tt _ (record {
      documents = same.documents;
      next = same.next;
      own = ap (map to_piece) (keep-not (is_chunk_of id) v.dj_chunks);
      others = λ i apart.
          keep-keep (is_chunk_of i) _ v.dj_chunks (not_own i apart)
          ∙ ap (keep (is_chunk_of i)) same.chunks;
    });
  }

  insert-Rechunks :
      (ord : ℕ) (p : Piece) (acc : List Piece)
      → Runs
          (Rechunks start id acc)
          (λ _. Rechunks start id (acc ++ p ∷ []))
          (insert_chunk id ord p)
  unfolding insert_chunk
  insert-Rechunks ord p acc = record {
    at = λ v h.
        elim (Bool-cases
          (any (has_document_id id) v.dj_documents && length p.vector == dimensions)) [
            | inr e ↦ rw e (refused _ v h)
            | inl e ↦ rw e (
                answered tt _ (record {
                  documents = h.documents;
                  next = h.next;
                  own =
                      ap (map to_piece) (
                        keep-snoc (is_chunk_of id) v.dj_chunks (new_chunk v.next_dj_chunk id ord p)
                          (==_refl id))
                      ∙ map-snoc to_piece (keep (is_chunk_of id) v.dj_chunks) _
                      ∙ ap (λ ps. ps ++ p ∷ []) h.own;
                  others = λ i apart.
                      keep-snoc_other (is_chunk_of i) v.dj_chunks
                        (new_chunk v.next_dj_chunk id ord p) (ground (arith, apart))
                      ∙ h.others i apart;
                }))
          ];
  }

  pub insert_chunks-Rechunks :
      (ord : ℕ) (ps acc : List Piece) (v : World)
      → Rechunks start id acc v
      → Outcome (IsAhead start) (λ _. Rechunks start id (acc ++ ps)) (insert_chunks id ord ps v)
  unfolding insert_chunks
  insert_chunks-Rechunks ord [] acc v h =
      Outcome-pure tt v (subst (λ ps. Rechunks start id ps v) (sym (append-nil acc)) h)
  insert_chunks-Rechunks ord (p ∷ ps) acc v h =
      Outcome-bind _ _ v
        (Outcome-weaken _ (λ _ k. record { next = k.next }) (λ _ _ k. k)
          ((Runs-statement _ _ (Rechunks-stable start id acc) (insert-Rechunks ord p acc)).at v h))
        λ _ after k _.
          subst
            (λ qs.
              Outcome (IsAhead start) (λ _. Rechunks start id qs)
                (insert_chunks id (suc ord) ps after))
            (append_assoc acc (p ∷ []) ps)
            (insert_chunks-Rechunks (suc ord) ps (acc ++ p ∷ []) after k)
