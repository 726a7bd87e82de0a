-- ===== src/Store/Joined.antt =====
-- The rows that the lookup of passages joins (src/passages/store.rs, `candidates`).
use any_player_sync_server.Prelude.{
  ℕ, zero, suc, ◌≡◌, inl, inr, refl, subst, Bool, true, Option, none, some, List, [], ◌∷◌, Text,
  ltb, find, take, All, Bool-cases, arith,
}
use mathlib.Core.List.{Memᴰ}
use any_player_sync_server.World.{World}
use any_player_sync_server.World.Rows.{DjDocumentRow, DjChunkRow, DjPassagePlayRow}
use any_player_sync_server.World.Keeps.{IsStable}
use any_player_sync_server.World.Runs.{Runs, answered, Runs-statement}
use any_player_sync_server.Rank.{Floats, Candidate}
use any_player_sync_server.Store.{has_document_id}
use any_player_sync_server.Store.Queries.{
  insert_chunk_by_id, sort_chunks, is_candidate, to_candidate, joined, join_documents, candidates,
  max_candidates,
}

module _ {A : Type 0} where
  pub find-listed :
      (p : A → Bool) (xs : List A) (x : A) → find p xs ≡ some x → Memᴰ x xs × (p x ≡ true)
  find-listed p [] x h = absurd (cc)
  find-listed p (y ∷ xs) x h = elim (Bool-cases (p y)) [
    | inl e ↦
        let same : x ≡ y = ground (arith, e, h) in (Memᴰ.head same, subst (λ z. p z ≡ true) (cc) e)
    | inr e ↦
        let (later, passes) = find-listed p xs x (ground (arith, e, h)) in (Memᴰ.tail later, passes)
  ]

  take-All {ℓ} : (P : A → Type ℓ) (n : ℕ) (xs : List A) → All P xs → All P (take n xs)
  take-All P zero xs h = tt
  take-All P (suc n) [] h = tt
  take-All P (suc n) (x ∷ xs) (p, h) = (p, take-All P n xs h)

  -- Everything that is listed.
  lists_itself : (xs : List A) → All (λ x. Memᴰ x xs) xs
  lists_itself xs = all_of xs (λ x m. m)
    where
      all_of : (ys : List A) → ((x : A) → Memᴰ x ys → Memᴰ x xs) → All (λ x. Memᴰ x xs) ys
      all_of [] h = tt
      all_of (y ∷ ys) h = (h y (Memᴰ.head refl), all_of ys (λ x m. h x (Memᴰ.tail m)))

insert_chunk_by_id-All {ℓ} :
    (P : DjChunkRow → Type ℓ) (c : DjChunkRow) (cs : List DjChunkRow)
    → P c
    → All P cs
    → All P (insert_chunk_by_id c cs)
unfolding insert_chunk_by_id
insert_chunk_by_id-All P c [] p h = (p, tt)
insert_chunk_by_id-All P c (d ∷ ds) p (q, h) = elim (Bool-cases (ltb d.id c.id)) [
  | inl e ↦ rw e (q, insert_chunk_by_id-All P c ds p h)
  | inr e ↦ rw e (p, (q, h))
]

sort_chunks-All {ℓ} :
    (P : DjChunkRow → Type ℓ) (cs : List DjChunkRow) → All P cs → All P (sort_chunks cs)
unfolding sort_chunks
sort_chunks-All P [] h = tt
sort_chunks-All P (c ∷ cs) (p, h) = insert_chunk_by_id-All P c _ p (sort_chunks-All P cs h)

module _ (f : Floats) (of_bits : ℕ → f.F32) (passes : DjDocumentRow → Bool) (user_id : ℕ)
    (plays : List DjPassagePlayRow) (ds : List DjDocumentRow) (chunks : List DjChunkRow) where
  -- A chunk with its document, which passes.
  pub record IsJoined (c : Candidate f) : Type 0 where
    pub chunk : DjChunkRow
    pub document : DjDocumentRow
    pub listed : Memᴰ chunk chunks
    pub stored : Memᴰ document ds
    pub owner : has_document_id chunk.document_id document ≡ true
    pub passing : passes document ≡ true
    pub same : c ≡ to_candidate f of_bits user_id plays chunk document

  joined-IsJoined :
      (c : DjChunkRow) (o : Option DjDocumentRow) (rest : List (Candidate f))
      → find (has_document_id c.document_id) ds ≡ o
      → Memᴰ c chunks
      → All IsJoined rest
      → All IsJoined (joined f of_bits passes user_id plays c o rest)
  joined-IsJoined c none rest e m h = h
  joined-IsJoined c (some d) rest e m h = elim (Bool-cases (passes d)) [
    | inl t ↦
        let (stored, owner) = find-listed (has_document_id c.document_id) ds d e in
        rw t (
          record {
            chunk = c;
            document = d;
            listed = m;
            stored = stored;
            owner = owner;
            passing = t;
            same = refl;
          },
          h,
        )
    | inr t ↦ rw t h
  ]

  join_documents-IsJoined :
      (cs : List DjChunkRow)
      → All (λ c. Memᴰ c chunks) cs
      → All IsJoined (join_documents f of_bits passes user_id plays ds cs)
  unfolding join_documents
  join_documents-IsJoined [] h = tt
  join_documents-IsJoined (c ∷ cs) (m, h) =
      joined-IsJoined c _ _ refl m (join_documents-IsJoined cs h)

module _ (f : Floats) (of_bits : ℕ → f.F32) (songs artists : List Text) (album_key : Option Text)
    (user_id : ℕ) where
  -- The candidates that a lookup finds are joined rows of the tables.
  pub candidates-IsJoined :
      (P : World → Type 0)
      → IsStable P
      → Runs P
          (λ cs w.
            P w
            × All
                (IsJoined f of_bits
                  (is_candidate songs artists album_key)
                  user_id
                  w.passage_plays
                  w.dj_documents
                  w.dj_chunks)
                cs)
          (candidates f of_bits songs artists album_key user_id)
  unfolding candidates
  candidates-IsJoined P stable = Runs-statement _ _ stable (record {
    at = λ w p. answered _ w (
      p,
      take-All _ max_candidates _ (
          join_documents-IsJoined f of_bits (is_candidate songs artists album_key) user_id
            w.passage_plays w.dj_documents w.dj_chunks (sort_chunks w.dj_chunks)
            (sort_chunks-All _ w.dj_chunks (lists_itself w.dj_chunks))),
    );
  })
