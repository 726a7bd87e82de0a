-- ===== src/Store/Refines.antt =====
-- `upsert_document` (src/passages/store.rs) as an update of the map of Store.View.
use any_player_sync_server.Prelude.{
  ℕ, ◌≡◌, refl, sym, ap, ◌∙◌, Option, none, some, List, [], Text, text_eq, text_eq_iff, keep, find,
  map, Bool-cases, inl, inr, arith,
}
use any_player_sync_server.Errors.{ok}
use any_player_sync_server.World.{World, lift, ◌>>=◌}
use any_player_sync_server.World.Rows.{DjDocumentRow}
use any_player_sync_server.World.Runs.{
  Outcome, answered, refused, Runs, Outcome-bind, Outcome-pure, Outcome-lift, Outcome-weaken,
  Outcome-transaction, Runs-statement, Runs-pure,
}
use any_player_sync_server.World.Keeps.{IsStable, IsRestored}
use any_player_sync_server.MatchKeys.{Unicode}
use any_player_sync_server.Store.{
  NewDocument, Embed, Piece, is_document_of, is_chunk_of, store_pieces, prepare, pieces_of,
  touch_document, touch_or, unchanged, select_existing, upsert_document, begin_or_commit,
}
use any_player_sync_server.Store.View.{
  Content, to_piece, with_pieces, row_content, content, IsNumbered,
}
use any_player_sync_server.Store.Upserted.{
  new_content, below-le, SameStore, SameStore-stable, upsert_row-Upserts,
}
use any_player_sync_server.Store.Rechunked.{
  IsAhead, Rechunks-stable, delete-Rechunks, insert_chunks-Rechunks,
}
use any_player_sync_server.Store.Updates.{Updates, Upserts-Updates}
use any_player_sync_server.Store.Refreshed.{touched_content, touched_below, touched-Distinct}

-- The body was there already, and the map is as it was; or it is updated at the document's key.
pub data Refines (unicode : Unicode) (sha256_hex : Text → Text) (embedder : Embed)
    (doc : NewDocument) (w v : World) : Type 0 where
  kept :
      (c : Content)
      → content w doc.source doc.source_ref ≡ some c
      → c.hash ≡ sha256_hex doc.body
      → ((s r : Text) → content v s r ≡ content w s r)
      → IsNumbered v
      → Refines unicode sha256_hex embedder doc w v
  updated :
      (pieces : List Piece)
      → prepare embedder doc.body ≡ ok pieces
      → Updates w doc (new_content unicode doc (sha256_hex doc.body) pieces) v
      → Refines unicode sha256_hex embedder doc w v

-- The start or the end of a transaction, which may fail.
begun :
    (P R : World → Type 0)
    → IsStable P
    → (v : World) → P v
    → ((u : World) → P u → R u)
    → Outcome R (λ (_ : Unit {0}). P) (begin_or_commit v)
begun P R stable v p ahead =
    Outcome-weaken _ ahead (λ _ _ k. k)
      ((Runs-statement _ _ stable (Runs-pure tt (λ _ k. k))).at v p)

module _ (unicode : Unicode) (sha256_hex : Text → Text) (embedder : Embed) (doc : NewDocument)
    (added_by : Option ℕ) (w : World) (numbered : IsNumbered w) where
  abbrev body_hash : Text
  body_hash = sha256_hex doc.body

  SameStore-IsAhead : (u : World) → SameStore w u → IsAhead w u
  SameStore-IsAhead u same = record { next = same.next }

  SameStore-IsRestored : IsRestored (SameStore w) (IsAhead w)
  SameStore-IsRestored = record {
    restores =
        λ before after h k. record { documents = h.documents; chunks = h.chunks; next = k.next };
  }

  store_pieces-Updates :
      (pieces : List Piece) (v : World)
      → SameStore w v
      → Outcome
          (SameStore w)
          (λ id. Updates w doc (new_content unicode doc body_hash pieces))
          (store_pieces unicode doc body_hash added_by pieces v)
  unfolding store_pieces
  store_pieces-Updates pieces v same =
      Outcome-transaction {R = IsAhead w} _ v SameStore-IsRestored same (
        Outcome-bind _ _ v
          (begun (SameStore w) (IsAhead w) (SameStore-stable w) v same SameStore-IsAhead)
          λ _ at0 same0 _.
            Outcome-bind _ _ at0
              (Outcome-weaken _ SameStore-IsAhead (λ _ _ k. k)
                ((Runs-statement _ _ (SameStore-stable w)
                    (upsert_row-Upserts unicode doc body_hash added_by w numbered)).at
                  at0 same0))
              λ id mid up _.
                Outcome-bind _ _ mid
                  (Outcome-weaken _ (λ u k. record { next = omega (arith, up.ahead, k.next) })
                    (λ _ _ k. k)
                    ((Runs-statement _ _ (SameStore-stable mid) (delete-Rechunks mid id)).at mid
                      (record { documents = refl; chunks = refl; next = omega arith })))
                  λ _ at2 re _.
                    Outcome-bind _ _ at2
                      (Outcome-weaken _ (λ u k. record { next = omega (arith, up.ahead, k.next) })
                        (λ _ _ k. k) (insert_chunks-Rechunks mid id 0 pieces [] at2 re))
                      λ _ at3 re' _.
                        Outcome-bind _ _ at3
                          (begun _ (IsAhead w) (Rechunks-stable mid id _) at3 re'
                            λ u k. record { next = omega (arith, up.ahead, k.next) })
                          λ _ at4 re'' _.
                            Outcome-pure id at4
                              (Upserts-Updates unicode doc body_hash w id mid at4 pieces up re''))

  -- What the statement of an unchanged document leaves.
  touch-Kept :
      (id : ℕ)
      → Runs
          (SameStore w)
          (λ _ v. ((s r : Text) → content v s r ≡ content w s r) × IsNumbered v)
          (touch_document id)
  unfolding touch_document content is_document_of
  touch-Kept id = record {
    at = λ v same. answered tt _ (
      (λ s r.
          touched_content v.dj_chunks id v.clock (is_document_of s r) (λ d. refl) v.dj_documents
          ∙ rw (same.documents, same.chunks) refl),
      record {
        below = touched_below id v.clock _ _ (
            below-le w.next_dj_document v.next_dj_document v.dj_documents same.next
              (rw same.documents numbered.below));
        distinct = touched-Distinct id v.clock _ (rw same.documents numbered.distinct);
      },
    );
  }

  pieces-Outcome :
      (texts : List Text) (o : Option (List (List ℕ))) (v : World)
      → SameStore w v
      → Outcome
          (SameStore w)
          (λ pieces at'. SameStore w at' × (pieces_of embedder texts o ≡ ok pieces))
          (pieces_of embedder texts o, v)
  pieces-Outcome texts none v same = refused _ v same
  pieces-Outcome texts (some vectors) v same = answered _ v (same, refl)

  prepare-Outcome :
      (v : World)
      → SameStore w v
      → Outcome
          (SameStore w)
          (λ pieces at'. SameStore w at' × (prepare embedder doc.body ≡ ok pieces))
          (prepare embedder doc.body, v)
  unfolding prepare
  prepare-Outcome v same = pieces-Outcome _ _ v same

  new-Refines :
      (v : World)
      → SameStore w v
      → Outcome
          (SameStore w)
          (λ _. Refines unicode sha256_hex embedder doc w)
          ((lift (prepare embedder doc.body) >>= λ pieces.
              store_pieces unicode doc body_hash added_by pieces)
            v)
  new-Refines v same =
      Outcome-bind _ _ v (Outcome-lift _ v (prepare-Outcome v same)) λ pieces at1 (same1, e) _.
        Outcome-weaken _ (λ _ k. k) (λ _ _ h. updated pieces e h)
          (store_pieces-Updates pieces at1 same1)

  content_found :
      (d : DjDocumentRow)
      → find (is_document_of doc.source doc.source_ref) w.dj_documents ≡ some d
      → content w doc.source doc.source_ref
        ≡ some (with_pieces d (map to_piece (keep (is_chunk_of d.id) w.dj_chunks)))
  unfolding content
  content_found d e = ap (row_content w.dj_chunks) e

  select-Found :
      Runs
        (SameStore w)
        (λ o v.
          SameStore w v × (find (is_document_of doc.source doc.source_ref) w.dj_documents ≡ o))
        (select_existing doc)
  unfolding select_existing
  select-Found = record { at = λ v same. answered _ v (same, ap (find _) (sym same.documents)) }

  existing-Refines :
      (o : Option DjDocumentRow) (v : World)
      → find (is_document_of doc.source doc.source_ref) w.dj_documents ≡ o
      → SameStore w v
      → Outcome
          (SameStore w)
          (λ _. Refines unicode sha256_hex embedder doc w)
          (touch_or
            (unchanged body_hash o)
            (lift (prepare embedder doc.body) >>= λ pieces.
              store_pieces unicode doc body_hash added_by pieces)
            v)
  existing-Refines none v e same = new-Refines v same
  existing-Refines (some d) v e same = elim (Bool-cases (text_eq d.content_hash body_hash)) [
    | inr b ↦ rw b (new-Refines v same)
    | inl b ↦ rw b (
        Outcome-bind _ _ v ((Runs-statement _ _ (SameStore-stable w) (touch-Kept d.id)).at v same)
          λ _ after (kept_all, good) _.
            Outcome-pure d.id after (
              kept _ (content_found d e) ((text_eq_iff d.content_hash body_hash).0 b) kept_all
                good))
  ]

  -- Whatever statement fails, BEGIN and COMMIT included, with documents that are numbered apart:
  -- storing a document never panics, and if it is refused, the store is as it was, but for numbers
  -- that the sequence may have given. If it is accepted, and seen as a map from a source and a
  -- reference to a document and its pieces, the store has changed at the document's key only, where
  -- it now has the document, cut into chunks and embedded; or a document with the same hash was
  -- there, and the map has not changed. The numbers stay apart.
  pub upsert_document-Refines :
      Outcome
        (SameStore w)
        (λ _. Refines unicode sha256_hex embedder doc w)
        (upsert_document unicode sha256_hex embedder doc added_by w)
  unfolding upsert_document
  upsert_document-Refines =
      Outcome-bind _ _ w
        ((Runs-statement _ _ (SameStore-stable w) select-Found).at w
          (record { documents = refl; chunks = refl; next = omega arith }))
        λ existing at1 (same, e) _. existing-Refines existing at1 e same
