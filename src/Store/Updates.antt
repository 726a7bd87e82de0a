-- ===== src/Store/Updates.antt =====
-- The map of Store.View after a document was stored (src/passages/store.rs, `upsert_document`).
use any_player_sync_server.Prelude.{
  ℕ, ◌≡◌, ◌≢◌, refl, ap, ◌∙◌, subst, false, Option, none, some, List, Text, text_eq_iff, keep, find,
  map, arith, Bool-cases, inl, inr, if◌then◌else◌,
}
use any_player_sync_server.World.{World}
use any_player_sync_server.World.Rows.{DjDocumentRow}
use any_player_sync_server.MatchKeys.{Unicode}
use any_player_sync_server.Store.{NewDocument, Piece, is_document_of, is_chunk_of}
use any_player_sync_server.Store.View.{
  Content, to_piece, with_pieces, row_content, content, IsNumbered,
}
use any_player_sync_server.Store.Upserted.{new_content, is_key, Upserts, below-le}
use any_player_sync_server.Store.Rechunked.{Rechunks}

-- The map after the update.
pub record Updates (w : World) (doc : NewDocument) (stored : Content) (v : World) : Type 0 where
  pub at : (s r : Text) → content v s r ≡ (if is_key doc s r then some stored else content w s r)
  pub numbered : IsNumbered v

module _ (unicode : Unicode) (doc : NewDocument) (hash : Text) (w : World) where
  content_own :
      (id : ℕ) (mid v : World) (pieces : List Piece)
      → Upserts unicode doc hash w id mid
      → Rechunks mid id pieces v
      → content v doc.source doc.source_ref ≡ some (new_content unicode doc hash pieces)
  unfolding content
  content_own id mid v pieces up re =
      let found = ap (find (is_document_of doc.source doc.source_ref)) re.documents ∙ up.found in
      ap (row_content v.dj_chunks) found
      ∙ ap some (
          ap (λ n. with_pieces up.row (map to_piece (keep (is_chunk_of n) v.dj_chunks))) up.number
          ∙ ap (with_pieces up.row) re.own
          ∙ up.says pieces)

  other_content :
      (id : ℕ) (mid v : World) (pieces : List Piece) (o : Option DjDocumentRow)
      → ((d : DjDocumentRow) → o ≡ some d → d.id ≢ id)
      → mid.dj_chunks ≡ w.dj_chunks
      → Rechunks mid id pieces v
      → row_content v.dj_chunks o ≡ row_content w.dj_chunks o
  other_content id mid v pieces none apart same re = refl
  other_content id mid v pieces (some d) apart same re =
      ap (λ cs. some (with_pieces d (map to_piece cs)))
        (re.others d.id (apart d refl) ∙ ap (keep (is_chunk_of d.id)) same)

  content_other :
      (id : ℕ) (mid v : World) (pieces : List Piece) (s r : Text)
      → Upserts unicode doc hash w id mid
      → Rechunks mid id pieces v
      → is_key doc s r ≡ false
      → content v s r ≡ content w s r
  unfolding content
  content_other id mid v pieces s r up re other =
      ap (row_content v.dj_chunks)
        (ap (find (is_document_of s r)) re.documents ∙ up.others s r other)
      ∙ other_content id mid v pieces (find (is_document_of s r) w.dj_documents)
          (λ d e. up.apart s r d other e) up.chunks re

  pub Upserts-Updates :
      (id : ℕ) (mid v : World) (pieces : List Piece)
      → Upserts unicode doc hash w id mid
      → Rechunks mid id pieces v
      → Updates w doc (new_content unicode doc hash pieces) v
  Upserts-Updates id mid v pieces up re = record {
    at = λ s r. elim (Bool-cases (is_key doc s r)) [
      | inl e ↦
          let same_source = (text_eq_iff doc.source s).0 (ground (arith, e)) in
          let same_ref = (text_eq_iff doc.source_ref r).0 (ground (arith, e)) in
          rw e (
            subst (λ t. content v t r ≡ some (new_content unicode doc hash pieces)) same_source
              (subst (λ t. content v doc.source t ≡ some (new_content unicode doc hash pieces))
                same_ref (content_own id mid v pieces up re)))
      | inr e ↦ rw e (content_other id mid v pieces s r up re e)
    ];
    numbered = record {
      below =
          below-le mid.next_dj_document v.next_dj_document v.dj_documents re.next
            (rw re.documents up.numbered.below);
      distinct = rw re.documents up.numbered.distinct;
    };
  }
