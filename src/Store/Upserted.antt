-- ===== src/Store/Upserted.antt =====
-- What the INSERT of `upsert_document` (src/passages/store.rs) does to the table of documents.
use any_player_sync_server.Prelude.{
  ℕ, ◌+◌, ◌≤◌, ◌<◌, ◌≡◌, ◌≢◌, refl, sym, ap, subst, Bool, true, false, ◌&&◌, Option, none, some,
  List, [], ◌∷◌, ◌++◌, Text, text_eq, text_eq_iff, text_eq_refl, All, All-append, find,
  update_where, find-update_where, arith, Bool-cases, inl, inr,
}
use any_player_sync_server.Prelude.Kept.{All-listed}
use any_player_sync_server.Accounts.Lookup.{find_sound, find-append_new}
use any_player_sync_server.Facts.Consistent.{find-any}
use any_player_sync_server.World.{World}
use any_player_sync_server.World.Rows.{DjDocumentRow}
use any_player_sync_server.World.Keeps.{IsStable}
use any_player_sync_server.World.Runs.{Outcome, answered, refused, Runs}
use any_player_sync_server.MatchKeys.{Unicode, match_key}
use any_player_sync_server.Jobs.{is_listed}
use any_player_sync_server.Store.{
  NewDocument, Piece, is_document_of, optional_key, new_document, replaced, insert_or_update,
  upsert_row,
}
use any_player_sync_server.Store.View.{
  Content, with_pieces, Distinct, IsNumbered, Distinct-same, find-update_other, find-append_other,
}

-- The content that a document is stored as.
abbrev pub new_content : Unicode → NewDocument → Text → List Piece → Content
new_content unicode doc hash pieces = record {
  source_url = doc.source_url;
  subject = doc.subject;
  song_key = optional_key unicode doc.song;
  album_key = optional_key unicode doc.album;
  artist_key = match_key unicode doc.artist;
  title = doc.title;
  lang = doc.lang;
  body = doc.body;
  hash = hash;
  pieces = pieces;
}

abbrev pub is_key : NewDocument → Text → Text → Bool
is_key doc source source_ref = text_eq doc.source source && text_eq doc.source_ref source_ref

-- Whatever follows, the row of the document is known, and the others are as before.
pub record Upserts (unicode : Unicode) (doc : NewDocument) (hash : Text) (w : World) (id : ℕ)
    (v : World) : Type 0 where
  pub row : DjDocumentRow
  pub found : find (is_document_of doc.source doc.source_ref) v.dj_documents ≡ some row
  pub number : row.id ≡ id
  pub says : (pieces : List Piece) → with_pieces row pieces ≡ new_content unicode doc hash pieces
  pub others :
      (s r : Text)
      → is_key doc s r ≡ false
      → find (is_document_of s r) v.dj_documents ≡ find (is_document_of s r) w.dj_documents
  pub apart :
      (s r : Text) (d : DjDocumentRow)
      → is_key doc s r ≡ false
      → find (is_document_of s r) w.dj_documents ≡ some d
      → d.id ≢ id
  pub chunks : v.dj_chunks ≡ w.dj_chunks
  pub numbered : IsNumbered v
  pub ahead : w.next_dj_document ≤ v.next_dj_document

-- Two keys that one row has are one.
same_key :
    (doc : NewDocument) (s r : Text) (d : DjDocumentRow)
    → is_document_of doc.source doc.source_ref d ≡ true
    → is_document_of s r d ≡ true
    → is_key doc s r ≡ true
unfolding is_document_of
same_key doc s r d h k =
    let a = (text_eq_iff d.source doc.source).0 (ground (arith, h)) in
    let b = (text_eq_iff d.source_ref doc.source_ref).0 (ground (arith, h)) in
    let c : text_eq d.source s ≡ true = ground (arith, k) in
    let e : text_eq d.source_ref r ≡ true = ground (arith, k) in
    let c' = subst (λ t. text_eq t s ≡ true) a c in
    let e' = subst (λ t. text_eq t r ≡ true) b e in ground (arith, c', e')

other_key :
    (doc : NewDocument) (s r : Text)
    → is_key doc s r ≡ false
    → (d : DjDocumentRow) → is_document_of doc.source doc.source_ref d ≡ true
    → is_document_of s r d ≡ false
other_key doc s r other d h = elim (Bool-cases (is_document_of s r d)) [
  | inl e ↦ absurd (ground (arith, other, same_key doc s r d h e))
  | inr e ↦ e
]

append-Distinct :
    (ds : List DjDocumentRow) (x : DjDocumentRow)
    → All (λ d. d.id < x.id) ds
    → Distinct ds
    → Distinct (ds ++ x ∷ [])
append-Distinct [] x h k = (tt, tt)
append-Distinct (d ∷ ds) x (p, h) (fresh, k) = (
  All-append _ ds (x ∷ []) fresh ((λ same. omega (arith, p, same)), tt),
  append-Distinct ds x h k,
)

pub below-le :
    (m n : ℕ) (ds : List DjDocumentRow) → m ≤ n → All (λ d. d.id < m) ds → All (λ d. d.id < n) ds
below-le m n [] e h = tt
below-le m n (d ∷ ds) e (p, h) = (omega (arith, e, p), below-le m n ds e h)

module _ (unicode : Unicode) (doc : NewDocument) (hash : Text) where
  abbrev mine : DjDocumentRow → Bool
  mine = is_document_of doc.source doc.source_ref

  update-IsNumbered :
      (time n : ℕ) (ds : List DjDocumentRow)
      → All (λ d. d.id < n) ds
      → All (λ d. d.id < n + 1) (update_where mine (replaced unicode time doc hash) ds)
  update-IsNumbered time n [] h = tt
  update-IsNumbered time n (d ∷ ds) (p, h) = elim (Bool-cases (mine d)) [
    | inl e ↦ rw e (omega (arith, p), update-IsNumbered time n ds h)
    | inr e ↦ rw e (omega (arith, p), update-IsNumbered time n ds h)
  ]

  update-Apart :
      (time : ℕ) (id : ℕ) (ds : List DjDocumentRow)
      → All (λ e. id ≢ e.id) ds
      → All (λ e. id ≢ e.id) (update_where mine (replaced unicode time doc hash) ds)
  update-Apart time id [] h = tt
  update-Apart time id (d ∷ ds) (p, h) = elim (Bool-cases (mine d)) [
    | inl e ↦ rw e (p, update-Apart time id ds h)
    | inr e ↦ rw e (p, update-Apart time id ds h)
  ]

  update-Distinct :
      (time : ℕ) (ds : List DjDocumentRow)
      → Distinct ds
      → Distinct (update_where mine (replaced unicode time doc hash) ds)
  update-Distinct time [] h = tt
  update-Distinct time (d ∷ ds) (p, h) = elim (Bool-cases (mine d)) [
    | inl e ↦ rw e (update-Apart time d.id ds p, update-Distinct time ds h)
    | inr e ↦ rw e (update-Apart time d.id ds p, update-Distinct time ds h)
  ]

-- The store is untouched, but for numbers that the sequence has given.
pub record SameStore (w v : World) : Type 0 where
  pub documents : v.dj_documents ≡ w.dj_documents
  pub chunks : v.dj_chunks ≡ w.dj_chunks
  pub next : w.next_dj_document ≤ v.next_dj_document

pub SameStore-stable : (w : World) → IsStable (SameStore w)
SameStore-stable w = record {
  faults = λ v rest h. record { documents = h.documents; chunks = h.chunks; next = h.next };
}

module _ (unicode : Unicode) (doc : NewDocument) (hash : Text) (added_by : Option ℕ) (w : World)
    (numbered : IsNumbered w) where
  abbrev is_target : DjDocumentRow → Bool
  is_target = is_document_of doc.source doc.source_ref

  new-Key : (id time : ℕ) → is_target (new_document unicode id time doc hash added_by) ≡ true
  unfolding is_document_of
  new-Key id time = ground (arith, text_eq_refl doc.source, text_eq_refl doc.source_ref)

  apart_from :
      (s r : Text) (d old : DjDocumentRow)
      → is_key doc s r ≡ false
      → is_document_of s r d ≡ true
      → is_target old ≡ true
      → d ≡ old
      → ⊥
  apart_from s r d old other key old_key e =
      let elsewhere = other_key doc s r other d (subst (λ x. is_target x ≡ true) (sym e) old_key) in
      ground (arith, key, elsewhere)

  found-Upserts :
      (v : World) (old : DjDocumentRow)
      → find is_target w.dj_documents ≡ some old
      → SameStore w v
      → Outcome
          (SameStore w)
          (Upserts unicode doc hash w)
          (insert_or_update unicode doc hash added_by (some old) v)
  unfolding is_document_of
  found-Upserts v old e same =
      let f = replaced unicode v.clock doc hash in
      let (old_listed, old_key) = find_sound is_target w.dj_documents old e in
      answered old.id _ (record {
        row = f old;
        found = rw same.documents (find-update_where is_target f w.dj_documents old (λ r. refl) e);
        number = refl;
        says = λ pieces. refl;
        others = λ s r other. rw same.documents (
            find-update_other (is_document_of s r) is_target f w.dj_documents
              (other_key doc s r other) (λ x. refl));
        apart = λ s r d other k e'.
            let (listed, key) = find_sound (is_document_of s r) w.dj_documents d k in
            apart_from s r d old other key old_key
              (Distinct-same w.dj_documents d old numbered.distinct listed old_listed e');
        chunks = same.chunks;
        ahead = omega (arith, same.next);
        numbered = rw same.documents (record {
          below = update-IsNumbered unicode doc hash v.clock v.next_dj_document w.dj_documents (
              below-le w.next_dj_document v.next_dj_document w.dj_documents same.next
                numbered.below);
          distinct = update-Distinct unicode doc hash v.clock w.dj_documents numbered.distinct;
        });
      })

  fresh-Upserts :
      (v : World)
      → find is_target w.dj_documents ≡ none
      → SameStore w v
      → Outcome
          (SameStore w)
          (Upserts unicode doc hash w)
          (insert_or_update unicode doc hash added_by none v)
  fresh-Upserts v e same = elim (Bool-cases (is_listed added_by v)) [
    | inr b ↦ rw b (
        refused _ _ (record {
          documents = same.documents;
          chunks = same.chunks;
          next = omega (arith, same.next);
        }))
    | inl b ↦ rw b (
        answered v.next_dj_document _ (record {
          row = new_document unicode v.next_dj_document v.clock doc hash added_by;
          found = rw same.documents (
              find-append_new is_target w.dj_documents _ (find-any is_target _ e)
                (new-Key v.next_dj_document v.clock));
          number = refl;
          says = λ pieces. refl;
          others = λ s r other. rw same.documents (
              find-append_other (is_document_of s r) w.dj_documents _
                (other_key doc s r other _ (new-Key v.next_dj_document v.clock)));
          apart = λ s r d other k e'.
              let (listed, _) = find_sound (is_document_of s r) w.dj_documents d k in
              omega (arith, All-listed _ d w.dj_documents listed numbered.below, same.next, e');
          chunks = same.chunks;
          ahead = omega (arith, same.next);
          numbered =
              let below =
                below-le w.next_dj_document v.next_dj_document w.dj_documents same.next
                  numbered.below in
              rw same.documents (record {
                below =
                    All-append _ w.dj_documents _
                      (below-le v.next_dj_document (v.next_dj_document + 1) w.dj_documents
                        (omega arith) below)
                      (omega arith, tt);
                distinct = append-Distinct w.dj_documents _ below numbered.distinct;
              });
        }))
  ]

  upsert-by :
      (v : World) (o : Option DjDocumentRow)
      → find is_target w.dj_documents ≡ o
      → SameStore w v
      → Outcome
          (SameStore w)
          (Upserts unicode doc hash w)
          (insert_or_update unicode doc hash added_by o v)
  upsert-by v none e same = fresh-Upserts v e same
  upsert-by v (some old) e same = found-Upserts v old e same

  pub upsert_row-Upserts :
      Runs (SameStore w) (Upserts unicode doc hash w) (upsert_row unicode doc hash added_by)
  unfolding upsert_row
  upsert_row-Upserts = record {
    at = λ v same. upsert-by v _ (ap (find is_target) (sym same.documents)) same;
  }
