-- ===== src/Store/Refreshed.antt =====
-- The time at which a document was fetched (src/passages/store.rs, `upsert_document`) is not seen.
use any_player_sync_server.Prelude.{
  ℕ, ◌<◌, All, ◌≡◌, ◌≢◌, refl, Bool, true, false, Option, some, List, [], ◌∷◌, find, update_where,
  Bool-cases, inl, inr, if◌then◌else◌,
}
use any_player_sync_server.World.Rows.{DjDocumentRow, DjChunkRow}
use any_player_sync_server.Store.{has_document_id}
use any_player_sync_server.Store.View.{row_content, Distinct}

module _ (cs : List DjChunkRow) (id time : ℕ) (p : DjDocumentRow → Bool)
    (same : (d : DjDocumentRow) → p (record d { fetched_at = time }) ≡ p d) where
  abbrev touched : DjDocumentRow → DjDocumentRow
  touched d = record d { fetched_at = time }

  touched_head :
      (b : Bool) (d : DjDocumentRow) (rest after : Option DjDocumentRow)
      → row_content cs after ≡ row_content cs rest
      → row_content cs
          (if p (if b then touched d else d) then some (if b then touched d else d) else after)
        ≡ row_content cs (if p d then some d else rest)
  touched_head true d rest after h = elim (Bool-cases (p d)) [
    | inl e ↦ rw (same d, e) refl
    | inr e ↦ rw (same d, e) h
  ]
  touched_head false d rest after h = elim (Bool-cases (p d)) [ inl e ↦ rw e refl | inr e ↦ rw e h ]

  -- The time at which a document was fetched is not part of the map.
  pub touched_content :
      (ds : List DjDocumentRow)
      → row_content cs (find p (update_where (has_document_id id) touched ds))
        ≡ row_content cs (find p ds)
  touched_content [] = refl
  touched_content (d ∷ ds) = touched_head (has_document_id id d) d _ _ (touched_content ds)

pub touched_below :
    (id time n : ℕ) (ds : List DjDocumentRow)
    → All (λ d. d.id < n) ds
    → All
        (λ d. d.id < n)
        (update_where (has_document_id id) (λ d. record d { fetched_at = time }) ds)
touched_below id time n [] h = tt
touched_below id time n (d ∷ ds) (b, h) = elim (Bool-cases (has_document_id id d)) [
  | inl e ↦ rw e (b, touched_below id time n ds h)
  | inr e ↦ rw e (b, touched_below id time n ds h)
]

touched_apart :
    (id time n : ℕ) (ds : List DjDocumentRow)
    → All (λ e. n ≢ e.id) ds
    → All
        (λ e. n ≢ e.id)
        (update_where (has_document_id id) (λ d. record d { fetched_at = time }) ds)
touched_apart id time n [] h = tt
touched_apart id time n (d ∷ ds) (b, h) = elim (Bool-cases (has_document_id id d)) [
  | inl e ↦ rw e (b, touched_apart id time n ds h)
  | inr e ↦ rw e (b, touched_apart id time n ds h)
]

pub touched-Distinct :
    (id time : ℕ) (ds : List DjDocumentRow)
    → Distinct ds
    → Distinct (update_where (has_document_id id) (λ d. record d { fetched_at = time }) ds)
touched-Distinct id time [] h = tt
touched-Distinct id time (d ∷ ds) (b, h) = elim (Bool-cases (has_document_id id d)) [
  | inl e ↦ rw e (touched_apart id time d.id ds b, touched-Distinct id time ds h)
  | inr e ↦ rw e (touched_apart id time d.id ds b, touched-Distinct id time ds h)
]
