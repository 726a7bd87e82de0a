-- ===== src/Store/View.antt =====
-- The store of passages as a map: a source and a reference stand for at most one document, which is
-- its metadata and the list of its pieces.
use any_player_sync_server.Prelude.{
  ◌<◌, ◌≡◌, ◌≢◌, refl, sym, ap, ◌∙◌, Bool, true, false, not, Option, none, some, List, [], ◌∷◌,
  ◌++◌, Text, All, keep, find, update_where, map, arith,
}
use mathlib.Core.List.{Memᴰ}
use mathlib.Core.List.Memᴰ
use any_player_sync_server.Prelude.Kept.{All-listed}
use any_player_sync_server.World.{World}
use any_player_sync_server.World.Rows.{DjDocumentRow, DjChunkRow}
use any_player_sync_server.Rank.{Subject}
use any_player_sync_server.Store.{Piece, is_document_of, is_chunk_of}

-- What a document says; its number and the times are left out.
pub record Content : Type 0 where
  pub source_url : Text
  pub subject : Subject
  pub song_key : Option Text
  pub album_key : Option Text
  pub artist_key : Text
  pub title : Text
  pub lang : Text
  pub body : Text
  pub hash : Text
  pub pieces : List Piece

abbrev pub to_piece : DjChunkRow → Piece
to_piece c = record { text = c.text; vector = c.embedding; count = c.token_count }

abbrev pub with_pieces : DjDocumentRow → List Piece → Content
with_pieces d pieces = record {
  source_url = d.source_url;
  subject = d.subject;
  song_key = d.song_key;
  album_key = d.album_key;
  artist_key = d.artist_key;
  title = d.title;
  lang = d.lang;
  body = d.body;
  hash = d.content_hash;
  pieces = pieces;
}

abbrev pub row_content : List DjChunkRow → Option DjDocumentRow → Option Content
row_content cs none = none
row_content cs (some d) = some (with_pieces d (map to_piece (keep (is_chunk_of d.id) cs)))

-- The abstract map.
unfoldable pub content : World → Text → Text → Option Content
unfolding is_document_of
content w source source_ref =
    row_content w.dj_chunks (find (is_document_of source source_ref) w.dj_documents)

abbrev pub Distinct : List DjDocumentRow → Type 0
Distinct [] = Unit
Distinct (d ∷ ds) = All (λ e. d.id ≢ e.id) ds × Distinct ds

-- No two documents have one number, and the next number is free.
pub record IsNumbered (w : World) : Type 0 where
  pub below : All (λ d. d.id < w.next_dj_document) w.dj_documents
  pub distinct : Distinct w.dj_documents

pub Distinct-same :
    (ds : List DjDocumentRow) (d e : DjDocumentRow)
    → Distinct ds
    → Memᴰ d ds
    → Memᴰ e ds
    → d.id ≡ e.id
    → d ≡ e
Distinct-same [] d e h m n same = absurd (Memᴰ.not-nil m)
Distinct-same (x ∷ ds) d e (fresh, h) (Memᴰ.head a) (Memᴰ.head b) same = a ∙ sym b
Distinct-same (x ∷ ds) d e (fresh, h) (Memᴰ.head a) (Memᴰ.tail n) same =
    absurd (All-listed _ e ds n fresh (ap (λ y. y.id) (sym a) ∙ same))
Distinct-same (x ∷ ds) d e (fresh, h) (Memᴰ.tail m) (Memᴰ.head b) same =
    absurd (All-listed _ d ds m fresh (ap (λ y. y.id) (sym b) ∙ sym same))
Distinct-same (x ∷ ds) d e (fresh, h) (Memᴰ.tail m) (Memᴰ.tail n) same =
    Distinct-same ds d e h m n same

module _ {A : Type 0} where
  -- A write to other items is not seen.
  pub find-update_other :
      (p q : A → Bool) (f : A → A) (xs : List A)
      → ((x : A) → q x ≡ true → p x ≡ false)
      → ((x : A) → p (f x) ≡ p x)
      → find p (update_where q f xs) ≡ find p xs
  find-update_other p q f [] other same = refl
  find-update_other p q f (x ∷ xs) other same =
      ground (arith, other x, same x, find-update_other p q f xs other same)

  pub find-append_other :
      (p : A → Bool) (xs : List A) (x : A) → p x ≡ false → find p (xs ++ x ∷ []) ≡ find p xs
  find-append_other p [] x e = ground (arith, e)
  find-append_other p (y ∷ xs) x e = ground (arith, find-append_other p xs x e)

  pub keep-++ : (p : A → Bool) (xs ys : List A) → keep p (xs ++ ys) ≡ keep p xs ++ keep p ys
  keep-++ p [] ys = refl
  keep-++ p (x ∷ xs) ys = ground (arith, keep-++ p xs ys)

  -- Taking out items that the test does not select changes nothing.
  pub keep-keep :
      (p q : A → Bool) (xs : List A)
      → ((x : A) → p x ≡ true → q x ≡ true)
      → keep p (keep q xs) ≡ keep p xs
  keep-keep p q [] h = refl
  keep-keep p q (x ∷ xs) h = ground (arith, h x, keep-keep p q xs h)

  pub keep-not : (p : A → Bool) (xs : List A) → keep p (keep (λ x. not (p x)) xs) ≡ []
  keep-not p [] = refl
  keep-not p (x ∷ xs) = ground (arith, keep-not p xs)
