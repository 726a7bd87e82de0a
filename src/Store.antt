-- ===== src/Store.antt =====
-- src/passages/store.rs: documents, their chunks and the plays of chunks. The tables of Unicode,
-- SHA-256 in hexadecimal, and the embedder are parameters; the embedder gives a vector as the bit
-- patterns of its numbers.
pub mod Queries
pub mod Joined
pub mod View
pub mod Upserted
pub mod Rechunked
pub mod Updates
pub mod Refreshed
pub mod Refines
pub mod Examples
use any_player_sync_server.Prelude.{
  ℕ, suc, ◌+◌, Bool, true, false, not, ◌&&◌, ◌||◌, Option, none, some, List, [], ◌∷◌, ◌++◌, Text,
  text_eq, ltb, leb, ◌==◌, any, keep, find, take, length, update_where, if◌then◌else◌,
}
use mathlib.Core.List.{map}
use any_player_sync_server.Errors.{Result, ok, err}
use any_player_sync_server.Chunk.{chunk}
use any_player_sync_server.Strings.{starts_with}
use any_player_sync_server.World.{World, Action, statement, pure, lift, transaction, ◌>>=◌, ◌>>◌}
use any_player_sync_server.World.Rows.{DjDocumentRow, DjChunkRow, DjPassagePlayRow}
use any_player_sync_server.MatchKeys.{Unicode, match_key, base_title}
use any_player_sync_server.Rank.{Subject, song, album, artist, Floats, Candidate}
use any_player_sync_server.Jobs.{sqlx_error, is_listed, thirty_days}

-- src/passages/mod.rs
pub record NewDocument : Type 0 where
  pub source : Text
  pub source_ref : Text
  pub source_url : Text
  pub subject : Subject
  pub song : Option Text
  pub album : Option Text
  pub artist : Text
  pub title : Text
  pub lang : Text
  pub body : Text

-- src/passages/embed.rs
pub data EmbedKind : Type 0 where
  query_kind passage_kind : EmbedKind

-- The trait Embed; `none` is an error.
pub record Embed : Type 0 where
  pub embed : List Text → EmbedKind → Option (List (List ℕ))
  pub count_tokens : Text → ℕ

-- embedding vector(384)
abbrev pub dimensions : ℕ
dimensions = 384

-- WHERE source=$1 AND source_ref=$2
unfoldable pub is_document_of : Text → Text → DjDocumentRow → Bool
unfolding text_eq
is_document_of source source_ref d = text_eq d.source source && text_eq d.source_ref source_ref

abbrev pub has_document_id : ℕ → DjDocumentRow → Bool
has_document_id id d = d.id == id

abbrev pub is_chunk_of : ℕ → DjChunkRow → Bool
is_chunk_of id c = c.document_id == id

abbrev pub optional_key : Unicode → Option Text → Option Text
optional_key unicode none = none
optional_key unicode (some s) = some (match_key unicode (base_title unicode s))

-- The row that is inserted.
abbrev pub new_document : Unicode → ℕ → ℕ → NewDocument → Text → Option ℕ → DjDocumentRow
new_document unicode id time doc hash added_by = record {
  id = id;
  source = doc.source;
  source_ref = doc.source_ref;
  source_url = doc.source_url;
  subject = doc.subject;
  song_key = optional_key unicode doc.song;
  album_key = optional_key unicode doc.album;
  artist_key = match_key unicode doc.artist;
  title = doc.title;
  lang = doc.lang;
  body = doc.body;
  content_hash = hash;
  fetched_at = time;
  added_by = added_by;
}

-- ON CONFLICT .. DO UPDATE SET: the number and `added_by` stay.
abbrev pub replaced : Unicode → ℕ → NewDocument → Text → DjDocumentRow → DjDocumentRow
replaced unicode time doc hash d = record d {
  source_url = doc.source_url;
  subject = doc.subject;
  song_key = optional_key unicode doc.song;
  album_key = optional_key unicode doc.album;
  artist_key = match_key unicode doc.artist;
  title = doc.title;
  lang = doc.lang;
  body = doc.body;
  content_hash = hash;
  fetched_at = time;
}

abbrev pub insert_or_update :
    Unicode → NewDocument → Text → Option ℕ → Option DjDocumentRow → Action ℕ
insert_or_update unicode doc hash added_by (some old) w = (
  ok old.id,
  record w {
    dj_documents =
        update_where (is_document_of doc.source doc.source_ref) (replaced unicode w.clock doc hash)
          w.dj_documents;
    next_dj_document = w.next_dj_document + 1;
  },
)
insert_or_update unicode doc hash added_by none w =
    if is_listed added_by w
    then (
      ok w.next_dj_document,
      record w {
        dj_documents =
            w.dj_documents
            ++ new_document unicode w.next_dj_document w.clock doc hash added_by ∷ [];
        next_dj_document = w.next_dj_document + 1;
      },
    )
    else (err sqlx_error, record w { next_dj_document = w.next_dj_document + 1 })

unfoldable pub upsert_row : Unicode → NewDocument → Text → Option ℕ → Action ℕ
unfolding is_document_of
upsert_row unicode doc hash added_by w =
    insert_or_update unicode doc hash added_by
      (find (is_document_of doc.source doc.source_ref) w.dj_documents) w

unfoldable pub delete_chunks : ℕ → Action (Unit {0})
delete_chunks id w = (
  ok tt,
  record w {
    dj_chunks = keep (λ c. not (is_chunk_of id c)) w.dj_chunks;
    passage_plays =
        keep (λ p. not (any (λ c. c.id == p.chunk_id && is_chunk_of id c) w.dj_chunks))
          w.passage_plays;
  },
)

-- A chunk before it is stored: text, vector and number of tokens.
pub record Piece : Type 0 where
  pub text : Text
  pub vector : List ℕ
  pub count : ℕ

-- texts.iter().zip(vectors).zip(counts)
unfoldable pub zipped : List Text → List (List ℕ) → List ℕ → List Piece
zipped (t ∷ ts) (v ∷ vs) (n ∷ ns) = record { text = t; vector = v; count = n } ∷ zipped ts vs ns
zipped [] vs ns = []
zipped (t ∷ ts) [] ns = []
zipped (t ∷ ts) (v ∷ vs) [] = []

abbrev pub new_chunk : ℕ → ℕ → ℕ → Piece → DjChunkRow
new_chunk id document_id ord p = record {
  id = id;
  document_id = document_id;
  ord = ord;
  text = p.text;
  token_count = p.count;
  embedding = p.vector;
}

unfoldable pub insert_chunk : ℕ → ℕ → Piece → Action (Unit {0})
insert_chunk document_id ord p w =
    if any (has_document_id document_id) w.dj_documents && length p.vector == dimensions
    then (
      ok tt,
      record w {
        dj_chunks = w.dj_chunks ++ new_chunk w.next_dj_chunk document_id ord p ∷ [];
        next_dj_chunk = w.next_dj_chunk + 1;
      },
    )
    else (err sqlx_error, w)

-- The loop over the pieces, from the place `ord` on.
unfoldable pub insert_chunks : ℕ → ℕ → List Piece → Action (Unit {0})
insert_chunks document_id ord [] = pure tt
insert_chunks document_id ord (p ∷ ps) = do
  statement sqlx_error (insert_chunk document_id ord p)
  insert_chunks document_id (suc ord) ps

-- UPDATE dj_documents SET fetched_at = NOW()
unfoldable pub touch_document : ℕ → Action (Unit {0})
touch_document id w = (
  ok tt,
  record w {
    dj_documents =
        update_where (has_document_id id) (λ d. record d { fetched_at = w.clock }) w.dj_documents;
  },
)

-- The document that is there already with the same body.
abbrev pub unchanged : Text → Option DjDocumentRow → Option ℕ
unchanged hash none = none
unchanged hash (some d) = if text_eq d.content_hash hash then some d.id else none

abbrev pub touch_or : Option ℕ → Action ℕ → Action ℕ
touch_or none rest = rest
touch_or (some id) rest = do statement sqlx_error (touch_document id); pure id

unfoldable pub select_existing : NewDocument → Action (Option DjDocumentRow)
unfolding is_document_of
select_existing doc w = (ok (find (is_document_of doc.source doc.source_ref) w.dj_documents), w)

module _ (embedder : Embed) where
  -- texts, counts and vectors, as one list
  abbrev pub pieces_of : List Text → Option (List (List ℕ)) → Result (List Piece)
  pieces_of texts none = err sqlx_error
  pieces_of texts (some vectors) = ok (zipped texts vectors (map embedder.count_tokens texts))

  -- The blocking task.
  unfoldable pub prepare : Text → Result (List Piece)
  unfolding chunk zipped
  prepare body =
      let texts = chunk embedder.count_tokens body in
      pieces_of texts (embedder.embed texts passage_kind)

-- pool.begin().await? and tx.commit().await?: statements that can fail. `transaction` does the rest.
abbrev pub begin_or_commit : Action (Unit {0})
begin_or_commit = statement sqlx_error (pure tt)

unfoldable pub store_pieces : Unicode → NewDocument → Text → Option ℕ → List Piece → Action ℕ
store_pieces unicode doc hash added_by pieces = transaction (do
  begin_or_commit
  id ← statement sqlx_error (upsert_row unicode doc hash added_by)
  statement sqlx_error (delete_chunks id)
  insert_chunks id 0 pieces
  begin_or_commit
  pure id)

module _ (unicode : Unicode) (sha256_hex : Text → Text) (embedder : Embed) where
  unfoldable pub upsert_document : NewDocument → Option ℕ → Action ℕ
  upsert_document doc added_by = do
    let hash = sha256_hex doc.body
    existing ← statement sqlx_error (select_existing doc)
    touch_or (unchanged hash existing) (do
      pieces ← lift (prepare embedder doc.body)
      store_pieces unicode doc hash added_by pieces)

unfoldable pub delete_document : ℕ → Action Bool
delete_document id = statement sqlx_error λ w. (
  ok (any (has_document_id id) w.dj_documents),
  record w {
    dj_documents = keep (λ d. not (has_document_id id d)) w.dj_documents;
    dj_chunks = keep (λ c. not (is_chunk_of id c)) w.dj_chunks;
    passage_plays =
        keep (λ p. not (any (λ c. c.id == p.chunk_id && is_chunk_of id c) w.dj_chunks))
          w.passage_plays;
  },
)
