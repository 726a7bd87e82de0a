-- ===== src/Store/Queries.antt =====
-- src/passages/store.rs: the passages on a song, the plays of passages, and whether a source has
-- been read lately. A vector of bit patterns is read with `of_bits`.
use any_player_sync_server.Prelude.{
  ℕ, ◌+◌, Bool, true, false, not, ◌&&◌, Option, none, some, List, [], ◌∷◌, ◌++◌, Text, text_eq, ltb,
  leb, ◌==◌, any, find, take, if◌then◌else◌, map,
}
use any_player_sync_server.Errors.{ok, err}
use any_player_sync_server.Strings.{starts_with}
use any_player_sync_server.World.{Action, statement}
use any_player_sync_server.World.Rows.{DjDocumentRow, DjChunkRow, DjPassagePlayRow}
use any_player_sync_server.Rank.{Subject, song, album, artist, Floats, Candidate}
use any_player_sync_server.Jobs.{sqlx_error, thirty_days}
use any_player_sync_server.Store.{has_document_id}

abbrev later_of : ℕ → Option ℕ → Option ℕ
later_of time none = some time
later_of time (some other) = some (if leb time other then other else time)

-- SELECT MAX(p.played_at)
unfoldable pub last_played : ℕ → ℕ → List DjPassagePlayRow → Option ℕ
last_played user_id chunk_id [] = none
last_played user_id chunk_id (p ∷ ps) =
    let rest = last_played user_id chunk_id ps in
    if p.user_id == user_id && p.chunk_id == chunk_id then later_of p.played_at rest else rest

-- column = ANY(keys), where NULL is equal to nothing
abbrev pub is_any : List Text → Option Text → Bool
is_any keys none = false
is_any keys (some key) = any (text_eq key) keys

abbrev pub album_keys : Option Text → List Text
album_keys none = []
album_keys (some key) = key ∷ []

-- The WHERE clause.
abbrev pub is_on : List Text → List Text → Option Text → DjDocumentRow → Subject → Bool
is_on songs artists album_key d song = is_any songs d.song_key && any (text_eq d.artist_key) artists
is_on songs artists album_key d album =
    is_any (album_keys album_key) d.album_key && any (text_eq d.artist_key) artists
is_on songs artists album_key d artist = any (text_eq d.artist_key) artists

unfoldable pub is_candidate : List Text → List Text → Option Text → DjDocumentRow → Bool
unfolding text_eq
is_candidate songs artists album_key d = is_on songs artists album_key d d.subject

-- ORDER BY c.id
unfoldable pub insert_chunk_by_id : DjChunkRow → List DjChunkRow → List DjChunkRow
insert_chunk_by_id c [] = c ∷ []
insert_chunk_by_id c (d ∷ ds) =
    let later = insert_chunk_by_id c ds in if ltb d.id c.id then d ∷ later else c ∷ d ∷ ds

unfoldable pub sort_chunks : List DjChunkRow → List DjChunkRow
unfolding insert_chunk_by_id
sort_chunks [] = []
sort_chunks (c ∷ cs) = insert_chunk_by_id c (sort_chunks cs)

abbrev pub max_candidates : ℕ
max_candidates = 3000

module _ (f : Floats) (of_bits : ℕ → f.F32) where
  abbrev pub to_candidate : ℕ → List DjPassagePlayRow → DjChunkRow → DjDocumentRow → Candidate f
  to_candidate user_id plays c d = record {
    chunk_id = c.id;
    document_id = c.document_id;
    text = c.text;
    token_count = c.token_count;
    embedding = map of_bits c.embedding;
    source = d.source;
    source_url = d.source_url;
    title = d.title;
    subject = d.subject;
    lang = d.lang;
    last_played = last_played user_id c.id plays;
  }

  -- One row of the join, if the document passes.
  abbrev pub joined :
      (DjDocumentRow → Bool)
      → ℕ
      → List DjPassagePlayRow
      → DjChunkRow
      → Option DjDocumentRow
      → List (Candidate f)
      → List (Candidate f)
  joined passes user_id plays c none rest = rest
  joined passes user_id plays c (some d) rest =
      if passes d then to_candidate user_id plays c d ∷ rest else rest

  unfoldable pub join_documents :
      (DjDocumentRow → Bool)
      → ℕ
      → List DjPassagePlayRow
      → List DjDocumentRow
      → List DjChunkRow
      → List (Candidate f)
  unfolding last_played
  join_documents passes user_id plays ds [] = []
  join_documents passes user_id plays ds (c ∷ cs) =
      joined passes user_id plays c (find (has_document_id c.document_id) ds)
        (join_documents passes user_id plays ds cs)

  unfoldable pub candidates : List Text → List Text → Option Text → ℕ → Action (List (Candidate f))
  unfolding join_documents sort_chunks is_candidate
  candidates songs artists album_key user_id = statement sqlx_error λ w. (
    ok (
        take max_candidates (
          join_documents (is_candidate songs artists album_key) user_id w.passage_plays
            w.dj_documents (sort_chunks w.dj_chunks))),
    w,
  )

abbrev pub is_passage_play : ℕ → Text → ℕ → DjPassagePlayRow → Bool
is_passage_play user_id event_id chunk_id p =
    p.user_id == user_id && text_eq p.event_id event_id && p.chunk_id == chunk_id

abbrev pub new_passage_play : ℕ → Text → ℕ → ℕ → DjPassagePlayRow
new_passage_play user_id event_id chunk_id played_at = record {
  user_id = user_id;
  event_id = event_id;
  chunk_id = chunk_id;
  played_at = played_at;
}

-- One row for each chunk that is there, unless it has one. ON CONFLICT DO NOTHING
unfoldable pub add_plays :
    ℕ → Text → List ℕ → ℕ → List DjChunkRow → List DjPassagePlayRow → List DjPassagePlayRow
unfolding text_eq
add_plays user_id event_id ids played_at [] plays = plays
add_plays user_id event_id ids played_at (c ∷ cs) plays =
    let added = plays ++ new_passage_play user_id event_id c.id played_at ∷ [] in
    let rest = add_plays user_id event_id ids played_at cs plays in
    let more = add_plays user_id event_id ids played_at cs added in
    if any (λ id. id == c.id) ids && not (any (is_passage_play user_id event_id c.id) plays)
    then more
    else rest

-- `user_id` references `users`.
unfoldable pub record_plays : ℕ → Text → List ℕ → ℕ → Action (Unit {0})
unfolding add_plays
record_plays user_id event_id ids played_at = statement sqlx_error λ w.
    if any (λ u. u.id == user_id) w.users
    then (
      ok tt,
      record w {
        passage_plays = add_plays user_id event_id ids played_at w.dj_chunks w.passage_plays;
      },
    )
    else (err sqlx_error, w)

abbrev pub key_column : Subject → DjDocumentRow → Option Text
key_column song d = d.song_key
key_column album d = d.album_key
key_column artist d = some d.artist_key

abbrev pub same_subject : Subject → Subject → Bool
same_subject song song = true
same_subject album album = true
same_subject artist artist = true
same_subject _ _ = false

-- The source begins with the prefix, which has no wildcard in it.
unfoldable pub fresh : Text → Subject → Text → List Text → Action Bool
unfolding starts_with text_eq
fresh source_prefix subject key artists = statement sqlx_error λ w. (
  ok (
      any
        (λ d.
          starts_with d.source source_prefix
          && same_subject d.subject subject
          && is_any (key ∷ []) (key_column subject d)
          && any (text_eq d.artist_key) artists
          && ltb w.clock (d.fetched_at + thirty_days))
        w.dj_documents),
  w,
)
