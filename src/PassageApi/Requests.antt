-- ===== src/PassageApi/Requests.antt =====
-- src/passages/api.rs: `lookup` and `played`.
use any_player_sync_server.Prelude.{
  ℕ, ◌+◌, Bool, true, false, not, ◌&&◌, Option, none, some, List, [], ◌∷◌, ◌++◌, Text, codes, leb,
  ltb, ◌==◌, any, find, length, if◌then◌else◌, map,
}
use any_player_sync_server.Errors.{Result, ok, err, bad_request, internal, plain}
use any_player_sync_server.Strings.{is_empty}
use any_player_sync_server.World.{Action, pure, lift, now, ◌>>=◌, ◌>>◌}
use any_player_sync_server.MatchKeys.{Unicode, match_key, base_title, song_keys, artist_keys}
use any_player_sync_server.Rank.{
  Subject, song, album, artist, Floats, Candidate, Selection, chosen, all_excluded, empty, select,
  budget_tokens,
}
use any_player_sync_server.Handlers.{Headers, authenticate_with_headers}
use any_player_sync_server.Jobs.{
  TrackRequest, Enqueue, newly_queued, already_queued, recently_done, enqueue, auto_count_today,
  auto_daily_limit,
}
use any_player_sync_server.Store.{Embed, query_kind, optional_key}
use any_player_sync_server.Store.Queries.{candidates, record_plays}
use any_player_sync_server.Facts.{refuse_unless}
use any_player_sync_server.Facts.Requests.{five_minutes}
use any_player_sync_server.PassageApi.{
  PassageQuery, Passage, PassageResponse, PlayedRequest, engine, valid, valid_or_absent,
  is_event_uuid, or_db_error, without_passages, max_played_chunks,
}

abbrev pub valid_query : PassageQuery → Bool
valid_query q = valid q.song && valid q.artist && valid_or_absent q.album

abbrev pub is_song : Subject → Bool
is_song song = true
is_song album = false
is_song artist = false

-- What is said while a track is being collected.
abbrev pub queue_answer : Enqueue → PassageResponse
queue_answer newly_queued = without_passages "queued"
queue_answer already_queued = without_passages "queued"
queue_answer recently_done = without_passages "none"

abbrev pub track_of : PassageQuery → TrackRequest
track_of q = record { song = q.song; artist = q.artist; album = q.album }

abbrev last_or_default : List (List ℕ) → List ℕ
last_or_default [] = []
last_or_default (v ∷ []) = v
last_or_default (v ∷ u ∷ vs) = last_or_default (u ∷ vs)

module _ (f : Floats) where
  abbrev pub to_passage : Candidate f → Passage
  to_passage c = record {
    chunk_id = c.chunk_id;
    text = c.text;
    source = c.source;
    source_url = c.source_url;
    title = c.title;
    subject = c.subject;
    lang = c.lang;
  }

  abbrev pub push_passage : Option (Candidate f) → List Passage → List Passage
  push_passage none ps = ps
  push_passage (some c) ps = to_passage c ∷ ps

  -- The filter_map over the chosen ids.
  unfoldable pub passages_of : List (Candidate f) → List ℕ → List Passage
  passages_of cs [] = []
  passages_of cs (id ∷ ids) = push_passage (find (λ c. c.chunk_id == id) cs) (passages_of cs ids)

  abbrev pub respond : List (Candidate f) → Selection → PassageResponse
  respond cs empty = without_passages "none"
  respond cs all_excluded = without_passages "exhausted"
  respond cs (chosen ids) = record { status = "ok"; passages = passages_of cs ids }

module _ (f : Floats) (of_bits : ℕ → f.F32) where
  -- The vector of the query; `pop` takes the last.
  abbrev pub query_vector : Option (List (List ℕ)) → Result (List f.F32)
  query_vector none = err (internal (plain "embedding failed"))
  query_vector (some vectors) = ok (map of_bits (last_or_default vectors))

module _ (f : Floats) (of_bits : ℕ → f.F32) (unicode : Unicode) where
  -- Without a passage on the song itself, the track is queued within the user's daily limit. An
  -- answer here is an early return.
  abbrev pub enqueue_within :
      PassageQuery → ℕ → List (Candidate f) → Bool → Action (Option PassageResponse)
  enqueue_within q user_id cs under_quota =
      if is_empty cs && not under_quota
      then pure (some (without_passages "none"))
      else if under_quota
      then (do
        outcome ←
            or_db_error "ingest enqueue failed"
              (enqueue unicode (track_of q) (some user_id) true false)
        pure (if is_empty cs then some (queue_answer outcome) else none))
      else pure none

  unfoldable pub auto_queue :
      PassageQuery → ℕ → List (Candidate f) → Action (Option PassageResponse)
  auto_queue q user_id cs = if any (λ c. is_song c.subject) cs then pure none else (do
    count ← or_db_error "ingest quota failed" (auto_count_today user_id)
    enqueue_within q user_id cs (ltb count auto_daily_limit))

  abbrev pub query_text : PassageQuery → Text
  query_text q =
      codes "the story behind "
      ++ (base_title unicode q.song
          ++ (codes " by "
              ++ (q.artist ++ codes ": background, writing, recording, meaning, reception")))

  abbrev pub rank_candidates :
      Embed → PassageQuery → List (Candidate f) → Option PassageResponse → Action PassageResponse
  rank_candidates e q cs (some response) = pure response
  rank_candidates e q cs none = do
    vector ← lift (query_vector f of_bits (e.embed (query_text q ∷ []) query_kind))
    time ← now
    pure (
        respond f cs (
          select f unicode cs vector (match_key unicode (base_title unicode q.song)) time
            budget_tokens))

  unfoldable pub lookup :
      (Text → Text) → Headers → Option Embed → PassageQuery → Action PassageResponse
  lookup hash_token headers passages q = do
    user ← authenticate_with_headers hash_token headers
    e ← lift (engine passages)
    lift (refuse_unless (valid_query q) (bad_request (plain "invalid song, artist or album")))
    cs ← or_db_error "passage lookup failed" (
        candidates f of_bits (song_keys unicode q.song) (artist_keys unicode q.artist)
          (optional_key unicode q.album) user.id)
    early ← auto_queue q user.id cs
    rank_candidates e q cs early

abbrev pub valid_passage_event : PlayedRequest → ℕ → Bool
valid_passage_event input time =
    is_event_uuid input.event_id
    && not (is_empty input.chunk_ids)
    && leb (length input.chunk_ids) max_played_chunks
    && leb input.played_at (time + five_minutes)

unfoldable pub played : (Text → Text) → Headers → Option Embed → PlayedRequest → Action (Unit {0})
played hash_token headers passages input = do
  user ← authenticate_with_headers hash_token headers
  lift (engine passages)
  time ← now
  lift (refuse_unless (valid_passage_event input time) (bad_request (plain "invalid played event")))
  or_db_error "played event failed"
      (record_plays user.id input.event_id input.chunk_ids input.played_at)
