-- ===== src/PassageApi/Lookup.antt =====
-- The answer of GET of passages (src/passages/api.rs, `lookup`), statement by statement.
use any_player_sync_server.Prelude.{ℕ, ◌≡◌, sym, Bool, true, Option, List, Text, All}
use any_player_sync_server.Errors.{ok}
use any_player_sync_server.Models.{AuthenticatedUser}
use any_player_sync_server.World.{World}
use any_player_sync_server.World.Rows.{DjDocumentRow}
use any_player_sync_server.World.Runs.{Outcome, Runs, Outcome-bind, Outcome-lift, Outcome-weaken}
use any_player_sync_server.MatchKeys.{Unicode, song_keys, artist_keys}
use any_player_sync_server.Rank.{Floats, Candidate}
use any_player_sync_server.Handlers.{Headers, authenticate_with_headers}
use any_player_sync_server.Handlers.Touched.{OnlyTouched}
use any_player_sync_server.Handlers.Authenticated.{authenticate-Outcome}
use any_player_sync_server.Store.{Embed, optional_key}
use any_player_sync_server.Store.Queries.{is_candidate, candidates}
use any_player_sync_server.Store.Joined.{candidates-IsJoined}
use any_player_sync_server.Facts.Lookup.{refuse_unless-Outcome}
use any_player_sync_server.PassageApi.{PassageQuery, PassageResponse}
use any_player_sync_server.PassageApi.Requests.{lookup, valid_query}
use any_player_sync_server.PassageApi.Quota.{or_db_error-Outcome}
use any_player_sync_server.PassageApi.Served.{SamePassages, SamePassages-stable, IsServed, Joined}
use any_player_sync_server.PassageApi.Early.{engine-Same, auto_queue-Early, rank-Served}

module _ (f : Floats) (of_bits : ℕ → f.F32) (unicode : Unicode) (hash_token : Text → Text)
    (headers : Headers) (q : PassageQuery) (w : World) where
  -- The document is on the song, the album or the artist of the query.
  abbrev pub is_on_query : DjDocumentRow → Bool
  is_on_query =
      is_candidate (song_keys unicode q.song) (artist_keys unicode q.artist)
        (optional_key unicode q.album)

  pub record IsAnswered (response : PassageResponse) (after : World) : Type 0 where
    pub user : AuthenticatedUser
    pub session : (authenticate_with_headers hash_token headers w).0 ≡ ok user
    pub valid : valid_query q ≡ true
    pub kept : SamePassages w after
    pub served : All (IsServed f of_bits is_on_query user.id w) response.passages

  abbrev Found : ℕ → List (Candidate f) → World → Type 0
  Found user_id cs v = SamePassages w v × All (Joined f of_bits is_on_query user_id w) cs

  candidates-Found :
      (user_id : ℕ)
      → Runs (SamePassages w) (Found user_id) (
          candidates f of_bits
            (song_keys unicode q.song)
            (artist_keys unicode q.artist)
            (optional_key unicode q.album)
            user_id)
  candidates-Found user_id = record {
    at = λ v h.
        Outcome-weaken _ (λ _ k. k)
          (λ cs after (k, all). (k, rw (sym k.plays, sym k.documents, sym k.chunks) all))
          ((candidates-IsJoined f of_bits (song_keys unicode q.song) (artist_keys unicode q.artist)
              (optional_key unicode q.album) user_id (SamePassages w) (SamePassages-stable w)).at
            v h);
  }

  -- Whatever statement fails: a lookup of passages never panics and leaves the documents, the chunks
  -- and the plays as they were. If it answers, the query was valid, and every passage of the answer
  -- is a stored chunk of a stored document on the song, the album or the artist of the query, and is
  -- not within the window in which the sender has played it.
  pub lookup_serves :
      (passages : Option Embed)
      → Outcome
          (SamePassages w)
          IsAnswered
          (lookup f of_bits unicode hash_token headers passages q w)
  unfolding lookup
  lookup_serves passages =
      Outcome-bind _ _ w
        (Outcome-weaken _ touched (λ _ v t. touched v t)
          (authenticate-Outcome hash_token headers w))
        λ user at1 h1 session.
          Outcome-bind _ _ at1
            (Outcome-lift _ at1 (engine-Same w f of_bits unicode passages at1 h1))
            λ e at2 h2 _.
              Outcome-bind _ _ at2
                (Outcome-lift _ at2 (refuse_unless-Outcome (valid_query q) _ at2 h2))
                λ _ at3 (h3, valid) _.
                  Outcome-bind _ _ at3
                    (or_db_error-Outcome "passage lookup failed" _ at3
                      ((candidates-Found user.id).at at3 h3))
                    λ cs at4 (h4, all) _.
                      Outcome-bind _ _ at4
                        (auto_queue-Early w f of_bits unicode q user.id cs at4 h4)
                        λ early at5 (h5, silent) _.
                          Outcome-weaken _ (λ _ k. k)
                            (λ response after (kept, served). record {
                              user = user;
                              session = session;
                              valid = valid;
                              kept = kept;
                              served = served;
                            })
                            (rank-Served w f of_bits unicode is_on_query user.id e q cs early at5
                              all h5 silent)
    where
      touched : (v : World) → OnlyTouched w v → SamePassages w v
      touched v t = record {
        documents = t.dj_documents;
        chunks = t.dj_chunks;
        plays = t.passage_plays;
        clock = t.clock;
      }
