-- ===== src/PassageApi/Early.antt =====
-- The parts of GET of passages (src/passages/api.rs, `lookup`): each leaves the passages as they were.
use any_player_sync_server.Prelude.{
  ℕ, ◌≡◌, inl, inr, refl, sym, subst, Bool, true, false, Option, none, some, List, [], ltb, any,
  All, Bool-cases,
}
use any_player_sync_server.Strings.{is_empty}
use any_player_sync_server.World.{World, now}
use any_player_sync_server.World.Rows.{DjDocumentRow}
use any_player_sync_server.World.Runs.{
  Outcome, answered, refused, Runs, Outcome-bind, Outcome-pure, Outcome-lift, Runs-statement,
}
use any_player_sync_server.MatchKeys.{Unicode, match_key, base_title}
use any_player_sync_server.Rank.{Floats, Candidate, select, budget_tokens}
use any_player_sync_server.Rank.Outcome.{Promises, select-Promises}
use any_player_sync_server.Jobs.{
  TrackRequest, Keys, Enqueue, newly_queued, already_queued, recently_done, enqueue, insert_job,
  requeue, job_keys, auto_count_today, has_keys, is_listed, auto_daily_limit,
}
use any_player_sync_server.Jobs.Insertion.{enqueue-Outcome}
use any_player_sync_server.Store.{Embed}
use any_player_sync_server.PassageApi.{PassageQuery, PassageResponse, engine}
use any_player_sync_server.PassageApi.Requests.{
  auto_queue, enqueue_within, rank_candidates, query_vector, track_of, is_song, queue_answer,
}
use any_player_sync_server.PassageApi.Quota.{or_db_error-Outcome}
use any_player_sync_server.PassageApi.Served.{
  SamePassages, SamePassages-stable, IsServed, Joined, respond-IsServed,
}

module _ (w : World) where
  abbrev pub Same : {A : Type 0} → A → World → Type 0
  Same a v = SamePassages w v

  -- A response without passages, or none yet.
  abbrev pub IsSilent : Option PassageResponse → Type 0
  IsSilent none = Unit {0}
  IsSilent (some response) = response.passages ≡ []

  abbrev pub Early : Option PassageResponse → World → Type 0
  Early o v = SamePassages w v × IsSilent o

  insert_job-Same :
      (k : Keys) (track : TrackRequest) (s : ℕ)
      → Runs (SamePassages w) Same (insert_job k track (some s) true)
  unfolding insert_job
  insert_job-Same k track s = record {
    at = λ v h. elim (Bool-cases (any (has_keys k) v.jobs)) [
      | inl e ↦ rw e (answered none v h)
      | inr e ↦ elim (Bool-cases (is_listed (some s) v)) [
        | inr e' ↦ rw (e, e') (refused _ v h)
        | inl e' ↦
            rw (e, e')
              (answered (some v.next_job) _ (record {
                documents = h.documents;
                chunks = h.chunks;
                plays = h.plays;
                clock = h.clock;
              }))
      ]
    ];
  }

  requeue-Same : (k : Keys) (force : Bool) → Runs (SamePassages w) Same (requeue k force)
  unfolding requeue
  requeue-Same k force = record {
    at = λ v h.
        answered _ _
          (record { documents = h.documents; chunks = h.chunks; plays = h.plays; clock = h.clock });
  }

  enqueue-Same :
      (unicode : Unicode) (track : TrackRequest) (s : ℕ) (v : World)
      → SamePassages w v
      → Outcome (SamePassages w) Same (enqueue unicode track (some s) true false v)
  enqueue-Same unicode track s v h =
      let k = job_keys unicode track in
      enqueue-Outcome (SamePassages w) (SamePassages-stable w) k false (requeue-Same k false)
        (SamePassages w) (SamePassages w) unicode track (some s) true v refl (SamePassages-stable w)
        (λ _ g. g) (λ _ g. g) (insert_job-Same k track s) h

  auto_count-Same : (s : ℕ) → Runs (SamePassages w) Same (auto_count_today s)
  unfolding auto_count_today
  auto_count-Same s =
      Runs-statement _ _ (SamePassages-stable w) (record { at = λ v h. answered _ v h })

  queue_answer-IsSilent : (o : Enqueue) → (queue_answer o).passages ≡ []
  queue_answer-IsSilent newly_queued = refl
  queue_answer-IsSilent already_queued = refl
  queue_answer-IsSilent recently_done = refl

  module _ (f : Floats) (of_bits : ℕ → f.F32) (unicode : Unicode) where
    enqueue_within-Early :
        (q : PassageQuery) (s : ℕ) (cs : List (Candidate f)) (b : Bool) (v : World)
        → SamePassages w v
        → Outcome (SamePassages w) Early (enqueue_within f of_bits unicode q s cs b v)
    enqueue_within-Early q s cs true v h =
        let queued =
          or_db_error-Outcome "ingest enqueue failed" _ v
            (enqueue-Same unicode (track_of q) s v h) in
        elim (Bool-cases (is_empty cs)) [
          | inl e ↦ rw e (
              Outcome-bind _ _ v queued
                λ outcome after k _. Outcome-pure _ after (k, queue_answer-IsSilent outcome))
          | inr e ↦
              rw e (Outcome-bind _ _ v queued λ outcome after k _. Outcome-pure _ after (k, tt))
        ]
    enqueue_within-Early q s cs false v h = elim (Bool-cases (is_empty cs)) [
      | inl e ↦ rw e (Outcome-pure _ v (h, refl))
      | inr e ↦ rw e (Outcome-pure _ v (h, tt))
    ]

    pub auto_queue-Early :
        (q : PassageQuery) (s : ℕ) (cs : List (Candidate f)) (v : World)
        → SamePassages w v
        → Outcome (SamePassages w) Early (auto_queue f of_bits unicode q s cs v)
    unfolding auto_queue
    auto_queue-Early q s cs v h = elim (Bool-cases (any (λ c. is_song c.subject) cs)) [
      | inl e ↦ rw e (Outcome-pure _ v (h, tt))
      | inr e ↦ rw e (
          Outcome-bind _ _ v
            (or_db_error-Outcome "ingest quota failed" _ v ((auto_count-Same s).at v h))
            λ count after k _. enqueue_within-Early q s cs (ltb count auto_daily_limit) after k)
    ]

    query_vector-Same :
        (o : Option (List (List ℕ))) (v : World)
        → SamePassages w v
        → Outcome (SamePassages w) Same (query_vector f of_bits o, v)
    query_vector-Same none v h = refused _ v h
    query_vector-Same (some vectors) v h = answered _ v h

    now-Same : Runs (SamePassages w) (λ time v. SamePassages w v × (time ≡ w.clock)) now
    unfolding now
    now-Same = record { at = λ v h. answered _ v (h, h.clock) }

    pub engine-Same :
        (passages : Option Embed) (v : World)
        → SamePassages w v
        → Outcome (SamePassages w) Same (engine passages, v)
    engine-Same none v h = refused _ v h
    engine-Same (some e) v h = answered e v h

    module _ (passes : DjDocumentRow → Bool) (user_id : ℕ) where
      abbrev pub Served : PassageResponse → World → Type 0
      Served response v =
          SamePassages w v × All (IsServed f of_bits passes user_id w) response.passages

      pub rank-Served :
          (e : Embed) (q : PassageQuery) (cs : List (Candidate f)) (o : Option PassageResponse)
          (v : World)
          → All (Joined f of_bits passes user_id w) cs
          → SamePassages w v
          → IsSilent o
          → Outcome (SamePassages w) Served (rank_candidates f of_bits unicode e q cs o v)
      rank-Served e q cs (some response) v all h silent = Outcome-pure response v (h, rw silent tt)
      rank-Served e q cs none v all h silent =
          Outcome-bind _ _ v (Outcome-lift _ v (query_vector-Same (e.embed _ _) v h))
            λ vector at1 k _. Outcome-bind _ _ at1 (now-Same.at at1 k) λ time at2 (k', same) _.
              Outcome-pure _ at2 (
                k',
                respond-IsServed f of_bits passes user_id w unicode vector
                    (match_key unicode (base_title unicode q.song)) budget_tokens cs _ all
                    (subst
                      (λ t.
                        Promises f unicode vector (match_key unicode (base_title unicode q.song))
                          w.clock budget_tokens cs
                          (select f unicode cs vector
                            (match_key unicode (base_title unicode q.song)) t budget_tokens))
                      (sym same)
                      (select-Promises f unicode vector
                        (match_key unicode (base_title unicode q.song)) w.clock budget_tokens cs)),
              )
