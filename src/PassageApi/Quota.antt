-- ===== src/PassageApi/Quota.antt =====
-- The daily limit of the tracks that a user's lookups queue (AUTO_DAILY_LIMIT).
use any_player_sync_server.Prelude.{
  ℕ, ◌+◌, ◌≤◌, ◌<◌, ◌≡◌, inl, inr, refl, subst, String, Bool, true, false, Option, none, some, List,
  [], ◌∷◌, ◌++◌, Text, ltb, ltb→lt, ◌==◌, any, keep, keep-append, keep-update_where, length, arith,
  Bool-cases,
}
use any_player_sync_server.Errors.{Result}
use any_player_sync_server.Strings.{is_empty}
use any_player_sync_server.World.{World, Action, now}
use any_player_sync_server.World.Rows.{JobRow}
use any_player_sync_server.World.Keeps.{IsStable}
use any_player_sync_server.World.Runs.{
  Outcome, answered, refused, Runs, Outcome-bind, Outcome-pure, Outcome-lift, Outcome-weaken,
  Runs-statement,
}
use any_player_sync_server.MatchKeys.{Unicode}
use any_player_sync_server.Rank.{Floats, Candidate}
use any_player_sync_server.Handlers.{Headers}
use any_player_sync_server.Handlers.Touched.{OnlyTouched}
use any_player_sync_server.Handlers.Authenticated.{authenticate-Outcome}
use any_player_sync_server.Jobs.{
  TrackRequest, Keys, enqueue, insert_job, new_job, requeue, requeued, is_requeued, job_keys,
  auto_count_today, auto_daily_limit, is_counted, has_keys, is_listed,
}
use any_player_sync_server.Jobs.Insertion.{enqueue-Outcome}
use any_player_sync_server.Store.{Embed}
use any_player_sync_server.Store.Queries.{candidates}
use any_player_sync_server.Facts.Lookup.{refuse_unless-Outcome}
use any_player_sync_server.PassageApi.{
  PassageQuery, PassageResponse, engine, or_db_error, in_context,
}
use any_player_sync_server.PassageApi.Requests.{
  lookup, auto_queue, enqueue_within, rank_candidates, query_vector, track_of, is_song, valid_query,
}

-- The automatic jobs of a user within the last day.
abbrev pub auto_jobs : ℕ → World → ℕ
auto_jobs user_id w = length (keep (is_counted user_id w.clock) w.jobs)

pub record InQuota (user_id : ℕ) (w : World) : Type 0 where
  pub within : auto_jobs user_id w ≤ auto_daily_limit

InQuota-stable : (user_id : ℕ) → IsStable (InQuota user_id)
InQuota-stable user_id = record { faults = λ w rest h. record { within = h.within } }

-- Any answer, within the quota.
abbrev Within : ℕ → {A : Type 0} → A → World → Type 0
Within user_id a w = InQuota user_id w

module _ {A : Type 0} {P : World → Type 0} {Q : A → World → Type 0} where
  in_context-Outcome :
      (context : String) (r : Result A × World)
      → Outcome P Q r
      → Outcome P Q (in_context context r.0, r.1)
  in_context-Outcome context r (answered a w q) = answered a w q
  in_context-Outcome context r (refused e w p) = refused _ w p

  pub or_db_error-Outcome :
      (context : String) (m : Action A) (w : World)
      → Outcome P Q (m w)
      → Outcome P Q (or_db_error context m w)
  unfolding or_db_error
  or_db_error-Outcome context m w h = in_context-Outcome context (m w) h

touched-InQuota : {u : ℕ} (w after : World) → InQuota u w → OnlyTouched w after → InQuota u after
touched-InQuota w after h t = record { within = rw (t.jobs, t.clock) h.within }

module _ (u : ℕ) where
  -- One more row counts for one at most, and for none if someone else has asked for it.
  added_at_most :
      (w : World) (j : JobRow)
      → auto_jobs u (record w { jobs = w.jobs ++ j ∷ [] }) ≤ auto_jobs u w + 1
  added_at_most w j = ground (arith, keep-append (is_counted u w.clock) w.jobs j)

  added_for_other :
      (w : World) (j : JobRow)
      → is_counted u w.clock j ≡ false
      → auto_jobs u (record w { jobs = w.jobs ++ j ∷ [] }) ≡ auto_jobs u w
  added_for_other w j e = ground (arith, e, keep-append (is_counted u w.clock) w.jobs j)

  -- Room for one more job of `s`, and the quota of `u`.
  pub record HasRoom (s : ℕ) (w : World) : Type 0 where
    pub room : auto_jobs s w < auto_daily_limit
    pub quota : InQuota u w

  HasRoom-stable : (s : ℕ) → IsStable (HasRoom s)
  HasRoom-stable s = record {
    faults = λ w rest h. record { room = h.room; quota = (InQuota-stable u).faults w rest h.quota };
  }

  -- A job that someone else has asked for is not counted.
  insert-InQuota :
      (k : Keys) (track : TrackRequest) (s : ℕ) (w : World)
      → HasRoom s w
      → Outcome (HasRoom s) (Within u) (insert_job k track (some s) true w)
  unfolding insert_job
  insert-InQuota k track s w h = elim (Bool-cases (any (has_keys k) w.jobs)) [
    | inl e ↦ rw e (answered none w h.quota)
    | inr e ↦ elim (Bool-cases (is_listed (some s) w)) [
      | inr e' ↦ rw (e, e') (refused _ w h)
      | inl e' ↦ rw (e, e') (answered (some w.next_job) _ (record { within = grown (s == u) refl }))
    ]
  ]
    where
      grown :
          (b : Bool)
          → (s == u) ≡ b
          → auto_jobs u
              (record w { jobs = w.jobs ++ new_job w.next_job w.clock k track (some s) true ∷ [] })
            ≤ auto_daily_limit
      grown true e =
          let same : s ≡ u = ground arith in
          let left : auto_jobs u w < auto_daily_limit =
            subst (λ n. auto_jobs n w < auto_daily_limit) same h.room in
          omega (arith, added_at_most w (new_job w.next_job w.clock k track (some s) true), left)
      grown false e = omega (
        arith,
        added_for_other w (new_job w.next_job w.clock k track (some s) true) (ground (arith, e)),
        h.quota.within,
      )

  requeue-InQuota : (k : Keys) (force : Bool) → Runs (InQuota u) (Within u) (requeue k force)
  unfolding requeue
  requeue-InQuota k force = record {
    at = λ w h. answered _ _ (record {
      within = omega (
        arith,
        h.within,
        keep-update_where (is_counted u w.clock) (is_requeued k force w.clock) (requeued w.clock)
            w.jobs (λ j. refl),
      );
    });
  }

  insert-Room :
      (k : Keys) (track : TrackRequest) (s : ℕ)
      → Runs (HasRoom s) (Within u) (insert_job k track (some s) true)
  insert-Room k track s = record { at = λ w h. insert-InQuota k track s w h }

  enqueue-InQuota :
      (unicode : Unicode) (track : TrackRequest) (s : ℕ) (w : World)
      → HasRoom s w
      → Outcome (InQuota u) (Within u) (enqueue unicode track (some s) true false w)
  enqueue-InQuota unicode track s w h =
      let k = job_keys unicode track in
      enqueue-Outcome (InQuota u) (InQuota-stable u) k false (requeue-InQuota k false) (HasRoom s)
        (InQuota u) unicode track (some s) true w refl (HasRoom-stable s) (λ v g. g.quota)
        (λ v g. g) (insert-Room k track s) h

  auto_count-InQuota :
      (s : ℕ)
      → Runs (InQuota u) (λ count w. InQuota u w × (count ≡ auto_jobs s w)) (auto_count_today s)
  unfolding auto_count_today
  auto_count-InQuota s =
      Runs-statement _ _ (InQuota-stable u) (record { at = λ w h. answered _ w (h, refl) })

  module _ (f : Floats) (of_bits : ℕ → f.F32) (unicode : Unicode) where
    enqueue_within-InQuota :
        (q : PassageQuery) (s : ℕ) (cs : List (Candidate f)) (b : Bool) (w : World)
        → (b ≡ true → auto_jobs s w < auto_daily_limit)
        → InQuota u w
        → Outcome (InQuota u) (Within u) (enqueue_within f of_bits unicode q s cs b w)
    enqueue_within-InQuota q s cs true w room h =
        let queued =
          or_db_error-Outcome "ingest enqueue failed" _ w
            (enqueue-InQuota unicode (track_of q) s w (record { room = room refl; quota = h })) in
        elim (Bool-cases (is_empty cs)) [
          | inl e ↦ rw e (Outcome-bind _ _ w queued λ outcome after k _. Outcome-pure _ after k)
          | inr e ↦ rw e (Outcome-bind _ _ w queued λ outcome after k _. Outcome-pure _ after k)
        ]
    enqueue_within-InQuota q s cs false w room h = elim (Bool-cases (is_empty cs)) [
      | inl e ↦ rw e (Outcome-pure _ w h)
      | inr e ↦ rw e (Outcome-pure _ w h)
    ]

    auto_queue-InQuota :
        (q : PassageQuery) (s : ℕ) (cs : List (Candidate f)) (w : World)
        → InQuota u w
        → Outcome (InQuota u) (Within u) (auto_queue f of_bits unicode q s cs w)
    unfolding auto_queue
    auto_queue-InQuota q s cs w h = elim (Bool-cases (any (λ c. is_song c.subject) cs)) [
      | inl e ↦ rw e (Outcome-pure _ w h)
      | inr e ↦ rw e (
          Outcome-bind _ _ w
            (or_db_error-Outcome "ingest quota failed" _ w ((auto_count-InQuota s).at w h))
            λ count after (k, same) _.
              enqueue_within-InQuota q s cs (ltb count auto_daily_limit) after
                (λ below. subst (λ n. n < auto_daily_limit) same (ltb→lt _ _ below)) k)
    ]

    query_vector-Outcome :
        (o : Option (List (List ℕ))) (w : World)
        → InQuota u w
        → Outcome (InQuota u) (Within u) (query_vector f of_bits o, w)
    query_vector-Outcome none w h = refused _ w h
    query_vector-Outcome (some vectors) w h = answered _ w h

    now-InQuota : Runs (InQuota u) (Within u) now
    unfolding now
    now-InQuota = record { at = λ w h. answered _ w h }

    rank-InQuota :
        (e : Embed) (q : PassageQuery) (cs : List (Candidate f)) (o : Option PassageResponse)
        (w : World)
        → InQuota u w
        → Outcome (InQuota u) (Within u) (rank_candidates f of_bits unicode e q cs o w)
    rank-InQuota e q cs (some response) w h = Outcome-pure response w h
    rank-InQuota e q cs none w h =
        Outcome-bind _ _ w (Outcome-lift _ w (query_vector-Outcome (e.embed _ _) w h))
          λ vector after k _.
            Outcome-bind _ _ after (now-InQuota.at after k) λ time at' k' _. Outcome-pure _ at' k'

    engine-InQuota :
        (passages : Option Embed) (w : World)
        → InQuota u w
        → Outcome (InQuota u) (Within u) (engine passages, w)
    engine-InQuota none w h = refused _ w h
    engine-InQuota (some e) w h = answered e w h

    candidates-InQuota :
        (songs artists : List Text) (album_key : Option Text) (s : ℕ)
        → Runs (InQuota u) (Within u) (candidates f of_bits songs artists album_key s)
    unfolding candidates
    candidates-InQuota songs artists album_key s =
        Runs-statement _ _ (InQuota-stable u) (record { at = λ w h. answered _ w h })

    -- Whatever statement fails: a lookup of passages never panics, and a user who had at most 200
    -- automatic jobs within the last day before it has at most 200 after it.
    pub lookup-InQuota :
        (hash_token : Text → Text) (headers : Headers) (passages : Option Embed) (q : PassageQuery)
        (w : World)
        → InQuota u w
        → Outcome (InQuota u) (Within u) (lookup f of_bits unicode hash_token headers passages q w)
    unfolding lookup
    lookup-InQuota hash_token headers passages q w h =
        Outcome-bind _ _ w
          (Outcome-weaken _ (λ _ t. touched-InQuota w _ h t) (λ _ _ t. touched-InQuota w _ h t)
            (authenticate-Outcome hash_token headers w))
          λ user at1 h1 _.
            Outcome-bind _ _ at1 (Outcome-lift _ at1 (engine-InQuota passages at1 h1)) λ e at2 h2 _.
              Outcome-bind _ _ at2
                (Outcome-lift _ at2 (refuse_unless-Outcome (valid_query q) _ at2 h2))
                λ _ at3 (h3, _) _.
                  Outcome-bind _ _ at3
                    (or_db_error-Outcome "passage lookup failed" _ at3
                      ((candidates-InQuota _ _ _ user.id).at at3 h3))
                    λ cs at4 h4 _.
                      Outcome-bind _ _ at4 (auto_queue-InQuota q user.id cs at4 h4)
                        λ early at5 h5 _. rank-InQuota e q cs early at5 h5
