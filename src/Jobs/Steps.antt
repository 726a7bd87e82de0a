-- ===== src/Jobs/Steps.antt =====
-- Series of calls on the job table, and what holds of the table after any of them.
use any_player_sync_server.Prelude.{
  ℕ, ◌+◌, ◌≤◌, ◌<◌, ◌≡◌, refl, Bool, true, false, Option, none, some, List, [], ◌∷◌, ◌++◌, Text,
  All, All-append, update_where, any, arith, keep, length, keep-append, keep_of_not_any,
  keep-update_where, if◌then◌else◌, sym, ap, ◌∙◌, text_eq_iff, Bool-cases, inl, inr,
}
use any_player_sync_server.Json.{Fields}
use any_player_sync_server.World.{World, Action}
use any_player_sync_server.World.Keeps.{Keeps, IsStable, keeps_rules, Keeps-statement}
use any_player_sync_server.World.Rows.{JobRow}
use any_player_sync_server.MatchKeys.{Unicode}
use any_player_sync_server.Jobs.{
  TrackRequest, Job, Keys, Enqueue, has_keys, new_job, insert_job, requeue, requeued, is_requeued,
  read_status, is_listed, queued_or, enqueue, take_job, claim, claimed, has_id, finish,
}

-- Time passes, or one of the functions is called.
pub data Step : Type 0 where
  wait_step : ℕ → Step
  enqueue_step : TrackRequest → Option ℕ → Bool → Bool → Step
  claim_step : Step
  finish_step : Text → Job → Fields → Step

module _ (unicode : Unicode) where
  unfoldable pub perform : Step → World → World
  perform (wait_step seconds) w = record w { clock = w.clock + seconds }
  perform (enqueue_step track requested_by auto force) w =
      (enqueue unicode track requested_by auto force w).1
  perform claim_step w = (claim w).1
  perform (finish_step time job results) w = (finish time job results w).1

  abbrev pub perform_all : List Step → World → World
  perform_all [] w = w
  perform_all (s ∷ steps) w = perform_all steps (perform s w)

-- A write that keeps `P` on the rows that it selects keeps it on the table.
pub All-update_where {ℓ} :
    (P : JobRow → Type ℓ) (p : JobRow → Bool) (f : JobRow → JobRow) (js : List JobRow)
    → ((j : JobRow) → p j ≡ true → P j → P (f j))
    → All P js
    → All P (update_where p f js)
All-update_where P p f [] keeps h = tt
All-update_where P p f (j ∷ js) keeps (here, rest) =
    (written (p j) refl, All-update_where P p f js keeps rest)
  where
    written : (b : Bool) → p j ≡ b → P (if b then f j else j)
    written true e = keeps j e here
    written false e = here

-- The rows have been given their ids, and no two rows have the same keys.
pub record IsKeyed (w : World) : Type 0 where
  pub ids : All (λ j. j.id < w.next_job) w.jobs
  pub keys : (k : Keys) → length (keep (has_keys k) w.jobs) ≤ 1

IsKeyed-stable : IsStable IsKeyed
IsKeyed-stable = record { faults = λ w rest h. record { ids = h.ids; keys = h.keys } }

ids-weaken : (n m : ℕ) (js : List JobRow) → n ≤ m → All (λ j. j.id < n) js → All (λ j. j.id < m) js
ids-weaken n m [] le h = tt
ids-weaken n m (j ∷ js) le (p, h) = (omega arith, ids-weaken n m js le h)

-- A write that leaves the keys alone.
update-IsKeyed :
    (w : World) (p : JobRow → Bool) (f : JobRow → JobRow)
    → ((j : JobRow) → (f j).id ≡ j.id)
    → ((k : Keys) (j : JobRow) → has_keys k (f j) ≡ has_keys k j)
    → IsKeyed w
    → IsKeyed (record w { jobs = update_where p f w.jobs })
update-IsKeyed w p f same_id same_keys h = record {
  ids = All-update_where _ p f w.jobs (λ j _ below. rw (same_id j) below) h.ids;
  keys = λ k. ground (arith, h.keys k, keep-update_where (has_keys k) p f w.jobs (same_keys k));
}

-- Only its own keys select a new row.
pub new_job-keys :
    (k l : Keys) (id time : ℕ) (track : TrackRequest) (requested_by : Option ℕ) (auto : Bool)
    → has_keys l (new_job id time k track requested_by auto) ≡ true
    → l ≡ k
unfolding has_keys
new_job-keys k l id time track requested_by auto h =
    λ i. record { song_key = sym songs i; artist_key = sym artists i; album_key = sym albums i }
  where
    songs : k.song_key ≡ l.song_key
    songs = ground (arith, text_eq_iff k.song_key l.song_key)

    artists : k.artist_key ≡ l.artist_key
    artists = ground (arith, text_eq_iff k.artist_key l.artist_key)

    albums : k.album_key ≡ l.album_key
    albums = ground (arith, text_eq_iff k.album_key l.album_key)

module _ (k : Keys) (track : TrackRequest) (requested_by : Option ℕ) (auto : Bool) where
  abbrev inserted : World → World
  inserted w = record w {
    jobs = w.jobs ++ new_job w.next_job w.clock k track requested_by auto ∷ [];
    next_job = w.next_job + 1;
  }

  inserted-keys :
      (w : World) (l : Keys)
      → any (has_keys k) w.jobs ≡ false
      → length (keep (has_keys l) w.jobs) ≤ 1
      → length (keep (has_keys l) (inserted w).jobs) ≤ 1
  inserted-keys w l fresh one =
      elim (Bool-cases (has_keys l (new_job w.next_job w.clock k track requested_by auto))) [
        | inl e ↦ omega (arith, counted, ap {B = ℕ} (λ b. if b then 1 else 0) e, alone e)
        | inr e ↦ omega (arith, counted, ap {B = ℕ} (λ b. if b then 1 else 0) e, one)
      ]
    where
      counted :
          length (keep (has_keys l) (inserted w).jobs)
          ≡ length (keep (has_keys l) w.jobs)
            + (if has_keys l (new_job w.next_job w.clock k track requested_by auto) then 1 else 0)
      counted = keep-append (has_keys l) w.jobs _

      alone :
          has_keys l (new_job w.next_job w.clock k track requested_by auto) ≡ true
          → length (keep (has_keys l) w.jobs) ≡ 0
      alone e = keep_of_not_any (has_keys l) w.jobs (
          ap (λ x. any (has_keys x) w.jobs) (new_job-keys k l _ _ track requested_by auto e)
          ∙ fresh)

  inserted-IsKeyed :
      (w : World) → any (has_keys k) w.jobs ≡ false → IsKeyed w → IsKeyed (inserted w)
  inserted-IsKeyed w fresh h = record {
    ids =
        All-append _ w.jobs _ (ids-weaken w.next_job (w.next_job + 1) w.jobs (omega arith) h.ids)
          (omega arith, tt);
    keys = λ l. inserted-keys w l fresh (h.keys l);
  }

  insert-IsKeyed : Keeps IsKeyed (insert_job k track requested_by auto)
  unfolding insert_job
  insert-IsKeyed = record {
    at = λ w h. elim (Bool-cases (any (has_keys k) w.jobs)) [
      | inl e ↦ rw e h
      | inr e ↦ elim (Bool-cases (is_listed requested_by w)) [
        | inl e' ↦ rw (e, e') (inserted-IsKeyed w e h)
        | inr e' ↦ rw (e, e') h
      ]
    ];
  }

requeue-IsKeyed : (k : Keys) (force : Bool) → Keeps IsKeyed (requeue k force)
unfolding requeue has_keys
requeue-IsKeyed k force = record {
  at = λ w h.
      update-IsKeyed w (is_requeued k force w.clock) (requeued w.clock) (λ j. refl) (λ l j. refl) h;
}

queued_or-IsKeyed :
    {A : Type 0} (o : Option A) (m : Action Enqueue)
    → Keeps IsKeyed m
    → Keeps IsKeyed (queued_or o m)
queued_or-IsKeyed none m h = h
queued_or-IsKeyed (some a) m h = search keeps_rules

read_status-IsKeyed : (k : Keys) → Keeps IsKeyed (read_status k)
unfolding read_status
read_status-IsKeyed k = record { at = λ w h. h }

take_job-IsKeyed : (o : Option JobRow) (w : World) → IsKeyed w → IsKeyed (take_job o w).1
unfolding take_job has_keys
take_job-IsKeyed none w h = h
take_job-IsKeyed (some j) w h =
    update-IsKeyed w (has_id j.id) (claimed w.clock) (λ i. refl) (λ l i. refl) h

ruleset keyed_rules = (
  keeps_rules, IsKeyed-stable, insert-IsKeyed, requeue-IsKeyed, queued_or-IsKeyed,
  read_status-IsKeyed,
)

module _ (unicode : Unicode) where
  enqueue-IsKeyed :
      (track : TrackRequest) (requested_by : Option ℕ) (auto force : Bool)
      → Keeps IsKeyed (enqueue unicode track requested_by auto force)
  unfolding enqueue
  enqueue-IsKeyed track requested_by auto force = search keyed_rules depth 12

  claim-IsKeyed : Keeps IsKeyed claim
  unfolding claim
  claim-IsKeyed = Keeps-statement IsKeyed-stable _ (record { at = λ w h. take_job-IsKeyed _ w h }) _

  finish-IsKeyed :
      (time : Text) (job : Job) (results : Fields) → Keeps IsKeyed (finish time job results)
  unfolding finish has_keys
  finish-IsKeyed time job results =
      Keeps-statement IsKeyed-stable _
        (record { at = λ w h. update-IsKeyed w (has_id job.id) _ (λ i. refl) (λ l i. refl) h }) _

  perform-IsKeyed : (s : Step) (w : World) → IsKeyed w → IsKeyed (perform unicode s w)
  unfolding perform
  perform-IsKeyed (wait_step seconds) w h = record { ids = h.ids; keys = h.keys }
  perform-IsKeyed (enqueue_step track requested_by auto force) w h =
      (enqueue-IsKeyed track requested_by auto force).at w h
  perform-IsKeyed claim_step w h = claim-IsKeyed.at w h
  perform-IsKeyed (finish_step time job results) w h = (finish-IsKeyed time job results).at w h

  -- After any calls, whichever statements fail in them, no two jobs have the same keys, and the
  -- ids of all are ones that have been given, if that was so before.
  pub perform_all-IsKeyed :
      (steps : List Step) (w : World) → IsKeyed w → IsKeyed (perform_all unicode steps w)
  perform_all-IsKeyed [] w h = h
  perform_all-IsKeyed (s ∷ steps) w h =
      perform_all-IsKeyed steps (perform unicode s w) (perform-IsKeyed s w h)
