-- ===== src/Jobs/Queueing.antt =====
-- A track that waits in the queue is not queued again.
use any_player_sync_server.Prelude.{
  ℕ, keep_of_not_any, text_eq_refl, ◌≤◌, ◌≡◌, refl, sym, subst, ap, ◌∙◌, Bool, true, false, Option,
  none, some, List, [], ◌∷◌, ◌++◌, All, All-append, any, find, keep, length, update_where, arith,
  Bool-cases, Option-cases, inl, inr, ◌+◌,
}
use any_player_sync_server.Errors.{Result, ok, err}
use any_player_sync_server.World.{World, statement, ◌>>=◌}
use any_player_sync_server.World.Steps.{bind_ok}
use any_player_sync_server.World.Rows.{JobRow}
use any_player_sync_server.MatchKeys.{Unicode}
use any_player_sync_server.Jobs.{
  TrackRequest, Keys, Enqueue, newly_queued, already_queued, sqlx_error, job_keys, has_keys,
  is_finished, new_job, is_listed, insert_job, is_requeued, requeued, requeue, read_status, enqueue,
  status_answer,
}
use any_player_sync_server.Jobs.Steps.{IsKeyed}

abbrev Waits : Keys → JobRow → Type 0
Waits k j = has_keys k j ≡ true → is_finished j.status ≡ false

-- There is a row with the keys, and it is not finished.
pub record IsPending (k : Keys) (w : World) : Type 0 where
  pub listed : any (has_keys k) w.jobs ≡ true
  pub waits : All (Waits k) w.jobs
  pub calm : w.faults ≡ []

module _ (k : Keys) where
  find-Waits :
      (force : Bool) (time : ℕ) (js : List JobRow)
      → All (Waits k) js
      → find (is_requeued k force time) js ≡ none
  find-Waits force time [] h = refl
  find-Waits force time (j ∷ js) (p, h) = elim (Bool-cases (has_keys k j)) [
    | inl e ↦ ground (arith, p e, find-Waits force time js h)
    | inr e ↦ ground (arith, find-Waits force time js h)
  ]

  update_where-Waits :
      (force : Bool) (time : ℕ) (f : JobRow → JobRow) (js : List JobRow)
      → All (Waits k) js
      → update_where (is_requeued k force time) f js ≡ js
  update_where-Waits force time f [] h = refl
  update_where-Waits force time f (j ∷ js) (p, h) = elim (Bool-cases (has_keys k j)) [
    | inl e ↦ ground (arith, p e, update_where-Waits force time f js h)
    | inr e ↦ ground (arith, update_where-Waits force time f js h)
  ]

  status-Waits :
      (js : List JobRow)
      → any (has_keys k) js ≡ true
      → All (Waits k) js
      → status_answer (find (has_keys k) js) ≡ ok already_queued
  status-Waits [] found h = absurd (cc)
  status-Waits (j ∷ js) found (p, h) = elim (Bool-cases (has_keys k j)) [
    | inl e ↦ ground (arith, p e)
    | inr e ↦ ground (arith, status-Waits js (ground arith) h)
  ]

  module _ (w : World) (pending : IsPending k w) where
    insert_pending :
        (track : TrackRequest) (requested_by : Option ℕ) (auto : Bool)
        → statement sqlx_error (insert_job k track requested_by auto) w ≡ (ok none, w)
    unfolding statement insert_job
    insert_pending track requested_by auto = rw (pending.calm, pending.listed) refl

    requeue_pending : (force : Bool) → statement sqlx_error (requeue k force) w ≡ (ok none, w)
    unfolding statement requeue
    requeue_pending force =
        rw
          (
            pending.calm,
            find-Waits force w.clock w.jobs pending.waits,
            update_where-Waits force w.clock (requeued w.clock) w.jobs pending.waits,
          )
          refl

    read_pending : statement sqlx_error (read_status k) w ≡ (ok already_queued, w)
    unfolding statement read_status
    read_pending = rw (pending.calm, status-Waits w.jobs pending.listed pending.waits) refl

  -- Rows without the keys wait, before and after the UPDATE.
  absent-Waits :
      (force : Bool) (time : ℕ) (js : List JobRow)
      → length (keep (has_keys k) js) ≡ 0
      → All (Waits k) js
        × All (Waits k) (update_where (is_requeued k force time) (requeued time) js)
  absent-Waits force time [] h = (tt, tt)
  absent-Waits force time (j ∷ js) h =
      let fresh : has_keys k j ≡ false = ground arith in
      let (rest, rest') = absent-Waits force time js (ground arith) in
      ((λ e. cc, rest), (rw fresh (λ e. cc), rest'))

  requeued_listed :
      (force : Bool) (time : ℕ) (js : List JobRow) (j : JobRow)
      → find (is_requeued k force time) js ≡ some j
      → 1 ≤ length (keep (has_keys k) js)
  requeued_listed force time [] j h = absurd (cc)
  requeued_listed force time (i ∷ js) j h = ground (arith, requeued_listed force time js j)

  any-requeued :
      (force : Bool) (time : ℕ) (js : List JobRow)
      → any (has_keys k) (update_where (is_requeued k force time) (requeued time) js)
        ≡ any (has_keys k) js
  unfolding has_keys
  any-requeued force time [] = refl
  any-requeued force time (j ∷ js) = ground (arith, any-requeued force time js)

  requeued-Waits :
      (force : Bool) (time : ℕ) (js : List JobRow) (j : JobRow)
      → length (keep (has_keys k) js) ≤ 1
      → find (is_requeued k force time) js ≡ some j
      → All (Waits k) (update_where (is_requeued k force time) (requeued time) js)
  requeued-Waits force time [] j one h = tt
  requeued-Waits force time (i ∷ js) j one h = elim (Bool-cases (is_requeued k force time i)) [
    | inl e ↦ rw e (λ e'. refl, (absent-Waits force time js (ground arith)).1)
    | inr e ↦
        rw e
          (λ e'. absurd (twice e e'), requeued-Waits force time js j (ground arith) (ground arith))
  ]
    where
      twice : is_requeued k force time i ≡ false → has_keys k i ≡ true → ⊥
      twice e e' =
          let found : find (is_requeued k force time) js ≡ some j = ground arith in
          let listed = requeued_listed force time js j found in ground arith

  newly_status : (o : Option JobRow) → status_answer o ≡ ok newly_queued → ⊥
  newly_status none h = cc
  newly_status (some j) h = ground arith

module _ (unicode : Unicode) (track : TrackRequest) (requested_by : Option ℕ) (auto force : Bool)
    (w : World) where
  abbrev k : Keys
  k = job_keys unicode track

  abbrev run : Result Enqueue × World
  run = enqueue unicode track requested_by auto force w

  abbrev with_new : World
  with_new = record w {
    jobs = w.jobs ++ new_job w.next_job w.clock k track requested_by auto ∷ [];
    next_job = w.next_job + 1;
  }

  abbrev with_requeued : World
  with_requeued = record w {
    jobs = update_where (is_requeued k force w.clock) (requeued w.clock) w.jobs;
  }

  enqueue-pending : IsPending k w → run ≡ (ok already_queued, w)
  unfolding enqueue
  enqueue-pending pending =
      bind_ok _ _ w w none (insert_pending k w pending track requested_by auto)
      ∙ bind_ok _ _ w w none (requeue_pending k w pending force)
      ∙ read_pending k w pending

  -- Every branch of enqueue where no statement fails.
  run_new :
      w.faults ≡ []
      → any (has_keys k) w.jobs ≡ false
      → is_listed requested_by w ≡ true
      → run ≡ (ok newly_queued, with_new)
  unfolding enqueue statement insert_job ◌>>=◌
  run_new calm fresh known = ground arith

  run_unlisted :
      w.faults ≡ []
      → any (has_keys k) w.jobs ≡ false
      → is_listed requested_by w ≡ false
      → run ≡ (err sqlx_error, w)
  unfolding enqueue statement insert_job ◌>>=◌
  run_unlisted calm fresh unknown = ground arith

  run_requeued :
      (j : JobRow)
      → w.faults ≡ []
      → any (has_keys k) w.jobs ≡ true
      → find (is_requeued k force w.clock) w.jobs ≡ some j
      → run ≡ (ok newly_queued, with_requeued)
  unfolding enqueue statement insert_job requeue ◌>>=◌
  run_requeued j calm listed found = ground arith

  run_read :
      w.faults ≡ []
      → any (has_keys k) w.jobs ≡ true
      → find (is_requeued k force w.clock) w.jobs ≡ none
      → run ≡ (status_answer (find (has_keys k) with_requeued.jobs), with_requeued)
  unfolding enqueue statement insert_job requeue read_status ◌>>=◌
  run_read calm listed found = ground arith

  any-append :
      (js : List JobRow) (j : JobRow) → has_keys k j ≡ true → any (has_keys k) (js ++ j ∷ []) ≡ true
  any-append [] j h = ground arith
  any-append (i ∷ js) j h = ground (arith, any-append js j h)

  own_keys : (id time : ℕ) → has_keys k (new_job id time k track requested_by auto) ≡ true
  unfolding has_keys
  own_keys id time =
      ground (arith, text_eq_refl k.song_key, text_eq_refl k.artist_key, text_eq_refl k.album_key)

  IsPending-new : w.faults ≡ [] → any (has_keys k) w.jobs ≡ false → IsPending k with_new
  IsPending-new calm fresh = record {
    listed = any-append w.jobs _ (own_keys w.next_job w.clock);
    waits =
        All-append (Waits k) w.jobs _
          (absent-Waits k force w.clock w.jobs (keep_of_not_any (has_keys k) w.jobs fresh)).0
          ((λ e. refl), tt);
    calm = calm;
  }

  IsPending-requeued :
      (j : JobRow)
      → w.faults ≡ []
      → IsKeyed w
      → any (has_keys k) w.jobs ≡ true
      → find (is_requeued k force w.clock) w.jobs ≡ some j
      → IsPending k with_requeued
  IsPending-requeued j calm keyed listed found = record {
    listed = any-requeued k force w.clock w.jobs ∙ listed;
    waits = requeued-Waits k force w.clock w.jobs j (keyed.keys k) found;
    calm = calm;
  }

  newly-IsPending : w.faults ≡ [] → IsKeyed w → run.0 ≡ ok newly_queued → IsPending k run.1
  newly-IsPending calm keyed newly = elim (Bool-cases (any (has_keys k) w.jobs)) [
    | inl e ↦ elim (Option-cases (find (is_requeued k force w.clock) w.jobs)) [
      | inl e' ↦ absurd (newly_status k _ (ap (λ r. r.0) (sym (run_read calm e e')) ∙ newly))
      | inr (j, e') ↦
          subst (λ r. IsPending k r.1) (sym (run_requeued j calm e e'))
            (IsPending-requeued j calm keyed e e')
    ]
    | inr e ↦ elim (Bool-cases (is_listed requested_by w)) [
      | inl e' ↦ subst (λ r. IsPending k r.1) (sym (run_new calm e e')) (IsPending-new calm e)
      | inr e' ↦ let clash = ap (λ r. r.0) (sym (run_unlisted calm e e')) ∙ newly in absurd (cc)
    ]
  ]

-- Where no statement fails: once a call of enqueue has answered `newly_queued`, a second call for a
-- track with the same keys, even one that forces it, answers `already_queued` and changes nothing.
pub enqueue_twice :
    (unicode : Unicode) (track other : TrackRequest) (by by' : Option ℕ)
    (auto auto' force force' : Bool) (w : World)
    → w.faults ≡ []
    → IsKeyed w
    → job_keys unicode other ≡ job_keys unicode track
    → (enqueue unicode track by auto force w).0 ≡ ok newly_queued
    → let after = (enqueue unicode track by auto force w).1 in
      enqueue unicode other by' auto' force' after ≡ (ok already_queued, after)
enqueue_twice unicode track other by by' auto auto' force force' w calm keyed same newly =
    enqueue-pending unicode other by' auto' force' (enqueue unicode track by auto force w).1 (
      subst (λ k. IsPending k (enqueue unicode track by auto force w).1) (sym same)
        (newly-IsPending unicode track by auto force w calm keyed newly))
