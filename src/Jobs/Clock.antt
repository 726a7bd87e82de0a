-- ===== src/Jobs/Clock.antt =====
-- The clock of a series of calls on the job table does not go back.
use any_player_sync_server.Prelude.{
  ℕ, ◌≤◌, ◌≡◌, refl, Bool, Option, none, some, List, [], ◌∷◌, Text, arith,
}
use any_player_sync_server.Json.{Fields}
use any_player_sync_server.World.{World, Action}
use any_player_sync_server.World.Keeps.{Keeps, IsStable, keeps_rules, Keeps-statement}
use any_player_sync_server.World.Rows.{JobRow}
use any_player_sync_server.MatchKeys.{Unicode}
use any_player_sync_server.Jobs.{
  TrackRequest, Job, Keys, Enqueue, insert_job, requeue, read_status, queued_or, enqueue, take_job,
  claim, finish,
}
use any_player_sync_server.Jobs.Steps.{
  Step, wait_step, enqueue_step, claim_step, finish_step, perform, perform_all,
}

-- The calls take no time.
record AtTime (n : ℕ) (w : World) : Type 0 where
  pub clock : w.clock ≡ n

module _ (n : ℕ) where
  AtTime-stable : IsStable (AtTime n)
  AtTime-stable = record { faults = λ w rest h. record { clock = h.clock } }

  insert-AtTime :
      (k : Keys) (track : TrackRequest) (requested_by : Option ℕ) (auto : Bool)
      → Keeps (AtTime n) (insert_job k track requested_by auto)
  unfolding insert_job
  insert-AtTime k track requested_by auto = record {
    at = λ w h. record { clock = ground (arith, h.clock) };
  }

  requeue-AtTime : (k : Keys) (force : Bool) → Keeps (AtTime n) (requeue k force)
  unfolding requeue
  requeue-AtTime k force = record { at = λ w h. record { clock = h.clock } }

  read_status-AtTime : (k : Keys) → Keeps (AtTime n) (read_status k)
  unfolding read_status
  read_status-AtTime k = record { at = λ w h. h }

  queued_or-AtTime :
      {A : Type 0} (o : Option A) (m : Action Enqueue)
      → Keeps (AtTime n) m
      → Keeps (AtTime n) (queued_or o m)
  queued_or-AtTime none m h = h
  queued_or-AtTime (some a) m h = search keeps_rules

  enqueue-AtTime :
      (unicode : Unicode) (track : TrackRequest) (requested_by : Option ℕ) (auto force : Bool)
      → Keeps (AtTime n) (enqueue unicode track requested_by auto force)
  unfolding enqueue
  enqueue-AtTime unicode track requested_by auto force =
      search
        (
          keeps_rules, AtTime-stable, insert-AtTime, requeue-AtTime, queued_or-AtTime,
          read_status-AtTime,
        )
        depth 12

  take_job-AtTime : (o : Option JobRow) (w : World) → AtTime n w → AtTime n (take_job o w).1
  unfolding take_job
  take_job-AtTime none w h = h
  take_job-AtTime (some j) w h = record { clock = h.clock }

  claim-AtTime : Keeps (AtTime n) claim
  unfolding claim
  claim-AtTime = Keeps-statement AtTime-stable _ (record { at = λ w h. take_job-AtTime _ w h }) _

  finish-AtTime :
      (time : Text) (job : Job) (results : Fields) → Keeps (AtTime n) (finish time job results)
  unfolding finish
  finish-AtTime time job results =
      Keeps-statement AtTime-stable _ (record { at = λ w h. record { clock = h.clock } }) _

module _ (unicode : Unicode) where
  perform-clock : (s : Step) (w : World) → w.clock ≤ (perform unicode s w).clock
  unfolding perform
  perform-clock (wait_step seconds) w = omega arith
  perform-clock (enqueue_step track requested_by auto force) w = omega (
    arith,
    ((enqueue-AtTime w.clock unicode track requested_by auto force).at w
        (record { clock = refl })).clock,
  )
  perform-clock claim_step w =
      omega (arith, ((claim-AtTime w.clock).at w (record { clock = refl })).clock)
  perform-clock (finish_step time job results) w =
      omega (arith, ((finish-AtTime w.clock time job results).at w (record { clock = refl })).clock)

  pub perform_all-clock :
      (steps : List Step) (w : World) → w.clock ≤ (perform_all unicode steps w).clock
  perform_all-clock [] w = omega arith
  perform_all-clock (s ∷ steps) w =
      omega (arith, perform-clock s w, perform_all-clock steps (perform unicode s w))
