-- ===== src/Jobs/Held.antt =====
-- The rows of a claimed job, and what the calls do with them.
use any_player_sync_server.Prelude.{
  ℕ, ◌+◌, ◌≤◌, ◌<◌, ◌≡◌, ◌≢◌, refl, keep, ap, Bool, true, false, Option, none, some, Text, All,
  All-append, any, arith, leb, ltb, ◌*◌, Bool-cases, inl, inr,
}
use mathlib.Core.List.{Memᴰ}
use any_player_sync_server.Json.{Fields}
use any_player_sync_server.World.{World, Action}
use any_player_sync_server.World.Keeps.{Keeps, IsStable, keeps_rules, Keeps-statement}
use any_player_sync_server.World.Rows.{JobRow, Status, queued, running, done, failed}
use any_player_sync_server.MatchKeys.{Unicode}
use any_player_sync_server.Jobs.{
  TrackRequest, Job, Keys, Enqueue, has_keys, insert_job, requeue, requeued, is_requeued,
  read_status, is_listed, queued_or, enqueue, take_job, claim, claimed, has_id, finish,
  is_claimable, earliest, stale_lease_minutes, is_finished,
}
use any_player_sync_server.Jobs.Steps.{All-update_where}
use any_player_sync_server.Prelude.Kept.{listed-keep, All-listed}
use any_player_sync_server.Jobs.Claim.{earliest_first}

-- A row with the id is running, and its lease ends at `until` or later.
abbrev pub Holds : ℕ → ℕ → JobRow → Type 0
Holds id until j = has_id id j ≡ true → (j.status ≡ running) × (until ≤ j.updated_at + 1800)

pub record Leased (id until : ℕ) (w : World) : Type 0 where
  pub known : id < w.next_job
  pub within : w.clock ≤ until
  pub rows : All (Holds id until) w.jobs

module _ (id until : ℕ) where
  Leased-stable : IsStable (Leased id until)
  Leased-stable = record {
    faults = λ w rest h. record { known = h.known; within = h.within; rows = h.rows };
  }

  insert-Leased :
      (k : Keys) (track : TrackRequest) (requested_by : Option ℕ) (auto : Bool)
      → Keeps (Leased id until) (insert_job k track requested_by auto)
  unfolding insert_job
  insert-Leased k track requested_by auto = record {
    at = λ w h. elim (Bool-cases (any (has_keys k) w.jobs)) [
      | inl e ↦ rw e h
      | inr e ↦ elim (Bool-cases (is_listed requested_by w)) [
        | inl e' ↦
            rw (e, e')
              (record {
                known = omega (arith, h.known);
                within = h.within;
                rows =
                    All-append _ w.jobs _ h.rows ((λ same. absurd (ground (arith, h.known))), tt);
              })
        | inr e' ↦ rw (e, e') h
      ]
    ];
  }

  -- A running job is not one that is queued again.
  requeue-Leased : (k : Keys) (force : Bool) → Keeps (Leased id until) (requeue k force)
  unfolding requeue
  requeue-Leased k force = record {
    at = λ w h. record {
      known = h.known;
      within = h.within;
      rows =
          All-update_where _ (is_requeued k force w.clock) (requeued w.clock) w.jobs
            (λ j selected runs same.
              absurd (finished_runs k force w.clock j selected (runs same).0))
            h.rows;
    };
  }
    where
      finished_runs :
          (k : Keys) (force : Bool) (time : ℕ) (j : JobRow)
          → is_requeued k force time j ≡ true
          → j.status ≡ running
          → ⊥
      finished_runs k force time j selected is_running = ground (arith, ap is_finished is_running)

  -- Nor is it claimed before its lease has ended.
  held_claimable :
      (time : ℕ) (j : JobRow)
      → time ≤ until
      → is_claimable time j ≡ true
      → Holds id until j
      → has_id id j ≡ false
  unfolding is_claimable
  held_claimable time j within claimable runs = elim (Bool-cases (has_id id j)) [
    | inl e ↦
        let (is_running, lasts) = runs e in absurd (overdue j.status claimable is_running lasts)
    | inr e ↦ e
  ]
    where
      overdue :
          (s : Status)
          → elim s [
            | queued ↦ leb j.next_attempt_at time
            | running ↦ ltb (j.updated_at + stale_lease_minutes * 60) time
            | done ↦ false
            | failed ↦ false
          ]
            ≡ true
          → s ≡ running
          → until ≤ j.updated_at + 1800
          → ⊥
      overdue queued c e lasts = cc
      overdue running c e lasts = ground arith
      overdue done c e lasts = cc
      overdue failed c e lasts = cc

  -- So a row that is claimed has another id.
  pub claimable_other :
      (w : World) (j : JobRow)
      → Leased id until w
      → Memᴰ j w.jobs
      → is_claimable w.clock j ≡ true
      → j.id ≢ id
  claimable_other w j h listed claimable same =
      let free =
        held_claimable w.clock j h.within claimable (All-listed _ j w.jobs listed h.rows) in
      ground arith

  claimed-Leased :
      (w : World) (j : JobRow)
      → Leased id until w
      → j.id ≢ id
      → Leased id until (take_job (some j) w).1
  unfolding take_job
  claimed-Leased w j h other = record {
    known = h.known;
    within = h.within;
    rows =
        All-update_where _ (has_id j.id) (claimed w.clock) w.jobs
          (λ i selected holds same. absurd (other (ground arith))) h.rows;
  }

  take_job-Leased :
      (w : World) (o : Option JobRow)
      → Leased id until w
      → earliest (keep (is_claimable w.clock) w.jobs) ≡ o
      → Leased id until (take_job o w).1
  take_job-Leased w none h e = unfold take_job in h
  take_job-Leased w (some j) h e =
      let (kept, first) = earliest_first _ j e in
      let (listed, claimable) = listed-keep _ w.jobs j kept in
      claimed-Leased w j h (claimable_other w j h listed claimable)

  pub claim-Leased : Keeps (Leased id until) claim
  unfolding claim
  claim-Leased =
      Keeps-statement Leased-stable _ (record { at = λ w h. take_job-Leased w _ h refl }) _

  pub finish-Leased :
      (time : Text) (job : Job) (results : Fields)
      → job.id ≢ id
      → Keeps (Leased id until) (finish time job results)
  unfolding finish
  finish-Leased time job results other =
      Keeps-statement Leased-stable _
        (record {
          at = λ w h. record {
            known = h.known;
            within = h.within;
            rows =
                All-update_where _ (has_id job.id) _ w.jobs
                  (λ i selected holds same. absurd (other (ground arith))) h.rows;
          };
        })
        _

  queued_or-Leased :
      {A : Type 0} (o : Option A) (m : Action Enqueue)
      → Keeps (Leased id until) m
      → Keeps (Leased id until) (queued_or o m)
  queued_or-Leased none m h = h
  queued_or-Leased (some a) m h = search keeps_rules

  read_status-Leased : (k : Keys) → Keeps (Leased id until) (read_status k)
  unfolding read_status
  read_status-Leased k = record { at = λ w h. h }

  pub enqueue-Leased :
      (unicode : Unicode) (track : TrackRequest) (requested_by : Option ℕ) (auto force : Bool)
      → Keeps (Leased id until) (enqueue unicode track requested_by auto force)
  unfolding enqueue
  enqueue-Leased unicode track requested_by auto force =
      search
        (
          keeps_rules, Leased-stable, insert-Leased, requeue-Leased, queued_or-Leased,
          read_status-Leased,
        )
        depth 12
