-- ===== src/Jobs/Lease.antt =====
-- A claimed job is nobody else's for as long as its lease lasts.
use any_player_sync_server.Prelude.{
  ℕ, ◌+◌, ◌≤◌, ◌≡◌, ◌≢◌, refl, sym, subst, ap, ◌∙◌, Bool, true, false, some, List, [], ◌∷◌, All,
  update_where, if◌then◌else◌, arith,
}
use any_player_sync_server.Errors.{ok}
use any_player_sync_server.Prelude.Kept.{All-listed}
use any_player_sync_server.World.{World}
use any_player_sync_server.World.Rows.{JobRow}
use any_player_sync_server.MatchKeys.{Unicode}
use any_player_sync_server.Jobs.{Job, claim, claimed, has_id}
use any_player_sync_server.Jobs.Steps.{
  Step, wait_step, enqueue_step, claim_step, finish_step, perform, perform_all, IsKeyed,
}
use any_player_sync_server.Jobs.Clock.{perform_all-clock}
use any_player_sync_server.Jobs.Claim.{claim-Answers, IsTaken, Answers}
use any_player_sync_server.Jobs.Held.{
  Holds, Leased, claimable_other, claim-Leased, finish-Leased, enqueue-Leased,
}

-- The step is not the end of the job with that id.
abbrev pub Spares : ℕ → Step → Type 0
Spares id (finish_step time job results) = job.id ≢ id
Spares id _ = Unit

claimed_rows :
    (id time : ℕ) (js : List JobRow)
    → All (Holds id (time + 1800)) (update_where (has_id id) (claimed time) js)
claimed_rows id time [] = tt
claimed_rows id time (j ∷ js) = (row (has_id id j) refl, claimed_rows id time js)
  where
    row : (b : Bool) → has_id id j ≡ b → Holds id (time + 1800) (if b then claimed time j else j)
    row true e same = (refl, omega arith)
    row false e same = absurd (cc)

module _ (unicode : Unicode) where
  module _ (id until : ℕ) where
    perform-Leased :
        (s : Step) (w : World)
        → Spares id s
        → Leased id until w
        → (perform unicode s w).clock ≤ until
        → Leased id until (perform unicode s w)
    unfolding perform
    perform-Leased (wait_step seconds) w spares h within = record {
      known = h.known;
      within = within;
      rows = h.rows;
    }
    perform-Leased (enqueue_step track requested_by auto force) w spares h within =
        (enqueue-Leased id until unicode track requested_by auto force).at w h
    perform-Leased claim_step w spares h within = (claim-Leased id until).at w h
    perform-Leased (finish_step time job results) w spares h within =
        (finish-Leased id until time job results spares).at w h

    perform_all-Leased :
        (steps : List Step) (w : World)
        → All (Spares id) steps
        → Leased id until w
        → (perform_all unicode steps w).clock ≤ until
        → Leased id until (perform_all unicode steps w)
    perform_all-Leased [] w spares h within = h
    perform_all-Leased (s ∷ steps) w (spare, spares) h within =
        perform_all-Leased steps (perform unicode s w) spares
          (perform-Leased s w spare h
            (omega (arith, within, perform_all-clock unicode steps (perform unicode s w))))
          within

  -- After a claim, every row with the id of the job is leased.
  claim-Leased_first :
      (w : World) (job : Job)
      → IsKeyed w
      → (claim w).0 ≡ ok (some job)
      → Leased job.id (w.clock + 1800) (claim w).1
  claim-Leased_first w job keyed h = record {
    known = rw (same, taken.next_job) (All-listed _ taken.row w.jobs taken.listed keyed.ids);
    within = omega (arith, taken.clock);
    rows = rw (taken.stored, same) (claimed_rows taken.row.id w.clock w.jobs);
  }
    where
      taken : IsTaken w job (claim w).1
      taken = subst (λ r. Answers w r (claim w).1) h (claim-Answers w)

      same : job.id ≡ taken.row.id
      same = ap (λ j. j.id) taken.answer

  -- In a table whose ids have been given, as IsKeyed has it: from a claim that answers with a job,
  -- for as long as no more than 30 minutes have passed and the job has not been finished, no other
  -- claim answers with that job, whatever has been called in between and whichever statements fail.
  pub claim_is_exclusive :
      (w : World) (job other : Job) (steps : List Step)
      → IsKeyed w
      → (claim w).0 ≡ ok (some job)
      → All (Spares job.id) steps
      → (perform_all unicode steps (claim w).1).clock ≤ w.clock + 1800
      → (claim (perform_all unicode steps (claim w).1)).0 ≡ ok (some other)
      → other.id ≢ job.id
  claim_is_exclusive w job other steps keyed first spares within second same =
      claimable_other job.id (w.clock + 1800) later taken.row leased taken.listed taken.claimable
        (sym (ap (λ j. j.id) taken.answer) ∙ same)
    where
      later : World
      later = perform_all unicode steps (claim w).1

      taken : IsTaken later other (claim later).1
      taken = subst (λ r. Answers later r (claim later).1) second (claim-Answers later)

      leased : Leased job.id (w.clock + 1800) later
      leased =
          perform_all-Leased job.id (w.clock + 1800) steps (claim w).1 spares
            (claim-Leased_first w job keyed first) within
