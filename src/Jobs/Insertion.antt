-- ===== src/Jobs/Insertion.antt =====
-- Postconditions of `enqueue`: what the insertion leads to, the two later statements keep.
use any_player_sync_server.Prelude.{ℕ, ◌≡◌, Bool, Option, none, some}
use any_player_sync_server.World.{World, Action, statement, ◌>>=◌}
use any_player_sync_server.World.Rows.{JobRow}
use any_player_sync_server.World.Keeps.{IsStable}
use any_player_sync_server.World.Runs.{
  Outcome, answered, refused, Runs, Outcome-bind, Outcome-weaken, Runs-bind, Runs-statement,
  Runs-pure,
}
use any_player_sync_server.MatchKeys.{Unicode}
use any_player_sync_server.Jobs.{
  sqlx_error, TrackRequest, Keys, Enqueue, enqueue, queued_or, insert_job, requeue, read_status,
  status_answer, job_keys,
}

module _ (P : World → Type 0) (stable : IsStable P) (k : Keys) (force : Bool)
    (requeued : Runs P (λ _. P) (requeue k force)) where
  status_answer-Outcome :
      (o : Option JobRow) (w : World) → P w → Outcome P (λ _. P) (status_answer o, w)
  status_answer-Outcome none w p = refused _ w p
  status_answer-Outcome (some j) w p = answered _ w p

  read_status-Runs : Runs P (λ _. P) (read_status k)
  unfolding read_status
  read_status-Runs = record { at = λ w p. status_answer-Outcome _ w p }

  queued_or-Runs :
      {A : Type 0} (o : Option A) (m : Action Enqueue)
      → Runs P (λ _. P) m
      → Runs P (λ _. P) (queued_or o m)
  queued_or-Runs none m h = h
  queued_or-Runs (some a) m h = Runs-pure _ (λ w p. p)

  requeue_or-Runs :
      Runs P
        (λ _. P)
        (statement sqlx_error (requeue k force) >>= λ changed.
          queued_or changed (statement sqlx_error (read_status k)))
  requeue_or-Runs =
      Runs-bind _ _ (Runs-statement _ _ stable requeued) λ changed w p.
        (queued_or-Runs changed _ (Runs-statement _ _ stable read_status-Runs)).at w p

  -- `R` before the insertion; both give `S`, which is left where a statement fails.
  pub enqueue-Outcome :
      (R S : World → Type 0) (unicode : Unicode) (track : TrackRequest) (by : Option ℕ)
      (auto : Bool) (w : World)
      → job_keys unicode track ≡ k
      → IsStable R
      → ((v : World) → R v → S v)
      → ((v : World) → P v → S v)
      → Runs R (λ _. P) (insert_job k track by auto)
      → R w
      → Outcome S (λ _. P) (enqueue unicode track by auto force w)
  unfolding enqueue
  enqueue-Outcome R S unicode track by auto w same stable_r r p inserts h = rw same (
      Outcome-bind _ _ w
        (Outcome-weaken _ r (λ _ _ q. q) ((Runs-statement _ _ stable_r inserts).at w h))
        λ inserted after q _.
          Outcome-weaken _ p (λ _ _ q'. q')
            ((queued_or-Runs inserted _ requeue_or-Runs).at after q))
