-- ===== src/Jobs/Examples.antt =====
-- A queue with one job that is claimed, and then has its lease run out.
use any_player_sync_server.Prelude.{
  ℕ, ◌+◌, ◌≤◌, ◌≡◌, ◌≢◌, refl, sym, ap, ◌∙◌, Bool-cases, inl, inr, true, false, none, some, [], ◌∷◌,
  Text, codes, arith, keep, length,
}
use any_player_sync_server.Errors.{ok}
use any_player_sync_server.Json.{end, field, obj, str}
use any_player_sync_server.World.{World, empty, statement, ◌>>=◌}
use any_player_sync_server.World.Rows.{JobRow, failed}
use any_player_sync_server.MatchKeys.{Unicode, match_key, base_title}
use any_player_sync_server.Jobs.{
  Job, Keys, TrackRequest, already_queued, claim, claimed, earliest, enqueue, has_keys, insert_job,
  is_before, is_claimable, job_keys, new_job, newly_queued, next_state, take_job, to_job,
}
use any_player_sync_server.Jobs.Steps.{
  new_job-keys, wait_step, enqueue_step, claim_step, perform, perform_all, IsKeyed,
  perform_all-IsKeyed,
}
use any_player_sync_server.Jobs.Queueing.{enqueue_twice}
use any_player_sync_server.Jobs.Lease.{claim_is_exclusive}
use any_player_sync_server.Jobs.Claim.{Answers, claim-Answers}

abbrev plain_ascii : Unicode
plain_ascii = record { to_lowercase = λ s. s; is_alphanumeric = λ c. true }

abbrev keys : Text → Keys
keys s = record { song_key = s; artist_key = codes "b"; album_key = [] }

abbrev track : Text → TrackRequest
track s = record { song = s; artist = codes "b"; album = none }

abbrev job_row : ℕ → Text → JobRow
job_row id s = new_job id 0 (keys s) (track s) none false

abbrev waiting : World
waiting = record empty {
  jobs = job_row 1 (codes "a") ∷ job_row 2 (codes "c") ∷ [];
  next_job = 3;
  clock = 10;
}

abbrev first : Job
first = to_job (claimed 10 (job_row 1 (codes "a")))

abbrev second : Job
second = to_job (claimed 1810 (job_row 2 (codes "c")))

claims_first : (claim waiting).0 ≡ ok (some first)
unfolding claim statement take_job earliest is_claimable is_before
claims_first = refl

claims_second :
    (claim (perform_all plain_ascii (wait_step 1800 ∷ []) (claim waiting).1)).0 ≡ ok (some second)
unfolding claim statement take_job earliest is_claimable is_before perform
claims_second = refl

-- A second more, and the first is claimed again once the second is taken.
claims_again :
    (claim (perform_all plain_ascii (claim_step ∷ wait_step 1801 ∷ []) (claim waiting).1)).0
    ≡ ok (some (to_job (claimed 1811 (claimed 10 (job_row 1 (codes "a"))))))
unfolding claim statement take_job earliest is_claimable is_before perform
claims_again = refl

fails_last :
    next_state 5 (field (codes "s") (obj (field (codes "state") (str (codes "error")) end)) end)
    ≡ (failed, 0)
unfolding next_state
fails_last = refl

two_keys : (k : Keys) → length (keep (has_keys k) waiting.jobs) ≤ 1
two_keys k = elim (Bool-cases (has_keys k (job_row 1 (codes "a")))) [
  | inl e ↦ elim (Bool-cases (has_keys k (job_row 2 (codes "c")))) [
    | inl e' ↦ absurd (
        differ (
          sym (new_job-keys (keys (codes "a")) k 1 0 (track (codes "a")) none false e)
          ∙ new_job-keys (keys (codes "c")) k 2 0 (track (codes "c")) none false e'))
    | inr e' ↦ ground arith
  ]
  | inr e ↦ ground arith
]
  where
    differ : keys (codes "a") ≡ keys (codes "c") → ⊥
    differ e = ground (arith, ap (λ k. k.song_key) e)

waiting-IsKeyed : IsKeyed waiting
waiting-IsKeyed = record { ids = (omega arith, (omega arith, tt)); keys = two_keys }

late : (perform_all plain_ascii (wait_step 1800 ∷ []) (claim waiting).1).clock ≤ 10 + 1800
unfolding claim statement take_job earliest is_claimable is_before perform
late = omega arith

claim_is_exclusive_example : second.id ≢ first.id
claim_is_exclusive_example =
    claim_is_exclusive plain_ascii waiting first second (wait_step 1800 ∷ []) waiting-IsKeyed
      claims_first (tt, tt) late claims_second

perform_all-IsKeyed_example : IsKeyed (
    perform_all plain_ascii
      (claim_step ∷ enqueue_step (track (codes "d")) none true false ∷ [])
      waiting)
perform_all-IsKeyed_example =
    perform_all-IsKeyed plain_ascii
      (claim_step ∷ enqueue_step (track (codes "d")) none true false ∷ []) waiting waiting-IsKeyed

claim-Answers_example : Answers waiting (claim waiting).0 (claim waiting).1
claim-Answers_example = claim-Answers waiting

queues : (enqueue plain_ascii (track (codes "d")) none false false waiting).0 ≡ ok newly_queued
unfolding enqueue statement insert_job has_keys job_keys ◌>>=◌ match_key base_title
queues = refl

enqueue_twice_example :
    let after = (enqueue plain_ascii (track (codes "d")) none false false waiting).1 in
    enqueue plain_ascii (track (codes "d")) none true true after ≡ (ok already_queued, after)
enqueue_twice_example =
    enqueue_twice plain_ascii (track (codes "d")) (track (codes "d")) none none false true false
      true waiting refl waiting-IsKeyed refl queues
