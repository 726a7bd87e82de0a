-- ===== src/Jobs/Claim.antt =====
-- Which job a claim takes.
use any_player_sync_server.Prelude.{
  ◌≡◌, refl, sym, subst, ap, Bool, true, false, Option, none, some, List, [], ◌∷◌, arith, inl, inr,
  Bool-cases, Option-cases, All, keep, update_where, if◌then◌else◌,
}
use mathlib.Core.List.{Memᴰ}
use any_player_sync_server.Errors.{Result, ok, err, panicked}
use any_player_sync_server.Prelude.Kept.{listed-keep, none-keep}
use any_player_sync_server.World.{World, statement, run_statement}
use any_player_sync_server.World.Rows.{JobRow}
use any_player_sync_server.Jobs.{
  Job, is_claimable, is_before, earliest, pick, claimed, to_job, has_id, take_job, claim,
  sqlx_error,
}

before_trans :
    (i j k : JobRow) → is_before j i ≡ false → is_before k j ≡ false → is_before k i ≡ false
unfolding is_before
before_trans i j k h h' = ground arith

before_asym : (i j : JobRow) → is_before i j ≡ true → is_before j i ≡ false
unfolding is_before
before_asym i j h = ground arith

-- No row of the list comes before `j`.
abbrev pub IsFirst : JobRow → List JobRow → Type 0
IsFirst j js = All (λ i. is_before i j ≡ false) js

IsFirst-trans :
    (best j : JobRow) (js : List JobRow) → is_before best j ≡ false → IsFirst best js → IsFirst j js
IsFirst-trans best j [] h first = tt
IsFirst-trans best j (i ∷ js) h (p, first) =
    (before_trans j best i h p, IsFirst-trans best j js h first)

irreflexive : (j : JobRow) → is_before j j ≡ false
unfolding is_before
irreflexive j = ground arith

earliest-none : (js : List JobRow) → earliest js ≡ none → js ≡ []
unfolding earliest
earliest-none [] h = refl
earliest-none (j ∷ js) h = absurd (never (earliest js) h)
  where
    never : (o : Option JobRow) → pick j o ≡ none → ⊥
    never none e = cc
    never (some best) e = cc

-- `j` is in the list and no row comes before it.
abbrev pub Heads : List JobRow → JobRow → Type 0
Heads js j = Memᴰ j js × IsFirst j js

pick_first :
    (i best j : JobRow) (js : List JobRow) (b : Bool)
    → is_before best i ≡ b
    → Heads js best
    → (if b then best else i) ≡ j
    → Heads (i ∷ js) j
pick_first i best j js true e (listed, first) same =
    subst (Heads (i ∷ js)) same (Memᴰ.tail listed, (before_asym best i e, first))
pick_first i best j js false e (listed, first) same =
    subst (Heads (i ∷ js)) same (Memᴰ.head refl, (irreflexive i, IsFirst-trans best i js e first))

pub earliest_first : (js : List JobRow) (j : JobRow) → earliest js ≡ some j → Heads js j
unfolding earliest
earliest_first [] j h = absurd (cc)
earliest_first (i ∷ js) j h = elim (Option-cases (earliest js)) [
  | inl e ↦
      let same : i ≡ j = ground arith in
      subst (Heads (i ∷ js)) same
        (Memᴰ.head refl, (irreflexive i, subst (IsFirst i) (sym (earliest-none js e)) tt))
  | inr (best, e) ↦
      pick_first i best j js (is_before best i) refl (earliest_first js best e) (ground arith)
]

-- A row that passes the test does not come before `j`.
abbrev pub IsFirstWith : (JobRow → Bool) → JobRow → List JobRow → Type 0
IsFirstWith p j js = All (λ i. p i ≡ true → is_before i j ≡ false) js

first-keep :
    (p : JobRow → Bool) (js : List JobRow) (j : JobRow) → IsFirst j (keep p js) → IsFirstWith p j js
first-keep p [] j h = tt
first-keep p (i ∷ js) j h = elim (Bool-cases (p i)) [
  | inl e ↦
      let kept : keep p (i ∷ js) ≡ i ∷ keep p js = ground arith in
      let both : IsFirst j (i ∷ keep p js) = subst (IsFirst j) kept h in
      let (here, rest) = both in (λ _. here, first-keep p js j rest)
  | inr e ↦ ((λ e'. absurd (cc)), first-keep p js j (subst (IsFirst j) (ground arith) h))
]

-- The claimed job is the first of those that can be claimed; its row is marked and no other.
pub record IsTaken (w : World) (job : Job) (after : World) : Type 0 where
  pub row : JobRow
  pub listed : Memᴰ row w.jobs
  pub claimable : is_claimable w.clock row ≡ true
  pub first : IsFirstWith (is_claimable w.clock) row w.jobs
  pub answer : job ≡ to_job (claimed w.clock row)
  pub stored : after.jobs ≡ update_where (has_id row.id) (claimed w.clock) w.jobs
  pub clock : after.clock ≡ w.clock
  pub next_job : after.next_job ≡ w.next_job

abbrev pub Answers : World → Result (Option Job) → World → Type 0
Answers w (ok none) after = All (λ j. is_claimable w.clock j ≡ false) w.jobs × (after.jobs ≡ w.jobs)
Answers w (ok (some job)) after = IsTaken w job after
Answers w (err e) after = after.jobs ≡ w.jobs
Answers w panicked after = ⊥

module _ (w start : World) (same : start.jobs ≡ w.jobs) (clock : start.clock ≡ w.clock)
    (next_job : start.next_job ≡ w.next_job) where
  taken-Answers :
      (o : Option JobRow)
      → earliest (keep (is_claimable w.clock) w.jobs) ≡ o
      → Answers w (take_job o start).0 (take_job o start).1
  unfolding take_job
  taken-Answers none e = (none-keep _ w.jobs (earliest-none _ e), same)
  taken-Answers (some j) e =
      let (kept, first) = earliest_first _ j e in
      let (listed, passes) = listed-keep _ w.jobs j kept in
      record {
        row = j;
        listed = listed;
        claimable = passes;
        first = first-keep _ w.jobs j first;
        answer = ap (λ t. to_job (claimed t j)) clock;
        stored = rw (same, clock) refl;
        clock = clock;
        next_job = next_job;
      }

claim_under :
    (fs : List Bool) (w : World)
    → let out =
        run_statement fs sqlx_error
          (λ w. take_job (earliest (keep (is_claimable w.clock) w.jobs)) w)
          w in
      Answers w out.0 out.1
claim_under [] w = taken-Answers w w refl refl refl _ refl
claim_under (true ∷ fs) w = refl
claim_under (false ∷ fs) w = taken-Answers w (record w { faults = fs }) refl refl refl _ refl

-- Whatever statement fails, a claim does not panic, and a claim that fails changes no job. A claim
-- that answers with a job has found one that can be claimed; no other that can be comes before it,
-- and its rows are marked as running from now on. A claim that answers with none has found none
-- that can be claimed, and changes no job.
pub claim-Answers : (w : World) → Answers w (claim w).0 (claim w).1
unfolding claim statement
claim-Answers w = claim_under w.faults w
