-- ===== src/Rank/Outcome.antt =====
-- What each answer of select says of the candidates.
use any_player_sync_server.Prelude.{
  ℕ, ◌≡◌, ◌≢◌, refl, subst, false, not, ◌&&◌, Option, none, some, List, [], ◌∷◌, ◌++◌, Text, All,
  All-append, arith, inl, inr, Bool-cases, ltb, ◌+◌,
}
use mathlib.Core.List.{Memᴰ}
use any_player_sync_server.Strings.{is_empty}
use any_player_sync_server.MatchKeys.{Unicode}
use any_player_sync_server.Rank.{
  Floats, Candidate, Scored, Selection, chosen, all_excluded, empty, recovery, score_all,
  score_with, push, insert_scored, sort_scored, is_greater, compare_scored, is_skipped, choose,
  chunk_ids, select, select_scored,
}
use any_player_sync_server.Rank.Fair.{tokens_nil, IsFair, IsFair-nil, choose-IsFair}

module _ (f : Floats) where
  insert_scored-All {ℓ} :
      (P : Scored f → Type ℓ) (a : Scored f) (bs : List (Scored f))
      → P a
      → All P bs
      → All P (insert_scored f a bs)
  unfolding insert_scored
  insert_scored-All P a [] p h = (p, tt)
  insert_scored-All P a (b ∷ bs) p (q, h) =
      elim (Bool-cases (is_greater f (compare_scored f a b))) [
        | inl e ↦ rw e (q, insert_scored-All P a bs p h)
        | inr e ↦ rw e (p, (q, h))
      ]

  sort_scored-All {ℓ} :
      (P : Scored f → Type ℓ) (xs : List (Scored f)) → All P xs → All P (sort_scored f xs)
  unfolding sort_scored
  sort_scored-All P [] h = tt
  sort_scored-All P (x ∷ xs) (p, h) =
      insert_scored-All P x (sort_scored f xs) p (sort_scored-All P xs h)

  sort_scored-cons :
      (x : Scored f) (xs : List (Scored f)) → is_empty (sort_scored f (x ∷ xs)) ≡ false
  unfolding sort_scored insert_scored
  sort_scored-cons x xs = inserted (sort_scored f xs)
    where
      inserted : (bs : List (Scored f)) → is_empty (insert_scored f x bs) ≡ false
      inserted [] = refl
      inserted (b ∷ bs) = ground arith

  choose-All {ℓ} :
      (P : Candidate f → Type ℓ) (budget : ℕ) (scored : List (Scored f))
      (picked : List (Candidate f)) (used : ℕ)
      → All (λ s. P s.candidate) scored
      → All P picked
      → All P (choose f budget scored picked used)
  unfolding choose
  choose-All P budget [] picked used h k = k
  choose-All P budget (s ∷ rest) picked used (p, h) k =
      elim (Bool-cases (is_skipped f picked s.candidate)) [
        | inl e ↦ rw e (choose-All P budget rest picked used h k)
        | inr e ↦
            elim (Bool-cases
              (not (is_empty picked) && ltb budget (used + s.candidate.token_count))) [
                | inl e' ↦ rw (e, e') k
                | inr e' ↦
                    rw (e, e')
                      (choose-All P budget rest (picked ++ s.candidate ∷ []) _ h
                        (All-append P picked (s.candidate ∷ []) k (p, tt)))
              ]
      ]

  append-cons : {A : Type 0} (xs : List A) (x : A) → is_empty (xs ++ x ∷ []) ≡ false
  append-cons [] x = refl
  append-cons (y ∷ xs) x = refl

  -- What is chosen stays chosen, and the first candidate is.
  choose-grows :
      (budget : ℕ) (scored : List (Scored f)) (picked : List (Candidate f)) (used : ℕ)
      → is_empty picked ≡ false
      → is_empty (choose f budget scored picked used) ≡ false
  unfolding choose
  choose-grows budget [] picked used h = h
  choose-grows budget (s ∷ rest) picked used h = ground (
    arith,
    choose-grows budget rest picked used h,
    choose-grows budget rest (picked ++ s.candidate ∷ []) (used + s.candidate.token_count)
        (append-cons picked s.candidate),
  )

  choose-first :
      (budget : ℕ) (scored : List (Scored f))
      → is_empty scored ≡ false
      → is_empty (choose f budget scored [] 0) ≡ false
  unfolding choose is_skipped
  choose-first budget [] h = absurd (cc)
  choose-first budget (s ∷ rest) h = choose-grows budget rest (s.candidate ∷ []) _ refl

  module _ (unicode : Unicode) (query : List f.F32) (song_key : Text) (time : ℕ) where
    -- A candidate that may be chosen.
    pub record IsEligible (candidates : List (Candidate f)) (c : Candidate f) : Type 0 where
      pub listed : Memᴰ c candidates
      pub rested : recovery f c.last_played time ≢ none

    abbrev pub Promises : ℕ → List (Candidate f) → Selection → Type 0
    Promises budget candidates (chosen ids) =
        (picked : List (Candidate f)) × (ids ≡ chunk_ids f picked)
        × (is_empty picked ≡ false)
        × IsFair f budget picked
        × All (IsEligible candidates) picked
    Promises budget candidates all_excluded =
        (is_empty candidates ≡ false) × All (λ c. recovery f c.last_played time ≡ none) candidates
    Promises budget candidates empty = candidates ≡ []

    IsEligible-weaken :
        (candidates : List (Candidate f)) (c d : Candidate f)
        → IsEligible candidates d
        → IsEligible (c ∷ candidates) d
    IsEligible-weaken candidates c d h = record { listed = Memᴰ.tail h.listed; rested = h.rested }

    abbrev Eligible : List (Candidate f) → List (Scored f) → Type 0
    Eligible candidates scored = All (λ s. IsEligible candidates s.candidate) scored

    Eligible-weaken :
        (candidates : List (Candidate f)) (c : Candidate f) (scored : List (Scored f))
        → Eligible candidates scored
        → Eligible (c ∷ candidates) scored
    Eligible-weaken candidates c [] h = tt
    Eligible-weaken candidates c (s ∷ scored) (p, h) =
        (IsEligible-weaken candidates c s.candidate p, Eligible-weaken candidates c scored h)

    pushed :
        (cs : List (Candidate f)) (c : Candidate f) (r : Option f.F32) (scored : List (Scored f))
        → recovery f c.last_played time ≡ r
        → Eligible cs scored
        → Eligible (c ∷ cs) (
            push f unicode query song_key time
              (score_with f unicode query song_key time c r)
              scored)
    pushed cs c none scored e h = Eligible-weaken cs c scored h
    pushed cs c (some r) scored e h =
        (record { listed = Memᴰ.head refl; rested = λ e'. cc }, Eligible-weaken cs c scored h)

    score_all-Eligible :
        (cs : List (Candidate f)) → Eligible cs (score_all f unicode query song_key time cs)
    unfolding score_all
    score_all-Eligible [] = tt
    score_all-Eligible (c ∷ cs) = pushed cs c _ _ refl (score_all-Eligible cs)

    none_pushed :
        (c : Candidate f) (r : Option f.F32) (scored : List (Scored f))
        → push f unicode query song_key time (score_with f unicode query song_key time c r) scored
          ≡ []
        → (r ≡ none) × (scored ≡ [])
    none_pushed c none scored h = (refl, h)
    none_pushed c (some r) scored h = absurd (cc)

    score_all-none :
        (cs : List (Candidate f))
        → score_all f unicode query song_key time cs ≡ []
        → All (λ c. recovery f c.last_played time ≡ none) cs
    unfolding score_all
    score_all-none [] h = tt
    score_all-none (c ∷ cs) h =
        let (here, rest) = none_pushed c (recovery f c.last_played time) _ h in
        (here, score_all-none cs rest)

    select_scored-Promises :
        (budget : ℕ) (c : Candidate f) (cs : List (Candidate f)) (scored : List (Scored f))
        → score_all f unicode query song_key time (c ∷ cs) ≡ scored
        → Promises budget (c ∷ cs) (select_scored f budget scored)
    select_scored-Promises budget c cs [] e = (refl, score_all-none (c ∷ cs) e)
    select_scored-Promises budget c cs (s ∷ scored) e =
        let sorted = sort_scored f (s ∷ scored) in
        (
          choose f budget sorted [] 0,
          refl,
          choose-first budget sorted (sort_scored-cons s scored),
          choose-IsFair f budget sorted [] 0 (tokens_nil f) (IsFair-nil f budget),
          choose-All (IsEligible (c ∷ cs)) budget sorted [] 0
              (sort_scored-All (λ x. IsEligible (c ∷ cs) x.candidate) (s ∷ scored)
                (subst (Eligible (c ∷ cs)) e (score_all-Eligible (c ∷ cs))))
              tt,
        )

    -- A lookup answers `empty` for no candidates, and `all_excluded` where every candidate is in
    -- its window of exclusion. Otherwise it chooses at least one candidate, none of which is in its
    -- window; at most two are of one document, none is a near duplicate of one before it, and if
    -- there are several, they are within the budget of tokens.
    pub select-Promises :
        (budget : ℕ) (candidates : List (Candidate f))
        → Promises budget candidates (select f unicode candidates query song_key time budget)
    unfolding select
    select-Promises budget [] = refl
    select-Promises budget (c ∷ cs) = select_scored-Promises budget c cs _ refl
