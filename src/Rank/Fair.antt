-- ===== src/Rank/Fair.antt =====
-- What holds of every choice: few passages of one document, no near duplicates, the budget.
use any_player_sync_server.Prelude.{
  ℕ, ◌+◌, ◌≤◌, ◌≡◌, refl, sym, ap, ◌∙◌, true, false, not, ◌&&◌, List, [], ◌∷◌, ◌++◌, ltb, ◌==◌, any,
  keep, length, arith, inl, inr, ◌⊎◌, Bool-cases, keep-append, length-append,
}
use any_player_sync_server.Strings.{is_empty}
use any_player_sync_server.Rank.{Floats, Candidate, Scored, is_near, is_skipped, choose}

module _ (f : Floats) where
  unfoldable pub tokens : List (Candidate f) → ℕ
  tokens [] = 0
  tokens (c ∷ cs) = c.token_count + tokens cs

  pub tokens_nil : 0 ≡ tokens []
  unfolding tokens
  tokens_nil = refl

  tokens-append : (cs ds : List (Candidate f)) → tokens (cs ++ ds) ≡ tokens cs + tokens ds
  unfolding tokens
  tokens-append [] ds = omega arith
  tokens-append (c ∷ cs) ds = omega (arith, tokens-append cs ds)

  tokens-snoc :
      (cs : List (Candidate f)) (c : Candidate f)
      → tokens (cs ++ c ∷ []) ≡ tokens cs + c.token_count
  unfolding tokens
  tokens-snoc cs c = omega (arith, tokens-append cs (c ∷ []))

  -- Each passage is no near duplicate of one that was chosen before it.
  pub data IsSpread : List (Candidate f) → Type 0 where
    none_yet : IsSpread []
    one_more :
        (cs : List (Candidate f)) (c : Candidate f)
        → IsSpread cs
        → any (is_near f c) cs ≡ false
        → IsSpread (cs ++ c ∷ [])

  pub record IsFair (budget : ℕ) (picked : List (Candidate f)) : Type 0 where
    pub documents : (d : ℕ) → length (keep (λ x. x.document_id == d) picked) ≤ 2
    pub spread : IsSpread picked
    pub within : (length picked ≤ 1) ⊎ (tokens picked ≤ budget)

  documents-append :
      (picked : List (Candidate f)) (c : Candidate f)
      → ((d : ℕ) → length (keep (λ x. x.document_id == d) picked) ≤ 2)
      → is_skipped f picked c ≡ false
      → (d : ℕ) → length (keep (λ x. x.document_id == d) (picked ++ c ∷ [])) ≤ 2
  unfolding is_skipped
  documents-append picked c h unskipped d =
      ground (arith, h d, keep-append (λ x. x.document_id == d) picked c)

  empty-length : {A : Type 0} (xs : List A) → is_empty xs ≡ true → length xs ≡ 0
  empty-length [] h = refl
  empty-length (x ∷ xs) h = absurd (cc)

  IsFair-append :
      (budget : ℕ) (picked : List (Candidate f)) (c : Candidate f)
      → IsFair budget picked
      → is_skipped f picked c ≡ false
      → (not (is_empty picked) && ltb budget (tokens picked + c.token_count)) ≡ false
      → IsFair budget (picked ++ c ∷ [])
  unfolding is_skipped tokens
  IsFair-append budget picked c h unskipped fits = record {
    documents = documents-append picked c h.documents unskipped;
    spread = one_more picked c h.spread (ground arith);
    within = elim (Bool-cases (is_empty picked)) [
      | inl e ↦ inl (omega (arith, empty-length picked e, length-append picked (c ∷ [])))
      | inr e ↦ inr (affordable e)
    ];
  }
    where
      affordable : is_empty picked ≡ false → tokens (picked ++ c ∷ []) ≤ budget
      affordable e = ground (arith, tokens-append picked (c ∷ []))

  -- The loop keeps the choice fair if it has counted its tokens.
  pub choose-IsFair :
      (budget : ℕ) (scored : List (Scored f)) (picked : List (Candidate f)) (used : ℕ)
      → used ≡ tokens picked
      → IsFair budget picked
      → IsFair budget (choose f budget scored picked used)
  unfolding choose
  choose-IsFair budget [] picked used counted h = h
  choose-IsFair budget (s ∷ rest) picked used counted h =
      elim (Bool-cases (is_skipped f picked s.candidate)) [
        | inl e ↦ rw e (choose-IsFair budget rest picked used counted h)
        | inr e ↦
            elim (Bool-cases
              (not (is_empty picked) && ltb budget (used + s.candidate.token_count))) [
                | inl e' ↦ rw (e, e') h
                | inr e' ↦
                    rw (e, e')
                      (choose-IsFair budget rest (picked ++ s.candidate ∷ [])
                        (used + s.candidate.token_count)
                        (omega (arith, counted, tokens-snoc picked s.candidate))
                        (IsFair-append budget picked s.candidate h e (
                          ap
                            (λ n. not (is_empty picked) && ltb budget (n + s.candidate.token_count))
                            (sym counted)
                          ∙ e')))
              ]
      ]

  pub IsFair-nil : (budget : ℕ) → IsFair budget []
  IsFair-nil budget = record {
    documents = λ d. omega arith;
    spread = none_yet;
    within = inl (omega arith);
  }
