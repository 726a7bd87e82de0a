-- ===== src/Facts/Choice.antt =====
-- The order of the offers in src/dj_facts.rs (`lookup`): the one that is told comes first, and the
-- user has not heard it for thirty days.
use any_player_sync_server.Prelude.{
  ℕ, ◌+◌, ◌-◌, ◌≤◌, ◌≡◌, refl, sym, subst, Bool, true, false, ◌&&◌, Option, none, some, List, [],
  ◌∷◌, ◌==◌, All, arith, Bool-cases, inl, inr, if◌then◌else◌,
}
use mathlib.Core.List.{Memᴰ}
use any_player_sync_server.World.Rows.{FactRow, FactPlayRow}
use any_player_sync_server.Facts.{
  last_used_at, later_of, is_rested, reuse_after, newer_first, comes_first, choose, first_offer,
}

newer_first_trans :
    (f g h : FactRow) → newer_first f g ≡ false → newer_first g h ≡ false → newer_first f h ≡ false
newer_first_trans f g h a b = ground arith

-- The comparison by `>` of the scores of two numbers of seconds.
pub record ComparesScores (recovers_more : ℕ → ℕ → Bool) : Type 0 where
  pub asymmetric : (a b : ℕ) → recovers_more a b ≡ true → recovers_more b a ≡ false
  pub transitive :
      (a b c : ℕ)
      → recovers_more a b ≡ false
      → recovers_more b c ≡ false
      → recovers_more a c ≡ false

module _ (recovers_more : ℕ → ℕ → Bool) (scores : ComparesScores recovers_more) where
  comes_first_trans :
      (time : ℕ) (a b c : Option ℕ) (f g h : FactRow)
      → comes_first recovers_more time a b f g ≡ false
      → comes_first recovers_more time b c g h ≡ false
      → comes_first recovers_more time a c f h ≡ false
  comes_first_trans time none none none f g h d e = newer_first_trans f g h d e
  comes_first_trans time none none (some c) f g h d e = e
  comes_first_trans time none (some b) c f g h d e = absurd (cc)
  comes_first_trans time (some a) none none f g h d e = refl
  comes_first_trans time (some a) none (some c) f g h d e = absurd (cc)
  comes_first_trans time (some a) (some b) none f g h d e = refl
  comes_first_trans time (some a) (some b) (some c) f g h d e = ground (
    arith,
    newer_first_trans f g h,
    scores.transitive (time - a) (time - b) (time - c),
    scores.transitive (time - b) (time - c) (time - a),
    scores.transitive (time - c) (time - a) (time - b),
    d,
    e,
  )

  comes_first_irreflexive :
      (time : ℕ) (a : Option ℕ) (f : FactRow) → comes_first recovers_more time a a f f ≡ false
  comes_first_irreflexive time none f = ground arith
  comes_first_irreflexive time (some a) f = ground (arith, scores.asymmetric (time - a) (time - a))

  -- Nothing in the list comes before `f`.
  abbrev pub IsFirst : ℕ → (FactRow → Option ℕ) → FactRow → List FactRow → Type 0
  IsFirst time used f fs =
      All (λ g. comes_first recovers_more time (used g) (used f) g f ≡ false) fs

  IsFirst-trans :
      (time : ℕ) (used : FactRow → Option ℕ) (f g : FactRow) (fs : List FactRow)
      → comes_first recovers_more time (used g) (used f) g f ≡ false
      → IsFirst time used g fs
      → IsFirst time used f fs
  IsFirst-trans time used f g [] e h = tt
  IsFirst-trans time used f g (k ∷ fs) e (p, h) = (
    comes_first_trans time (used k) (used g) (used f) k g f p e,
    IsFirst-trans time used f g fs e h,
  )

  comes_first_asym :
      (time : ℕ) (a b : Option ℕ) (f g : FactRow)
      → comes_first recovers_more time a b f g ≡ true
      → comes_first recovers_more time b a g f ≡ false
  comes_first_asym time none none f g h = ground arith
  comes_first_asym time none (some b) f g h = refl
  comes_first_asym time (some a) none f g h = absurd (cc)
  comes_first_asym time (some a) (some b) f g h =
      ground
        (arith, h, scores.asymmetric (time - a) (time - b), scores.asymmetric (time - b) (time - a))

  abbrev pub Heads : ℕ → (FactRow → Option ℕ) → List FactRow → FactRow → Type 0
  Heads time used fs f = Memᴰ f fs × IsFirst time used f fs

  -- What `first_offer` gives is in the list, and first in it.
  abbrev pub Offers : ℕ → (FactRow → Option ℕ) → List FactRow → Option FactRow → Type 0
  Offers time used fs none = fs ≡ []
  Offers time used fs (some f) = Heads time used fs f

  choose_by :
      (time : ℕ) (used : FactRow → Option ℕ) (f g : FactRow) (fs : List FactRow) (b : Bool)
      → comes_first recovers_more time (used g) (used f) g f ≡ b
      → Heads time used fs g
      → Offers time used (f ∷ fs) (some (if b then g else f))
  choose_by time used f g fs true e (listed, first) =
      (Memᴰ.tail listed, (comes_first_asym time (used g) (used f) g f e, first))
  choose_by time used f g fs false e (listed, first) = (
    Memᴰ.head refl,
    (comes_first_irreflexive time (used f) f, IsFirst-trans time used f g fs e first),
  )

  choose-Offers :
      (time : ℕ) (used : FactRow → Option ℕ) (f : FactRow) (fs : List FactRow) (o : Option FactRow)
      → Offers time used fs o
      → Offers time used (f ∷ fs) (choose recovers_more time used f o)
  choose-Offers time used f fs none h = (
    Memᴰ.head refl,
    (comes_first_irreflexive time (used f) f, subst (IsFirst time used f) (sym h) tt),
  )
  choose-Offers time used f fs (some g) h = choose_by time used f g fs _ refl h

  pub first_offer-Offers :
      (time : ℕ) (used : FactRow → Option ℕ) (fs : List FactRow)
      → Offers time used fs (first_offer recovers_more time used fs)
  unfolding first_offer
  first_offer-Offers time used [] = refl
  first_offer-Offers time used (f ∷ fs) =
      choose-Offers time used f fs (first_offer recovers_more time used fs)
        (first_offer-Offers time used fs)

-- A play of the fact by the user is thirty days old.
abbrev pub Rested : ℕ → ℕ → ℕ → FactPlayRow → Type 0
Rested time user_id fact_id p =
    p.user_id ≡ user_id → p.fact_id ≡ fact_id → p.played_at + reuse_after ≤ time

rested_parts :
    (time played : ℕ) (o : Option ℕ)
    → is_rested time (later_of played o) ≡ true
    → (played + reuse_after ≤ time) × (is_rested time o ≡ true)
rested_parts time played none h = (ground arith, refl)
rested_parts time played (some used) h = (ground arith, ground arith)

pub last_used_at-Rested :
    (time user_id fact_id : ℕ) (ps : List FactPlayRow)
    → is_rested time (last_used_at user_id fact_id ps) ≡ true
    → All (Rested time user_id fact_id) ps
unfolding last_used_at
last_used_at-Rested time user_id fact_id [] h = tt
last_used_at-Rested time user_id fact_id (p ∷ ps) h =
    elim (Bool-cases (p.user_id == user_id && p.fact_id == fact_id)) [
      | inl e ↦
          let rest : is_rested time (later_of p.played_at (last_used_at user_id fact_id ps))
              ≡ true =
            ground (arith, h, e) in
          let (here, later) = rested_parts time p.played_at _ rest in
          ((λ _ _. here), last_used_at-Rested time user_id fact_id ps later)
      | inr e ↦ (
        (λ same_user same_fact. absurd (ground (arith, e, same_user, same_fact))),
        last_used_at-Rested time user_id fact_id ps (ground (arith, h, e)),
      )
    ]
