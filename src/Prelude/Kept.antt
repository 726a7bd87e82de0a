-- ===== src/Prelude/Kept.antt =====
-- The items that `keep` leaves.
use mathlib.Core.Path.{◌≡◌, sym, subst, ap, ◌∙◌}
use mathlib.Core.Logic.{inl, inr}
use mathlib.Core.Bool.{Bool, true, false}
use mathlib.Core.List.{List, [], ◌∷◌, Memᴰ}
use mathlib.Core.List.Memᴰ
use native.Mathlib.Omega.{arith}
use any_player_sync_server.Prelude.Tests.{Bool-cases}
use any_player_sync_server.Prelude.Lists.{keep, All}

module _ {ℓ} {A : Type ℓ} (p : A → Bool) where
  pub listed-keep : (xs : List A) (x : A) → Memᴰ x (keep p xs) → Memᴰ x xs × (p x ≡ true)
  listed-keep [] x m = absurd (Memᴰ.not-nil m)
  listed-keep (y ∷ xs) x m = elim (Bool-cases (p y)) [
    | inl e ↦ elim (Memᴰ.cases_cons (subst (Memᴰ x) (ground arith) m)) [
      | inl same ↦ (Memᴰ.head same, ap p same ∙ e)
      | inr later ↦ let (listed, passes) = listed-keep xs x later in (Memᴰ.tail listed, passes)
    ]
    | inr e ↦
        let (listed, passes) = listed-keep xs x (subst (Memᴰ x) (ground arith) m) in
        (Memᴰ.tail listed, passes)
  ]

  pub none-keep : (xs : List A) → keep p xs ≡ [] → All (λ x. p x ≡ false) xs
  none-keep [] h = tt
  none-keep (x ∷ xs) h = (ground arith, none-keep xs (ground arith))

  -- What holds of the items left holds of the items that pass.
  pub All-keep {κ} :
      (P : A → Type κ) (xs : List A) → All P (keep p xs) → All (λ x. p x ≡ true → P x) xs
  All-keep P [] h = tt
  All-keep P (x ∷ xs) h = elim (Bool-cases (p x)) [
    | inl e ↦
        let kept : keep p (x ∷ xs) ≡ x ∷ keep p xs = ground arith in
        let both : All P (x ∷ keep p xs) = subst (All P) kept h in
        let (here, rest) = both in (λ _. here, All-keep P xs rest)
    | inr e ↦ ((λ e'. absurd (cc)), All-keep P xs (subst (All P) (ground arith) h))
  ]

module _ {ℓ κ} {A : Type ℓ} (P : A → Type κ) where
  pub All-listed : (x : A) (xs : List A) → Memᴰ x xs → All P xs → P x
  All-listed x [] listed h = absurd (Memᴰ.not-nil listed)
  All-listed x (y ∷ xs) (Memᴰ.head same) (p, h) = subst P (sym same) p
  All-listed x (y ∷ xs) (Memᴰ.tail later) (p, h) = All-listed x xs later h
