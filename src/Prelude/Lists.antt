-- ===== src/Prelude/Lists.antt =====
-- Lists measured by native numbers, the Boolean quantifiers that run in tests, and `All`.
use Prim.Native.Nat.{ℕ, zero, suc, ◌+◌, ◌≤◌}
use mathlib.Core.Path.{◌≡◌, refl, ap}
use mathlib.Core.Bool.{Bool, true, false, ◌&&◌, ◌||◌}
use mathlib.Core.Option.{Option, none, some}
use mathlib.Core.List.{List, [], ◌∷◌, ◌++◌}
use native.Mathlib.Omega.{arith}
use any_player_sync_server.Prelude.Tests.{if◌then◌else◌}

module _ {ℓ} {A : Type ℓ} where
  abbrev pub length : List A → ℕ
  length [] = 0
  length (x ∷ xs) = suc (length xs)

  abbrev pub take : ℕ → List A → List A
  take zero xs = []
  take (suc n) [] = []
  take (suc n) (x ∷ xs) = x ∷ take n xs

  abbrev pub drop : ℕ → List A → List A
  drop zero xs = xs
  drop (suc n) [] = []
  drop (suc n) (x ∷ xs) = drop n xs

  abbrev pub all : (A → Bool) → List A → Bool
  all p [] = true
  all p (x ∷ xs) = p x && all p xs

  abbrev pub any : (A → Bool) → List A → Bool
  any p [] = false
  any p (x ∷ xs) = p x || any p xs

  -- The items that pass the test, in order.
  abbrev pub keep : (A → Bool) → List A → List A
  keep p [] = []
  keep p (x ∷ xs) = let rest = keep p xs in if p x then x ∷ rest else rest

  -- The first item that passes the test.
  abbrev pub find : (A → Bool) → List A → Option A
  find p [] = none
  find p (x ∷ xs) = let rest = find p xs in if p x then some x else rest

  -- `f` applied to the items that pass the test.
  abbrev pub update_where : (A → Bool) → (A → A) → List A → List A
  update_where p f [] = []
  update_where p f (x ∷ xs) = (if p x then f x else x) ∷ update_where p f xs

  abbrev pub last? : List A → Option A
  last? [] = none
  last? (x ∷ []) = some x
  last? (x ∷ y ∷ xs) = last? (y ∷ xs)

module _ {ℓ κ} {A : Type ℓ} (P : A → Type κ) where
  abbrev pub All : List A → Type κ
  All [] = Unit
  All (x ∷ xs) = P x × All xs

  pub All-append : (xs ys : List A) → All xs → All ys → All (xs ++ ys)
  All-append [] ys h k = k
  All-append (x ∷ xs) ys (p, h) k = (p, All-append xs ys h k)

module _ {ℓ} {A : Type ℓ} where
  pub length-append : (xs ys : List A) → length (xs ++ ys) ≡ length xs + length ys
  length-append [] ys = omega arith
  length-append (x ∷ xs) ys = omega (arith, length-append xs ys)

  pub length-keep : (p : A → Bool) (xs : List A) → length (keep p xs) ≤ length xs
  length-keep p [] = omega arith
  length-keep p (x ∷ xs) = ground (arith, length-keep p xs)

  pub length-update_where :
      (p : A → Bool) (f : A → A) (xs : List A) → length (update_where p f xs) ≡ length xs
  length-update_where p f [] = refl
  length-update_where p f (x ∷ xs) = ap suc (length-update_where p f xs)

  pub keep-append :
      (p : A → Bool) (xs : List A) (x : A)
      → length (keep p (xs ++ x ∷ [])) ≡ length (keep p xs) + (if p x then 1 else 0)
  keep-append p [] x = ground arith
  keep-append p (y ∷ xs) x = ground (arith, keep-append p xs x)

  pub keep_of_not_any : (p : A → Bool) (xs : List A) → any p xs ≡ false → length (keep p xs) ≡ 0
  keep_of_not_any p [] h = refl
  keep_of_not_any p (x ∷ xs) h = ground (arith, keep_of_not_any p xs)

  pub keep-update_where :
      (p q : A → Bool) (f : A → A) (xs : List A)
      → ((r : A) → p (f r) ≡ p r)
      → length (keep p (update_where q f xs)) ≡ length (keep p xs)
  keep-update_where p q f [] same = refl
  keep-update_where p q f (x ∷ xs) same = ground (arith, same x, keep-update_where p q f xs same)

  -- A write to the items that pass a test is found where the item was.
  pub find-update_where :
      (p : A → Bool) (f : A → A) (xs : List A) (x : A)
      → ((r : A) → p (f r) ≡ p r)
      → find p xs ≡ some x
      → find p (update_where p f xs) ≡ some (f x)
  find-update_where p f [] x same h = absurd (cc)
  find-update_where p f (y ∷ xs) x same h = ground (arith, same y, find-update_where p f xs x same)
