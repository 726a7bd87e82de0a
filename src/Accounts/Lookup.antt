-- ===== src/Accounts/Lookup.antt =====
-- Searching the tables of users and tokens.
use any_player_sync_server.Prelude.{
  ◌≡◌, refl, Bool, true, false, none, some, List, [], ◌∷◌, ◌++◌, any, find, arith, Bool-cases, inl,
  inr, sym,
}
use mathlib.Core.List.{Memᴰ}

pub find_sound :
    {A : Type 0} (p : A → Bool) (xs : List A) (x : A)
    → find p xs ≡ some x
    → Memᴰ x xs × (p x ≡ true)
find_sound p [] x h = absurd (cc)
find_sound p (y ∷ xs) x h = elim (Bool-cases (p y)) [
  | inl here ↦ let same : y ≡ x = ground arith in (Memᴰ.head (sym same), rw (← same) here)
  | inr other ↦ let (m, e) = find_sound p xs x (ground arith) in (Memᴰ.tail m, e)
]

-- A search that the old rows do not answer is answered by the new row, if by any.
pub find-append_new :
    {A : Type 0} (p : A → Bool) (xs : List A) (x : A)
    → any p xs ≡ false
    → p x ≡ true
    → find p (xs ++ x ∷ []) ≡ some x
find-append_new p [] x h e = ground arith
find-append_new p (y ∷ xs) x h e = ground (arith, find-append_new p xs x)

pub any_of_find :
    {A : Type 0} (p : A → Bool) (xs : List A) (x : A) → find p xs ≡ some x → any p xs ≡ true
any_of_find p [] x h = absurd (cc)
any_of_find p (y ∷ xs) x h = ground (arith, any_of_find p xs x)

-- A row that is there is found, unless one before it is.
pub find_of_any :
    {A : Type 0} (p : A → Bool) (xs : List A) → any p xs ≡ true → (x : A) × (find p xs ≡ some x)
find_of_any p [] h = absurd (cc)
find_of_any p (y ∷ xs) h = elim (Bool-cases (p y)) [
  | inl here ↦ (y, rw here)
  | inr other ↦ rw other (find_of_any p xs (ground arith))
]

pub not-any_of_find :
    {A : Type 0} (p : A → Bool) (xs : List A) → find p xs ≡ none → any p xs ≡ false
not-any_of_find p [] h = refl
not-any_of_find p (y ∷ xs) h = ground (arith, not-any_of_find p xs)
