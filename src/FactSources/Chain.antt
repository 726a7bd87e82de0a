-- ===== src/FactSources/Chain.antt =====
-- Chains of fallible steps, as src/dj_fact_sources.rs writes them with `?` and early returns.
use any_player_sync_server.Prelude.{◌≡◌, refl, String, Bool, true, false, Option, none, some}
use any_player_sync_server.Errors.{Result, ok, err, panicked}
use any_player_sync_server.FactSources.{invalid}

infixl 10 ◌>>=◌ ◌>>◌
-- The operator `?`
unfoldable pub ◌>>=◌ : {A B : Type 0} → Result A → (A → Result B) → Result B
ok a >>= f = f a
err e >>= f = err e
panicked >>= f = panicked

abbrev pub ◌>>◌ : {A B : Type 0} → Result A → Result B → Result B
m >> k = m >>= λ _. k

-- Option::ok_or_else
unfoldable pub or_invalid : {A : Type 0} → Option A → String → Result A
or_invalid none message = err (invalid message)
or_invalid (some a) message = ok a

-- return Err(invalid(..)) under a test
unfoldable pub refuse_if : Bool → String → Result (Unit {0})
refuse_if true message = err (invalid message)
refuse_if false message = ok tt

-- A result that is no panic and, where it is `ok`, has the postcondition.
abbrev pub Ends : {A : Type 0} → (A → Type 0) → Result A → Type 0
Ends Q (ok a) = Q a
Ends Q (err e) = Unit
Ends Q panicked = ⊥

module _ {B : Type 0} (Q : B → Type 0) where
  pub Ends-bind :
      {A : Type 0} (P : A → Type 0) (step : Result A) (next : A → Result B)
      → Ends P step
      → ((a : A) → P a → Ends Q (next a))
      → Ends Q (step >>= next)
  unfolding ◌>>=◌
  Ends-bind P (ok a) next p h = h a p
  Ends-bind P (err e) next p h = tt
  Ends-bind P panicked next p h = p

  pub Ends-or_invalid :
      {A : Type 0} (o : Option A) (m : String) (f : A → Result B)
      → ((a : A) → o ≡ some a → Ends Q (f a))
      → Ends Q (or_invalid o m >>= f)
  unfolding ◌>>=◌ or_invalid
  Ends-or_invalid none m f h = tt
  Ends-or_invalid (some a) m f h = h a refl

  pub Ends-refuse_if :
      (b : Bool) (m : String) (r : Result B) → (b ≡ false → Ends Q r) → Ends Q (refuse_if b m >> r)
  unfolding ◌>>=◌ refuse_if
  Ends-refuse_if true m r h = tt
  Ends-refuse_if false m r h = h refl

pub Ends-weaken :
    {A : Type 0} (P Q : A → Type 0) (r : Result A) → ((a : A) → P a → Q a) → Ends P r → Ends Q r
Ends-weaken P Q (ok a) h p = h a p
Ends-weaken P Q (err e) h p = tt
Ends-weaken P Q panicked h p = p

pub Ends-refuse :
    (Q : Unit {0} → Type 0) (b : Bool) (m : String) → (b ≡ false → Q tt) → Ends Q (refuse_if b m)
unfolding refuse_if
Ends-refuse Q true m h = tt
Ends-refuse Q false m h = h refl
