-- ===== src/World/Runs.antt =====
-- Actions with a postcondition: from a state with `P` they never panic, keep `P` and answer, where
-- they answer `ok`, with `Q`.
use any_player_sync_server.Prelude.{
  ◌≡◌, refl, subst, Bool, true, false, List, [], ◌∷◌, if◌then◌else◌,
}
use any_player_sync_server.Errors.{Result, ok, err, ApiError}
use any_player_sync_server.World.{
  World, Action, pure, raise, lift, statement, transaction, ◌>>=◌, run_statement, settle, continue,
}
use any_player_sync_server.World.Keeps.{IsStable, IsRestored}

-- No outcome at all for a panic.
pub data Outcome {ℓ} {A : Type ℓ} (P : World → Type 0) (Q : A → World → Type 0)
    : Result A × World → Type ℓ where
  answered : (a : A) (w : World) → Q a w → Outcome P Q (ok a, w)
  refused : (e : ApiError) (w : World) → P w → Outcome P Q (err e, w)

pub record Runs {ℓ} {A : Type ℓ} (P : World → Type 0) (Q : A → World → Type 0) (m : Action A)
    : Type ℓ where
  pub at : (w : World) → P w → Outcome P Q (m w)

module _ {ℓ κ} {A : Type ℓ} {B : Type κ} {P : World → Type 0} {Q : A → World → Type 0}
    {R : B → World → Type 0} where
  bind_at :
      (r : Result A × World) (f : A → Action B)
      → Outcome P Q r
      → ((a : A) (w : World) → Q a w → Outcome P R (f a w))
      → Outcome P R (continue r.0 f r.1)
  bind_at r f (answered a w q) k = k a w q
  bind_at r f (refused e w p) k = refused e w p

  pub Runs-bind :
      (m : Action A) (f : A → Action B)
      → Runs P Q m
      → ((a : A) (w : World) → Q a w → Outcome P R (f a w))
      → Runs P R (m >>= f)
  unfolding ◌>>=◌
  Runs-bind m f run k = record { at = λ w p. bind_at (m w) f (run.at w p) k }

module _ {A : Type 0} {P : World → Type 0} {Q : A → World → Type 0} where
  -- An answer is the one that was given.
  Outcome-answers :
      (r : Result A × World) → Outcome P Q r → Outcome P (λ a w. Q a w × (r.0 ≡ ok a)) r
  Outcome-answers r (answered a w q) = answered a w (q, refl)
  Outcome-answers r (refused e w p) = refused e w p

  -- From one state, and with the outcome of the first part.
  pub Outcome-bind {κ} :
      {B : Type κ} {R : B → World → Type 0} (m : Action A) (f : A → Action B) (start : World)
      → Outcome P Q (m start)
      → ((a : A) (w : World) → Q a w → (m start).0 ≡ ok a → Outcome P R (f a w))
      → Outcome P R ((m >>= f) start)
  unfolding ◌>>=◌
  Outcome-bind m f start o k =
      bind_at (m start) f (Outcome-answers (m start) o) λ a w (q, eq). k a w q eq

module _ {ℓ} {A : Type ℓ} {P : World → Type 0} {Q : A → World → Type 0} where
  pub Runs-lift : (r : Result A) → ((w : World) → P w → Outcome P Q (r, w)) → Runs P Q (lift r)
  unfolding lift
  Runs-lift r h = record { at = h }

  pub Runs-pure : (a : A) → ((w : World) → P w → Q a w) → Runs P Q (pure a)
  unfolding pure
  Runs-pure a h = record { at = λ w p. answered a w (h w p) }

  pub Runs-raise : (e : ApiError) → Runs P Q (raise e)
  unfolding raise
  Runs-raise e = record { at = λ w p. refused e w p }

  pub Runs-if :
      (b : Bool) (m n : Action A) → Runs P Q m → Runs P Q n → Runs P Q (if b then m else n)
  Runs-if true m n h k = h
  Runs-if false m n h k = k

  run_at :
      (e : ApiError) (m : Action A)
      → IsStable P
      → Runs P Q m
      → (fs : List Bool) (w : World) → P w
      → Outcome P Q (run_statement fs e m w)
  run_at e m stable run [] w p = run.at w p
  run_at e m stable run (true ∷ rest) w p = refused e _ (stable.faults w rest p)
  run_at e m stable run (false ∷ rest) w p = run.at _ (stable.faults w rest p)

  pub Runs-statement :
      (e : ApiError) (m : Action A) → IsStable P → Runs P Q m → Runs P Q (statement e m)
  unfolding statement
  Runs-statement e m stable run = record { at = λ w p. run_at e m stable run w.faults w p }

  settle_at :
      (r : Result A × World) (before : World)
      → IsRestored P P
      → P before
      → Outcome P Q r
      → Outcome P Q (settle before r.0 r.1)
  settle_at r before restored p (answered a w q) = answered a w q
  settle_at r before restored p (refused e w q) = refused e _ (restored.restores before w p q)

  pub Runs-transaction : (m : Action A) → IsRestored P P → Runs P Q m → Runs P Q (transaction m)
  unfolding transaction
  Runs-transaction m restored run = record { at = λ w p. settle_at (m w) w restored p (run.at w p) }

  pub Outcome-pure : (a : A) (w : World) → Q a w → Outcome P Q (pure a w)
  unfolding pure
  Outcome-pure a w q = answered a w q

  pub Outcome-lift : (r : Result A) (w : World) → Outcome P Q (r, w) → Outcome P Q (lift r w)
  unfolding lift
  Outcome-lift r w h = h

pub Outcome-weaken {ℓ} :
    {A : Type ℓ} {P R : World → Type 0} {Q S : A → World → Type 0} (r : Result A × World)
    → ((w : World) → P w → R w)
    → ((a : A) (w : World) → Q a w → S a w)
    → Outcome P Q r
    → Outcome R S r
Outcome-weaken r f g (answered a w q) = answered a w (g a w q)
Outcome-weaken r f g (refused e w p) = refused e w (f w p)

-- An answer has the postcondition.
module _ {ℓ} {A : Type ℓ} {P : World → Type 0} (Q : A → World → Type 0) where
  pub Outcome-ok : (r : Result A × World) (a : A) → Outcome P Q r → r.0 ≡ ok a → Q a r.1
  Outcome-ok r a (answered b w q) h = subst (λ x. Q x w) (cc) q
  Outcome-ok r a (refused e w p) h = absurd (cc)

module _ {ℓ} {A : Type ℓ} {P R : World → Type 0} {Q : A → World → Type 0} where
  settle_any :
      (r : Result A × World) (before : World)
      → IsRestored P R
      → P before
      → Outcome R Q r
      → Outcome P Q (settle before r.0 r.1)
  settle_any r before restored p (answered a w q) = answered a w q
  settle_any r before restored p (refused e w q) = refused e _ (restored.restores before w p q)

  -- Whatever the steps of a transaction leave where they are refused is rolled back.
  pub Outcome-transaction :
      (m : Action A) (w : World)
      → IsRestored P R
      → P w
      → Outcome R Q (m w)
      → Outcome P Q (transaction m w)
  unfolding transaction
  Outcome-transaction m w restored p h = settle_any (m w) w restored p h
