-- ===== src/World/Keeps.antt =====
-- Invariants of actions: one rule for each way to build an action.
use any_player_sync_server.Prelude.{◌≡◌, refl, Bool, true, false, List, [], ◌∷◌, if◌then◌else◌}
use any_player_sync_server.Errors.{Result, ok, err, panicked, ApiError}
use any_player_sync_server.World.{
  World, Action, pure, raise, panic, lift, gets, now, statement, transaction, ◌>>=◌, run_statement,
  settle, continue, rolled_back,
}

-- `P` of the tables, whatever statements fail later.
pub record IsStable {ℓ} (P : World → Type ℓ) : Type ℓ where
  pub faults : (w : World) (rest : List Bool) → P w → P (record w { faults = rest })

-- `P` comes back where a transaction that has come to `R` is rolled back.
pub record IsRestored {ℓ κ} (P : World → Type ℓ) (R : World → Type κ) : Type (ℓ ⊔ κ) where
  pub restores : (before after : World) → P before → R after → P (rolled_back before after)

-- Whether the action returns, raises or panics, it keeps `P`.
pub record Keeps {ℓ κ} {A : Type ℓ} (P : World → Type κ) (m : Action A) : Type κ where
  pub at : (w : World) → P w → P (m w).1

module _ {ℓ κ} {A : Type ℓ} {P : World → Type κ} where
  pub Keeps-pure : (a : A) → Keeps P (pure a)
  unfolding pure
  Keeps-pure a = record { at = λ w h. h }

  pub Keeps-raise : (e : ApiError) → Keeps P (raise {A = A} e)
  unfolding raise
  Keeps-raise e = record { at = λ w h. h }

  pub Keeps-panic : Keeps P (panic {A = A})
  unfolding panic
  Keeps-panic = record { at = λ w h. h }

  pub Keeps-lift : (r : Result A) → Keeps P (lift r)
  unfolding lift
  Keeps-lift r = record { at = λ w h. h }

  pub Keeps-gets : (f : World → A) → Keeps P (gets f)
  unfolding gets
  Keeps-gets f = record { at = λ w h. h }

  pub Keeps-if : (b : Bool) (m n : Action A) → Keeps P m → Keeps P n → Keeps P (if b then m else n)
  Keeps-if true m n km kn = km
  Keeps-if false m n km kn = kn

pub Keeps-now {κ} : {P : World → Type κ} → Keeps P now
unfolding now
Keeps-now = record { at = λ w h. h }

module _ {ℓ κ} {A : Type ℓ} {P : World → Type κ} (stable : IsStable P) (m : Action A)
    (km : Keeps P m) where
  run_at : (e : ApiError) (fs : List Bool) (w : World) → P w → P (run_statement fs e m w).1
  run_at e [] w h = km.at w h
  run_at e (true ∷ rest) w h = stable.faults w rest h
  run_at e (false ∷ rest) w h = km.at (record w { faults = rest }) (stable.faults w rest h)

  pub Keeps-statement : (e : ApiError) → Keeps P (statement e m)
  unfolding statement
  Keeps-statement e = record { at = λ w h. run_at e w.faults w h }

module _ {ℓ κ} {A : Type ℓ} {P : World → Type κ} (restored : IsRestored P P) (m : Action A)
    (km : Keeps P m) where
  settle_at : (r : Result A) (w after : World) → P w → P after → P (settle w r after).1
  settle_at (ok a) w after h k = k
  settle_at (err e) w after h k = restored.restores w after h k
  settle_at panicked w after h k = restored.restores w after h k

  pub Keeps-transaction : Keeps P (transaction m)
  unfolding transaction
  Keeps-transaction = record {
    at = λ w h. let (r, after) = m w in settle_at r w after h (km.at w h);
  }

module _ {ℓ κ μ} {A : Type ℓ} {B : Type κ} {P : World → Type μ} where
  continue_at :
      (r : Result A) (next : A → Action B) (w : World)
      → ((a : A) → r ≡ ok a → Keeps P (next a))
      → P w
      → P (continue r next w).1
  continue_at (ok a) next w later h = (later a refl).at w h
  continue_at (err e) next w later h = h
  continue_at panicked next w later h = h

  pub Keeps-bind :
      (m : Action A) (next : A → Action B)
      → Keeps P m
      → ((a : A) → Keeps P (next a))
      → Keeps P (m >>= next)
  unfolding ◌>>=◌
  Keeps-bind m next km later = record {
    at = λ w h. let (r, after) = m w in continue_at r next after (λ a _. later a) (km.at w h);
  }

  -- The rest of the block may use that a pure result is the one that it is.
  pub Keeps-bind-lift :
      (r : Result A) (next : A → Action B)
      → ((a : A) → r ≡ ok a → Keeps P (next a))
      → Keeps P (lift r >>= next)
  unfolding ◌>>=◌
  Keeps-bind-lift r next later = record { at = λ w h. continue_at r next w later h }

pub ruleset keeps_rules = (
  Keeps-pure, Keeps-raise, Keeps-panic, Keeps-lift, Keeps-gets, Keeps-if, Keeps-now, Keeps-bind,
  Keeps-statement, Keeps-transaction,
)
