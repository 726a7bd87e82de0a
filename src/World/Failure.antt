-- ===== src/World/Failure.antt =====
-- Actions that keep a predicate wherever they do not end well.
use any_player_sync_server.Prelude.{◌≡◌, false, arith}
use any_player_sync_server.Errors.{Result, ok, err, panicked, is_ok}
use any_player_sync_server.World.{World, Action, transaction, ◌>>=◌, continue, settle}
use any_player_sync_server.World.Keeps.{Keeps, IsRestored}

pub record OnFailure {ℓ κ} {A : Type ℓ} (P : World → Type κ) (m : Action A) : Type κ where
  pub at : (w : World) → P w → is_ok (m w).0 ≡ false → P (m w).1

module _ {ℓ κ} {A : Type ℓ} {P : World → Type κ} where
  settle_at :
      (r : Result A) (w after : World)
      → IsRestored P (λ _. Unit {0})
      → P w
      → is_ok (settle w r after).0 ≡ false
      → P (settle w r after).1
  settle_at (ok a) w after restored h failed = absurd (ground arith)
  settle_at (err e) w after restored h failed = restored.restores w after h tt
  settle_at panicked w after restored h failed = restored.restores w after h tt

  -- A transaction that fails is rolled back.
  pub OnFailure-transaction :
      IsRestored P (λ _. Unit {0}) → (m : Action A) → OnFailure P (transaction m)
  unfolding transaction
  OnFailure-transaction restored m = record {
    at = λ w h failed. let (r, after) = m w in settle_at r w after restored h failed;
  }

module _ {ℓ κ μ} {A : Type ℓ} {B : Type κ} {P : World → Type μ} where
  continue_at :
      (r : Result A) (f : A → Action B) (w : World)
      → ((a : A) → OnFailure P (f a))
      → P w
      → is_ok (continue r f w).0 ≡ false
      → P (continue r f w).1
  continue_at (ok a) f w kf h failed = (kf a).at w h failed
  continue_at (err e) f w kf h failed = h
  continue_at panicked f w kf h failed = h

  pub OnFailure-bind :
      (m : Action A) (f : A → Action B)
      → Keeps P m
      → ((a : A) → OnFailure P (f a))
      → OnFailure P (m >>= f)
  unfolding ◌>>=◌
  OnFailure-bind m f km kf = record {
    at = λ w h failed. let (r, after) = m w in continue_at r f after kf (km.at w h) failed;
  }
