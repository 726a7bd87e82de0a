-- ===== src/World/Steps.antt =====
-- How an action goes on once the outcome of its first part is known.
use any_player_sync_server.Prelude.{◌≡◌}
use any_player_sync_server.Errors.{ok, err, ApiError}
use any_player_sync_server.World.{World, Action, transaction, ◌>>=◌, continue, settle, rolled_back}

module _ {ℓ κ} {A : Type ℓ} {B : Type κ} (m : Action A) (f : A → Action B) where
  pub bind_ok : (w after : World) (a : A) → m w ≡ (ok a, after) → (m >>= f) w ≡ f a after
  unfolding ◌>>=◌
  bind_ok w after a h = λ i. continue (h i).0 f (h i).1

  pub bind_err :
      (w after : World) (e : ApiError) → m w ≡ (err e, after) → (m >>= f) w ≡ (err e, after)
  unfolding ◌>>=◌
  bind_err w after e h = λ i. continue (h i).0 f (h i).1

module _ {ℓ} {A : Type ℓ} (m : Action A) where
  pub transaction_ok :
      (w after : World) (a : A) → m w ≡ (ok a, after) → transaction m w ≡ (ok a, after)
  unfolding transaction
  transaction_ok w after a h = λ i. settle w (h i).0 (h i).1

  -- A failure rolls the tables back.
  pub transaction_err :
      (w after : World) (e : ApiError)
      → m w ≡ (err e, after)
      → transaction m w ≡ (err e, rolled_back w after)
  unfolding transaction
  transaction_err w after e h = λ i. settle w (h i).0 (h i).1
