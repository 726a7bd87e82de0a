-- ===== src/Accounts/Calls.antt =====
-- Series of account calls keep the unique indexes.
use any_player_sync_server.Prelude.{ℕ, Bool, Option, List, [], ◌∷◌, Text}
use any_player_sync_server.World.{World}
use any_player_sync_server.Accounts.{
  authenticate_token, create_user, set_user_disabled, create_token, revoke_token,
  ensure_bootstrap_admin,
}
use any_player_sync_server.Accounts.Unique.{
  IsUnique, create_user-IsUnique, set_user_disabled-IsUnique, create_token-IsUnique,
  revoke_token-IsUnique, authenticate_token-IsUnique, ensure_bootstrap_admin-IsUnique,
}

-- The calls that change accounts, and the state after a series of them, whatever each answers.
pub data Call : Type 0 where
  create_user_call : Text → Bool → Call
  disable_call : ℕ → Bool → Call
  create_token_call : Text → ℕ → Option Text → Call
  revoke_call : ℕ → Call
  authenticate_call : Text → Call
  bootstrap_call : Text → Option Text → Call

module _ (hash_token : Text → Text) where
  unfoldable pub perform : Call → World → World
  perform (create_user_call name is_admin) w = (create_user name is_admin w).1
  perform (disable_call id disabled) w = (set_user_disabled id disabled w).1
  perform (create_token_call random id label) w = (create_token hash_token random id label w).1
  perform (revoke_call id) w = (revoke_token id w).1
  perform (authenticate_call token) w = (authenticate_token hash_token token w).1
  perform (bootstrap_call name token) w = (ensure_bootstrap_admin hash_token name token w).1

  unfoldable pub perform_all : List Call → World → World
  perform_all [] w = w
  perform_all (c ∷ cs) w = perform_all cs (perform c w)

  perform-IsUnique : (c : Call) (w : World) → IsUnique w → IsUnique (perform c w)
  unfolding perform
  perform-IsUnique (create_user_call name is_admin) w = (create_user-IsUnique name is_admin).at w
  perform-IsUnique (disable_call id disabled) w = (set_user_disabled-IsUnique id disabled).at w
  perform-IsUnique (create_token_call random id label) w =
      (create_token-IsUnique hash_token random id label).at w
  perform-IsUnique (revoke_call id) w = (revoke_token-IsUnique id).at w
  perform-IsUnique (authenticate_call token) w = (authenticate_token-IsUnique hash_token token).at w
  perform-IsUnique (bootstrap_call name token) w =
      (ensure_bootstrap_admin-IsUnique hash_token name token).at w

  -- After any calls, whichever statements fail in them, no two users have one name and no two
  -- tokens have one hash, if that was so before.
  pub perform_all-IsUnique : (cs : List Call) (w : World) → IsUnique w → IsUnique (perform_all cs w)
  unfolding perform_all
  perform_all-IsUnique [] w h = h
  perform_all-IsUnique (c ∷ cs) w h = perform_all-IsUnique cs (perform c w) (perform-IsUnique c w h)
