-- ===== src/Handlers/Authenticated.antt =====
-- The outcome of authentication: it never panics, and touches a token at most.
use any_player_sync_server.Prelude.{refl, Text}
use any_player_sync_server.Errors.{Result}
use any_player_sync_server.World.{World}
use any_player_sync_server.World.Runs.{Outcome, answered, refused}
use any_player_sync_server.Handlers.Events.{authenticate-Quiet}
use any_player_sync_server.Handlers.Touched.{OnlyTouched, authenticate-OnlyTouched}
use any_player_sync_server.Handlers.{Headers, authenticate_with_headers}

touched_outcome :
    {A : Type 0} {P : World → Type 0} {Q : A → World → Type 0} (w : World) (r : Result A × World)
    → Outcome P Q r
    → OnlyTouched w r.1
    → Outcome (OnlyTouched w) (λ a. OnlyTouched w) r
touched_outcome w r (answered a after q) h = answered a after h
touched_outcome w r (refused e after p) h = refused e after h

pub authenticate-Outcome :
    (hash_token : Text → Text) (headers : Headers) (w : World)
    → Outcome (OnlyTouched w) (λ a. OnlyTouched w) (authenticate_with_headers hash_token headers w)
authenticate-Outcome hash_token headers w =
    touched_outcome w _
      ((authenticate-Quiet hash_token w.sent headers).at w (record { sent = refl }))
      (authenticate-OnlyTouched hash_token headers w)
