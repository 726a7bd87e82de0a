-- ===== src/Handlers/Events.antt =====
-- Which requests send an event, and which.
use any_player_sync_server.Prelude.{
  ◌≡◌, refl, ◌≢◌, ℕ, ◌++◌, Option, none, some, List, [], ◌∷◌, ◌∙◌, ap, Text, arith,
}
use any_player_sync_server.Errors.{ok}
use any_player_sync_server.Models.{
  Namespace, snapshot, parse, NamespacePayload, SnapshotPayload, UpdateEvent, app_state, playlists,
  provider_configuration, settings, AuthenticatedUser,
}
use any_player_sync_server.World.{World, ◌>>◌, ◌>>=◌, lift, pure}
use any_player_sync_server.World.Runs.{
  Outcome, answered, refused, Runs, Outcome-bind, Runs-bind, Runs-lift, Runs-raise,
}
use any_player_sync_server.Sync.{state_updated}
use any_player_sync_server.Handlers.{
  Headers, bearer_token_from_headers, authenticate_with_headers, refuse_snapshot, put_namespace,
  put_snapshot, or_missing, send_user_event, response,
}
use any_player_sync_server.Handlers.Sent.{
  HasSent, Quiet, update_namespace-Reports, replace_snapshot-Reports, authenticate_token-Quiet,
  then-Quiet, quiet,
}

module _ (hash_token : Text → Text) (log : List (ℕ × UpdateEvent)) where
  or_missing-Quiet :
      (found : Option Text) → Runs (HasSent log) (Quiet log) (or_missing hash_token found)
  or_missing-Quiet none = Runs-raise _
  or_missing-Quiet (some token) = authenticate_token-Quiet log hash_token token

  pub authenticate-Quiet :
      (headers : Headers)
      → Runs (HasSent log) (Quiet log) (authenticate_with_headers hash_token headers)
  unfolding authenticate_with_headers
  authenticate-Quiet headers = or_missing-Quiet (bearer_token_from_headers headers)

  refuse_snapshot-Outcome :
      (ns : Namespace) (w : World)
      → HasSent log w
      → Outcome (HasSent log) (λ a w. HasSent log w × (ns ≢ snapshot)) (refuse_snapshot ns, w)
  unfolding refuse_snapshot
  refuse_snapshot-Outcome snapshot w h = refused _ w h
  refuse_snapshot-Outcome app_state w h = answered tt w (h, λ e. cc)
  refuse_snapshot-Outcome playlists w h = answered tt w (h, λ e. cc)
  refuse_snapshot-Outcome provider_configuration w h = answered tt w (h, λ e. cc)
  refuse_snapshot-Outcome settings w h = answered tt w (h, λ e. cc)

  parse-Quiet : (name : Text) → Runs (HasSent log) (Quiet log) (lift (parse name))
  unfolding lift parse
  parse-Quiet name = quiet log _ (λ w. ground arith) (λ w. refl)

  -- The last two lines of both handlers.
  announce :
      {A : Type 0} (u : ℕ) (e e' : UpdateEvent) (a : A) (w : World)
      → HasSent log w
      → e ≡ e'
      → (Q : A → World → Type 0) → ((w' : World) → w'.sent ≡ log ++ (u, e') ∷ [] → Q a w')
      → Outcome (HasSent log) Q ((send_user_event u e >> pure a) w)
  unfolding send_user_event ◌>>=◌
  announce u e e' a w h same Q k =
      answered a _ (k _ (ap (λ l. l ++ (u, e) ∷ []) h.sent ∙ ap (λ x. log ++ (u, x) ∷ []) same))

module _ (hash_token : Text → Text) (start : World) (headers : Headers) where
  -- Beyond the start, one event has been sent: to the user who has authenticated.
  pub record Sends (e : UpdateEvent) (w : World) : Type 0 where
    pub user : AuthenticatedUser
    pub authenticated : (authenticate_with_headers hash_token headers start).0 ≡ ok user
    pub sent : w.sent ≡ start.sent ++ (user.id, e) ∷ []

  abbrev Silent : World → Type 0
  Silent = HasSent start.sent

  -- Whatever statement fails, PUT /v1/state does not panic. Where it answers `ok`, one event
  -- has been sent, to the user who has authenticated, with the namespace, the version and the time
  -- of the answer and the client that was named; where it does not, none has been.
  pub put_namespace_announces :
      (name : Text) (p : NamespacePayload)
      → Outcome
          (HasSent start.sent)
          (λ r. Sends (state_updated r.namespace r.version r.updated_at p.client_id))
          (put_namespace hash_token headers name p start)
  unfolding put_namespace
  put_namespace_announces name p =
      Outcome-bind _ _ start
        ((authenticate-Quiet hash_token start.sent headers).at start (record { sent = refl }))
        λ user w h is_user.
          (then-Quiet start.sent _ _ (parse-Quiet hash_token start.sent name) λ ns.
              Runs-bind _ _ (Runs-lift _ (refuse_snapshot-Outcome hash_token start.sent ns))
                λ _ w (h, ne).
                  (Runs-bind _ _ (update_namespace-Reports start.sent user.id ns p ne)
                      λ result w (h, eq).
                        announce hash_token start.sent user.id result.1 _ (response result.0 ns) w h
                          eq _
                          λ w' sent. record {
                            user = user;
                            authenticated = is_user;
                            sent = sent;
                          }).at
                    w h).at
            w h

  -- Whatever statement fails, PUT /v1/snapshot does not panic. Where it answers `ok`, one event has
  -- been sent, to the user who has authenticated, with the version and the time of the answer and
  -- the client that was named; where it does not, none has been.
  pub put_snapshot_announces :
      (p : SnapshotPayload)
      → Outcome
          (HasSent start.sent)
          (λ s. Sends (state_updated snapshot s.version s.updated_at p.client_id))
          (put_snapshot hash_token headers p start)
  unfolding put_snapshot
  put_snapshot_announces p =
      Outcome-bind _ _ start
        ((authenticate-Quiet hash_token start.sent headers).at start (record { sent = refl }))
        λ user w h is_user.
          (Runs-bind _ _ (replace_snapshot-Reports start.sent user.id p) λ result w (h, eq).
              announce hash_token start.sent user.id result.1 _ result.0 w h eq _
                λ w' sent. record { user = user; authenticated = is_user; sent = sent }).at
            w h
