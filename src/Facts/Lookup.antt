-- ===== src/Facts/Lookup.antt =====
-- What GET of a fact answers (src/dj_facts.rs, `lookup`).
use any_player_sync_server.Prelude.{
  ℕ, ◌≡◌, refl, Bool, true, false, Option, none, some, List, [], ◌∷◌, Text, All, keep, arith,
}
use mathlib.Core.List.{Memᴰ}
use any_player_sync_server.Prelude.Kept.{listed-keep, none-keep, All-keep}
use any_player_sync_server.Errors.{ok, ApiError}
use any_player_sync_server.Models.{AuthenticatedUser}
use any_player_sync_server.World.{World}
use any_player_sync_server.World.Rows.{FactRow, FactPlayRow}
use any_player_sync_server.World.Runs.{
  Outcome, answered, refused, Runs, Outcome-bind, Runs-statement, Outcome-pure, Outcome-lift,
}
use any_player_sync_server.MatchKeys.{Unicode, song_keys, artist_keys}
use any_player_sync_server.Handlers.{Headers, authenticate_with_headers}
use any_player_sync_server.Handlers.Touched.{OnlyTouched, OnlyTouched-stable}
use any_player_sync_server.Handlers.Authenticated.{authenticate-Outcome}
use any_player_sync_server.Facts.{
  FactQuery, FactResponse, Fact, last_used_at, is_rested, has_fact_keys, is_offered, comes_first,
  select_fact, to_fact, optional_fact, refuse_unless, valid_query,
}
use any_player_sync_server.Facts.Requests.{lookup}
use any_player_sync_server.Facts.Choice.{
  ComparesScores, first_offer-Offers, Offers, Rested, last_used_at-Rested,
}

module _ (recovers_more : ℕ → ℕ → Bool) (time : ℕ) (plays : List FactPlayRow) (facts : List FactRow)
    (user_id : ℕ) (songs artists : List Text) where
  -- Nothing is told only if the user has heard all facts on the song within thirty days. A fact
  -- that is told is on the song, the user has not heard it within thirty days, and no other such
  -- fact comes before it.
  pub data Tells : Option Fact → Type 0 where
    nothing :
        All
          (λ f.
            has_fact_keys songs artists f ≡ true
            → is_rested time (last_used_at user_id f.id plays) ≡ false)
          facts
        → Tells none
    told :
        (row : FactRow)
        → Memᴰ row facts
        → has_fact_keys songs artists row ≡ true
        → All (Rested time user_id row.id) plays
        → All
            (λ g.
              is_offered time user_id plays songs artists g ≡ true
              → comes_first recovers_more time
                  (last_used_at user_id g.id plays)
                  (last_used_at user_id row.id plays)
                  g
                  row
                ≡ false)
            facts
        → Tells (some (to_fact row))

  offered_parts :
      (f : FactRow)
      → is_offered time user_id plays songs artists f ≡ true
      → (has_fact_keys songs artists f ≡ true)
        × (is_rested time (last_used_at user_id f.id plays) ≡ true)
  unfolding is_offered
  offered_parts f h = (ground (arith, h), ground (arith, h))

  not_offered :
      (f : FactRow)
      → is_offered time user_id plays songs artists f ≡ false
      → has_fact_keys songs artists f ≡ true
      → is_rested time (last_used_at user_id f.id plays) ≡ false
  unfolding is_offered
  not_offered f h e = ground (arith, h, e)

  none_offered :
      (fs : List FactRow)
      → All (λ f. is_offered time user_id plays songs artists f ≡ false) fs
      → All
          (λ f.
            has_fact_keys songs artists f ≡ true
            → is_rested time (last_used_at user_id f.id plays) ≡ false)
          fs
  none_offered [] h = tt
  none_offered (f ∷ fs) (p, h) = (not_offered f p, none_offered fs h)

  Offers-Tells :
      (o : Option FactRow)
      → (scores : ComparesScores recovers_more)
      → Offers recovers_more scores time
          (λ f. last_used_at user_id f.id plays)
          (keep (is_offered time user_id plays songs artists) facts)
          o
      → Tells (optional_fact o)
  Offers-Tells none scores h = nothing (none_offered facts (none-keep _ facts h))
  Offers-Tells (some row) scores (kept, first) =
      let (listed, passes) = listed-keep _ facts row kept in
      let (on_song, rested) = offered_parts row passes in
      told row listed on_song (last_used_at-Rested time user_id row.id plays rested)
        (All-keep _ _ facts first)

-- Only a token is touched, and the answer is the one of the tables at the start.
pub record LooksUp (recovers_more : ℕ → ℕ → Bool) (w : World) (user_id : ℕ)
    (songs artists : List Text) (answer : Option Fact) (after : World) : Type 0 where
  pub touched : OnlyTouched w after
  pub tells : Tells recovers_more w.clock w.fact_plays w.facts user_id songs artists answer

module _ (recovers_more : ℕ → ℕ → Bool) (scores : ComparesScores recovers_more) (start : World)
    (user_id : ℕ) (songs artists : List Text) where
  select_fact-LooksUp :
      Runs
        (OnlyTouched start)
        (λ row. LooksUp recovers_more start user_id songs artists (optional_fact row))
        (select_fact recovers_more user_id songs artists)
  unfolding select_fact
  select_fact-LooksUp = record {
    at = λ w t. answered _ w (record {
      touched = t;
      tells =
          rw⁻¹ (t.facts, t.fact_plays, t.clock)
            (Offers-Tells recovers_more w.clock w.fact_plays w.facts user_id songs artists _ scores
              (first_offer-Offers recovers_more scores w.clock
                (λ f. last_used_at user_id f.id w.fact_plays)
                (keep (is_offered w.clock user_id w.fact_plays songs artists) w.facts)));
    });
  }

pub refuse_unless-Outcome :
    {P : World → Type 0} (b : Bool) (e : ApiError) (w : World)
    → P w
    → Outcome P (λ _ after. P after × (b ≡ true)) (refuse_unless b e, w)
refuse_unless-Outcome true e w p = answered tt w (p, refl)
refuse_unless-Outcome false e w p = refused e w p

-- Whom the request comes from, and what is told to that user.
pub record IsAnswered (hash_token : Text → Text) (headers : Headers) (unicode : Unicode)
    (recovers_more : ℕ → ℕ → Bool) (query : FactQuery) (w : World) (response : FactResponse)
    (after : World) : Type 0 where
  pub user : AuthenticatedUser
  pub session : (authenticate_with_headers hash_token headers w).0 ≡ ok user
  pub valid : valid_query query ≡ true
  pub looks_up :
      LooksUp recovers_more w user.id
        (song_keys unicode query.song)
        (artist_keys unicode query.artist)
        response.fact
        after

module _ (hash_token : Text → Text) (headers : Headers) (unicode : Unicode)
    (recovers_more : ℕ → ℕ → Bool) (query : FactQuery) (w : World) where
  -- Whatever statement fails: a lookup never panics and changes nothing but the time at which a
  -- token was last used. If it answers, with scores that are compared as numbers are, the fact is on
  -- the song and was not played by the sender within the last thirty days, and no other such fact
  -- comes before it; without a fact, every fact on the song was played by the sender within thirty
  -- days.
  pub lookup_answers :
      ComparesScores recovers_more
      → Outcome
          (OnlyTouched w)
          (IsAnswered hash_token headers unicode recovers_more query w)
          (lookup hash_token headers unicode recovers_more query w)
  unfolding lookup
  lookup_answers scores =
      Outcome-bind _ _ w (authenticate-Outcome hash_token headers w) λ user after touched session.
        Outcome-bind _ _ after
          (Outcome-lift _ after (refuse_unless-Outcome (valid_query query) _ after touched))
          λ _ at' (t, valid) _.
            Outcome-bind _ _ at'
              ((Runs-statement _ _ (OnlyTouched-stable w) (
                  select_fact-LooksUp recovers_more scores w user.id (song_keys unicode query.song)
                    (artist_keys unicode query.artist))).at
                at' t)
              λ row done looked _.
                Outcome-pure _ done
                  (record { user = user; session = session; valid = valid; looks_up = looked })
