-- ===== src/Facts/Rests.antt =====
-- A fact that a user has heard rests, whatever requests come between.
use any_player_sync_server.Prelude.{
  ℕ, ◌+◌, ◌<◌, ◌≡◌, ◌≢◌, inl, inr, sym, ap, ◌∙◌, subst, Bool, Option, none, some, List, [], ◌∷◌, ℤ,
  Text, ◌==◌, any, All, arith, Bool-cases,
}
use mathlib.Core.List.{Memᴰ}
use mathlib.Core.List.Memᴰ
use any_player_sync_server.Errors.{Result, ok, ok-injective}
use any_player_sync_server.Models.{AuthenticatedUser}
use any_player_sync_server.World.{World}
use any_player_sync_server.Prelude.Kept.{All-listed}
use any_player_sync_server.World.Rows.{FactRow, FactPlayRow}
use any_player_sync_server.World.Keeps.{Keeps, IsStable, keeps_rules}
use any_player_sync_server.World.Runs.{Outcome-ok}
use any_player_sync_server.MatchKeys.{Unicode}
use any_player_sync_server.Handlers.{Headers, authenticate_with_headers}
use any_player_sync_server.Handlers.Touched.{authenticate-OnlyTouched}
use any_player_sync_server.FactSources.Fetch.{Crates, Net}
use any_player_sync_server.Facts.{
  FactQuery, FactResponse, Contribution, Fact, Played, select_fact, insert_fact, insert_or,
  insert_play, select_play, is_event, reuse_after,
}
use any_player_sync_server.Facts.Requests.{lookup, contribute, played, explain}
use any_player_sync_server.Facts.Choice.{ComparesScores, Rested}
use any_player_sync_server.Facts.Lookup.{Tells, nothing, told, IsAnswered, lookup_answers}
use any_player_sync_server.Facts.Consistent.{
  FactRequest, lookup_request, contribute_request, played_request, serve_fact, serve_facts,
}

module _ (p : FactPlayRow) where
  pub record HasPlay (w : World) : Type 0 where
    pub listed : Memᴰ p w.fact_plays

  HasPlay-stable : IsStable HasPlay
  HasPlay-stable = record { faults = λ w rest h. record { listed = h.listed } }

  authenticate-HasPlay :
      (hash_token : Text → Text) (headers : Headers)
      → Keeps HasPlay (authenticate_with_headers hash_token headers)
  authenticate-HasPlay hash_token headers = record {
    at = λ w h. record {
      listed = rw (authenticate-OnlyTouched hash_token headers w).fact_plays h.listed;
    };
  }

  query-HasPlay : {A : Type 0} (f : World → Result A) → Keeps HasPlay (λ w. (f w, w))
  query-HasPlay f = record { at = λ w h. h }

  insert_fact-HasPlay :
      (keyed : Text → Text) (input : Contribution) (source_url fingerprint : Text)
      → Keeps HasPlay (insert_fact keyed input source_url fingerprint)
  unfolding insert_fact
  insert_fact-HasPlay keyed input source_url fingerprint = record { at = λ w h. by_row w _ _ h }
    where
      by_row :
          (w : World) (o : Option FactRow) (row : FactRow)
          → HasPlay w
          → HasPlay (insert_or o row w).1
      by_row w none row h = record { listed = h.listed }
      by_row w (some old) row h = record { listed = h.listed }

  insert_play-HasPlay :
      (user_id fact_id : ℕ) (input : Played) → Keeps HasPlay (insert_play user_id fact_id input)
  unfolding insert_play
  insert_play-HasPlay user_id fact_id input = record {
    at = λ w h. elim (Bool-cases (any (λ f. f.id == fact_id) w.facts)) [
      | inr e ↦ rw e h
      | inl e ↦ elim (Bool-cases (any (is_event user_id input.event_id) w.fact_plays)) [
        | inl e' ↦ rw (e, e') h
        | inr e' ↦ elim (Bool-cases (any (λ u. u.id == user_id) w.users)) [
          | inr e'' ↦ rw (e, e', e'') h
          | inl e'' ↦ rw (e, e', e'') (record { listed = Memᴰ.append_left _ h.listed })
        ]
      ]
    ];
  }

  explain-HasPlay :
      (user_id id : ℕ) (input : Played) (inserted : ℕ)
      → Keeps HasPlay (explain user_id id input inserted)
  unfolding explain select_play
  explain-HasPlay user_id id input inserted =
      search (keeps_rules, HasPlay-stable, query-HasPlay) depth 12

  lookup-HasPlay :
      (hash_token : Text → Text) (headers : Headers) (unicode : Unicode)
      (recovers_more : ℕ → ℕ → Bool) (query : FactQuery)
      → Keeps HasPlay (lookup hash_token headers unicode recovers_more query)
  unfolding lookup select_fact
  lookup-HasPlay hash_token headers unicode recovers_more query =
      search (keeps_rules, HasPlay-stable, query-HasPlay, authenticate-HasPlay) depth 14

  contribute-HasPlay :
      (hash_token : Text → Text) (headers : Headers) (unicode : Unicode) (sha256_hex : Text → Text)
      (crates : Crates) (net : Net) (input : Contribution)
      → Keeps HasPlay (contribute hash_token headers unicode sha256_hex crates net input)
  unfolding contribute
  contribute-HasPlay hash_token headers unicode sha256_hex crates net input =
      search (keeps_rules, HasPlay-stable, insert_fact-HasPlay, authenticate-HasPlay) depth 16

  played-HasPlay :
      (hash_token : Text → Text) (headers : Headers) (id : ℤ) (input : Played)
      → Keeps HasPlay (played hash_token headers id input)
  unfolding played
  played-HasPlay hash_token headers id input =
      search
        (keeps_rules, HasPlay-stable, insert_play-HasPlay, authenticate-HasPlay, explain-HasPlay)
        depth 16

  module _ (hash_token sha256_hex : Text → Text) (unicode : Unicode) (crates : Crates)
      (recovers_more : ℕ → ℕ → Bool) where
    serve_fact-HasPlay :
        (r : FactRequest) (w : World)
        → HasPlay w
        → HasPlay (serve_fact hash_token sha256_hex unicode crates recovers_more r w)
    unfolding serve_fact
    serve_fact-HasPlay (lookup_request headers query) w h =
        (lookup-HasPlay hash_token headers unicode recovers_more query).at w h
    serve_fact-HasPlay (contribute_request headers net input) w h =
        (contribute-HasPlay hash_token headers unicode sha256_hex crates net input).at w h
    serve_fact-HasPlay (played_request headers id input) w h =
        (played-HasPlay hash_token headers id input).at w h

    serve_facts-HasPlay :
        (rs : List (ℕ × FactRequest)) (w : World)
        → HasPlay w
        → HasPlay (serve_facts hash_token sha256_hex unicode crates recovers_more rs w)
    unfolding serve_facts
    serve_facts-HasPlay [] w h = h
    serve_facts-HasPlay ((seconds, r) ∷ rs) w h =
        serve_facts-HasPlay rs _ (serve_fact-HasPlay r _ (record { listed = h.listed }))

Tells-Rested :
    {recovers_more : ℕ → ℕ → Bool} {time : ℕ} {plays : List FactPlayRow} {facts : List FactRow}
    {user_id : ℕ} {songs artists : List Text} (o : Option Fact) (f : Fact)
    → Tells recovers_more time plays facts user_id songs artists o
    → o ≡ some f
    → All (Rested time user_id f.id) plays
Tells-Rested o f (nothing h) e = absurd (cc)
Tells-Rested {time} {plays} {user_id} o f (told row listed keys rested first) e =
    subst (λ n. All (Rested time user_id n) plays) (ground arith) rested

module _ (hash_token sha256_hex : Text → Text) (unicode : Unicode) (crates : Crates)
    (recovers_more : ℕ → ℕ → Bool) where
  -- Once a play is in the table, requests on facts may come from anyone and in any order, and
  -- statements may fail: as long as the play is not thirty days old, a lookup by the user of the
  -- play does not tell the fact again. The scores are compared as numbers are.
  pub played_rests :
      (p : FactPlayRow) (rs : List (ℕ × FactRequest)) (w later : World) (headers : Headers)
      (query : FactQuery) (user : AuthenticatedUser) (response : FactResponse) (f : Fact)
      → ComparesScores recovers_more
      → Memᴰ p w.fact_plays
      → serve_facts hash_token sha256_hex unicode crates recovers_more rs w ≡ later
      → later.clock < p.played_at + reuse_after
      → (authenticate_with_headers hash_token headers later).0 ≡ ok user
      → p.user_id ≡ user.id
      → (lookup hash_token headers unicode recovers_more query later).0 ≡ ok response
      → response.fact ≡ some f
      → f.id ≢ p.fact_id
  played_rests p rs w later headers query user response f scores listed reached recent session
        of_user answer fact same =
      let kept = subst (HasPlay p) reached (
        serve_facts-HasPlay p hash_token sha256_hex unicode crates recovers_more rs w
          (record { listed = listed })) in
      let told_fact =
        Outcome-ok (IsAnswered hash_token headers unicode recovers_more query later) _ response
          (lookup_answers hash_token headers unicode recovers_more query later scores) answer in
      let rested = Tells-Rested response.fact f told_fact.looks_up.tells fact in
      let is_user : told_fact.user ≡ user = ok-injective (sym told_fact.session ∙ session) in
      let old =
        All-listed _ p later.fact_plays kept.listed rested (of_user ∙ ap (λ u. u.id) (sym is_user))
          (sym same) in
      omega (arith, old, recent)
