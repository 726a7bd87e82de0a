-- ===== src/Facts/Consistent.antt =====
-- What holds of the tables of facts and plays at every time.
use any_player_sync_server.Prelude.{
  ℕ, ◌+◌, ◌≤◌, ◌<◌, ◌≡◌, refl, sym, ◌∙◌, subst, Bool, true, false, Option, none, some, List, [],
  ◌∷◌, ◌++◌, ℤ, Text, text_eq_iff, ◌==◌, All, All-append, any, keep, find, length, keep-append,
  keep_of_not_any, arith, Bool-cases, inl, inr,
}
use any_player_sync_server.Errors.{Result}
use any_player_sync_server.World.{World}
use any_player_sync_server.World.Rows.{FactRow, FactPlayRow}
use any_player_sync_server.World.Keeps.{Keeps, IsStable, keeps_rules}
use any_player_sync_server.MatchKeys.{Unicode}
use any_player_sync_server.Handlers.{Headers, authenticate_with_headers}
use any_player_sync_server.Handlers.Touched.{authenticate-OnlyTouched}
use any_player_sync_server.FactSources.Fetch.{Crates, Net}
use any_player_sync_server.Facts.{
  FactQuery, Contribution, Played, select_fact, insert_fact, insert_or, new_fact, has_fingerprint,
  insert_play, new_play, select_play, is_event,
}
use any_player_sync_server.Facts.Requests.{lookup, contribute, played, explain}

-- Numbers are below the next of the sequence; a number, a fingerprint and an event of a user each
-- stand in one row at most; a play names a fact that is there.
pub record IsConsistent (w : World) : Type 0 where
  pub below : All (λ f. f.id < w.next_fact) w.facts
  pub ids : (id : ℕ) → length (keep (λ f. f.id == id) w.facts) ≤ 1
  pub fingerprints : (t : Text) → length (keep (has_fingerprint t) w.facts) ≤ 1
  pub events : (user_id : ℕ) (e : Text) → length (keep (is_event user_id e) w.fact_plays) ≤ 1
  pub known : All (λ p. any (λ f. f.id == p.fact_id) w.facts ≡ true) w.fact_plays

pub IsConsistent-stable : IsStable IsConsistent
IsConsistent-stable = record {
  faults = λ w rest h. record {
    below = h.below;
    ids = h.ids;
    fingerprints = h.fingerprints;
    events = h.events;
    known = h.known;
  };
}

authenticate-IsConsistent :
    (hash_token : Text → Text) (headers : Headers)
    → Keeps IsConsistent (authenticate_with_headers hash_token headers)
authenticate-IsConsistent hash_token headers = record {
  at = λ w h.
      let t = authenticate-OnlyTouched hash_token headers w in
      record {
        below = rw (t.facts, t.next_fact) h.below;
        ids = rw t.facts h.ids;
        fingerprints = rw t.facts h.fingerprints;
        events = rw t.fact_plays h.events;
        known = rw (t.facts, t.fact_plays) h.known;
      };
}

-- Lists measured by tests

below-weaken : (n : ℕ) (fs : List FactRow) → All (λ f. f.id < n) fs → All (λ f. f.id < n + 1) fs
below-weaken n [] h = tt
below-weaken n (f ∷ fs) (p, h) = (omega arith, below-weaken n fs h)

below-any : (n : ℕ) (fs : List FactRow) → All (λ f. f.id < n) fs → any (λ f. f.id == n) fs ≡ false
below-any n [] h = refl
below-any n (f ∷ fs) (p, h) = ground (arith, below-any n fs h)

pub find-any : {A : Type 0} (p : A → Bool) (xs : List A) → find p xs ≡ none → any p xs ≡ false
find-any p [] h = refl
find-any p (x ∷ xs) h = elim (Bool-cases (p x)) [
  | inl e ↦ absurd (ground (arith, h, e))
  | inr e ↦ ground (arith, e, find-any p xs (ground (arith, h, e)))
]

-- One more row which the test selects only if it has selected none.
keep-one :
    {A : Type 0} (p : A → Bool) (xs : List A) (x : A)
    → (p x ≡ true → any p xs ≡ false)
    → length (keep p xs) ≤ 1
    → length (keep p (xs ++ x ∷ [])) ≤ 1
keep-one p xs x fresh h = elim (Bool-cases (p x)) [
  | inl e ↦ ground (arith, keep-append p xs x, keep_of_not_any p xs (fresh e))
  | inr e ↦ ground (arith, keep-append p xs x)
]

any-more : {A : Type 0} (p : A → Bool) (xs ys : List A) → any p xs ≡ true → any p (xs ++ ys) ≡ true
any-more p [] ys h = absurd (cc)
any-more p (x ∷ xs) ys h = elim (Bool-cases (p x)) [
  | inl e ↦ ground (arith, e)
  | inr e ↦ ground (arith, e, any-more p xs ys (ground (arith, h, e)))
]

known-more :
    (fs gs : List FactRow) (ps : List FactPlayRow)
    → All (λ p. any (λ f. f.id == p.fact_id) fs ≡ true) ps
    → All (λ p. any (λ f. f.id == p.fact_id) (fs ++ gs) ≡ true) ps
known-more fs gs [] h = tt
known-more fs gs (p ∷ ps) (k, h) = (any-more _ fs gs k, known-more fs gs ps h)

module _ (keyed : Text → Text) (input : Contribution) (source_url fingerprint : Text) where
  insert_or-IsConsistent :
      (w : World) (o : Option FactRow)
      → find (has_fingerprint fingerprint) w.facts ≡ o
      → IsConsistent w
      → IsConsistent
          (insert_or o (new_fact w.next_fact w.clock keyed input source_url fingerprint) w).1
  insert_or-IsConsistent w (some old) found h = record {
    below = below-weaken w.next_fact w.facts h.below;
    ids = h.ids;
    fingerprints = h.fingerprints;
    events = h.events;
    known = h.known;
  }
  insert_or-IsConsistent w none fresh h = record {
    below = All-append _ w.facts _ (below-weaken w.next_fact w.facts h.below) (omega arith, tt);
    ids = λ id.
        keep-one (λ f. f.id == id) w.facts _
          (λ e. ground (arith, e, below-any w.next_fact w.facts h.below)) (h.ids id);
    fingerprints = λ t.
        keep-one (has_fingerprint t) w.facts _
          (λ e.
            subst (λ s. any (has_fingerprint s) w.facts ≡ false) ((text_eq_iff fingerprint t).0 e)
              (find-any (has_fingerprint fingerprint) w.facts fresh))
          (h.fingerprints t);
    events = h.events;
    known = known-more w.facts _ w.fact_plays h.known;
  }

  insert_fact-IsConsistent : Keeps IsConsistent (insert_fact keyed input source_url fingerprint)
  unfolding insert_fact
  insert_fact-IsConsistent = record { at = λ w h. insert_or-IsConsistent w _ refl h }

same_event :
    (u v : ℕ) (d e : Text) (p : FactPlayRow)
    → p.user_id ≡ u
    → p.event_id ≡ d
    → is_event v e p ≡ true
    → (u ≡ v) × (d ≡ e)
same_event u v d e p is_user is_id h =
    (ground (arith, h, is_user), sym is_id ∙ (text_eq_iff p.event_id e).0 (ground (arith, h)))

insert_play-IsConsistent :
    (user_id fact_id : ℕ) (input : Played) → Keeps IsConsistent (insert_play user_id fact_id input)
unfolding insert_play
insert_play-IsConsistent user_id fact_id input = record {
  at = λ w h. elim (Bool-cases (any (λ f. f.id == fact_id) w.facts)) [
    | inr e ↦ rw e h
    | inl e ↦ elim (Bool-cases (any (is_event user_id input.event_id) w.fact_plays)) [
      | inl e' ↦ rw (e, e') h
      | inr e' ↦ elim (Bool-cases (any (λ u. u.id == user_id) w.users)) [
        | inr e'' ↦ rw (e, e', e'') h
        | inl e'' ↦
            rw (e, e', e'')
              (record {
                below = h.below;
                ids = h.ids;
                fingerprints = h.fingerprints;
                events = λ v d.
                    keep-one (is_event v d) w.fact_plays _
                      (λ s.
                        let (same_user, same_id) =
                          same_event user_id v input.event_id d (new_play user_id fact_id input)
                            refl refl s in
                        rw⁻¹ (same_user, same_id) e')
                      (h.events v d);
                known = All-append _ w.fact_plays _ h.known (e, tt);
              })
      ]
    ]
  ];
}

-- A query changes nothing.
query-IsConsistent : {A : Type 0} (f : World → Result A) → Keeps IsConsistent (λ w. (f w, w))
query-IsConsistent f = record { at = λ w h. h }

explain-IsConsistent :
    (user_id id : ℕ) (input : Played) (inserted : ℕ)
    → Keeps IsConsistent (explain user_id id input inserted)
unfolding explain select_play
explain-IsConsistent user_id id input inserted =
    search (keeps_rules, IsConsistent-stable, query-IsConsistent) depth 12

module _ (hash_token : Text → Text) (headers : Headers) (unicode : Unicode) where
  lookup-IsConsistent :
      (recovers_more : ℕ → ℕ → Bool) (query : FactQuery)
      → Keeps IsConsistent (lookup hash_token headers unicode recovers_more query)
  unfolding lookup select_fact
  lookup-IsConsistent recovers_more query =
      search (keeps_rules, IsConsistent-stable, query-IsConsistent, authenticate-IsConsistent) depth
        14

  contribute-IsConsistent :
      (sha256_hex : Text → Text) (crates : Crates) (net : Net) (input : Contribution)
      → Keeps IsConsistent (contribute hash_token headers unicode sha256_hex crates net input)
  unfolding contribute
  contribute-IsConsistent sha256_hex crates net input =
      search (keeps_rules, IsConsistent-stable, insert_fact-IsConsistent, authenticate-IsConsistent)
        depth 16

played-IsConsistent :
    (hash_token : Text → Text) (headers : Headers) (id : ℤ) (input : Played)
    → Keeps IsConsistent (played hash_token headers id input)
unfolding played
played-IsConsistent hash_token headers id input =
    search
      (
        keeps_rules, IsConsistent-stable, insert_play-IsConsistent, authenticate-IsConsistent,
        explain-IsConsistent,
      )
      depth 16

-- The requests on facts; each brings its own headers, and a contribution the answers of the network.
pub data FactRequest : Type 0 where
  lookup_request : Headers → FactQuery → FactRequest
  contribute_request : Headers → Net → Contribution → FactRequest
  played_request : Headers → ℤ → Played → FactRequest

module _ (hash_token sha256_hex : Text → Text) (unicode : Unicode) (crates : Crates)
    (recovers_more : ℕ → ℕ → Bool) where
  -- The state after a request.
  unfoldable pub serve_fact : FactRequest → World → World
  serve_fact (lookup_request headers query) w =
      (lookup hash_token headers unicode recovers_more query w).1
  serve_fact (contribute_request headers net input) w =
      (contribute hash_token headers unicode sha256_hex crates net input w).1
  serve_fact (played_request headers id input) w = (played hash_token headers id input w).1

  -- Requests one after the other; before each the clock moves on.
  unfoldable pub serve_facts : List (ℕ × FactRequest) → World → World
  unfolding serve_fact
  serve_facts [] w = w
  serve_facts ((seconds, r) ∷ rs) w =
      serve_facts rs (serve_fact r (record w { clock = w.clock + seconds }))

  serve_fact-IsConsistent :
      (r : FactRequest) (w : World) → IsConsistent w → IsConsistent (serve_fact r w)
  unfolding serve_fact
  serve_fact-IsConsistent (lookup_request headers query) w h =
      (lookup-IsConsistent hash_token headers unicode recovers_more query).at w h
  serve_fact-IsConsistent (contribute_request headers net input) w h =
      (contribute-IsConsistent hash_token headers unicode sha256_hex crates net input).at w h
  serve_fact-IsConsistent (played_request headers id input) w h =
      (played-IsConsistent hash_token headers id input).at w h

  -- Whatever statement fails, requests on facts in any order and from any senders keep the tables
  -- consistent: a fingerprint stands in one fact, an event of a user in one play, and every play
  -- names a fact that is there.
  pub serve_facts-IsConsistent :
      (rs : List (ℕ × FactRequest)) (w : World) → IsConsistent w → IsConsistent (serve_facts rs w)
  unfolding serve_facts
  serve_facts-IsConsistent [] w h = h
  serve_facts-IsConsistent ((seconds, r) ∷ rs) w h = serve_facts-IsConsistent rs _ (
      serve_fact-IsConsistent r _ (record {
        below = h.below;
        ids = h.ids;
        fingerprints = h.fingerprints;
        events = h.events;
        known = h.known;
      }))
