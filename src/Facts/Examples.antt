-- ===== src/Facts/Examples.antt =====
-- Runs of the handlers of facts, and their theorems at concrete requests.
use any_player_sync_server.Prelude.{
  ℕ, ◌+◌, ◌≤◌, ◌<◌, ◌≡◌, subst, text_eq, text_eq_iff, Bool-cases, inl, inr, ◌≢◌, refl, Bool, true,
  false, none, some, List, [], ◌∷◌, ◌++◌, pos, Text, codes, ltb, keep, length, arith,
}
use mathlib.Core.List.{Memᴰ}
use any_player_sync_server.Errors.{ok}
use any_player_sync_server.Models.{AuthenticatedUser}
use any_player_sync_server.World.{World, empty, ◌>>=◌, statement}
use any_player_sync_server.Strings.{split_once, trim, eq_ignore_ascii_case}
use any_player_sync_server.Accounts.{
  authenticate_token, check_session, find_session, spawn, touch_token,
}
use any_player_sync_server.MatchKeys.{song_keys, artist_keys}
use any_player_sync_server.World.Rows.{FactRow, FactPlayRow}
use any_player_sync_server.World.Runs.{Outcome}
use any_player_sync_server.Handlers.{
  Headers, authenticate_with_headers, bearer_token_from_headers, bearer_of, bearer_part,
}
use any_player_sync_server.Handlers.Touched.{OnlyTouched}
use any_player_sync_server.FactSources.Examples.{ascii, crates, net}
use any_player_sync_server.Facts.{
  FactQuery, Contribution, Played, to_fact, bounded, valid_event_id, has_fingerprint, is_event,
  reuse_after, select_fact,
}
use any_player_sync_server.Facts.Requests.{lookup, contribute, played}
use any_player_sync_server.Facts.Consistent.{
  IsConsistent, FactRequest, lookup_request, played_request, serve_facts, serve_facts-IsConsistent,
}
use any_player_sync_server.Facts.Choice.{ComparesScores}
use any_player_sync_server.Facts.Lookup.{IsAnswered, lookup_answers}
use any_player_sync_server.Facts.Contributed.{FactsKept, IsContributed, contribute_stores}
use any_player_sync_server.Facts.Heard.{IsHeard, played_hears}
use any_player_sync_server.Facts.Rests.{played_rests}

abbrev pub hashed : Text → Text
hashed s = codes "#" ++ s

abbrev digest : Text → Text
digest s = s

-- A score that grows with the age.
abbrev older : ℕ → ℕ → Bool
older a b = ltb b a

older-ComparesScores : ComparesScores older
older-ComparesScores = record {
  asymmetric = λ a b h. ground arith;
  transitive = λ a b c h k. ground arith;
}

abbrev pub bob : AuthenticatedUser
bob = record { id = 7; name = codes "bob"; is_admin = false }

abbrev fact_row : ℕ → Text → FactRow
fact_row id claim = record {
  id = id;
  song_key = codes "hurt";
  artist_key = codes "cash";
  song = codes "Hurt";
  artist = codes "Cash";
  claim = claim;
  source = codes "wikipedia";
  source_id = codes "Hurt";
  source_url = codes "u";
  evidence = claim;
  fingerprint = claim;
  verified_at = 0;
}

abbrev event : Text
event = codes "00000000-0000-0000-0000-000000000001"

abbrev play : FactPlayRow
play = record { user_id = 7; event_id = event; fact_id = 1; played_at = 50 }

abbrev pub before : World
before = record empty {
  users =
      record { id = 7; name = codes "bob"; is_admin = false; created_at = 0; disabled_at = none }
      ∷ [];
  tokens =
      record {
        id = 3;
        user_id = 7;
        token_hash = codes "#key";
        token_prefix = codes "key";
        label = codes "manual";
        created_at = 0;
        last_used_at = none;
        revoked_at = none;
      }
      ∷ [];
  facts = fact_row 1 (codes "It won.") ∷ fact_row 2 (codes "It lost.") ∷ [];
  fact_plays = play ∷ [];
  next_fact = 3;
  next_token = 4;
  clock = 90;
}

abbrev pub headers : Headers
headers = record { authorization = some (some (codes "bearer key")) }

abbrev query : FactQuery
query = record { song = codes "Hurt"; artist = codes "Cash" }

abbrev report : Played
report = record { event_id = codes "00000000-0000-0000-0000-000000000002"; played_at = 80 }

abbrev hurt : Contribution
hurt = record {
  song = codes "Hurt";
  artist = codes "Cash";
  claim = codes "Hurt is by Cash.";
  source = codes "wikipedia";
  source_id = codes "Hurt (song)";
  source_url = codes "https://en.wikipedia.org/wiki/Hurt_%28song%29";
  evidence = codes "Hurt is by Cash.";
}

-- Tests

blank : bounded (codes "  ") 200 ≡ false
unfolding bounded
blank = refl

event_of_either_case : valid_event_id (codes "0a0B0c0d-0000-0000-0000-00000000000A") ≡ true
unfolding valid_event_id
event_of_either_case = refl

-- The witnesses

lookup_answers_example :
    Outcome
      (OnlyTouched before)
      (IsAnswered hashed headers ascii older query before)
      (lookup hashed headers ascii older query before)
lookup_answers_example = lookup_answers hashed headers ascii older query before older-ComparesScores

contribute_stores_example :
    Outcome
      (FactsKept before)
      (IsContributed hashed headers ascii digest crates net hurt before)
      (contribute hashed headers ascii digest crates net hurt before)
contribute_stores_example = contribute_stores hashed headers ascii digest crates net hurt before

played_hears_example :
    Outcome
      (FactsKept before)
      (λ _. IsHeard hashed headers (pos 2) report before)
      (played hashed headers (pos 2) report before)
played_hears_example = played_hears hashed headers (pos 2) report before

one_event : (user_id : ℕ) (e : Text) → length (keep (is_event user_id e) before.fact_plays) ≤ 1
one_event user_id e = ground arith

one_fact : (t : Text) → length (keep (has_fingerprint t) before.facts) ≤ 1
unfolding text_eq
one_fact t = elim (Bool-cases (text_eq (codes "It won.") t)) [
  | inl e ↦
      subst (λ s. length (keep (has_fingerprint s) before.facts) ≤ 1)
        ((text_eq_iff (codes "It won.") t).0 e) (omega arith)
  | inr e ↦ ground (arith, e)
]

before-IsConsistent : IsConsistent before
before-IsConsistent = record {
  below = (omega arith, (omega arith, tt));
  ids = λ id. ground arith;
  fingerprints = one_fact;
  events = one_event;
  known = (refl, tt);
}

abbrev requests : List (ℕ × FactRequest)
requests = (3, lookup_request headers query) ∷ (4, played_request headers (pos 2) report) ∷ []

serve_facts-IsConsistent_example :
    IsConsistent (serve_facts hashed digest ascii crates older requests before)
serve_facts-IsConsistent_example =
    serve_facts-IsConsistent hashed digest ascii crates older requests before before-IsConsistent

abbrev later : World
later = serve_facts hashed digest ascii crates older ((3, lookup_request headers query) ∷ []) before

session : (authenticate_with_headers hashed headers later).0 ≡ ok bob
unfolding serve_facts lookup authenticate_with_headers ◌>>=◌ bearer_token_from_headers bearer_of
    bearer_part split_once trim eq_ignore_ascii_case authenticate_token statement check_session
    find_session text_eq spawn bounded touch_token select_fact
session = refl

told_second :
    (lookup hashed headers ascii older query later).0
    ≡ ok (record { fact = some (to_fact (fact_row 2 (codes "It lost."))) })
unfolding serve_facts lookup authenticate_with_headers ◌>>=◌ bearer_token_from_headers bearer_of
    bearer_part split_once trim eq_ignore_ascii_case authenticate_token statement check_session
    find_session text_eq spawn bounded touch_token select_fact song_keys artist_keys
told_second = refl

soon : later.clock < play.played_at + reuse_after
unfolding serve_facts lookup authenticate_with_headers ◌>>=◌ bearer_token_from_headers bearer_of
    bearer_part split_once trim eq_ignore_ascii_case authenticate_token statement check_session
    find_session text_eq spawn bounded touch_token select_fact
soon = omega arith

played_rests_example : (to_fact (fact_row 2 (codes "It lost."))).id ≢ play.fact_id
played_rests_example =
    played_rests hashed digest ascii crates older play ((3, lookup_request headers query) ∷ [])
      before later headers query bob
      (record { fact = some (to_fact (fact_row 2 (codes "It lost."))) })
      (to_fact (fact_row 2 (codes "It lost."))) older-ComparesScores (Memᴰ.head refl) refl soon
      session refl told_second refl
