-- ===== src/Facts.antt =====
-- src/dj_facts.rs: the facts that the AI DJ may tell, who has heard them when, and the three
-- handlers. The tables of Unicode, the crates of FactSources, SHA-256 in hexadecimal, the hash of
-- tokens and the order of recovery scores are parameters. Times are numbers of seconds.
pub mod Requests
pub mod Consistent
pub mod Choice
pub mod Lookup
pub mod Contributed
pub mod Heard
pub mod Rests
pub mod Examples
use any_player_sync_server.Prelude.{
  ℕ, suc, ◌+◌, ◌-◌, Bool, true, false, not, ◌&&◌, ◌||◌, Option, none, some, List, [], ◌∷◌, ◌++◌, ℤ,
  pos, leb_ℤ, eq_ℤ, Text, codes, text_eq, ltb, leb, ◌==◌, any, keep, find, is_some, is_none,
  if◌then◌else◌,
}
use any_player_sync_server.Errors.{
  Result, ok, err, ApiError, bad_request, not_found, internal, plain,
}
use any_player_sync_server.Strings.{is_empty, trim, len, is_control, is_ascii_hexdigit, join}
use any_player_sync_server.Models.{AuthenticatedUser}
use any_player_sync_server.World.{World, Action, pure, raise, lift, statement, ◌>>=◌, ◌>>◌}
use any_player_sync_server.World.Rows.{FactRow, FactPlayRow}
use any_player_sync_server.MatchKeys.{Unicode, identity_key, match_key, song_keys, artist_keys}
use any_player_sync_server.Handlers.{Headers, authenticate_with_headers}
use any_player_sync_server.FactSources.{is_dash_position, all_at}
use any_player_sync_server.FactSources.Fetch.{Crates, Net}
use any_player_sync_server.FactSources.Verify.{Evidence, verify}

pub record FactQuery : Type 0 where
  pub song : Text
  pub artist : Text

pub record Contribution : Type 0 where
  pub song : Text
  pub artist : Text
  pub claim : Text
  pub source : Text
  pub source_id : Text
  pub source_url : Text
  pub evidence : Text

pub record Fact : Type 0 where
  pub id : ℕ
  pub fingerprint : Text
  pub song : Text
  pub artist : Text
  pub claim : Text
  pub source : Text
  pub source_id : Text
  pub source_url : Text
  pub evidence : Text

pub record FactResponse : Type 0 where
  pub fact : Option Fact

pub record Played : Type 0 where
  pub event_id : Text
  pub played_at : ℕ

unfoldable pub bounded : Text → ℕ → Bool
unfolding trim len is_control
bounded value max = not (is_empty (trim value)) && leb (len value) max && not (any is_control value)

-- Of this file: hexadecimal digits of either case.
unfoldable pub valid_event_id : Text → Bool
unfolding len is_ascii_hexdigit
valid_event_id value =
    len value == 36
    && all_at (λ i c. if is_dash_position i then c == b'-' else is_ascii_hexdigit c) 0 value

abbrev pub later_of : ℕ → Option ℕ → Option ℕ
later_of time none = some time
later_of time (some other) = some (if leb time other then other else time)

-- The lateral MAX(played_at) of one user and one fact.
unfoldable pub last_used_at : ℕ → ℕ → List FactPlayRow → Option ℕ
last_used_at user_id fact_id [] = none
last_used_at user_id fact_id (p ∷ ps) =
    let rest = last_used_at user_id fact_id ps in
    if p.user_id == user_id && p.fact_id == fact_id then later_of p.played_at rest else rest

abbrev pub reuse_after : ℕ
reuse_after = 2592000

-- last_used_at IS NULL OR last_used_at <= NOW() - INTERVAL '30 days'
abbrev pub is_rested : ℕ → Option ℕ → Bool
is_rested time none = true
is_rested time (some used) = leb (used + reuse_after) time

-- song_key = ANY($1) AND artist_key = ANY($2)
unfoldable pub has_fact_keys : List Text → List Text → FactRow → Bool
unfolding text_eq
has_fact_keys songs artists f = any (text_eq f.song_key) songs && any (text_eq f.artist_key) artists

unfoldable pub is_offered : ℕ → ℕ → List FactPlayRow → List Text → List Text → FactRow → Bool
unfolding has_fact_keys last_used_at
is_offered time user_id plays songs artists f =
    has_fact_keys songs artists f && is_rested time (last_used_at user_id f.id plays)

-- f.verified_at DESC, f.id ASC
abbrev pub newer_first : FactRow → FactRow → Bool
newer_first f g =
    ltb g.verified_at f.verified_at || (f.verified_at == g.verified_at && ltb f.id g.id)

-- Whether the score of the first number of seconds since a play is the greater one: the expression
-- with LEAST and LN.
module _ (recovers_more : ℕ → ℕ → Bool) where
  -- (last_used_at IS NULL) DESC, the score DESC NULLS LAST, and newer_first
  abbrev pub comes_first : ℕ → Option ℕ → Option ℕ → FactRow → FactRow → Bool
  comes_first time none none f g = newer_first f g
  comes_first time none (some b) f g = true
  comes_first time (some a) none f g = false
  comes_first time (some a) (some b) f g =
      recovers_more (time - a) (time - b)
      || (not (recovers_more (time - b) (time - a)) && newer_first f g)

  abbrev pub choose : ℕ → (FactRow → Option ℕ) → FactRow → Option FactRow → Option FactRow
  choose time used f none = some f
  choose time used f (some g) = some (if comes_first time (used g) (used f) g f then g else f)

  -- ORDER BY .. LIMIT 1
  unfoldable pub first_offer : ℕ → (FactRow → Option ℕ) → List FactRow → Option FactRow
  first_offer time used [] = none
  first_offer time used (f ∷ fs) = choose time used f (first_offer time used fs)

  unfoldable pub select_fact : ℕ → List Text → List Text → Action (Option FactRow)
  unfolding is_offered first_offer last_used_at
  select_fact user_id songs artists w = (
    ok (
        first_offer w.clock (λ f. last_used_at user_id f.id w.fact_plays)
          (keep (is_offered w.clock user_id w.fact_plays songs artists) w.facts)),
    w,
  )

abbrev pub to_fact : FactRow → Fact
to_fact r = record {
  id = r.id;
  fingerprint = r.fingerprint;
  song = r.song;
  artist = r.artist;
  claim = r.claim;
  source = r.source;
  source_id = r.source_id;
  source_url = r.source_url;
  evidence = r.evidence;
}

abbrev pub optional_fact : Option FactRow → Option Fact
optional_fact none = none
optional_fact (some r) = some (to_fact r)

abbrev pub refuse_unless : Bool → ApiError → Result (Unit {0})
refuse_unless true e = ok tt
refuse_unless false e = err e

abbrev pub valid_query : FactQuery → Bool
valid_query query = bounded query.song 200 && bounded query.artist 200

abbrev pub valid_contribution : Contribution → Bool
valid_contribution input =
    bounded input.song 200
    && bounded input.artist 200
    && bounded input.claim 500
    && bounded input.evidence 1000
    && bounded input.source_id 160
    && bounded input.source_url 300

abbrev pub evidence_of : Contribution → Evidence
evidence_of input = record {
  source = input.source;
  source_id = input.source_id;
  song = input.song;
  artist = input.artist;
  evidence = input.evidence;
  claim = input.claim;
}

-- The row that `contribute` inserts.
abbrev pub new_fact : ℕ → ℕ → (Text → Text) → Contribution → Text → Text → FactRow
new_fact id time keyed input source_url fingerprint = record {
  id = id;
  song_key = keyed input.song;
  artist_key = keyed input.artist;
  song = input.song;
  artist = input.artist;
  claim = input.claim;
  source = input.source;
  source_id = input.source_id;
  source_url = source_url;
  evidence = input.evidence;
  fingerprint = fingerprint;
  verified_at = time;
}

abbrev pub has_fingerprint : Text → FactRow → Bool
has_fingerprint fingerprint f = text_eq f.fingerprint fingerprint

-- ON CONFLICT (fingerprint): the row that is there is returned as it is. A number of the sequence
-- is spent in either case.
abbrev pub insert_or : Option FactRow → FactRow → World → Result FactRow × World
insert_or (some old) row w = (ok old, record w { next_fact = w.next_fact + 1 })
insert_or none row w =
    (ok row, record w { facts = w.facts ++ row ∷ []; next_fact = w.next_fact + 1 })

unfoldable pub insert_fact : (Text → Text) → Contribution → Text → Text → Action FactRow
unfolding text_eq
insert_fact keyed input source_url fingerprint w =
    insert_or (find (has_fingerprint fingerprint) w.facts)
      (new_fact w.next_fact w.clock keyed input source_url fingerprint) w

abbrev pub played_error : ApiError
played_error = internal (plain "played event failed")

abbrev pub is_event : ℕ → Text → FactPlayRow → Bool
is_event user_id event_id p = p.user_id == user_id && text_eq p.event_id event_id

abbrev pub new_play : ℕ → ℕ → Played → FactPlayRow
new_play user_id fact_id input = record {
  user_id = user_id;
  event_id = input.event_id;
  fact_id = fact_id;
  played_at = input.played_at;
}

-- The number of rows that INSERT .. SELECT .. ON CONFLICT DO NOTHING writes; `user_id` references
-- `users`.
unfoldable pub insert_play : ℕ → ℕ → Played → Action ℕ
unfolding text_eq
insert_play user_id fact_id input w =
    if not (any (λ f. f.id == fact_id) w.facts)
      || any (is_event user_id input.event_id) w.fact_plays
    then (ok 0, w)
    else if any (λ u. u.id == user_id) w.users
    then (ok 1, record w { fact_plays = w.fact_plays ++ new_play user_id fact_id input ∷ [] })
    else (err played_error, w)

abbrev pub play_fact : Option FactPlayRow → Option ℕ
play_fact none = none
play_fact (some p) = some p.fact_id

unfoldable pub select_play : ℕ → Text → Action (Option ℕ)
unfolding text_eq
select_play user_id event_id w = (ok (play_fact (find (is_event user_id event_id) w.fact_plays)), w)

abbrev pub is_same : ℕ → Option ℕ → Bool
is_same id none = false
is_same id (some other) = other == id
