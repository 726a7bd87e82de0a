-- ===== src/Facts/Requests.antt =====
-- src/dj_facts.rs: the handlers `lookup`, `contribute` and `played`.
use any_player_sync_server.Prelude.{
  ℕ, ◌+◌, Bool, not, ◌&&◌, [], ◌∷◌, ℤ, pos, pos_part, leb_ℤ, Text, codes, text_eq, leb, ◌==◌,
  if◌then◌else◌,
}
use any_player_sync_server.Errors.{bad_request, not_found, internal, plain}
use any_player_sync_server.Strings.{join}
use any_player_sync_server.World.{Action, pure, lift, statement, now, ◌>>=◌, ◌>>◌}
use any_player_sync_server.MatchKeys.{Unicode, identity_key, match_key, song_keys, artist_keys}
use any_player_sync_server.Handlers.{Headers, authenticate_with_headers}
use any_player_sync_server.FactSources.Fetch.{Crates, Net}
use any_player_sync_server.FactSources.Verify.{verify}
use any_player_sync_server.Facts.{
  FactQuery, FactResponse, Contribution, Fact, Played, valid_event_id, select_fact, to_fact,
  optional_fact, refuse_unless, valid_query, valid_contribution, evidence_of, insert_fact,
  played_error, insert_play, select_play, is_same,
}

-- The text that the fingerprint is taken of.
unfoldable pub normalized : Unicode → Contribution → Text
unfolding join identity_key
normalized unicode input = join (codes "\n") (
    input.source
    ∷ input.source_id
    ∷ identity_key unicode input.song
    ∷ identity_key unicode input.artist
    ∷ identity_key unicode input.claim
    ∷ identity_key unicode input.evidence
    ∷ [])

module _ (hash_token : Text → Text) (headers : Headers) (unicode : Unicode) where
  unfoldable pub lookup : (ℕ → ℕ → Bool) → FactQuery → Action FactResponse
  lookup recovers_more query = do
    user ← authenticate_with_headers hash_token headers
    lift (refuse_unless (valid_query query) (bad_request (plain "invalid song or artist")))
    row ← statement (internal (plain "fact lookup failed")) (
        select_fact recovers_more user.id (song_keys unicode query.song)
          (artist_keys unicode query.artist))
    pure (record { fact = optional_fact row })

  -- `sha256_hex`: the digest in lowercase hexadecimal digits.
  unfoldable pub contribute : (Text → Text) → Crates → Net → Contribution → Action Fact
  contribute sha256_hex crates net input = do
    authenticate_with_headers hash_token headers
    lift (refuse_unless (valid_contribution input) (bad_request (plain "invalid fact fields")))
    source_url ← lift (verify unicode crates (evidence_of input) net).0
    lift (
        refuse_unless (text_eq input.source_url source_url)
          (bad_request (plain "source URL does not match source identity")))
    row ←
        statement (internal (plain "fact insert failed"))
          (insert_fact (match_key unicode) input source_url (sha256_hex (normalized unicode input)))
    pure (to_fact row)

abbrev pub five_minutes : ℕ
five_minutes = 300

-- The guard of `played`, as the source writes it, negated.
abbrev pub valid_event : ℤ → Played → ℕ → Bool
valid_event id input time =
    not (leb_ℤ id (pos 0))
    && valid_event_id input.event_id
    && leb input.played_at (time + five_minutes)

-- Why no row was written.
unfoldable pub explain : ℕ → ℕ → Played → ℕ → Action (Unit {0})
explain user_id id input inserted =
    if inserted == 0
    then (do
      existing ←
          statement (internal (plain "played event lookup failed"))
            (select_play user_id input.event_id)
      lift (
          refuse_unless (is_same id existing)
            (not_found (plain "fact not found or event ID used for another fact"))))
    else pure tt

unfoldable pub played : (Text → Text) → Headers → ℤ → Played → Action (Unit {0})
played hash_token headers id input = do
  user ← authenticate_with_headers hash_token headers
  time ← now
  lift (refuse_unless (valid_event id input time) (bad_request (plain "invalid played event")))
  inserted ← statement played_error (insert_play user.id (pos_part id) input)
  explain user.id (pos_part id) input inserted
