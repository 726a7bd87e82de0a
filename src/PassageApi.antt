-- ===== src/PassageApi.antt =====
-- src/passages/api.rs: the routes of passages. Parameters: the tables of Unicode, SHA-256, the
-- floats, the reading of a number from its bit pattern, the hash of tokens, and the engine, which is
-- there only if embeddings are configured.
pub mod Requests
pub mod Admin
pub mod Quota
pub mod Served
pub mod Early
pub mod Lookup
pub mod Ingest
mod Examples
use any_player_sync_server.Prelude.{
  ℕ, ◌+◌, ◌*◌, String, Bool, true, false, not, ◌&&◌, ◌||◌, Option, none, some, List, [], ◌∷◌, ◌++◌,
  Text, codes, leb, ltb, ◌==◌, any, length, if◌then◌else◌,
}
use any_player_sync_server.Errors.{
  Result, ok, err, panicked, ApiError, Message, bad_request, internal, service_unavailable, plain,
}
use any_player_sync_server.Strings.{is_empty, trim, len, is_control, is_ascii_hexdigit}
use any_player_sync_server.World.{World, Action}
use any_player_sync_server.Rank.{Subject, song, album, artist}
use any_player_sync_server.FactSources.{is_dash_position, all_at}
use any_player_sync_server.Store.{Embed}

abbrev pub max_param_bytes : ℕ
max_param_bytes = 1000

abbrev pub max_played_chunks : ℕ
max_played_chunks = 16

-- src/passages/mod.rs
abbrev pub max_body_bytes : ℕ
max_body_bytes = 5 * 1024 * 1024

pub record PassageQuery : Type 0 where
  pub song : Text
  pub artist : Text
  pub album : Option Text

pub record Passage : Type 0 where
  pub chunk_id : ℕ
  pub text : Text
  pub source : Text
  pub source_url : Text
  pub title : Text
  pub subject : Subject
  pub lang : Text

pub record PassageResponse : Type 0 where
  pub status : String
  pub passages : List Passage

pub record PlayedRequest : Type 0 where
  pub event_id : Text
  pub played_at : ℕ
  pub chunk_ids : List ℕ

pub record IngestResponse : Type 0 where
  pub queued : ℕ
  pub already_queued : ℕ
  pub recently_done : ℕ

pub record NoteRequest : Type 0 where
  pub subject : Subject
  pub song : Option Text
  pub artist : Text
  pub album : Option Text
  pub title : Text
  pub body : Text

-- The engine of the state, or the refusal without one.
abbrev pub engine : Option Embed → Result Embed
engine none = err (service_unavailable (plain "DJ passages are not configured"))
engine (some e) = ok e

unfoldable pub valid : Text → Bool
unfolding trim len is_control
valid value =
    not (is_empty (trim value)) && leb (len value) max_param_bytes && not (any is_control value)

unfoldable pub is_event_uuid : Text → Bool
unfolding len is_ascii_hexdigit
is_event_uuid value =
    len value == 36
    && all_at (λ i c. if is_dash_position i then c == b'-' else is_ascii_hexdigit c) 0 value

abbrev pub valid_or_absent : Option Text → Bool
valid_or_absent none = true
valid_or_absent (some value) = valid value

abbrev pub in_context {ℓ} : {A : Type ℓ} → String → Result A → Result A
in_context context (ok a) = ok a
in_context context (err e) = err (internal (plain context))
in_context context panicked = panicked

-- map_err(db_error(context))
unfoldable pub or_db_error : {A : Type 0} → String → Action A → Action A
or_db_error context m w = let (r, after) = m w in (in_context context r, after)

abbrev pub without_passages : String → PassageResponse
without_passages status = record { status = status; passages = [] }
