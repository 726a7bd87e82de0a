-- ===== src/World/Rows.antt =====
-- The rows of the tables of src/db.rs (ensure_schema) and of src/passages/schema.rs. A column of
-- type TIMESTAMPTZ holds a number of seconds.
use any_player_sync_server.Prelude.{ℕ, Bool, Option, List, Text, ℤ}
use any_player_sync_server.Rank.{Subject}
use any_player_sync_server.Json.{Value, Fields}

-- users
pub record UserRow : Type 0 where
  pub id : ℕ
  pub name : Text
  pub is_admin : Bool
  pub created_at : ℕ
  pub disabled_at : Option ℕ

-- auth_tokens
pub record TokenRow : Type 0 where
  pub id : ℕ
  pub user_id : ℕ
  pub token_hash : Text
  pub token_prefix : Text
  pub label : Text
  pub created_at : ℕ
  pub last_used_at : Option ℕ
  pub revoked_at : Option ℕ

-- user_sync_document
pub record DocumentRow : Type 0 where
  pub user_id : ℕ
  pub id : ℕ
  pub version : ℤ
  pub updated_at : ℕ
  pub app_state : Value
  pub playlists : Value
  pub provider_configuration : Value
  pub settings : Value

-- dj_facts
pub record FactRow : Type 0 where
  pub id : ℕ
  pub song_key : Text
  pub artist_key : Text
  pub song : Text
  pub artist : Text
  pub claim : Text
  pub source : Text
  pub source_id : Text
  pub source_url : Text
  pub evidence : Text
  pub fingerprint : Text
  pub verified_at : ℕ

-- dj_fact_plays
pub record FactPlayRow : Type 0 where
  pub user_id : ℕ
  pub event_id : Text
  pub fact_id : ℕ
  pub played_at : ℕ

-- The CHECK constraint of the column `status`.
pub data Status : Type 0 where
  queued running done failed : Status

-- dj_ingest_jobs
pub record JobRow : Type 0 where
  pub id : ℕ
  pub song : Text
  pub artist : Text
  pub album : Option Text
  pub song_key : Text
  pub artist_key : Text
  pub album_key : Text
  pub requested_by : Option ℕ
  pub auto : Bool
  pub status : Status
  pub attempts : ℕ
  pub next_attempt_at : ℕ
  pub results : Fields
  pub last_error : Option Text
  pub created_at : ℕ
  pub updated_at : ℕ

-- dj_documents
pub record DjDocumentRow : Type 0 where
  pub id : ℕ
  pub source : Text
  pub source_ref : Text
  pub source_url : Text
  pub subject : Subject
  pub song_key : Option Text
  pub album_key : Option Text
  pub artist_key : Text
  pub title : Text
  pub lang : Text
  pub body : Text
  pub content_hash : Text
  pub fetched_at : ℕ
  pub added_by : Option ℕ

-- dj_chunks. An embedding is the list of the bit patterns of its numbers.
pub record DjChunkRow : Type 0 where
  pub id : ℕ
  pub document_id : ℕ
  pub ord : ℕ
  pub text : Text
  pub token_count : ℕ
  pub embedding : List ℕ

-- dj_passage_plays
pub record DjPassagePlayRow : Type 0 where
  pub user_id : ℕ
  pub event_id : Text
  pub chunk_id : ℕ
  pub played_at : ℕ
