-- ===== src/PassageApi/Admin.antt =====
-- src/passages/api.rs: the administration routes.
use any_player_sync_server.Prelude.{
  ℕ, ◌+◌, Bool, true, false, not, ◌&&◌, Option, none, some, List, [], ◌∷◌, ◌++◌, Text, codes, leb,
  keep,
}
use any_player_sync_server.Errors.{bad_request, not_found, plain}
use any_player_sync_server.Strings.{is_empty, trim, len}
use any_player_sync_server.Models.{AuthenticatedUser}
use any_player_sync_server.World.{Action, pure, lift, ◌>>=◌, ◌>>◌}
use any_player_sync_server.MatchKeys.{Unicode}
use any_player_sync_server.Rank.{Subject, song, album, artist}
use any_player_sync_server.Handlers.{Headers, authenticate_with_headers, require_admin}
use any_player_sync_server.Jobs.{
  TrackRequest, JobSummary, Enqueue, newly_queued, already_queued, recently_done, enqueue, list,
}
use any_player_sync_server.Jobs.Misses.{misses}
use any_player_sync_server.Store.{Embed, NewDocument, upsert_document, delete_document}
use any_player_sync_server.Facts.{refuse_unless}
use any_player_sync_server.PassageApi.{
  IngestResponse, NoteRequest, engine, valid, or_db_error, max_body_bytes,
}

-- The filter of the tracks of a request.
abbrev pub is_valid_track : TrackRequest → Bool
is_valid_track t = valid t.song && valid t.artist

abbrev pub counted : Enqueue → IngestResponse → IngestResponse
counted newly_queued out = record out { queued = out.queued + 1 }
counted already_queued out = record out { already_queued = out.already_queued + 1 }
counted recently_done out = record out { recently_done = out.recently_done + 1 }

abbrev pub zero_counts : IngestResponse
zero_counts = record { queued = 0; already_queued = 0; recently_done = 0 }

-- is_some_and(valid)
abbrev pub is_named : Option Text → Bool
is_named none = false
is_named (some name) = valid name

abbrev pub subject_named : NoteRequest → Subject → Bool
subject_named input song = is_named input.song
subject_named input album = is_named input.album
subject_named input artist = true

abbrev pub valid_note : NoteRequest → Bool
valid_note input =
    not (is_empty (trim input.body))
    && leb (len input.body) max_body_bytes
    && valid input.artist
    && valid input.title
    && subject_named input input.subject

-- `reference` is "note-" and a random number.
abbrev pub note_document : NoteRequest → Text → NewDocument
note_document input reference = record {
  source = codes "admin-note";
  source_ref = reference;
  source_url = codes "admin-note:" ++ reference;
  subject = input.subject;
  song = input.song;
  album = input.album;
  artist = input.artist;
  title = input.title;
  lang = codes "und";
  body = input.body;
}

abbrev limit_or_default : Option ℕ → ℕ
limit_or_default none = 100
limit_or_default (some limit) = limit

module _ (hash_token : Text → Text) (headers : Headers) where
  unfoldable pub admin : Action AuthenticatedUser
  admin = do
    user ← authenticate_with_headers hash_token headers
    lift (require_admin user)
    pure user

  unfoldable pub ingest_tracks :
      Unicode → ℕ → Bool → List TrackRequest → IngestResponse → Action IngestResponse
  ingest_tracks unicode user_id force [] out = pure out
  ingest_tracks unicode user_id force (t ∷ ts) out = do
    outcome ← or_db_error "ingest enqueue failed" (enqueue unicode t (some user_id) false force)
    ingest_tracks unicode user_id force ts (counted outcome out)

  unfoldable pub admin_ingest :
      Unicode → Option Embed → List TrackRequest → Bool → Action IngestResponse
  admin_ingest unicode passages tracks force = do
    user ← admin
    lift (engine passages)
    ingest_tracks unicode user.id force (keep is_valid_track tracks) zero_counts

  unfoldable pub admin_list_jobs : Option ℕ → Option ℕ → Action (List JobSummary)
  admin_list_jobs limit before_id = do
    admin
    or_db_error "job list failed" (list (limit_or_default limit) before_id)

  -- `before` is the collation of the database.
  unfoldable pub admin_misses : (Text → Text → Bool) → Action (List TrackRequest)
  admin_misses before = do admin; or_db_error "misses failed" (misses before)

  unfoldable pub admin_create_document :
      Unicode → (Text → Text) → Option Embed → NoteRequest → Text → Action ℕ
  admin_create_document unicode sha256_hex passages input reference = do
    user ← admin
    e ← lift (engine passages)
    lift (refuse_unless (valid_note input) (bad_request (plain "invalid document")))
    or_db_error "document store failed"
        (upsert_document unicode sha256_hex e (note_document input reference) (some user.id))

  unfoldable pub admin_delete_document : ℕ → Action (Unit {0})
  admin_delete_document id = do
    admin
    deleted ← or_db_error "document delete failed" (delete_document id)
    lift (refuse_unless deleted (not_found (plain "document not found")))
