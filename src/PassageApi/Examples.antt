-- ===== src/PassageApi/Examples.antt =====
-- The theorems on the routes of passages at concrete requests.
use any_player_sync_server.Prelude.{◌≡◌, refl, true, false, none, some, List, [], ◌∷◌, codes, arith}
use any_player_sync_server.World.{World}
use any_player_sync_server.World.Runs.{Outcome}
use any_player_sync_server.World.Rows.{UserRow, DjDocumentRow, DjChunkRow}
use any_player_sync_server.Rank.{song}
use any_player_sync_server.Rank.Examples.{numbers}
use any_player_sync_server.Jobs.{TrackRequest}
use any_player_sync_server.FactSources.Examples.{ascii}
use any_player_sync_server.Facts.Examples.{hashed, headers, before}
use any_player_sync_server.Store.Examples.{embedder, zeros}
use any_player_sync_server.PassageApi.{PassageQuery, valid}
use any_player_sync_server.PassageApi.Requests.{lookup}
use any_player_sync_server.PassageApi.Admin.{admin_ingest}
use any_player_sync_server.PassageApi.Served.{SamePassages}
use any_player_sync_server.PassageApi.Lookup.{IsAnswered, lookup_serves}
use any_player_sync_server.PassageApi.Quota.{InQuota, lookup-InQuota}
use any_player_sync_server.PassageApi.Ingest.{HasJobs, IsIngested, admin_ingest_collects}

abbrev query : PassageQuery
query = record { song = codes "Hurt"; artist = codes "Cash"; album = none }

abbrev chief : UserRow
chief = record { id = 7; name = codes "bob"; is_admin = true; created_at = 0; disabled_at = none }

-- The sender is an administrator.
abbrev administered : World
administered = record before { users = chief ∷ [] }

abbrev tracks : List TrackRequest
tracks =
    record { song = codes "Hurt"; artist = codes "Cash"; album = none }
    ∷ record { song = codes " "; artist = codes "Cash"; album = none }
    ∷ []

line_break : valid (codes "a\nb") ≡ false
unfolding valid
line_break = refl

before-InQuota : InQuota 7 before
before-InQuota = record { within = omega arith }

lookup-InQuota_example :
    Outcome
      (InQuota 7)
      (λ _. InQuota 7)
      (lookup numbers (λ bits. bits) ascii hashed headers (some embedder) query before)
lookup-InQuota_example =
    lookup-InQuota 7 numbers (λ bits. bits) ascii hashed headers (some embedder) query before
      before-InQuota

admin_ingest_collects_example :
    Outcome
      (HasJobs [])
      (IsIngested hashed headers ascii tracks administered)
      (admin_ingest hashed headers ascii (some embedder) tracks false administered)
admin_ingest_collects_example =
    admin_ingest_collects hashed headers ascii (some embedder) tracks false administered

abbrev story : DjDocumentRow
story = record {
  id = 4;
  source = codes "wikipedia-en";
  source_ref = codes "Hurt";
  source_url = codes "u";
  subject = song;
  song_key = some (codes "hurt");
  album_key = none;
  artist_key = codes "cash";
  title = codes "Hurt";
  lang = codes "en";
  body = codes "Reznor wrote it.";
  content_hash = codes "x";
  fetched_at = 0;
  added_by = none;
}

abbrev part : DjChunkRow
part = record {
  id = 6;
  document_id = 4;
  ord = 0;
  text = codes "Reznor wrote it.";
  token_count = 4;
  embedding = zeros 2;
}

-- One document, with one chunk that was not played.
abbrev stocked : World
stocked = record before {
  dj_documents = story ∷ [];
  dj_chunks = part ∷ [];
  next_dj_document = 5;
  next_dj_chunk = 7;
}

lookup_serves_example :
    Outcome
      (SamePassages stocked)
      (IsAnswered numbers (λ bits. bits) ascii hashed headers query stocked)
      (lookup numbers (λ bits. bits) ascii hashed headers (some embedder) query stocked)
lookup_serves_example =
    lookup_serves numbers (λ bits. bits) ascii hashed headers query stocked (some embedder)
