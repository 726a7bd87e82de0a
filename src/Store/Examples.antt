-- ===== src/Store/Examples.antt =====
-- Runs of the store of passages, and its theorem at a concrete document.
use any_player_sync_server.Prelude.{
  ℕ, zero, suc, ◌≡◌, refl, none, some, List, [], ◌∷◌, Text, codes, map, arith,
}
use any_player_sync_server.World.{World, empty}
use any_player_sync_server.World.Rows.{DjDocumentRow}
use any_player_sync_server.World.Runs.{Outcome}
use any_player_sync_server.Rank.{song}
use any_player_sync_server.FactSources.Examples.{ascii}
use any_player_sync_server.Store.{NewDocument, Embed, zipped, upsert_document}
use any_player_sync_server.Store.View.{IsNumbered}
use any_player_sync_server.Store.Upserted.{SameStore}
use any_player_sync_server.Store.Refines.{Refines, upsert_document-Refines}

abbrev pub zeros : ℕ → List ℕ
zeros zero = []
zeros (suc n) = 0 ∷ zeros n

-- One vector for each text; one token for each text.
abbrev pub embedder : Embed
embedder = record { embed = λ texts kind. some (map (λ t. zeros 384) texts); count_tokens = λ t. 1 }

abbrev digest : Text → Text
digest s = s

abbrev document : NewDocument
document = record {
  source = codes "wikipedia-en";
  source_ref = codes "Hurt";
  source_url = codes "https://en.wikipedia.org/wiki/Hurt";
  subject = song;
  song = some (codes "Hurt");
  album = none;
  artist = codes "Cash";
  title = codes "Hurt";
  lang = codes "en";
  body = codes "It was written by Reznor.";
}

abbrev old : DjDocumentRow
old = record {
  id = 4;
  source = codes "wikipedia-en";
  source_ref = codes "Hurt";
  source_url = codes "u";
  subject = song;
  song_key = some (codes "hurt");
  album_key = none;
  artist_key = codes "cash";
  title = codes "Hurt";
  lang = codes "en";
  body = codes "x";
  content_hash = codes "x";
  fetched_at = 0;
  added_by = none;
}

abbrev before : World
before = record empty { dj_documents = old ∷ []; next_dj_document = 5; clock = 9 }

shortest :
    zipped (codes "a" ∷ codes "b" ∷ []) (zeros 1 ∷ []) (1 ∷ 2 ∷ [])
    ≡ record { text = codes "a"; vector = zeros 1; count = 1 } ∷ []
unfolding zipped
shortest = refl

numbered : IsNumbered before
numbered = record { below = (omega arith, tt); distinct = (tt, tt) }

upsert_document-Refines_example :
    Outcome
      (SameStore before)
      (λ _. Refines ascii digest embedder document before)
      (upsert_document ascii digest embedder document none before)
upsert_document-Refines_example =
    upsert_document-Refines ascii digest embedder document none before numbered
