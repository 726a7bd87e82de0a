-- ===== src/FactSources/Verify.antt =====
-- src/dj_fact_sources.rs, `verify`: the record that a contribution cites is fetched and checked.
use any_player_sync_server.Prelude.{
  String, Option, none, some, List, ◌++◌, Text, codes, text_eq, keep, take, is_some, if◌then◌else◌,
}
use any_player_sync_server.Json.{Value}
use any_player_sync_server.Errors.{Result, ok, err, panicked, internal, plain}
use any_player_sync_server.Strings.{join, is_empty}
use any_player_sync_server.MatchKeys.{Unicode}
use any_player_sync_server.FactSources.Pointer.{pointer, as_array}
use any_player_sync_server.FactSources.Pages.{
  and_then, check_wikipedia, check_musicbrainz, check_wikidata, performer_ids,
}
use any_player_sync_server.FactSources.Chain.{◌>>=◌, ◌>>◌, or_invalid, refuse_if}
use any_player_sync_server.FactSources.Fetch.{Crates, Net, Fetched, fetch}
use any_player_sync_server.FactSources.{wikipedia_lang, valid_qid, canonical}

-- What a contribution says of a song.
pub record Evidence : Type 0 where
  pub source : Text
  pub source_id : Text
  pub song : Text
  pub artist : Text
  pub evidence : Text
  pub claim : Text

abbrev pub then_check : {A B : Type 0} → Result A × Net → (A → Result B) → Result B × Net
then_check (r, net) f = (r >>= f, net)

-- The rest of a chain whose first part is `r`.
abbrev pub go_on : {A B : Type 0} → Result A → (A → Net → Result B × Net) → Net → Result B × Net
go_on (ok a) f net = f a net
go_on (err e) f net = (err e, net)
go_on panicked f net = (panicked, net)

abbrev pub lang_or_en : Option Text → Text
lang_or_en none = codes "en"
lang_or_en (some lang) = lang

abbrev pub wikipedia_query : Crates → Text → Text → Text
wikipedia_query crates lang source_id =
    codes "https://"
    ++ (lang
        ++ (codes
              ".wikipedia.org/w/api.php?action=query&prop=extracts&explaintext=1&format=json&titles="
            ++ crates.percent_encode source_id))

abbrev pub musicbrainz_query : Text → Text
musicbrainz_query source_id =
    codes "https://musicbrainz.org/ws/2/recording/"
    ++ (source_id ++ codes "?inc=artists+aliases&fmt=json")

abbrev pub entities_query : Text → String → Text
entities_query ids rest =
    codes "https://www.wikidata.org/w/api.php?action=wbgetentities&ids=" ++ (ids ++ codes rest)

abbrev pub song_query : Text → Text
song_query source_id = entities_query source_id "&props=labels%7Cclaims&languages=en&format=json"

abbrev pub artists_query : List Text → Text
artists_query ids = entities_query (join (codes "%7C") ids) "&props=labels&languages=en&format=json"

-- The first twenty items of performers that the song has.
unfoldable pub linked_ids : Text → Value → Result (List Text)
unfolding pointer as_array performer_ids valid_qid
linked_ids source_id page = do
  performers ←
      or_invalid
        (and_then
          (and_then (pointer (codes "/entities/" ++ source_id) page)
            (pointer (codes "/claims/P175")))
          as_array)
        "performer missing"
  let ids = take 20 (keep valid_qid (performer_ids performers))
  refuse_if (is_empty ids) "performer missing"
  ok ids

module _ (unicode : Unicode) (crates : Crates) where
  unfoldable pub verify_wikipedia : Evidence → Net → Fetched (Unit {0})
  unfolding fetch check_wikipedia wikipedia_lang
  verify_wikipedia e net =
      let query = wikipedia_query crates (lang_or_en (wikipedia_lang e.source)) e.source_id in
      then_check (fetch crates query net)
        λ page. check_wikipedia unicode page e.source_id e.song e.artist e.evidence e.claim

  unfoldable pub verify_musicbrainz : Evidence → Net → Fetched (Unit {0})
  unfolding fetch check_musicbrainz
  verify_musicbrainz e net =
      then_check (fetch crates (musicbrainz_query e.source_id) net)
        λ page. check_musicbrainz unicode page e.source_id e.song e.artist e.evidence e.claim

  abbrev pub check_linked : Evidence → Value → List Text → Net → Fetched (Unit {0})
  check_linked e page ids net =
      then_check (fetch crates (artists_query ids) net)
        λ linked. check_wikidata unicode page linked e.source_id e.song e.artist e.evidence e.claim

  unfoldable pub verify_wikidata : Evidence → Net → Fetched (Unit {0})
  unfolding fetch join linked_ids check_wikidata
  verify_wikidata e net =
      let (answer, after) = fetch crates (song_query e.source_id) net in
      go_on answer (λ page. go_on (linked_ids e.source_id page) (check_linked e page)) after

  -- The three arms; the fourth is `unreachable!`.
  unfoldable pub verify_record : Evidence → Net → Fetched (Unit {0})
  unfolding wikipedia_lang text_eq verify_wikipedia verify_musicbrainz verify_wikidata
  verify_record e net =
      if is_some (wikipedia_lang e.source)
      then verify_wikipedia e net
      else if text_eq e.source (codes "musicbrainz")
      then verify_musicbrainz e net
      else if text_eq e.source (codes "wikidata")
      then verify_wikidata e net
      else (panicked, net)

  -- The client is built once the address is known.
  abbrev pub with_client : Evidence → Text → Net → Fetched Text
  with_client e url net =
      if net.client_builds
      then then_check (verify_record e net) (λ _. ok url)
      else (err (internal (plain "source client unavailable")), net)

  unfoldable pub verify : Evidence → Net → Fetched Text
  unfolding canonical verify_record or_invalid
  verify e net =
      go_on (or_invalid (canonical unicode e.source e.source_id) "unsupported source identity")
        (with_client e) net
