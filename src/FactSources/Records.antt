-- ===== src/FactSources/Records.antt =====
-- What a page of Wikipedia, MusicBrainz or Wikidata must hold to support a claim: the meaning of the
-- checks of src/dj_fact_sources.rs.
use any_player_sync_server.Prelude.{◌≡◌, ◌⊎◌, true, false, none, some, List, ◌++◌, Text, codes}
use mathlib.Core.List.{Memᴰ}
use any_player_sync_server.Json.{Value, end, field, get, as_str}
use any_player_sync_server.Strings.{is_empty, contains, starts_with, ends_with_char}
use any_player_sync_server.MatchKeys.{Unicode}
use any_player_sync_server.FactSources.Pointer.{pointer, as_object, as_array}
use any_player_sync_server.FactSources.Pages.{
  and_then, performer_ids, credit_sentence, release_sentence, performance_sentence,
}
use any_player_sync_server.FactSources.{key, valid_qid}

module _ (unicode : Unicode) where
  -- The song by its key, alone or with a disambiguation in parentheses.
  abbrev pub TitlesSong : Text → Text → Type 0
  TitlesSong title song =
      (key unicode title ≡ key unicode song)
      ⊎ ((starts_with (key unicode title) (key unicode song ++ codes " (") ≡ true)
          × (ends_with_char b')' (key unicode title) ≡ true))

  -- One page, not redirected, with the title that was asked for, whose extract has the claim in it;
  -- and the claim names the song and the artist.
  pub record OnWikipedia (page : Value) (id song artist claim : Text) : Type 0 where
    pub direct : pointer (codes "/query/redirects") page ≡ none
    pub name : Text
    pub entry : Value
    pub single :
        and_then (pointer (codes "/query/pages") page) as_object ≡ some (field name entry end)
    pub present : get (codes "missing") entry ≡ none
    pub title : Text
    pub titled : and_then (get (codes "title") entry) as_str ≡ some title
    pub asked_for : key unicode title ≡ key unicode id
    pub on_song : TitlesSong title song
    pub extract : Text
    pub extracted : and_then (get (codes "extract") entry) as_str ≡ some extract
    pub some_claim : is_empty claim ≡ false
    pub quoted : contains extract claim ≡ true
    pub names_song : contains (key unicode claim) (key unicode song) ≡ true
    pub names_artist : contains (key unicode claim) (key unicode artist) ≡ true

  -- A credited entity has the artist's name, by its key.
  pub data IsNamed (artist : Text) (entity : Value) : Type 0 where
    by_name :
        (s : Text)
        → and_then (get (codes "name") entity) as_str ≡ some s
        → key unicode s ≡ key unicode artist
        → IsNamed artist entity
    by_sort_name :
        (s : Text)
        → and_then (get (codes "sort-name") entity) as_str ≡ some s
        → key unicode s ≡ key unicode artist
        → IsNamed artist entity
    by_alias :
        (aliases : List Value) (alias : Value) (s : Text)
        → and_then (get (codes "aliases") entity) as_array ≡ some aliases
        → Memᴰ alias aliases
        → and_then (get (codes "name") alias) as_str ≡ some s
        → key unicode s ≡ key unicode artist
        → IsNamed artist entity

  -- What a claim says of a recording: its credit, or the date of release that the page gives.
  pub data IsStated (page : Value) (song artist claim : Text) : Type 0 where
    credited : claim ≡ credit_sentence song artist → IsStated page song artist claim
    released :
        (date : Text)
        → and_then (get (codes "first-release-date") page) as_str ≡ some date
        → claim ≡ release_sentence song date
        → IsStated page song artist claim

  -- The recording with the id and the title, one of whose credits is the artist.
  pub record OnMusicbrainz (page : Value) (id song artist claim : Text) : Type 0 where
    pub identity : and_then (get (codes "id") page) as_str ≡ some id
    pub title : Text
    pub titled : and_then (get (codes "title") page) as_str ≡ some title
    pub on_song : key unicode title ≡ key unicode song
    pub credits : List Value
    pub listed : and_then (get (codes "artist-credit") page) as_array ≡ some credits
    pub credit : Value
    pub credit_listed : Memᴰ credit credits
    pub entity : Value
    pub of_credit : get (codes "artist") credit ≡ some entity
    pub named : IsNamed artist entity
    pub stated : IsStated page song artist claim

  -- The entity with the id and the label of the song, one of whose performers has, in the second
  -- page, its own id and the label of the artist.
  pub record OnWikidata (page linked : Value) (id song artist claim : Text) : Type 0 where
    pub entity : Value
    pub found : pointer (codes "/entities/" ++ id) page ≡ some entity
    pub identity : and_then (get (codes "id") entity) as_str ≡ some id
    pub label : Text
    pub labelled : and_then (pointer (codes "/labels/en/value") entity) as_str ≡ some label
    pub on_song : key unicode label ≡ key unicode song
    pub performers : List Value
    pub listed : and_then (pointer (codes "/claims/P175") entity) as_array ≡ some performers
    pub performer : Text
    pub performer_listed : Memᴰ performer (performer_ids performers)
    pub valid : valid_qid performer ≡ true
    pub linked_identity :
        and_then (pointer ((codes "/entities/" ++ performer) ++ codes "/id") linked) as_str
        ≡ some performer
    pub name : Text
    pub linked_label :
        and_then
          (pointer ((codes "/entities/" ++ performer) ++ codes "/labels/en/value") linked)
          as_str
        ≡ some name
    pub by_artist : key unicode name ≡ key unicode artist
    pub stated : claim ≡ performance_sentence song artist
