-- ===== src/FactSources/Pages.antt =====
-- src/dj_fact_sources.rs: whether a page of Wikipedia, MusicBrainz or Wikidata supports a claim
-- (check_wikipedia, check_musicbrainz, check_wikidata).
use any_player_sync_server.Prelude.{
  Bool, false, not, ◌&&◌, ◌||◌, Option, none, some, List, [], ◌∷◌, ◌++◌, Text, codes, text_eq, any,
  is_some, if◌then◌else◌, map,
}
use any_player_sync_server.Json.{Value, Fields, end, field, get, as_str}
use any_player_sync_server.Errors.{Result, ok, err}
use any_player_sync_server.Strings.{is_empty, starts_with, contains, ends_with_char}
use any_player_sync_server.MatchKeys.{Unicode}
use any_player_sync_server.FactSources.Pointer.{pointer, as_object, as_array}
use any_player_sync_server.FactSources.Chain.{◌>>=◌, ◌>>◌, or_invalid, refuse_if}
use any_player_sync_server.FactSources.{invalid, key, valid_qid, exact_structured}

-- Option::and_then
abbrev pub and_then : {A : Type 0} → Option Value → (Value → Option A) → Option A
and_then none f = none
and_then (some v) f = f v

-- An option compared with `Some(t)`.
abbrev pub is_text : Text → Option Text → Bool
is_text t none = false
is_text t (some s) = text_eq s t

abbrev pub only : Fields → Result Value
only end = err (invalid "ambiguous source page")
only (field k v end) = ok v
only (field k v (field _ _ _)) = err (invalid "ambiguous source page")

abbrev pub credit_sentence : Text → Text → Text
credit_sentence song artist = song ++ (codes " is credited to " ++ (artist ++ codes "."))

abbrev pub release_sentence : Text → Text → Text
release_sentence song date = song ++ (codes " was released on " ++ (date ++ codes "."))

abbrev pub with_release : Text → Option Text → List Text → List Text
with_release song none supported = supported
with_release song (some date) supported =
    if is_empty date then supported else supported ++ release_sentence song date ∷ []

-- The filter_map over the performers, which `verify` has too.
unfoldable pub performer_ids : List Value → List Text
unfolding pointer
performer_ids [] = []
performer_ids (v ∷ vs) =
    let rest = performer_ids vs in
    elim (and_then (pointer (codes "/mainsnak/datavalue/value/id") v) as_str) [
      | none ↦ rest
      | some id ↦ id ∷ rest
    ]

abbrev pub performance_sentence : Text → Text → Text
performance_sentence song artist = song ++ (codes " is performed by " ++ (artist ++ codes "."))

module _ (unicode : Unicode) where
  abbrev pub keyed : Option Text → Option Text
  keyed none = none
  keyed (some s) = some (key unicode s)

  -- The song, alone or with a disambiguation in parentheses.
  unfoldable pub title_matches : Text → Text → Bool
  unfolding key text_eq starts_with
  title_matches title song =
      text_eq (key unicode title) (key unicode song)
      || (starts_with (key unicode title) (key unicode song ++ codes " (")
          && ends_with_char b')' (key unicode title))

  unfoldable pub check_wikipedia : Value → Text → Text → Text → Text → Text → Result (Unit {0})
  unfolding pointer get key title_matches text_eq contains
  check_wikipedia page id song artist evidence claim = do
    refuse_if (is_some (pointer (codes "/query/redirects") page)) "source page redirects"
    pages ←
        or_invalid (and_then (pointer (codes "/query/pages") page) as_object) "source page missing"
    entry ← only pages
    title ← or_invalid (and_then (get (codes "title") entry) as_str) "source title missing"
    extract ← or_invalid (and_then (get (codes "extract") entry) as_str) "source passage missing"
    refuse_if
        (is_some (get (codes "missing") entry)
          || not (text_eq (key unicode title) (key unicode id))
          || not (title_matches title song)
          || is_empty evidence
          || is_empty claim
          || not (contains (key unicode evidence) (key unicode song))
          || not (contains (key unicode evidence) (key unicode artist))
          || not (contains extract evidence)
          || not (text_eq evidence claim))
        "source does not support song, artist and claim"

  abbrev pub names_artist : Text → Option Value → Bool
  names_artist artist none = false
  names_artist artist (some v) = is_text (key unicode artist) (keyed (as_str v))

  abbrev pub any_alias : Text → Option (List Value) → Bool
  any_alias artist none = false
  any_alias artist (some aliases) =
      any (λ alias. names_artist artist (get (codes "name") alias)) aliases

  abbrev pub credits_entity : Text → Option Value → Bool
  credits_entity artist none = false
  credits_entity artist (some entity) =
      any (λ name. names_artist artist (get name entity)) (map codes ("name" ∷ "sort-name" ∷ []))
      || any_alias artist (and_then (get (codes "aliases") entity) as_array)

  unfoldable pub is_credited : Text → Value → Bool
  unfolding key text_eq get as_array
  is_credited artist credit = credits_entity artist (get (codes "artist") credit)

  unfoldable pub check_musicbrainz : Value → Text → Text → Text → Text → Text → Result (Unit {0})
  unfolding get key is_credited as_array exact_structured text_eq
  check_musicbrainz page id song artist evidence claim = do
    refuse_if
        (not (is_text id (and_then (get (codes "id") page) as_str))
          || not (is_text (key unicode song) (keyed (and_then (get (codes "title") page) as_str))))
        "recording identity does not match"
    credited ←
        or_invalid (and_then (get (codes "artist-credit") page) as_array) "artist credit missing"
    refuse_if (not (any (is_credited artist) credited)) "artist credit does not match"
    exact_structured evidence claim (
        with_release song (and_then (get (codes "first-release-date") page) as_str)
          (credit_sentence song artist ∷ []))

  unfoldable pub is_performer : Value → Text → Text → Bool
  unfolding valid_qid pointer key text_eq
  is_performer linked_artist artist performer_id =
      let entity = codes "/entities/" ++ performer_id in
      valid_qid performer_id
      && is_text performer_id (and_then (pointer (entity ++ codes "/id") linked_artist) as_str)
      && is_text (key unicode artist)
          (keyed (and_then (pointer (entity ++ codes "/labels/en/value") linked_artist) as_str))

  unfoldable pub check_wikidata :
      Value → Value → Text → Text → Text → Text → Text → Result (Unit {0})
  unfolding pointer get key text_eq as_array performer_ids is_performer exact_structured
  check_wikidata page linked_artist id song artist evidence claim = do
    entity ← or_invalid (pointer (codes "/entities/" ++ id) page) "song entity missing"
    refuse_if
        (not (is_text id (and_then (get (codes "id") entity) as_str))
          || not (
              is_text (key unicode song)
                (keyed (and_then (pointer (codes "/labels/en/value") entity) as_str))))
        "song entity identity does not match"
    performers ←
        or_invalid (and_then (pointer (codes "/claims/P175") entity) as_array) "performer missing"
    refuse_if (not (any (is_performer linked_artist artist) (performer_ids performers)))
        "performer identity does not match"
    exact_structured evidence claim (performance_sentence song artist ∷ [])
