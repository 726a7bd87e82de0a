-- ===== src/Clean.antt =====
-- src/passages/sources/clean.rs: the cleaning of texts that the sources give, and the test on
-- titles.
pub mod Cuts
mod Examples
use any_player_sync_server.Prelude.{
  ℕ, ◌+◌, ◌-◌, Bool, true, false, not, ◌&&◌, ◌||◌, Option, none, some, List, [], ◌∷◌, ◌++◌, Text,
  codes, text_eq, ltb, leb, ◌==◌, any, last?, if◌then◌else◌,
}
use mathlib.Core.List.{map}
use any_player_sync_server.Strings.{is_empty, trim, trim_end, starts_with, utf8_len, len}
use any_player_sync_server.MatchKeys.{Unicode, match_key, base_title, rsplit_once}

abbrev trailing_sections : List Text
trailing_sections = map codes (
    "References" ∷ "Notes" ∷ "Footnotes" ∷ "Citations" ∷ "Sources" ∷ "External links" ∷ "See also"
    ∷ "Further reading" ∷ "Track listing" ∷ "Track listings" ∷ "Formats and track listings"
    ∷ "Personnel" ∷ "Credits and personnel" ∷ "Charts" ∷ "Weekly charts" ∷ "Year-end charts"
    ∷ "Certifications" ∷ "Certifications and sales" ∷ "Release history" ∷ "脚注" ∷ "出典" ∷ "注釈"
    ∷ "参考文献" ∷ "関連項目" ∷ "外部リンク" ∷ "収録曲" ∷ "参加ミュージシャン" ∷ "チャート" ∷ "각주" ∷ "외부 링크" ∷ "같이 보기" ∷ "참고 문헌"
    ∷ "트랙 목록" ∷ "차트" ∷ [])

abbrev onto_line : ℕ → List Text → List Text
onto_line c [] = (c ∷ []) ∷ []
onto_line c (line ∷ rest) = (c ∷ line) ∷ rest

-- str::split_inclusive('\n')
unfoldable pub split_inclusive : Text → List Text
split_inclusive [] = []
split_inclusive (c ∷ s) =
    let rest = split_inclusive s in if c == b'\n' then (c ∷ []) ∷ rest else onto_line c rest

-- str::trim_matches('=')
unfoldable pub skip_equals : Text → Text
skip_equals [] = []
skip_equals (c ∷ s) = let rest = skip_equals s in if c == b'=' then rest else c ∷ s

unfoldable pub drop_equals : Text → Text
drop_equals [] = []
drop_equals (c ∷ s) =
    let rest = drop_equals s in if c == b'=' && is_empty rest then [] else c ∷ rest

unfoldable pub is_trailing : Text → Bool
unfolding starts_with trim text_eq skip_equals drop_equals
is_trailing line =
    starts_with (trim line) (codes "==")
    && any (text_eq (trim (drop_equals (skip_equals (trim line))))) trailing_sections

-- The loop over the lines, with the text before them.
unfoldable pub strip_from : List Text → Text → Text
unfolding is_trailing trim_end
strip_from [] seen = trim_end seen
strip_from (line ∷ rest) seen =
    let later = strip_from rest (seen ++ line) in if is_trailing line then trim_end seen else later

unfoldable pub strip_wiki_sections : Text → Text
unfolding strip_from split_inclusive
strip_wiki_sections text = strip_from (split_inclusive text) []

abbrev markers : List Text
markers = map codes ("<a href" ∷ "Read more on Last.fm" ∷ "User-contributed text" ∷ [])

-- The text before the first of the markers.
unfoldable pub before_markers : Text → Text
unfolding starts_with
before_markers [] = []
before_markers (c ∷ s) =
    let rest = before_markers s in if any (starts_with (c ∷ s)) markers then [] else c ∷ rest

unfoldable pub strip_lastfm_suffix : Text → Text
unfolding before_markers trim
strip_lastfm_suffix text = trim (before_markers text)

-- The longest prefix of whole characters that has at most so many bytes.
unfoldable pub fitting : ℕ → Text → Text
fitting max [] = []
fitting max (c ∷ s) =
    let rest = fitting (max - utf8_len c) s in if leb (utf8_len c) max then c ∷ rest else []

abbrev before_newline : Text → Option (Text × Text) → Text
before_newline text none = text
before_newline text (some (before, after)) = before

unfoldable pub truncate_body : Text → ℕ → Text
unfolding fitting trim_end len rsplit_once
truncate_body text max =
    let cut = fitting max text in
    if leb (len text) max then text else trim_end (before_newline cut (rsplit_once b'\n' cut))

-- `wanted` is the key of the base title.
abbrev is_disambiguated : Text → Text → Bool
is_disambiguated key wanted =
    starts_with key (wanted ++ codes " (") && elim (last? key) [ none ↦ false | some c ↦ c == b')' ]

unfoldable pub title_matches : Unicode → Text → Text → Bool
unfolding match_key base_title text_eq
title_matches unicode candidate wanted =
    let c = match_key unicode candidate in
    let w = match_key unicode (base_title unicode wanted) in text_eq c w || is_disambiguated c w
