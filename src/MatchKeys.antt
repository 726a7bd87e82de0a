-- ===== src/MatchKeys.antt =====
-- src/match_keys.rs: the keys that songs, albums and artists are stored and looked up by. The
-- tables of Unicode are a parameter.
pub mod Titles
pub mod Base
mod Examples
use any_player_sync_server.Prelude.{
  ℕ, zero, suc, ◌+◌, ◌-◌, keep, last?, Bool, true, false, not, ◌&&◌, ◌||◌, Option, none, some, List,
  [], ◌∷◌, ◌++◌, Text, codes, text_eq, ◌==◌, any, all, take, length, if◌then◌else◌,
}
use mathlib.Core.List.{map}
use any_player_sync_server.Prelude.Options.{◌>>=◌}
use any_player_sync_server.Strings.{
  is_whitespace, is_ascii_digit, is_empty, trim, trim_end, starts_with, join,
}

-- str::to_lowercase and char::is_alphanumeric
pub record Unicode : Type 0 where
  pub to_lowercase : Text → Text
  pub is_alphanumeric : ℕ → Bool

-- Puts a character in front of the first part.
abbrev onto_first : ℕ → List Text → List Text
onto_first c [] = (c ∷ []) ∷ []
onto_first c (s ∷ rest) = (c ∷ s) ∷ rest

-- str::split by a test on characters
unfoldable pub split_by : (ℕ → Bool) → Text → List Text
split_by sep [] = [] ∷ []
split_by sep (c ∷ s) = let rest = split_by sep s in if sep c then [] ∷ rest else onto_first c rest

-- str::split_whitespace
unfoldable pub split_whitespace : Text → List Text
unfolding split_by is_whitespace
split_whitespace s = keep (λ w. not (is_empty w)) (split_by is_whitespace s)

-- str::split by a text that is not empty; `skip` characters belong to a separator.
unfoldable pub split_from : Text → ℕ → Text → List Text
unfolding starts_with
split_from sep skip [] = [] ∷ []
split_from sep (suc skip) (c ∷ s) = split_from sep skip s
split_from sep zero (c ∷ s) =
    let next = split_from sep (length sep - 1) s in
    let rest = split_from sep zero s in
    if starts_with (c ∷ s) sep then [] ∷ next else onto_first c rest

unfoldable pub split : Text → Text → List Text
unfolding split_from
split sep s = split_from sep zero s

-- DASHES
abbrev pub is_dash : ℕ → Bool
is_dash c = any (λ d. c == d) (0x2010 ∷ 0x2011 ∷ 0x2012 ∷ 0x2013 ∷ 0x2014 ∷ 0x2015 ∷ [])

unfoldable pub fold_dashes : Text → Text
fold_dashes [] = []
fold_dashes (c ∷ s) = (if is_dash c then b'-' else c) ∷ fold_dashes s

-- str::rfind of a character: what stands before its last occurrence, and what stands after it.
unfoldable pub rsplit_once : ℕ → Text → Option (Text × Text)
rsplit_once c [] = none
rsplit_once c (d ∷ s) = elim (rsplit_once c s) [
  | some (before, after) ↦ some (d ∷ before, after)
  | none ↦ if d == c then some ([], s) else none
]

abbrev drop_last : Text → Text
drop_last [] = []
drop_last (c ∷ []) = []
drop_last (c ∷ d ∷ s) = c ∷ drop_last (d ∷ s)

abbrev title_qualifiers : List Text
title_qualifiers = map codes (
    "feat" ∷ "feat." ∷ "ft" ∷ "ft." ∷ "featuring" ∷ "with" ∷ "from" ∷ "remaster" ∷ "remastered"
    ∷ "version" ∷ "live" ∷ "remix" ∷ "edit" ∷ "mix" ∷ "mono" ∷ "stereo" ∷ "acoustic" ∷ "demo"
    ∷ "instrumental" ∷ "explicit" ∷ "ver" ∷ "ver." ∷ [])

-- The bracket that a closing one belongs to.
abbrev pub opening : ℕ → Option ℕ
opening close = if close == b')' then some b'(' else if close == b']' then some b'[' else none

abbrev head_or_self : Text → List Text → Text
head_or_self s [] = s
head_or_self s (t ∷ rest) = t

module _ (unicode : Unicode) where
  unfoldable pub identity_key : Text → Text
  unfolding split_whitespace join
  identity_key value = unicode.to_lowercase (join (codes " ") (split_whitespace value))

  unfoldable pub match_key : Text → Text
  unfolding fold_dashes identity_key
  match_key value = fold_dashes (identity_key value)

  unfoldable pub is_qualifier : Text → Bool
  unfolding trim split_by
  is_qualifier inner =
      all is_ascii_digit (trim inner)
      || any (λ word. any (text_eq word) title_qualifiers)
          (split_by (λ c. not (unicode.is_alphanumeric c) && not (c == b'.')) inner)

  -- The title before a bracket, if what stands in the bracket is a qualifier.
  unfoldable pub cut_at : Text × Text → Option Text
  unfolding is_qualifier trim_end
  cut_at (before, after) =
      if is_qualifier (unicode.to_lowercase (drop_last after)) && not (is_empty before)
      then some (trim_end before)
      else none

  -- One round of the loop.
  unfoldable pub strip_qualifier : Text → Option Text
  unfolding rsplit_once cut_at
  strip_qualifier base = do
    close ← last? base
    bracket ← opening close
    parts ← rsplit_once bracket base
    cut_at parts

  -- The loop of base_title, with a bound on its rounds.
  unfoldable pub strip_qualifiers : ℕ → Text → Text
  unfolding strip_qualifier
  strip_qualifiers zero base = base
  strip_qualifiers (suc fuel) base = elim (strip_qualifier base) [
    | none ↦ base
    | some shorter ↦ strip_qualifiers fuel shorter
  ]

  unfoldable pub base_title : Text → Text
  unfolding strip_qualifiers split trim_end
  base_title title =
      let start = trim_end (head_or_self title (split (codes " - ") title)) in
      let base = strip_qualifiers (length start) start in if is_empty base then title else base

  unfoldable pub song_keys : Text → List Text
  unfolding match_key base_title text_eq
  song_keys title =
      let key = match_key title in
      let base = match_key (base_title title) in
      if any (text_eq base) (key ∷ []) then key ∷ [] else key ∷ base ∷ []

  abbrev separators : List Text
  separators = map codes ("," ∷ "&" ∷ "、" ∷ " feat. " ∷ " ft. " ∷ " featuring " ∷ [])

  abbrev split_all : Text → List Text → List Text
  split_all sep [] = []
  split_all sep (part ∷ parts) = split sep part ++ split_all sep parts

  abbrev split_by_each : List Text → List Text → List Text
  split_by_each [] parts = parts
  split_by_each (sep ∷ seps) parts = split_by_each seps (split_all sep parts)

  -- The second loop of artist_parts.
  unfoldable pub push_parts : List Text → List Text → List Text
  unfolding match_key text_eq trim
  push_parts [] out = out
  push_parts (p ∷ parts) out =
      let part = trim p in
      let pushed = push_parts parts (out ++ part ∷ []) in
      let skipped = push_parts parts out in
      if not (is_empty part) && not (any (λ o. text_eq (match_key o) (match_key part)) out)
      then pushed
      else skipped

  unfoldable pub artist_parts : Text → List Text
  unfolding push_parts split trim
  artist_parts artist =
      take 16 (push_parts (split_by_each separators (artist ∷ [])) (trim artist ∷ []))

  unfoldable pub artist_keys : Text → List Text
  unfolding artist_parts match_key
  artist_keys artist = map match_key (artist_parts artist)
