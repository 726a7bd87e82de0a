-- ===== src/Chunk.antt =====
-- src/passages/chunk.rs: the division of a document into chunks. The tokenizer's count is a
-- parameter.
pub mod Bounds
pub mod Complete
mod Examples
use any_player_sync_server.Prelude.{
  ℕ, ◌+◌, Bool, true, false, not, ◌&&◌, ◌||◌, Option, none, some, List, [], ◌∷◌, ◌++◌, Text, codes,
  ltb, leb, ◌==◌, any, keep, last?, if◌then◌else◌,
}
use mathlib.Core.List.{map}
use any_player_sync_server.Strings.{is_whitespace, is_empty, trim, join}
use any_player_sync_server.MatchKeys.{split_by, split_whitespace}

abbrev pub target_tokens : ℕ
target_tokens = 150

abbrev pub max_tokens : ℕ
max_tokens = 250

-- The ideographic full stop, and the full-width exclamation and question marks.
abbrev is_cjk_end : ℕ → Bool
is_cjk_end c = c == 0x3002 || c == 0xff01 || c == 0xff1f

abbrev ends_before : Text → Bool
ends_before [] = true
ends_before (c ∷ s) = is_whitespace c

abbrev is_latin_end : ℕ → Text → Bool
is_latin_end c rest = (c == b'.' || c == b'!' || c == b'?') && ends_before rest

-- Adds a text without its outer white space, unless nothing is left.
abbrev emit : Text → List Text → List Text
emit s rest = if is_empty (trim s) then rest else trim s ∷ rest

-- The loop of `sentences`, with the characters since the last end.
unfoldable pub sentences_from : Text → Text → List Text
unfolding is_whitespace trim
sentences_from [] current = emit current []
sentences_from (c ∷ s) current =
    let ended = sentences_from s [] in
    let going_on = sentences_from s (current ++ c ∷ []) in
    if is_cjk_end c || is_latin_end c s then emit (current ++ c ∷ []) ended else going_on

unfoldable pub sentences : Text → List Text
unfolding sentences_from
sentences paragraph = sentences_from paragraph []

abbrev pub singles : Text → List Text
singles [] = []
singles (c ∷ s) = (c ∷ []) ∷ singles s

-- split_oversized's units: words with a space after them, or characters.
unfoldable pub units : Text → List Text
unfolding split_whitespace
units sentence =
    if any (λ c. c == b' ') sentence
    then map (λ w. w ++ codes " ") (split_whitespace sentence)
    else singles sentence

-- What has been cut off, and the characters since.
pub record Cut : Type 0 where
  pub out : List Text
  pub current : Text

abbrev pub is_over : ℕ → Bool
is_over n = ltb max_tokens n

-- One piece of a group of sentences, and how many were added since the last group.
pub record Open : Type 0 where
  pub current : List Text
  pub added : ℕ

abbrev pub joined : List Text → Text → Text
joined [] next = next
joined (p ∷ parts) next = join (codes " ") (p ∷ parts) ++ (codes " " ++ next)

-- current.last().cloned().into_iter().collect()
abbrev pub last_only : List Text → List Text
last_only parts = elim (last? parts) [ none ↦ [] | some p ↦ p ∷ [] ]

abbrev pub carry : Open → Open
carry s = record { current = last_only s.current; added = 0 }

abbrev pub add_piece : Open → Text → Open
add_piece s piece = record { current = s.current ++ piece ∷ []; added = s.added + 1 }

abbrev pub emit_group : Bool → List Text → List (List Text) → List (List Text)
emit_group true group rest = group ∷ rest
emit_group false group rest = rest

module _ (count : Text → ℕ) where
  unfoldable pub add_unit : Cut → Text → Cut
  unfolding trim
  add_unit s unit =
      if not (is_empty s.current) && is_over (count (s.current ++ unit))
      then record { out = s.out ++ trim s.current ∷ []; current = unit }
      else record { out = s.out; current = s.current ++ unit }

  unfoldable pub add_units : Cut → List Text → Cut
  unfolding add_unit
  add_units s [] = s
  add_units s (u ∷ us) = add_units (add_unit s u) us

  unfoldable pub flush : Cut → Cut
  unfolding trim
  flush s =
      if is_empty s.current then s else record { out = s.out ++ trim s.current ∷ []; current = [] }

  -- A unit that is too long is divided into characters.
  unfoldable pub add_any : Cut → Text → Cut
  unfolding add_units flush add_unit
  add_any s unit =
      let by_characters = add_units (flush s) (singles unit) in
      let whole = add_unit s unit in if is_over (count unit) then by_characters else whole

  unfoldable pub cut_all : Cut → List Text → Cut
  unfolding add_any
  cut_all s [] = s
  cut_all s (u ∷ us) = cut_all (add_any s u) us

  unfoldable pub split_oversized : Text → List Text
  unfolding cut_all units trim
  split_oversized sentence =
      let s = cut_all (record { out = []; current = [] }) (units sentence) in
      s.out ++ emit s.current []

  abbrev pieces_of : List Text → List Text
  pieces_of [] = []
  pieces_of (s ∷ rest) = (if is_over (count s) then split_oversized s else s ∷ []) ++ pieces_of rest

  abbrev pieces_of_all : List Text → List Text
  pieces_of_all [] = []
  pieces_of_all (p ∷ paragraphs) = pieces_of (sentences p) ++ pieces_of_all paragraphs

  unfoldable pub pieces : Text → List Text
  unfolding split_by split_oversized sentences
  pieces body =
      pieces_of_all (keep (λ p. not (is_empty p)) (map trim (split_by (λ c. c == b'\n') body)))

  -- The first two tests of the loop's body: a group is complete, or its overlap does not fit.
  unfoldable pub is_complete : Open → Text → Bool
  unfolding join
  is_complete s piece = ltb 0 s.added && is_over (count (joined s.current piece))

  unfoldable pub drop_overlap : Open → Text → Open
  unfolding join
  drop_overlap s piece =
      if s.added == 0 && is_over (count (joined s.current piece))
      then record { current = []; added = s.added }
      else s

  -- The state after a piece, before the last test.
  unfoldable pub take_piece : Open → Text → Open
  unfolding is_complete drop_overlap
  take_piece s piece =
      add_piece (drop_overlap (if is_complete s piece then carry s else s) piece) piece

  -- The groups of sentences that become the chunks.
  unfoldable pub groups : Open → List Text → List (List Text)
  unfolding take_piece is_complete join
  groups s [] = emit_group (ltb 0 s.added) s.current []
  groups s (piece ∷ rest) =
      let after = take_piece s piece in
      let full = after.current ∷ groups (carry after) rest in
      let going_on = groups after rest in
      emit_group (is_complete s piece) s.current
        (if leb target_tokens (count (join (codes " ") after.current)) then full else going_on)

  unfoldable pub chunk : Text → List Text
  unfolding groups pieces join
  chunk body = map (join (codes " ")) (groups (record { current = []; added = 0 }) (pieces body))
