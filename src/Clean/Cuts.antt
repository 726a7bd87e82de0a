-- ===== src/Clean/Cuts.antt =====
-- Cleaning gives prefixes, and a truncated text has the length that was asked for.
use any_player_sync_server.Prelude.{
  ℕ, ◌+◌, ◌-◌, ◌≤◌, ◌≡◌, refl, sym, ap, ◌∙◌, true, false, Option, none, some, List, [], ◌∷◌, ◌++◌,
  Text, All, leb, arith, inl, inr, Bool-cases,
}
use mathlib.Core.List.{append-nil, append_assoc}
use any_player_sync_server.Strings.{trim_end, utf8_len, len}
use any_player_sync_server.MatchKeys.{rsplit_once}
use any_player_sync_server.MatchKeys.Titles.{
  IsPrefix, IsPrefix-refl, IsPrefix-trans, IsPrefix-cons, IsPrefix-nil, trim_end-IsPrefix,
  rsplit_once-prefix,
}
use any_player_sync_server.Clean.{
  split_inclusive, onto_line, is_trailing, strip_from, strip_wiki_sections, fitting, before_newline,
  truncate_body,
}

len-append : (s t : Text) → len (s ++ t) ≡ len s + len t
unfolding len
len-append [] t = omega arith
len-append (c ∷ s) t = omega (arith, len-append s t)

len-IsPrefix : (p s : Text) → IsPrefix p s → len p ≤ len s
len-IsPrefix p s h = omega (arith, ap len h.whole, len-append p h.rest)

fitting-IsPrefix : (max : ℕ) (s : Text) → IsPrefix (fitting max s) s
unfolding fitting
fitting-IsPrefix max [] = IsPrefix-nil []
fitting-IsPrefix max (c ∷ s) = elim (Bool-cases (leb (utf8_len c) max)) [
  | inl e ↦ rw e (IsPrefix-cons c _ s (fitting-IsPrefix (max - utf8_len c) s))
  | inr e ↦ rw e (IsPrefix-nil (c ∷ s))
]

len-fitting : (max : ℕ) (s : Text) → len (fitting max s) ≤ max
unfolding len fitting
len-fitting max [] = omega arith
len-fitting max (c ∷ s) = elim (Bool-cases (leb (utf8_len c) max)) [
  | inl e ↦ rw e (omega (arith, fits e, len-fitting (max - utf8_len c) s))
  | inr e ↦ rw e (omega arith)
]
  where
    fits : leb (utf8_len c) max ≡ true → utf8_len c ≤ max
    fits e = ground arith

before_newline-IsPrefix : (s : Text) → IsPrefix (before_newline s (rsplit_once b'\n' s)) s
before_newline-IsPrefix s = found (rsplit_once b'\n' s) refl
  where
    found : (o : Option (Text × Text)) → rsplit_once b'\n' s ≡ o → IsPrefix (before_newline s o) s
    found none e = IsPrefix-refl s
    found (some (before, after)) e = record {
      rest = b'\n' ∷ after;
      whole = rsplit_once-prefix b'\n' s before after e;
    }

-- A truncated body is a prefix of the text and has at most `max` bytes.
pub truncate_body-IsPrefix :
    (text : Text) (max : ℕ)
    → IsPrefix (truncate_body text max) text × (len (truncate_body text max) ≤ max)
unfolding truncate_body
truncate_body-IsPrefix text max = elim (Bool-cases (leb (len text) max)) [
  | inl e ↦ rw e (IsPrefix-refl text, ground arith)
  | inr e ↦ rw e (
    IsPrefix-trans _ (fitting max text) text short (fitting-IsPrefix max text),
    omega (arith, len-IsPrefix _ (fitting max text) short, len-fitting max text),
  )
]
  where
    short :
        IsPrefix
          (trim_end (before_newline (fitting max text) (rsplit_once b'\n' (fitting max text))))
          (fitting max text)
    short =
        IsPrefix-trans _ _ (fitting max text) (trim_end-IsPrefix _)
          (before_newline-IsPrefix (fitting max text))

abbrev pub glue : List Text → Text
glue [] = []
glue (s ∷ rest) = s ++ glue rest

glue-onto_line : (c : ℕ) (lines : List Text) → glue (onto_line c lines) ≡ c ∷ glue lines
glue-onto_line c [] = refl
glue-onto_line c (line ∷ lines) = refl

glue-split_inclusive : (s : Text) → glue (split_inclusive s) ≡ s
unfolding split_inclusive
glue-split_inclusive [] = refl
glue-split_inclusive (c ∷ s) =
    ground (arith, glue-split_inclusive s, glue-onto_line c (split_inclusive s))

-- The list is empty, or begins with the heading of a section to leave out.
abbrev pub Begins : List Text → Type 0
Begins [] = Unit
Begins (line ∷ lines) = is_trailing line ≡ true

-- The text is cut before the first such heading.
pub record IsCut (lines : List Text) (seen result : Text) : Type 0 where
  pub kept : List Text
  pub left_out : List Text
  pub whole : lines ≡ kept ++ left_out
  pub ordinary : All (λ l. is_trailing l ≡ false) kept
  pub heading : Begins left_out
  pub outcome : result ≡ trim_end (seen ++ glue kept)

strip_from-IsCut : (lines : List Text) (seen : Text) → IsCut lines seen (strip_from lines seen)
unfolding strip_from
strip_from-IsCut [] seen = record {
  kept = [];
  left_out = [];
  whole = refl;
  ordinary = tt;
  heading = tt;
  outcome = ap trim_end (sym (append-nil seen));
}
strip_from-IsCut (line ∷ lines) seen = elim (Bool-cases (is_trailing line)) [
  | inl e ↦ rw e (record {
    kept = [];
    left_out = line ∷ lines;
    whole = refl;
    ordinary = tt;
    heading = e;
    outcome = ap trim_end (sym (append-nil seen));
  })
  | inr e ↦
      let later = strip_from-IsCut lines (seen ++ line) in
      rw e (record {
        kept = line ∷ later.kept;
        left_out = later.left_out;
        whole = ap (λ x. line ∷ x) later.whole;
        ordinary = (e, later.ordinary);
        heading = later.heading;
        outcome = later.outcome ∙ ap trim_end (append_assoc seen line (glue later.kept));
      })
]

-- strip_wiki_sections keeps the lines before the first heading of a section to leave out, less the
-- white space at the end; the lines are those of the text.
pub strip_wiki_sections-IsCut :
    (text : Text)
    → IsCut (split_inclusive text) [] (strip_wiki_sections text)
      × (glue (split_inclusive text) ≡ text)
unfolding strip_wiki_sections
strip_wiki_sections-IsCut text =
    (strip_from-IsCut (split_inclusive text) [], glue-split_inclusive text)
