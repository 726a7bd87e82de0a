-- ===== src/MatchKeys/Titles.antt =====
-- What base_title takes away, and that its loop comes to its own end.
use any_player_sync_server.Prelude.{
  ℕ, zero, suc, ◌≤◌, ◌<◌, ◌≡◌, refl, sym, subst, ap, ◌∙◌, ◌&&◌, none, some, List, [], ◌∷◌, ◌++◌,
  Text, length, last?, inl, inr, Bool-cases, Option-cases, arith, length-append,
}
use mathlib.Core.List.{append-nil, append_assoc}
use any_player_sync_server.Strings.{is_empty, trim_end, is_whitespace}
use any_player_sync_server.MatchKeys.{
  Unicode, rsplit_once, opening, cut_at, strip_qualifier, strip_qualifiers, head_or_self,
  onto_first,
}

-- `s` begins with `p`.
pub record IsPrefix (p s : Text) : Type 0 where
  pub rest : Text
  pub whole : s ≡ p ++ rest

pub IsPrefix-refl : (s : Text) → IsPrefix s s
IsPrefix-refl s = record { rest = []; whole = sym (append-nil s) }

pub IsPrefix-trans : (p q s : Text) → IsPrefix p q → IsPrefix q s → IsPrefix p s
IsPrefix-trans p q s h k = record {
  rest = h.rest ++ k.rest;
  whole = k.whole ∙ ap (λ x. x ++ k.rest) h.whole ∙ append_assoc p h.rest k.rest;
}

pub IsPrefix-cons : (c : ℕ) (p s : Text) → IsPrefix p s → IsPrefix (c ∷ p) (c ∷ s)
IsPrefix-cons c p s h = record { rest = h.rest; whole = ap (λ x. c ∷ x) h.whole }

pub IsPrefix-nil : (s : Text) → IsPrefix [] s
IsPrefix-nil s = record { rest = s; whole = refl }

pub trim_end-IsPrefix : (s : Text) → IsPrefix (trim_end s) s
unfolding trim_end
trim_end-IsPrefix [] = IsPrefix-nil []
trim_end-IsPrefix (c ∷ s) = elim (Bool-cases (is_whitespace c && is_empty (trim_end s))) [
  | inl e ↦ rw e (IsPrefix-nil (c ∷ s))
  | inr e ↦ rw e (IsPrefix-cons c (trim_end s) s (trim_end-IsPrefix s))
]

pub rsplit_once-prefix :
    (c : ℕ) (s before after : Text)
    → rsplit_once c s ≡ some (before, after)
    → s ≡ before ++ c ∷ after
unfolding rsplit_once
rsplit_once-prefix c [] before after h = absurd (cc)
rsplit_once-prefix c (d ∷ s) before after h = elim (Option-cases (rsplit_once c s)) [
  | inl e ↦ ground arith
  | inr ((b, a), e) ↦ ground (arith, rsplit_once-prefix c s b a e)
]

length-IsPrefix : (p s : Text) → IsPrefix p s → length p ≤ length s
length-IsPrefix p s h = omega (arith, ap length h.whole, length-append p h.rest)

pub onto_first-head :
    (t : Text) (c : ℕ) (parts : List Text)
    → head_or_self t (onto_first c parts) ≡ c ∷ head_or_self [] parts
onto_first-head t c [] = refl
onto_first-head t c (s ∷ parts) = refl

module _ (unicode : Unicode) where
  -- What a round leaves is a shorter prefix.
  record IsShorter (shorter base : Text) : Type 0 where
    pub prefix : IsPrefix shorter base
    pub length : length shorter < length base

  cut_at-IsShorter :
      (bracket : ℕ) (base before after shorter : Text)
      → base ≡ before ++ bracket ∷ after
      → cut_at unicode (before, after) ≡ some shorter
      → IsShorter shorter base
  unfolding cut_at
  cut_at-IsShorter bracket base before after shorter whole h = record {
    prefix =
        IsPrefix-trans shorter before base trimmed
          (record { rest = bracket ∷ after; whole = whole });
    length = omega (
      arith,
      length-IsPrefix shorter before trimmed,
      ap length whole,
      length-append before (bracket ∷ after),
    );
  }
    where
      taken : trim_end before ≡ shorter
      taken = ground arith

      trimmed : IsPrefix shorter before
      trimmed = subst (λ x. IsPrefix x before) taken (trim_end-IsPrefix before)

  strip_qualifier-IsShorter :
      (base shorter : Text) → strip_qualifier unicode base ≡ some shorter → IsShorter shorter base
  unfolding strip_qualifier
  strip_qualifier-IsShorter base shorter h = elim (Option-cases (last? base)) [
    | inl e ↦ absurd (ground arith)
    | inr (close, e) ↦ elim (Option-cases (opening close)) [
      | inl e' ↦ absurd (ground arith)
      | inr (bracket, e') ↦ elim (Option-cases (rsplit_once bracket base)) [
        | inl e'' ↦ absurd (ground arith)
        | inr ((before, after), e'') ↦
            cut_at-IsShorter bracket base before after shorter
              (rsplit_once-prefix bracket base before after e'') (ground arith)
      ]
    ]
  ]

  -- The loop has come to its own end if its bound is the length of the text.
  nothing_left : (base : Text) → length base ≤ 0 → strip_qualifier unicode base ≡ none
  unfolding strip_qualifier
  nothing_left [] bound = refl
  nothing_left (c ∷ base) bound = absurd (omega arith)

  pub none_tried : (base : Text) → strip_qualifiers unicode 0 base ≡ base
  unfolding strip_qualifiers
  none_tried base = refl

  pub stops :
      (fuel : ℕ) (base : Text)
      → strip_qualifier unicode base ≡ none
      → strip_qualifiers unicode (suc fuel) base ≡ base
  unfolding strip_qualifiers
  stops fuel base e = rw (e, strip_qualifiers) refl

  pub goes_on :
      (fuel : ℕ) (base shorter : Text)
      → strip_qualifier unicode base ≡ some shorter
      → strip_qualifiers unicode (suc fuel) base ≡ strip_qualifiers unicode fuel shorter
  unfolding strip_qualifiers
  goes_on fuel base shorter e = rw (e, strip_qualifiers) refl

  pub strip_qualifiers-ends :
      (fuel : ℕ) (base : Text)
      → length base ≤ fuel
      → strip_qualifier unicode (strip_qualifiers unicode fuel base) ≡ none
  strip_qualifiers-ends zero base bound =
      ap (strip_qualifier unicode) (none_tried base) ∙ nothing_left base bound
  strip_qualifiers-ends (suc fuel) base bound = elim (Option-cases (strip_qualifier unicode base)) [
    | inl e ↦ ap (strip_qualifier unicode) (stops fuel base e) ∙ e
    | inr (shorter, e) ↦
        ap (strip_qualifier unicode) (goes_on fuel base shorter e)
        ∙ strip_qualifiers-ends fuel shorter
            (omega (arith, bound, (strip_qualifier-IsShorter base shorter e).length))
  ]
