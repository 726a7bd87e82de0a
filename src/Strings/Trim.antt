-- ===== src/Strings/Trim.antt =====
-- What `trim` guarantees.
use any_player_sync_server.Prelude.{
  ◌≡◌, refl, Bool, true, false, [], ◌∷◌, Text, arith, All, ℕ, if◌then◌else◌, ap, ◌∙◌,
}
use any_player_sync_server.Strings.{
  is_whitespace, is_ascii_alphanumeric, trim_start, trim_end, trim,
}

-- Neither end of the text is white space.
abbrev pub head_ok : Text → Bool
head_ok [] = true
head_ok (c ∷ s) = if is_whitespace c then false else true

trim_start-head_ok : (s : Text) → head_ok (trim_start s) ≡ true
unfolding trim_start
trim_start-head_ok [] = refl
trim_start-head_ok (c ∷ s) = ground (arith, trim_start-head_ok s)

trim_start_fixed : (s : Text) → head_ok s ≡ true → trim_start s ≡ s
unfolding trim_start
trim_start_fixed [] h = refl
trim_start_fixed (c ∷ s) h = ground arith

trim_end-head_ok : (s : Text) → head_ok s ≡ true → head_ok (trim_end s) ≡ true
unfolding trim_end
trim_end-head_ok [] h = refl
trim_end-head_ok (c ∷ s) h = ground arith

trim_end_idempotent : (s : Text) → trim_end (trim_end s) ≡ trim_end s
unfolding trim_end
trim_end_idempotent [] = refl
trim_end_idempotent (c ∷ s) = ground (arith, trim_end_idempotent s)

-- Trimming a second time changes nothing.
pub trim_idempotent : (s : Text) → trim (trim s) ≡ trim s
unfolding trim
trim_idempotent s =
    ap trim_end (
      trim_start_fixed (trim_end (trim_start s))
        (trim_end-head_ok (trim_start s) (trim_start-head_ok s)))
    ∙ trim_end_idempotent (trim_start s)

-- A text with no white space is its own trimming.
pub trim_of_spaceless : (s : Text) → All (λ c. is_whitespace c ≡ false) s → trim s ≡ s
unfolding trim
trim_of_spaceless s h = ap trim_end (start s h) ∙ finish s h
  where
    start : (s : Text) → All (λ c. is_whitespace c ≡ false) s → trim_start s ≡ s
    start [] h = unfold trim_start in refl
    start (c ∷ s) h = unfold trim_start in ground arith

    finish : (s : Text) → All (λ c. is_whitespace c ≡ false) s → trim_end s ≡ s
    finish [] h = unfold trim_end in refl
    finish (c ∷ s) h = unfold trim_end in ground (arith, finish s h.1)

pub is_whitespace-alphanumeric : (c : ℕ) → is_ascii_alphanumeric c ≡ true → is_whitespace c ≡ false
unfolding is_whitespace is_ascii_alphanumeric
is_whitespace-alphanumeric c h = ground arith
