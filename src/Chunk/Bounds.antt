-- ===== src/Chunk/Bounds.antt =====
-- No chunk is longer than max_tokens.
use any_player_sync_server.Prelude.{
  ℕ, ◌≤◌, ◌<◌, ◌≡◌, refl, sym, subst, ap, ◌∙◌, Bool, true, false, not, ◌&&◌, List, [], ◌∷◌, ◌++◌,
  Text, codes, ltb, leb, ◌==◌, All, All-append, if◌then◌else◌, arith, inl, inr, Bool-cases, keep,
}
use mathlib.Core.List.{map, append_assoc}
use any_player_sync_server.Strings.{is_empty, trim, trim_start, trim_end, join}
use any_player_sync_server.MatchKeys.{split_by}
use any_player_sync_server.Chunk.{
  Cut, Open, is_over, add_unit, add_units, flush, add_any, cut_all, split_oversized, units, singles,
  pieces, pieces_of, pieces_of_all, sentences, emit, joined, is_complete, carry, drop_overlap,
  add_piece, take_piece, emit_group, groups, chunk, target_tokens,
}

-- What the bounds need of a tokenizer: white space at the ends adds nothing, and one character is
-- no more than a chunk.
pub record IsCounter (count : Text → ℕ) : Type 0 where
  pub trimmed : (s : Text) → count (trim s) ≤ count s
  pub single : (c : ℕ) → count (c ∷ []) ≤ 250

module _ (count : Text → ℕ) (counter : IsCounter count) where
  abbrev Fits : Text → Type 0
  Fits s = count s ≤ 250

  -- All that has been cut off fits, and so does the rest, unless there is none.
  record Fitting (s : Cut) : Type 0 where
    pub out : All Fits s.out
    pub current : is_empty s.current ≡ false → Fits s.current

  trim-Fits : (s : Text) → Fits s → Fits (trim s)
  trim-Fits s h = omega (arith, counter.trimmed s)

  appended-Fits :
      (current unit : Text)
      → (not (is_empty current) && is_over (count (current ++ unit))) ≡ false
      → Fits unit
      → Fits (current ++ unit)
  appended-Fits [] unit e fits = fits
  appended-Fits (c ∷ current) unit e fits = ground arith

  add_unit-Fitting :
      (s : Cut) (unit : Text) → Fitting s → Fits unit → Fitting (add_unit count s unit)
  unfolding add_unit
  add_unit-Fitting s unit h fits =
      elim (Bool-cases (not (is_empty s.current) && is_over (count (s.current ++ unit)))) [
        | inl e ↦ rw e (record {
          out = All-append Fits s.out _ h.out (trim-Fits s.current (h.current (ground arith)), tt);
          current = λ _. fits;
        })
        | inr e ↦ rw e (record { out = h.out; current = λ _. appended-Fits s.current unit e fits })
      ]

  add_units-Fitting :
      (us : List Text) (s : Cut) → Fitting s → All Fits us → Fitting (add_units count s us)
  unfolding add_units
  add_units-Fitting [] s h fits = h
  add_units-Fitting (u ∷ us) s h (fit, fits) =
      add_units-Fitting us (add_unit count s u) (add_unit-Fitting s u h fit) fits

  singles-Fits : (s : Text) → All Fits (singles s)
  singles-Fits [] = tt
  singles-Fits (c ∷ s) = (counter.single c, singles-Fits s)

  flush-Fitting : (s : Cut) → Fitting s → Fitting (flush count s)
  unfolding flush
  flush-Fitting s h = elim (Bool-cases (is_empty s.current)) [
    | inl e ↦ rw e h
    | inr e ↦ rw e (record {
      out = All-append Fits s.out _ h.out (trim-Fits s.current (h.current e), tt);
      current = λ e'. absurd (cc);
    })
  ]

  add_any-Fitting : (s : Cut) (unit : Text) → Fitting s → Fitting (add_any count s unit)
  unfolding add_any
  add_any-Fitting s unit h = elim (Bool-cases (is_over (count unit))) [
    | inl e ↦ rw e (add_units-Fitting (singles unit) _ (flush-Fitting s h) (singles-Fits unit))
    | inr e ↦ rw e (add_unit-Fitting s unit h (ground arith))
  ]

  cut_all-Fitting : (us : List Text) (s : Cut) → Fitting s → Fitting (cut_all count s us)
  unfolding cut_all
  cut_all-Fitting [] s h = h
  cut_all-Fitting (u ∷ us) s h = cut_all-Fitting us (add_any count s u) (add_any-Fitting s u h)

  trimmed_cons : (s : Text) → is_empty (trim s) ≡ false → is_empty s ≡ false
  unfolding trim trim_start trim_end
  trimmed_cons [] e = absurd (cc)
  trimmed_cons (c ∷ s) e = refl

  emit-Fits : (s : Text) → (is_empty s ≡ false → Fits s) → All Fits (emit s [])
  emit-Fits s h = elim (Bool-cases (is_empty (trim s))) [
    | inl e ↦ rw e tt
    | inr e ↦ rw e (trim-Fits s (h (trimmed_cons s e)), tt)
  ]

  nothing_cut : Fitting (record { out = []; current = [] })
  nothing_cut = record { out = tt; current = λ e. absurd (cc) }

  split_oversized-Fits : (s : Text) → All Fits (split_oversized count s)
  unfolding split_oversized
  split_oversized-Fits s =
      let done = cut_all-Fitting (units s) _ (nothing_cut) in
      All-append Fits _ _ done.out (emit-Fits _ done.current)

  pieces_of-Fits : (ss : List Text) → All Fits (pieces_of count ss)
  pieces_of-Fits [] = tt
  pieces_of-Fits (s ∷ ss) = All-append Fits _ _ (piece (is_over (count s)) refl) (pieces_of-Fits ss)
    where
      piece :
          (b : Bool)
          → is_over (count s) ≡ b
          → All Fits (if b then split_oversized count s else s ∷ [])
      piece true e = split_oversized-Fits s
      piece false e = (ground arith, tt)

  pieces_of_all-Fits : (ps : List Text) → All Fits (pieces_of_all count ps)
  pieces_of_all-Fits [] = tt
  pieces_of_all-Fits (p ∷ ps) =
      All-append Fits _ _ (pieces_of-Fits (sentences p)) (pieces_of_all-Fits ps)

  pieces-Fits : (body : Text) → All Fits (pieces count body)
  unfolding pieces
  pieces-Fits body =
      pieces_of_all-Fits (keep (λ p. not (is_empty p)) (map trim (split_by (λ c. c == b'\n') body)))

  -- A group's chunk.
  abbrev as_chunk : List Text → Text
  as_chunk group = join (codes " ") group

  as_chunk-append :
      (parts : List Text) (piece : Text) → as_chunk (parts ++ piece ∷ []) ≡ joined parts piece
  unfolding join
  as_chunk-append [] piece = refl
  as_chunk-append (p ∷ []) piece = refl
  as_chunk-append (p ∷ q ∷ parts) piece =
      let gap = codes " " in
      let tail = join gap (q ∷ parts) in
      ap (λ x. p ++ (gap ++ x)) (as_chunk-append (q ∷ parts) piece)
      ∙ sym (
          append_assoc p (gap ++ tail) (gap ++ piece)
          ∙ ap (λ x. p ++ x) (append_assoc gap tail (gap ++ piece)))

  -- A group to which something was added fits.
  record Filling (s : Open) : Type 0 where
    pub fits : 0 < s.added → Fits (as_chunk s.current)

  dropped-Fits :
      (s : Open) (piece : Text)
      → Fits piece
      → (s.added == 0 ≡ false → is_over (count (joined s.current piece)) ≡ false)
      → Fits (as_chunk (add_piece (drop_overlap count s piece) piece).current)
  unfolding drop_overlap
  dropped-Fits s piece fit room =
      elim (Bool-cases (s.added == 0 && is_over (count (joined s.current piece)))) [
        | inl e ↦ rw e (subst Fits (sym (as_chunk-append [] piece)) fit)
        | inr e ↦ rw e (subst Fits (sym (as_chunk-append s.current piece)) (within e))
      ]
    where
      within :
          (s.added == 0 && is_over (count (joined s.current piece))) ≡ false
          → Fits (joined s.current piece)
      within e = ground (arith, room)

  take_piece-Fits :
      (s : Open) (piece : Text) → Fits piece → Fits (as_chunk (take_piece count s piece).current)
  unfolding take_piece is_complete
  take_piece-Fits s piece fit =
      elim (Bool-cases (ltb 0 s.added && is_over (count (joined s.current piece)))) [
        | inl e ↦ rw e (dropped-Fits (carry s) piece fit (λ e'. absurd (cc)))
        | inr e ↦ rw e (dropped-Fits s piece fit (λ e'. ground arith))
      ]

  emit_group-All {ℓ} :
      (P : List Text → Type ℓ) (b : Bool) (group : List Text) (rest : List (List Text))
      → (b ≡ true → P group)
      → All P rest
      → All P (emit_group b group rest)
  emit_group-All P true group rest h k = (h refl, k)
  emit_group-All P false group rest h k = k

  if-All {ℓ} :
      (P : List Text → Type ℓ) (b : Bool) (xs ys : List (List Text))
      → All P xs
      → All P ys
      → All P (if b then xs else ys)
  if-All P true xs ys h k = h
  if-All P false xs ys h k = k

  carry-Filling : (s : Open) → Filling (carry s)
  carry-Filling s = record { fits = λ more. absurd (omega (arith, more)) }

  complete_added : (s : Open) (piece : Text) → is_complete count s piece ≡ true → 0 < s.added
  unfolding is_complete
  complete_added s piece e = ground arith

  groups-Fits :
      (ps : List Text) (s : Open)
      → All Fits ps
      → Filling s
      → All (λ g. Fits (as_chunk g)) (groups count s ps)
  unfolding groups
  groups-Fits [] s fits h =
      emit_group-All (λ g. Fits (as_chunk g)) (ltb 0 s.added) s.current []
        (λ e. h.fits (ground arith)) tt
  groups-Fits (p ∷ ps) s (fit, fits) h =
      let after = take_piece count s p in
      let filled = take_piece-Fits s p fit in
      emit_group-All (λ g. Fits (as_chunk g)) (is_complete count s p) s.current _
        (λ e. h.fits (complete_added s p e))
        (if-All (λ g. Fits (as_chunk g))
          (leb target_tokens (count (join (codes " ") after.current)))
          (after.current ∷ groups count (carry after) ps) (groups count after ps)
          (filled, groups-Fits ps (carry after) fits (carry-Filling after))
          (groups-Fits ps after fits (record { fits = λ _. filled })))

  All-map :
      (gs : List (List Text))
      → All (λ g. Fits (as_chunk g)) gs
      → All Fits (map (join (codes " ")) gs)
  All-map [] h = tt
  All-map (g ∷ gs) (p, h) = (p, All-map gs h)

  -- For a tokenizer to which white space at the ends adds nothing, and for which no character is
  -- longer than a chunk may be: no chunk of any document has more than 250 tokens.
  pub chunk-Fits : (body : Text) → All (λ c. count c ≤ 250) (chunk count body)
  unfolding chunk
  chunk-Fits body = All-map _ (
      groups-Fits (pieces count body) _ (pieces-Fits body)
        (record { fits = λ more. absurd (omega (arith, more)) }))
