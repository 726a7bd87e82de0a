-- ===== src/Chunk/Complete.antt =====
-- No piece of a document is lost between the chunks.
use any_player_sync_server.Prelude.{
  ℕ, ◌<◌, ◌≡◌, refl, sym, subst, Bool, true, false, List, [], ◌∷◌, Text, codes, ltb, leb, ◌==◌, All,
  if◌then◌else◌, arith, inl, inr, ◌⊎◌, Bool-cases,
}
use mathlib.Core.List.{Memᴰ, map}
use mathlib.Core.List.Memᴰ
use any_player_sync_server.Strings.{join}
use any_player_sync_server.Chunk.{
  Open, is_complete, carry, drop_overlap, take_piece, emit_group, groups, pieces, chunk,
  target_tokens,
}

-- The piece is a part of one of the groups.
pub record IsCovered (gs : List (List Text)) (p : Text) : Type 0 where
  pub group : List Text
  pub listed : Memᴰ group gs
  pub part : Memᴰ p group

IsCovered-emit_group :
    (b : Bool) (g : List Text) (gs : List (List Text)) (p : Text)
    → IsCovered gs p
    → IsCovered (emit_group b g gs) p
IsCovered-emit_group true g gs p h = record {
  group = h.group;
  listed = Memᴰ.tail h.listed;
  part = h.part;
}
IsCovered-emit_group false g gs p h = h

IsCovered-head :
    (b : Bool) (g : List Text) (gs : List (List Text)) (p : Text)
    → b ≡ true
    → Memᴰ p g
    → IsCovered (emit_group b g gs) p
IsCovered-head true g gs p e m = record { group = g; listed = Memᴰ.head refl; part = m }
IsCovered-head false g gs p e m = absurd (cc)

IsCovered-if :
    (b : Bool) (g : List Text) (xs ys : List (List Text)) (p : Text)
    → Memᴰ p g ⊎ IsCovered xs p
    → IsCovered ys p
    → IsCovered (if b then g ∷ xs else ys) p
IsCovered-if true g xs ys p (inl m) k = record { group = g; listed = Memᴰ.head refl; part = m }
IsCovered-if true g xs ys p (inr h) k = record {
  group = h.group;
  listed = Memᴰ.tail h.listed;
  part = h.part;
}
IsCovered-if false g xs ys p h k = k

module _ (count : Text → ℕ) where
  drop_overlap-keeps : (s : Open) (piece : Text) → 0 < s.added → drop_overlap count s piece ≡ s
  unfolding drop_overlap
  drop_overlap-keeps s piece more = rw (not_zero) refl
    where
      not_zero : s.added == 0 ≡ false
      not_zero = ground (arith, more)

  take_piece-added : (s : Open) (piece : Text) → 0 < (take_piece count s piece).added
  unfolding take_piece
  take_piece-added s piece = omega arith

  -- A piece that is not cut off before the next one stays.
  take_piece-keeps :
      (s : Open) (piece q : Text)
      → 0 < s.added
      → is_complete count s piece ≡ false
      → Memᴰ q s.current
      → Memᴰ q (take_piece count s piece).current
  unfolding take_piece
  take_piece-keeps s piece q more open_still m =
      rw (open_still, drop_overlap-keeps s piece more) (Memᴰ.append_left (piece ∷ []) m)

  take_piece-last : (s : Open) (piece : Text) → Memᴰ piece (take_piece count s piece).current
  unfolding take_piece
  take_piece-last s piece = Memᴰ.append_right _ (Memᴰ.head refl)

  current-IsCovered :
      (ps : List Text) (s : Open) (q : Text)
      → 0 < s.added
      → Memᴰ q s.current
      → IsCovered (groups count s ps) q
  unfolding groups
  current-IsCovered [] s q more m = IsCovered-head (ltb 0 s.added) s.current [] q (ground arith) m
  current-IsCovered (p ∷ ps) s q more m = elim (Bool-cases (is_complete count s p)) [
    | inl e ↦ IsCovered-head (is_complete count s p) s.current _ q e m
    | inr e ↦ IsCovered-emit_group (is_complete count s p) s.current _ q (
        IsCovered-if (leb target_tokens (count (join (codes " ") (take_piece count s p).current))) _
          (groups count (carry (take_piece count s p)) ps) (groups count (take_piece count s p) ps)
          q (inl (take_piece-keeps s p q more e m))
          (current-IsCovered ps (take_piece count s p) q (take_piece-added s p)
            (take_piece-keeps s p q more e m)))
  ]

  -- What the groups to come cover, the groups from here on cover.
  later-IsCovered :
      (p : Text) (ps : List Text) (s : Open) (q : Text)
      → Memᴰ q (take_piece count s p).current
        ⊎ IsCovered (groups count (carry (take_piece count s p)) ps) q
      → IsCovered (groups count (take_piece count s p) ps) q
      → IsCovered (groups count s (p ∷ ps)) q
  unfolding groups
  later-IsCovered p ps s q h k = IsCovered-emit_group (is_complete count s p) s.current _ q (
      IsCovered-if (leb target_tokens (count (join (codes " ") (take_piece count s p).current))) _
        (groups count (carry (take_piece count s p)) ps) (groups count (take_piece count s p) ps) q
        h k)

  later_for_each :
      (p : Text) (ps qs : List Text) (s : Open)
      → All (IsCovered (groups count (carry (take_piece count s p)) ps)) qs
      → All (IsCovered (groups count (take_piece count s p) ps)) qs
      → All (IsCovered (groups count s (p ∷ ps))) qs
  later_for_each p ps [] s h k = tt
  later_for_each p ps (q ∷ qs) s (h, hs) (k, ks) =
      (later-IsCovered p ps s q (inr h) k, later_for_each p ps qs s hs ks)

  groups-IsCovered : (ps : List Text) (s : Open) → All (IsCovered (groups count s ps)) ps
  groups-IsCovered [] s = tt
  groups-IsCovered (p ∷ ps) s =
      let after = take_piece count s p in
      (
        later-IsCovered p ps s p (inl (take_piece-last s p))
            (current-IsCovered ps after p (take_piece-added s p) (take_piece-last s p)),
        later_for_each p ps ps s (groups-IsCovered ps (carry after)) (groups-IsCovered ps after),
      )

  -- A chunk of the document that is joined from pieces, of which `p` is one.
  pub record IsKept (body p : Text) : Type 0 where
    pub parts : List Text
    pub part : Memᴰ p parts
    pub listed : Memᴰ (join (codes " ") parts) (chunk count body)

  each-IsKept :
      (body : Text) (gs : List (List Text)) (ps : List Text)
      → chunk count body ≡ map (join (codes " ")) gs
      → All (IsCovered gs) ps
      → All (IsKept body) ps
  each-IsKept body gs [] e h = tt
  each-IsKept body gs (p ∷ ps) e (h, hs) = (
    record {
      parts = h.group;
      part = h.part;
      listed =
          subst (Memᴰ (join (codes " ") h.group)) (sym e) (Memᴰ.map (join (codes " ")) h.listed);
    },
    each-IsKept body gs ps e hs,
  )

  -- Every piece into which a document is cut is a part of some chunk.
  pub chunk-IsKept : (body : Text) → All (IsKept body) (pieces count body)
  unfolding chunk
  chunk-IsKept body =
      each-IsKept body (groups count (record { current = []; added = 0 }) (pieces count body))
        (pieces count body) refl
        (groups-IsCovered (pieces count body) (record { current = []; added = 0 }))
