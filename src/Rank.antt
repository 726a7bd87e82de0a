-- ===== src/Rank.antt =====
-- src/passages/rank.rs: the choice of passages for one lookup. The arithmetic of f32 and f64 is a
-- parameter; Unicode as in MatchKeys.
pub mod Fair
pub mod Outcome
pub mod Examples
use any_player_sync_server.Prelude.{
  ℕ, ◌+◌, ◌-◌, String, Bool, true, false, not, ◌&&◌, ◌||◌, Option, none, some, List, [], ◌∷◌, ◌++◌,
  ℤ, pos, negsuc, Text, ltb, leb, ◌==◌, any, keep, length, is_none, if◌then◌else◌,
}
use mathlib.Core.List.{map}
use any_player_sync_server.Strings.{is_empty, contains}
use any_player_sync_server.MatchKeys.{Unicode, match_key}

abbrev pub budget_tokens : ℕ
budget_tokens = 2500

abbrev pub per_document : ℕ
per_document = 2

pub data Ordering : Type 0 where
  less equal greater : Ordering

-- The operations of f32 and f64 that are used, and the constants of this file.
pub record Floats : Type 1 where
  pub F32 : Type 0
  pub F64 : Type 0
  pub zero : F32
  pub one : F32
  pub add : F32 → F32 → F32
  pub mul : F32 → F32 → F32
  pub gt : F32 → F32 → Bool
  pub partial_cmp : F32 → F32 → Option Ordering
  pub of_i64 : ℤ → F64
  pub sub : F64 → F64 → F64
  pub div : F64 → F64 → F64
  pub lt : F64 → F64 → Bool
  pub ln : F64 → F64
  pub ln_1p : F64 → F64
  pub min : F64 → F64 → F64
  pub to_f32 : F64 → F32
  pub near_duplicate : F32
  pub title_boost : F32
  pub album_weight : F32
  pub artist_weight : F32

pub data Subject : Type 0 where
  song album artist : Subject

-- The whole seconds from one time to another, as i64.
abbrev pub seconds_between : ℕ → ℕ → ℤ
seconds_between start time =
    if leb start time then pos (time - start) else negsuc (start - time - 1)

pub data Selection : Type 0 where
  chosen : List ℕ → Selection
  all_excluded empty : Selection

module _ (f : Floats) where
  pub record Candidate : Type 0 where
    pub chunk_id : ℕ
    pub document_id : ℕ
    pub text : Text
    pub token_count : ℕ
    pub embedding : List f.F32
    pub source : Text
    pub source_url : Text
    pub title : Text
    pub subject : Subject
    pub lang : Text
    pub last_played : Option ℕ

  abbrev pub weight : Subject → f.F32
  weight song = f.one
  weight album = f.album_weight
  weight artist = f.artist_weight

  abbrev exclusion_days : f.F64
  exclusion_days = f.of_i64 (pos 30)

  -- `none` within the window.
  unfoldable pub recovery : Option ℕ → ℕ → Option f.F32
  recovery none time = some f.one
  recovery (some at) time =
      let days = f.div (f.of_i64 (seconds_between at time)) (f.of_i64 (pos 86400)) in
      if f.lt days exclusion_days
      then none
      else some (
          f.to_f32 (
            f.min (f.div (f.ln_1p (f.sub days exclusion_days)) (f.ln (f.of_i64 (pos 366))))
              (f.of_i64 (pos 1))))

  -- src/passages/embed.rs; `sum` adds from the left.
  unfoldable pub sum_products : f.F32 → List f.F32 → List f.F32 → f.F32
  sum_products total [] ys = total
  sum_products total (x ∷ xs) [] = total
  sum_products total (x ∷ xs) (y ∷ ys) = sum_products (f.add total (f.mul x y)) xs ys

  unfoldable pub cosine : List f.F32 → List f.F32 → f.F32
  unfolding sum_products
  cosine a b = sum_products f.zero a b

  pub record Scored : Type 0 where
    pub unplayed : Bool
    pub score : f.F32
    pub candidate : Candidate

  module _ (unicode : Unicode) (query : List f.F32) (song_key : Text) (time : ℕ) where
    abbrev boost : Candidate → f.F32
    boost c =
        if not (is_empty song_key) && contains (match_key unicode c.text) song_key
        then f.title_boost
        else f.zero

    abbrev score_with : Candidate → Option f.F32 → Option Scored
    score_with c none = none
    score_with c (some r) = some (record {
      unplayed = is_none c.last_played;
      score = f.mul (f.mul (f.add (cosine query c.embedding) (boost c)) (weight c.subject)) r;
      candidate = c;
    })

    abbrev push {ℓ} : {A : Type ℓ} → Option A → List A → List A
    push none xs = xs
    push (some x) xs = x ∷ xs

    unfoldable pub score_all : List Candidate → List Scored
    score_all [] = []
    score_all (c ∷ cs) = push (score_with c (recovery c.last_played time)) (score_all cs)

  abbrev reverse_bool : Bool → Bool → Ordering
  reverse_bool true false = less
  reverse_bool false true = greater
  reverse_bool true true = equal
  reverse_bool false false = equal

  abbrev or_equal : Option Ordering → Ordering
  or_equal none = equal
  or_equal (some o) = o

  abbrev then_with : Ordering → Ordering → Ordering
  then_with equal o = o
  then_with less o = less
  then_with greater o = greater

  abbrev compare_ids : ℕ → ℕ → Ordering
  compare_ids m n = if ltb m n then less else if m == n then equal else greater

  -- Never played first, then the score, then the id of the chunk.
  unfoldable pub compare_scored : Scored → Scored → Ordering
  compare_scored a b =
      then_with
        (then_with (reverse_bool a.unplayed b.unplayed) (or_equal (f.partial_cmp b.score a.score)))
        (compare_ids a.candidate.chunk_id b.candidate.chunk_id)

  abbrev is_greater : Ordering → Bool
  is_greater greater = true
  is_greater less = false
  is_greater equal = false

  -- slice::sort_by is stable.
  unfoldable pub insert_scored : Scored → List Scored → List Scored
  insert_scored a [] = a ∷ []
  insert_scored a (b ∷ bs) =
      let later = insert_scored a bs in
      if is_greater (compare_scored a b) then b ∷ later else a ∷ b ∷ bs

  unfoldable pub sort_scored : List Scored → List Scored
  unfolding insert_scored
  sort_scored [] = []
  sort_scored (a ∷ rest) = insert_scored a (sort_scored rest)

  abbrev pub same_document : Candidate → Candidate → Bool
  same_document c x = x.document_id == c.document_id

  abbrev pub is_near : Candidate → Candidate → Bool
  is_near c x = f.gt (cosine x.embedding c.embedding) f.near_duplicate

  -- The two tests that skip a candidate.
  unfoldable pub is_skipped : List Candidate → Candidate → Bool
  is_skipped picked c =
      leb per_document (length (keep (same_document c) picked)) || any (is_near c) picked

  -- The loop over the sorted candidates: what has been chosen, and the tokens used.
  unfoldable pub choose : ℕ → List Scored → List Candidate → ℕ → List Candidate
  unfolding is_skipped
  choose budget [] picked used = picked
  choose budget (s ∷ rest) picked used =
      let c = s.candidate in
      let skipped = choose budget rest picked used in
      let taken = choose budget rest (picked ++ c ∷ []) (used + c.token_count) in
      if is_skipped picked c
      then skipped
      else if not (is_empty picked) && ltb budget (used + c.token_count)
      then picked
      else taken

  abbrev pub chunk_ids : List Candidate → List ℕ
  chunk_ids [] = []
  chunk_ids (c ∷ cs) = c.chunk_id ∷ chunk_ids cs

  abbrev select_scored : ℕ → List Scored → Selection
  select_scored budget [] = all_excluded
  select_scored budget (s ∷ scored) =
      chosen (chunk_ids (choose budget (sort_scored (s ∷ scored)) [] 0))

  unfoldable pub select : Unicode → List Candidate → List f.F32 → Text → ℕ → ℕ → Selection
  select unicode [] query song_key time budget = empty
  select unicode (c ∷ cs) query song_key time budget =
      select_scored budget (score_all unicode query song_key time (c ∷ cs))
