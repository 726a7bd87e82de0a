-- ===== src/Rank/Examples.antt =====
-- A lookup with two passages of one document. Numbers stand for the floats.
use any_player_sync_server.Prelude.{
  ℕ, ◌+◌, ◌*◌, ◌-◌, ◌/◌, ◌≡◌, refl, none, some, List, [], ◌∷◌, ℤ, pos, negsuc, codes, ltb, leb,
  ◌==◌, if◌then◌else◌,
}
use any_player_sync_server.MatchKeys.{Unicode}
use any_player_sync_server.Rank.{
  Floats, Candidate, song, chosen, select, recovery, cosine, score_all, compare_scored, sort_scored,
  choose, less, equal, greater, Ordering,
}
use any_player_sync_server.Rank.Outcome.{Promises, select-Promises}

abbrev compare_numbers : ℕ → ℕ → Ordering
compare_numbers m n = if ltb m n then less else if m == n then equal else greater

abbrev of_integer : ℤ → ℕ
of_integer (pos n) = n
of_integer (negsuc n) = 0

abbrev pub numbers : Floats
numbers = record {
  F32 = ℕ;
  F64 = ℕ;
  zero = 0;
  one = 100;
  add = λ x y. x + y;
  mul = λ x y. x * y;
  gt = λ x y. ltb y x;
  partial_cmp = λ x y. some (compare_numbers x y);
  of_i64 = of_integer;
  sub = λ x y. x - y;
  div = λ x y. x / y;
  lt = ltb;
  ln = λ x. x;
  ln_1p = λ x. x + 1;
  min = λ x y. if leb x y then x else y;
  to_f32 = λ x. x;
  near_duplicate = 50;
  title_boost = 5;
  album_weight = 85;
  artist_weight = 70;
}

abbrev plain_ascii : Unicode
plain_ascii = record { to_lowercase = λ s. s; is_alphanumeric = λ c. leb b'a' c }

abbrev passage : ℕ → List ℕ → Candidate numbers
passage id embedding = record {
  chunk_id = id;
  document_id = 1;
  text = codes "a b";
  token_count = 10;
  embedding = embedding;
  source = [];
  source_url = [];
  title = [];
  subject = song;
  lang = [];
  last_played = none;
}

abbrev candidates : List (Candidate numbers)
candidates = passage 1 (1 ∷ []) ∷ passage 2 (2 ∷ []) ∷ passage 3 (3 ∷ []) ∷ []

-- The two best of the three, by their scores.
selects : select numbers plain_ascii candidates (1 ∷ []) [] 0 100 ≡ chosen (3 ∷ 2 ∷ [])
unfolding select score_all recovery cosine sort_scored compare_scored choose
selects = refl

select-Promises_example :
    Promises numbers plain_ascii
      (1 ∷ [])
      []
      0
      100
      candidates
      (select numbers plain_ascii candidates (1 ∷ []) [] 0 100)
select-Promises_example = select-Promises numbers plain_ascii (1 ∷ []) [] 0 100 candidates
