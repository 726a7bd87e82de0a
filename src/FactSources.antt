-- ===== src/FactSources.antt =====
-- src/dj_fact_sources.rs: which records of Wikipedia, MusicBrainz and Wikidata a fact may cite, and
-- the texts that are compared. The tables of Unicode are a parameter, as in MatchKeys.
pub mod Pointer
pub mod Chain
pub mod Pages
pub mod Fetch
pub mod Verify
pub mod Records
pub mod Tests
pub mod Sound
pub mod Bounds
pub mod Read
pub mod Verified
pub mod Examples
use any_player_sync_server.Prelude.{
  ℕ, zero, suc, ◌+◌, ◌*◌, ◌/◌, ◌%◌, String, Bool, true, false, not, ◌&&◌, ◌||◌, Option, none, some,
  List, [], ◌∷◌, ◌++◌, Text, codes, text_eq, ltb, leb, ◌==◌, any, all, drop, is_some, if◌then◌else◌,
}
use any_player_sync_server.Prelude.Options.{◌>>=◌}
use any_player_sync_server.Errors.{Result, ok, err, ApiError, bad_request, plain}
use any_player_sync_server.Strings.{
  is_ascii_digit, is_ascii_alphanumeric, is_ascii_hexdigit, is_empty, starts_with, join, len,
}
use any_player_sync_server.MatchKeys.{Unicode, fold_dashes, split_whitespace}

abbrev pub invalid : String → ApiError
invalid message = bad_request (plain message)

-- str::replace of one character by another
unfoldable pub replace_char : ℕ → ℕ → Text → Text
replace_char a b [] = []
replace_char a b (c ∷ s) = (if c == a then b else c) ∷ replace_char a b s

-- str::bytes: UTF-8
abbrev pub utf8_bytes : ℕ → List ℕ
utf8_bytes c =
    if leb c 0x7f
    then c ∷ []
    else if leb c 0x7ff
    then (0xc0 + c / 64) ∷ (0x80 + c % 64) ∷ []
    else if leb c 0xffff
    then (0xe0 + c / 4096) ∷ (0x80 + c / 64 % 64) ∷ (0x80 + c % 64) ∷ []
    else (0xf0 + c / 262144) ∷ (0x80 + c / 4096 % 64) ∷ (0x80 + c / 64 % 64) ∷ (0x80 + c % 64) ∷ []

unfoldable pub bytes : Text → List ℕ
bytes [] = []
bytes (c ∷ s) = utf8_bytes c ++ bytes s

-- The digit of the format `X`.
abbrev hex_digit : ℕ → ℕ
hex_digit n = if leb n 9 then b'0' + n else n + 55

unfoldable pub escape_byte : ℕ → Text
unfolding is_ascii_alphanumeric
escape_byte b =
    if is_ascii_alphanumeric b || any (λ c. c == b) (codes "_-.*")
    then b ∷ []
    else b'%' ∷ hex_digit (b / 16) ∷ hex_digit (b % 16) ∷ []

abbrev escape_bytes : List ℕ → Text
escape_bytes [] = []
escape_bytes (b ∷ bs) = escape_byte b ++ escape_bytes bs

unfoldable pub wiki_title_url : Text → Text
unfolding replace_char bytes escape_byte
wiki_title_url id = escape_bytes (bytes (replace_char b' ' b'_' id))

unfoldable pub wikipedia_lang : Text → Option Text
unfolding text_eq
wikipedia_lang source =
    if text_eq source (codes "wikipedia")
    then some (codes "en")
    else if text_eq source (codes "wikipedia-ja")
    then some (codes "ja")
    else if text_eq source (codes "wikipedia-ko")
    then some (codes "ko")
    else none

unfoldable pub valid_qid : Text → Bool
unfolding len starts_with is_ascii_digit
valid_qid id =
    leb 2 (len id)
    && leb (len id) 16
    && starts_with id (codes "Q")
    && all is_ascii_digit (drop 1 id)

-- [8, 13, 18, 23].contains(&i)
abbrev pub is_dash_position : ℕ → Bool
is_dash_position i = any (λ d. d == i) (8 ∷ 13 ∷ 18 ∷ 23 ∷ [])

-- b.is_ascii_hexdigit() && !b.is_ascii_uppercase()
abbrev is_lower_hexdigit : ℕ → Bool
is_lower_hexdigit b = is_ascii_hexdigit b && not (leb b'A' b && leb b b'Z')

-- iter().enumerate().all, from the position `i` on
abbrev pub all_at : (ℕ → ℕ → Bool) → ℕ → List ℕ → Bool
all_at p i [] = true
all_at p i (b ∷ bs) = p i b && all_at p (suc i) bs

unfoldable pub valid_uuid : Text → Bool
unfolding len bytes is_ascii_hexdigit
valid_uuid id =
    len id == 36
    && all_at (λ i b. if is_dash_position i then b == b'-' else is_lower_hexdigit b) 0 (bytes id)

module _ (unicode : Unicode) where
  unfoldable pub key : Text → Text
  unfolding fold_dashes join split_whitespace replace_char
  key value =
      fold_dashes
        (unicode.to_lowercase (join (codes " ") (split_whitespace (replace_char b'_' b' ' value))))

  -- c.is_alphanumeric() || " _-(),.'!?&:・".contains(c)
  abbrev is_title_char : ℕ → Bool
  is_title_char c = unicode.is_alphanumeric c || any (λ d. d == c) (codes " _-(),.'!?&:・")

  -- The guard of the first arm of `canonical`.
  unfoldable pub is_wikipedia_id : Text → Text → Bool
  unfolding wikipedia_lang len
  is_wikipedia_id source id =
      is_some (wikipedia_lang source)
      && not (is_empty id)
      && leb (len id) 160
      && all is_title_char id

  abbrev wikipedia_url : Text → Text → Option Text
  wikipedia_url source id = do
    lang ← wikipedia_lang source
    some (codes "https://" ++ (lang ++ (codes ".wikipedia.org/wiki/" ++ wiki_title_url id)))

  unfoldable pub canonical : Text → Text → Option Text
  unfolding is_wikipedia_id wikipedia_lang wiki_title_url valid_qid valid_uuid text_eq
  canonical source id =
      if is_wikipedia_id source id
      then wikipedia_url source id
      else if text_eq source (codes "wikidata") && valid_qid id
      then some (codes "https://www.wikidata.org/wiki/" ++ id)
      else if text_eq source (codes "musicbrainz") && valid_uuid id
      then some (codes "https://musicbrainz.org/recording/" ++ id)
      else none

unfoldable pub exact_structured : Text → Text → List Text → Result (Unit {0})
unfolding text_eq
exact_structured evidence claim supported =
    if text_eq evidence claim && any (λ fact. text_eq fact claim) supported
    then ok tt
    else err (invalid "claim is not supported by source values")
