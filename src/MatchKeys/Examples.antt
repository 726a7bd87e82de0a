-- ===== src/MatchKeys/Examples.antt =====
-- Titles and credits of the source's tests, in ASCII.
use any_player_sync_server.Prelude.{
  ◌≡◌, refl, [], ◌∷◌, codes, text_eq, ◌||◌, ◌+◌, leb, ◌&&◌, if◌then◌else◌,
}
use mathlib.Core.List.{map}
use any_player_sync_server.Strings.{is_ascii_digit}
use any_player_sync_server.MatchKeys.{Unicode, base_title, song_keys, artist_keys}

abbrev ascii : Unicode
ascii = record {
  to_lowercase = λ s. map (λ c. if leb b'A' c && leb c b'Z' then c + 32 else c) s;
  is_alphanumeric = λ c. (leb b'0' c && leb c b'9') || (leb b'a' c && leb c b'z');
}

keeps_qualifiers_away :
    song_keys ascii (codes "American Woman - 2024 Remaster")
    ≡ codes "american woman - 2024 remaster" ∷ codes "american woman" ∷ []
unfolding song_keys
keeps_qualifiers_away = refl

strips : base_title ascii (codes "Song (feat. X) [Live]") ≡ codes "Song"
unfolding base_title is_ascii_digit text_eq
strips = refl

credits : artist_keys ascii (codes "A, B & C") ≡ map codes ("a, b & c" ∷ "a" ∷ "b" ∷ "c" ∷ [])
unfolding artist_keys
credits = refl
