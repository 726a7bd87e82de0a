-- ===== src/Clean/Examples.antt =====
-- Short texts that are cleaned.
use any_player_sync_server.Prelude.{
  ◌≡◌, ◌≤◌, refl, true, [], Text, codes, leb, ◌+◌, ◌&&◌, if◌then◌else◌,
}
use mathlib.Core.List.{map}
use any_player_sync_server.Strings.{len}
use any_player_sync_server.MatchKeys.{Unicode}
use any_player_sync_server.MatchKeys.Titles.{IsPrefix}
use any_player_sync_server.Clean.{
  split_inclusive, strip_wiki_sections, strip_lastfm_suffix, truncate_body, title_matches,
}
use any_player_sync_server.Clean.Cuts.{
  IsCut, glue, truncate_body-IsPrefix, strip_wiki_sections-IsCut,
}

abbrev article : Text
article = codes "A.\n== B ==\nC.\n\n== Notes ==\nx"

strips : strip_wiki_sections article ≡ codes "A.\n== B ==\nC."
unfolding strip_wiki_sections
strips = refl

cuts : strip_lastfm_suffix (codes "Bio. <a href=x>Read more on Last.fm</a>") ≡ codes "Bio."
unfolding strip_lastfm_suffix
cuts = refl

-- The third character has two bytes, of which only one would fit.
truncates : truncate_body (codes "abéc") 3 ≡ codes "ab"
unfolding truncate_body
truncates = refl

abbrev lower : Unicode
lower = record {
  to_lowercase = λ s. map (λ c. if leb b'A' c && leb c b'Z' then c + 32 else c) s;
  is_alphanumeric = λ c. leb b'0' c;
}

matches : title_matches lower (codes "Creep (Radiohead song)") (codes "creep") ≡ true
unfolding title_matches
matches = refl

truncate_body-IsPrefix_example :
    IsPrefix (truncate_body (codes "abéc") 3) (codes "abéc")
    × (len (truncate_body (codes "abéc") 3) ≤ 3)
truncate_body-IsPrefix_example = truncate_body-IsPrefix (codes "abéc") 3

strip_wiki_sections-IsCut_example :
    IsCut (split_inclusive article) [] (strip_wiki_sections article)
    × (glue (split_inclusive article) ≡ article)
strip_wiki_sections-IsCut_example = strip_wiki_sections-IsCut article
