-- ===== src/Chunk/Examples.antt =====
-- A document with three sentences. The length of a text stands for its count of tokens.
use any_player_sync_server.Prelude.{◌≤◌, ◌≡◌, refl, [], ◌∷◌, Text, codes, All, length, arith}
use any_player_sync_server.Strings.{trim, trim_start, trim_end}
use any_player_sync_server.Chunk.{chunk, pieces, sentences}
use any_player_sync_server.Chunk.Complete.{IsKept, chunk-IsKept}
use any_player_sync_server.Chunk.Bounds.{IsCounter, chunk-Fits}

trim_start-length : (s : Text) → length (trim_start s) ≤ length s
unfolding trim_start
trim_start-length [] = omega arith
trim_start-length (c ∷ s) = ground (arith, trim_start-length s)

trim_end-length : (s : Text) → length (trim_end s) ≤ length s
unfolding trim_end
trim_end-length [] = omega arith
trim_end-length (c ∷ s) = ground (arith, trim_end-length s)

length-IsCounter : IsCounter length
unfolding trim
length-IsCounter = record {
  trimmed = λ s. omega (arith, trim_start-length s, trim_end-length (trim_start s));
  single = λ c. omega arith;
}

abbrev body : Text
body = codes " One. Two 2.5!\n Three"

cuts : pieces length body ≡ codes "One." ∷ codes "Two 2.5!" ∷ codes "Three" ∷ []
unfolding pieces sentences
cuts = refl

chunk-Fits_example : All (λ c. length c ≤ 250) (chunk length body)
chunk-Fits_example = chunk-Fits length length-IsCounter body

chunk-IsKept_example : All (IsKept length body) (pieces length body)
chunk-IsKept_example = chunk-IsKept length body
