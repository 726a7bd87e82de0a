-- ===== src/Jobs/Misses.antt =====
-- src/passages/jobs.rs, `misses`: the finished tracks on which no source has found anything. The
-- collation of the database is a parameter.
use any_player_sync_server.Prelude.{
  Bool, false, not, ◌&&◌, ◌||◌, List, [], ◌∷◌, Text, codes, text_eq, keep, map, if◌then◌else◌,
}
use any_player_sync_server.Errors.{ok}
use any_player_sync_server.Json.{Fields, end, field}
use any_player_sync_server.World.{Action, statement}
use any_player_sync_server.World.Rows.{JobRow}
use any_player_sync_server.Jobs.{TrackRequest, sqlx_error, is_finished, state}

-- EXISTS .. r.value->>'state' = 'found'
unfoldable pub has_found : Fields → Bool
unfolding state text_eq
has_found end = false
has_found (field k v rest) = text_eq (state v) (codes "found") || has_found rest

abbrev pub is_miss : JobRow → Bool
is_miss j = is_finished j.status && not (has_found j.results)

module _ (before : Text → Text → Bool) where
  -- ORDER BY artist, song
  abbrev pub precedes : JobRow → JobRow → Bool
  precedes i j =
      before i.artist j.artist || (not (before j.artist i.artist) && before i.song j.song)

  unfoldable pub insert_miss : JobRow → List JobRow → List JobRow
  insert_miss j [] = j ∷ []
  insert_miss j (i ∷ is) =
      let later = insert_miss j is in if precedes i j then i ∷ later else j ∷ i ∷ is

  unfoldable pub sort_misses : List JobRow → List JobRow
  unfolding insert_miss
  sort_misses [] = []
  sort_misses (j ∷ js) = insert_miss j (sort_misses js)

  abbrev pub to_track : JobRow → TrackRequest
  to_track j = record { song = j.song; artist = j.artist; album = j.album }

  unfoldable pub misses : Action (List TrackRequest)
  unfolding sort_misses has_found
  misses = statement sqlx_error λ w. (ok (map to_track (sort_misses (keep is_miss w.jobs))), w)
