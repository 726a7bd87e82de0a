-- ===== src/Jobs.antt =====
-- src/passages/jobs.rs: the queue of ingest jobs, on the table dj_ingest_jobs. Times are numbers of
-- seconds.
pub mod Steps
pub mod Queueing
pub mod Clock
pub mod Held
pub mod Lease
pub mod Claim
pub mod Misses
pub mod Insertion
mod Examples
use any_player_sync_server.Prelude.{
  ℕ, ◌+◌, ◌*◌, ◌^◌, ◌-◌, String, Bool, true, false, not, ◌&&◌, ◌||◌, Option, none, some, List, [],
  ◌∷◌, ◌++◌, Text, codes, text_eq, ltb, leb, ◌==◌, any, all, keep, find, take, update_where,
  is_some, is_none, length, if◌then◌else◌,
}
use mathlib.Core.List.{map}
use any_player_sync_server.Errors.{Result, ok, err, ApiError, internal, plain}
use any_player_sync_server.Json.{
  Value, str, obj, Fields, end, field, get_field, insert_field, get, as_str,
}
use any_player_sync_server.Strings.{is_empty, join}
use any_player_sync_server.World.{World, Action, statement, pure, now, ◌>>=◌, ◌>>◌, gets}
use any_player_sync_server.World.Rows.{JobRow, Status, queued, running, done, failed}
use any_player_sync_server.MatchKeys.{Unicode, match_key, base_title}

abbrev pub auto_daily_limit : ℕ
auto_daily_limit = 200

abbrev pub max_attempts : ℕ
max_attempts = 5

pub record TrackRequest : Type 0 where
  pub song : Text
  pub artist : Text
  pub album : Option Text

pub record Job : Type 0 where
  pub id : ℕ
  pub track : TrackRequest
  pub attempts : ℕ
  pub results : Fields

pub record JobSummary : Type 0 where
  pub id : ℕ
  pub song : Text
  pub artist : Text
  pub album : Option Text
  pub status : Status
  pub attempts : ℕ
  pub results : Fields
  pub last_error : Option Text
  pub updated_at : ℕ

pub data Enqueue : Type 0 where
  newly_queued already_queued recently_done : Enqueue

-- sqlx::Error
abbrev pub sqlx_error : ApiError
sqlx_error = internal (plain "sqlx")

pub record Keys : Type 0 where
  pub song_key : Text
  pub artist_key : Text
  pub album_key : Text

abbrev album_key_of : Unicode → Option Text → Text
album_key_of unicode none = []
album_key_of unicode (some album) = match_key unicode (base_title unicode album)

unfoldable pub job_keys : Unicode → TrackRequest → Keys
job_keys unicode track = record {
  song_key = match_key unicode (base_title unicode track.song);
  artist_key = match_key unicode track.artist;
  album_key = album_key_of unicode track.album;
}

-- WHERE song_key=$1 AND artist_key=$2 AND album_key=$3
unfoldable pub has_keys : Keys → JobRow → Bool
unfolding text_eq
has_keys k j =
    text_eq j.song_key k.song_key
    && text_eq j.artist_key k.artist_key
    && text_eq j.album_key k.album_key

-- status IN ('done','failed')
abbrev pub is_finished : Status → Bool
is_finished queued = false
is_finished running = false
is_finished done = true
is_finished failed = true

abbrev pub thirty_days : ℕ
thirty_days = 2592000

-- The row that enqueue inserts; the columns that it does not name have their defaults.
abbrev pub new_job : ℕ → ℕ → Keys → TrackRequest → Option ℕ → Bool → JobRow
new_job id time k track requested_by auto = record {
  id = id;
  song = track.song;
  artist = track.artist;
  album = track.album;
  song_key = k.song_key;
  artist_key = k.artist_key;
  album_key = k.album_key;
  requested_by = requested_by;
  auto = auto;
  status = queued;
  attempts = 0;
  next_attempt_at = time;
  results = end;
  last_error = none;
  created_at = time;
  updated_at = time;
}

-- `requested_by` references `users`.
abbrev pub is_listed : Option ℕ → World → Bool
is_listed none w = true
is_listed (some id) w = any (λ u. u.id == id) w.users

-- ON CONFLICT (song_key, artist_key, album_key) DO NOTHING RETURNING id
unfoldable pub insert_job : Keys → TrackRequest → Option ℕ → Bool → Action (Option ℕ)
insert_job k track requested_by auto w =
    if any (has_keys k) w.jobs
    then (ok none, w)
    else if is_listed requested_by w
    then (
      ok (some w.next_job),
      record w {
        jobs = w.jobs ++ new_job w.next_job w.clock k track requested_by auto ∷ [];
        next_job = w.next_job + 1;
      },
    )
    else (err sqlx_error, w)

-- status IN ('done','failed') AND ($4 OR updated_at < NOW() - INTERVAL '30 days')
abbrev pub is_requeued : Keys → Bool → ℕ → JobRow → Bool
is_requeued k force time j =
    has_keys k j && is_finished j.status && (force || ltb (j.updated_at + thirty_days) time)

abbrev pub requeued : ℕ → JobRow → JobRow
requeued time j = record j {
  status = queued;
  attempts = 0;
  next_attempt_at = time;
  results = end;
  last_error = none;
  updated_at = time;
}

-- The first row that is changed, in place of its id.
unfoldable pub requeue : Keys → Bool → Action (Option JobRow)
requeue k force w = (
  ok (find (is_requeued k force w.clock) w.jobs),
  record w { jobs = update_where (is_requeued k force w.clock) (requeued w.clock) w.jobs },
)

abbrev pub status_answer : Option JobRow → Result Enqueue
status_answer none = err sqlx_error
status_answer (some j) = ok (if is_finished j.status then recently_done else already_queued)

unfoldable pub read_status : Keys → Action Enqueue
read_status k w = (status_answer (find (has_keys k) w.jobs), w)

abbrev pub queued_or {ℓ} : {A : Type ℓ} → Option A → Action Enqueue → Action Enqueue
queued_or (some a) rest = pure newly_queued
queued_or none rest = rest

unfoldable pub enqueue : Unicode → TrackRequest → Option ℕ → Bool → Bool → Action Enqueue
enqueue unicode track requested_by auto force = do
  let k = job_keys unicode track
  inserted ← statement sqlx_error (insert_job k track requested_by auto)
  queued_or inserted (do
    changed ← statement sqlx_error (requeue k force)
    queued_or changed (statement sqlx_error (read_status k)))

-- WHERE auto AND requested_by=$1 AND created_at > NOW() - INTERVAL '1 day'
abbrev pub is_counted : ℕ → ℕ → JobRow → Bool
is_counted user_id time j =
    j.auto
    && elim j.requested_by [ none ↦ false | some id ↦ id == user_id ]
    && ltb time (j.created_at + 86400)

unfoldable pub auto_count_today : ℕ → Action ℕ
auto_count_today user_id =
    statement sqlx_error λ w. (ok (length (keep (is_counted user_id w.clock) w.jobs)), w)

abbrev pub stale_lease_minutes : ℕ
stale_lease_minutes = 30

unfoldable pub is_claimable : ℕ → JobRow → Bool
is_claimable time j = elim j.status [
  | queued ↦ leb j.next_attempt_at time
  | running ↦ ltb (j.updated_at + stale_lease_minutes * 60) time
  | done ↦ false
  | failed ↦ false
]

-- ORDER BY next_attempt_at, id
unfoldable pub is_before : JobRow → JobRow → Bool
is_before i j =
    ltb i.next_attempt_at j.next_attempt_at
    || (i.next_attempt_at == j.next_attempt_at && ltb i.id j.id)

abbrev pick : JobRow → Option JobRow → Option JobRow
pick j none = some j
pick j (some best) = some (if is_before best j then best else j)

-- LIMIT 1
unfoldable pub earliest : List JobRow → Option JobRow
unfolding is_before
earliest [] = none
earliest (j ∷ js) = pick j (earliest js)

abbrev pub claimed : ℕ → JobRow → JobRow
claimed time j = record j { status = running; attempts = j.attempts + 1; updated_at = time }

abbrev pub to_job : JobRow → Job
to_job j = record {
  id = j.id;
  track = record { song = j.song; artist = j.artist; album = j.album };
  attempts = j.attempts;
  results = j.results;
}

abbrev pub has_id : ℕ → JobRow → Bool
has_id id j = j.id == id

unfoldable pub take_job : Option JobRow → Action (Option Job)
take_job none w = (ok none, w)
take_job (some j) w = (
  ok (some (to_job (claimed w.clock j))),
  record w { jobs = update_where (has_id j.id) (claimed w.clock) w.jobs },
)

unfoldable pub claim : Action (Option Job)
claim = statement sqlx_error λ w. take_job (earliest (keep (is_claimable w.clock) w.jobs)) w

abbrev or_empty : Option Text → Text
or_empty none = []
or_empty (some s) = s

abbrev text_of : Option Value → Text
text_of none = []
text_of (some v) = or_empty (as_str v)

unfoldable pub state : Value → Text
unfolding get
state v = text_of (get (codes "state") v)

abbrev pub is_error : Value → Bool
is_error v = text_eq (state v) (codes "error")

-- The members of an object get a time unless they have one.
unfoldable pub stamp : Text → Value → Value
unfolding get_field insert_field
stamp time (obj o) =
    obj (if is_some (get_field (codes "at") o) then o else insert_field (codes "at") (str time) o)
stamp time v = v

unfoldable pub stamp_all : Text → Fields → Fields
unfolding stamp
stamp_all time end = end
stamp_all time (field k v rest) = field k (stamp time v) (stamp_all time rest)

unfoldable pub errors : Fields → List Text
unfolding state text_eq
errors end = []
errors (field k v rest) =
    let later = errors rest in
    if is_error v then (k ++ (codes ": " ++ text_of (get (codes "message") v))) ∷ later else later

unfoldable pub all_errors : Fields → Bool
unfolding state text_eq
all_errors end = true
all_errors (field k v rest) = is_error v && all_errors rest

abbrev pub no_fields : Fields → Bool
no_fields end = true
no_fields (field k v rest) = false

abbrev min_ten : ℕ → ℕ
min_ten n = if leb n 10 then n else 10

-- The next status, and the minutes to wait.
unfoldable pub next_state : ℕ → Fields → Status × ℕ
unfolding errors all_errors
next_state attempts results =
    if not (is_empty (errors results)) && ltb attempts max_attempts
    then (queued, 2 ^ min_ten attempts)
    else if not (no_fields results) && all_errors results
    then (failed, 0)
    else (done, 0)

abbrev pub error_text : List Text → Option Text
error_text [] = none
error_text (e ∷ es) = some (join (codes "; ") (e ∷ es))

abbrev pub finished : Status × ℕ → Fields → ℕ → JobRow → JobRow
finished (status, delay_minutes) results time j = record j {
  status = status;
  results = results;
  last_error = error_text (errors results);
  updated_at = time;
  next_attempt_at = time + delay_minutes * 60;
}

-- `time` is Utc::now().to_rfc3339().
unfoldable pub finish : Text → Job → Fields → Action (Unit {0})
finish time job given =
    let results = stamp_all time given in
    statement sqlx_error λ w. (
      ok tt,
      record w {
        jobs =
            update_where (has_id job.id)
              (finished (next_state job.attempts results) results w.clock) w.jobs;
      },
    )

-- ORDER BY id DESC
unfoldable pub insert_by_id : JobRow → List JobRow → List JobRow
insert_by_id j [] = j ∷ []
insert_by_id j (i ∷ is) =
    let later = insert_by_id j is in if ltb i.id j.id then j ∷ i ∷ is else i ∷ later

unfoldable pub sort_by_id : List JobRow → List JobRow
unfolding insert_by_id
sort_by_id [] = []
sort_by_id (j ∷ js) = insert_by_id j (sort_by_id js)

abbrev pub to_summary : JobRow → JobSummary
to_summary j = record {
  id = j.id;
  song = j.song;
  artist = j.artist;
  album = j.album;
  status = j.status;
  attempts = j.attempts;
  results = j.results;
  last_error = j.last_error;
  updated_at = j.updated_at;
}

abbrev is_earlier_than : Option ℕ → JobRow → Bool
is_earlier_than none j = true
is_earlier_than (some id) j = ltb j.id id

-- limit.clamp(1, 500)
abbrev pub clamp_limit : ℕ → ℕ
clamp_limit n = if ltb n 1 then 1 else if ltb 500 n then 500 else n

unfoldable pub list : ℕ → Option ℕ → Action (List JobSummary)
unfolding sort_by_id
list limit before_id = statement sqlx_error λ w. (
  ok (
      map to_summary
        (take (clamp_limit limit) (sort_by_id (keep (is_earlier_than before_id) w.jobs)))),
  w,
)
