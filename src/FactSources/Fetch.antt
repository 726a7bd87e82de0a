-- ===== src/FactSources/Fetch.antt =====
-- src/dj_fact_sources.rs, `fetch`: one record read over HTTP, with a second and a third try. The
-- network is the series of its replies. serde_json::from_slice and percent_encoding are parameters.
use any_player_sync_server.Prelude.{
  ℕ, zero, suc, ◌+◌, ◌*◌, ◌^◌, Bool, false, not, ◌&&◌, ◌||◌, Option, none, some, List, [], ◌∷◌,
  ◌++◌, Text, ltb, leb, ◌==◌, length, if◌then◌else◌,
}
use any_player_sync_server.Json.{Value}
use any_player_sync_server.Errors.{Result, ok, err, panicked, internal, plain, ApiError}
use any_player_sync_server.FactSources.{invalid}
use any_player_sync_server.FactSources.Chain.{or_invalid}

pub record Crates : Type 0 where
  -- serde_json::from_slice
  pub from_slice : List ℕ → Option Value
  -- utf8_percent_encode with NON_ALPHANUMERIC
  pub percent_encode : Text → Text

-- A response; the body comes in chunks, and `none` is a failure to read one.
pub record Response : Type 0 where
  pub status : ℕ
  pub content_length : Option ℕ
  pub chunks : List (Option (List ℕ))

-- What `send` gives for each request, in order (`none`: no response), and no response after the
-- last; the requests made, and the milliseconds slept.
pub record Net : Type 0 where
  pub client_builds : Bool
  pub replies : List (Option Response)
  pub requested : List Text
  pub slept : List ℕ

-- What the network has answered, and the network after it.
abbrev pub Fetched : Type 0 → Type 0
Fetched A = Result A × Net

abbrev pub unavailable : ApiError
unavailable = internal (plain "source unavailable")

abbrev pub reply : Option Response → Result Response
reply none = err unavailable
reply (some r) = ok r

abbrev pub head_reply : List (Option Response) → Option Response
head_reply [] = none
head_reply (r ∷ rs) = r

abbrev pub tail_replies : List (Option Response) → List (Option Response)
tail_replies [] = []
tail_replies (r ∷ rs) = rs

unfoldable pub send : Text → Net → Fetched Response
send url net = (
  reply (head_reply net.replies),
  record net { replies = tail_replies net.replies; requested = net.requested ++ url ∷ [] },
)

unfoldable pub sleep : ℕ → Net → Net
sleep ms net = record net { slept = net.slept ++ ms ∷ [] }

-- The end of a round, with what the next ones would give.
abbrev pub break_or : ℕ → Result Response → Net → Fetched Response → Fetched Response
break_or retries (ok r) after again =
    if not (r.status == 503) || retries == 2 then (ok r, after) else again
break_or retries (err e) after again = (err e, after)
break_or retries panicked after again = (panicked, after)

-- The loop of `fetch`. Without fuel, which is enough, it ends in a panic.
unfoldable pub request : ℕ → ℕ → Text → Net → Fetched Response
unfolding send sleep
request zero retries url net = (panicked, net)
request (suc fuel) retries url net =
    let (answer, after) = send url net in
    let again = request fuel (suc retries) url (sleep (250 * 2 ^ retries) after) in
    break_or retries answer after again

abbrev pub is_success : ℕ → Bool
is_success status = leb 200 status && leb status 299

abbrev pub is_server_error : ℕ → Bool
is_server_error status = leb 500 status && leb status 599

abbrev pub max_body : ℕ
max_body = 512000

-- The chunks read behind `body`.
unfoldable pub read_body : List ℕ → List (Option (List ℕ)) → Result (List ℕ)
read_body body [] = ok body
read_body body (none ∷ chunks) = err (internal (plain "source read failed"))
read_body body (some chunk ∷ chunks) =
    let rest = read_body (body ++ chunk) chunks in
    if ltb max_body (length body + length chunk)
    then err (invalid "source response too large")
    else rest

abbrev pub announced : Option ℕ → Bool
announced none = false
announced (some size) = ltb max_body size

abbrev pub parsed : Crates → Result (List ℕ) → Result Value
parsed crates (ok body) = or_invalid (crates.from_slice body) "invalid source response"
parsed crates (err e) = err e
parsed crates panicked = panicked

unfoldable pub receive : Crates → Response → Result Value
unfolding read_body or_invalid
receive crates r =
    if not (is_success r.status)
    then if is_server_error r.status || r.status == 429
      then err unavailable
      else err (invalid "source record unavailable")
    else if announced r.content_length
    then err (invalid "source response too large")
    else parsed crates (read_body [] r.chunks)

abbrev pub receive_from : Crates → Result Response → Result Value
receive_from crates (ok r) = receive crates r
receive_from crates (err e) = err e
receive_from crates panicked = panicked

abbrev pub rounds : ℕ
rounds = 3

unfoldable pub fetch : Crates → Text → Net → Fetched Value
unfolding request receive
fetch crates url net =
    let (answer, after) = request rounds 0 url net in (receive_from crates answer, after)
