-- ===== src/FactSources/Bounds.antt =====
-- How often the network is asked, and for how long the server waits.
use any_player_sync_server.Prelude.{
  ℕ, suc, ◌+◌, ◌*◌, ◌^◌, ◌≤◌, ◌≡◌, inl, inr, not, ◌||◌, Option, none, some, List, [], ◌∷◌, ◌++◌,
  Text, ◌==◌, length, length-append, arith, Bool-cases, ltb, String,
}
use any_player_sync_server.Json.{Value}
use any_player_sync_server.Errors.{Result, ok, err, panicked, ApiError}
use any_player_sync_server.FactSources.Chain.{Ends, Ends-bind, or_invalid}
use any_player_sync_server.FactSources.Verify.{then_check, go_on}
use any_player_sync_server.FactSources.Fetch.{
  Crates, Response, Net, Fetched, send, sleep, request, fetch, receive, receive_from, rounds,
  read_body, reply, head_reply, break_or, max_body, parsed, announced, is_success, is_server_error,
}

abbrev pub total : List ℕ → ℕ
total [] = 0
total (n ∷ ns) = n + total ns

total-append : (ns ms : List ℕ) → total (ns ++ ms) ≡ total ns + total ms
total-append [] ms = omega arith
total-append (n ∷ ns) ms = omega (arith, total-append ns ms)

-- At most `k` requests and `ms` milliseconds of waiting later.
pub record Within (k ms : ℕ) (before after : Net) : Type 0 where
  pub requests : length after.requested ≤ length before.requested + k
  pub waits : total after.slept ≤ total before.slept + ms

abbrev pub Anything : {A : Type 0} → A → Type 0
Anything a = Unit

-- Such an answer, with no panic, and where it is `ok` with the postcondition.
pub record Asks {A : Type 0} (Q : A → Type 0) (k ms : ℕ) (before : Net) (out : Fetched A)
    : Type 0 where
  pub answers : Ends Q out.0
  pub within : Within k ms before out.1

pub Within-trans :
    {a b : Net} (k ms l ns : ℕ) (c : Net)
    → Within k ms a b
    → Within l ns b c
    → Within (k + l) (ms + ns) a c
Within-trans k ms l ns c h g = record {
  requests = omega (arith, h.requests, g.requests);
  waits = omega (arith, h.waits, g.waits);
}

head_answers : (rs : List (Option Response)) → Ends Anything (reply (head_reply rs))
head_answers [] = tt
head_answers (none ∷ rs) = tt
head_answers (some r ∷ rs) = tt

send-Asks : (url : Text) (net : Net) → Asks Anything 1 0 net (send url net)
unfolding send
send-Asks url net = record {
  answers = head_answers net.replies;
  within = record {
    requests = omega (arith, length-append net.requested (url ∷ []));
    waits = omega arith;
  };
}

sleep-Within : (ms : ℕ) (net : Net) → Within 0 ms net (sleep ms net)
unfolding sleep
sleep-Within ms net = record {
  requests = omega arith;
  waits = omega (arith, total-append net.slept (ms ∷ []));
}

Within-stay : {k ms : ℕ} {net : Net} → Within k ms net net
Within-stay = record { requests = omega arith; waits = omega arith }

pub Within-more : {k l ms ns : ℕ} {a b : Net} → Within k ms a b → k ≤ l → ms ≤ ns → Within l ns a b
Within-more w h g = record { requests = omega (arith, w.requests); waits = omega (arith, w.waits) }

-- The last round is the one with two retries behind it.
break_last :
    (answer : Result Response) (net after : Net) (again : Fetched Response)
    → Ends Anything answer
    → Within 1 0 net after
    → Asks Anything 1 0 net (break_or 2 answer after again)
break_last (ok r) net after again e w = elim (Bool-cases (not (r.status == 503))) [
  | inl b ↦ rw b (record { answers = tt; within = w })
  | inr b ↦ rw b (record { answers = tt; within = w })
]
break_last (err e) net after again h w = record { answers = tt; within = w }
break_last panicked net after again h w = absurd h

break_round :
    (retries k ms : ℕ) (answer : Result Response) (net after : Net) (again : Fetched Response)
    → Ends Anything answer
    → Within 1 0 net after
    → Asks Anything (1 + k) ms net again
    → Asks Anything (1 + k) ms net (break_or retries answer after again)
break_round retries k ms (ok r) net after again e w later =
    elim (Bool-cases (not (r.status == 503) || retries == 2)) [
      | inl b ↦ rw b (record { answers = tt; within = Within-more w (omega arith) (omega arith) })
      | inr b ↦ rw b later
    ]
break_round retries k ms (err e) net after again h w later = record {
  answers = tt;
  within = Within-more w (omega arith) (omega arith);
}
break_round retries k ms panicked net after again h w later = absurd h

module _ (url : Text) where
  request_last : (fuel : ℕ) (net : Net) → Asks Anything 1 0 net (request (suc fuel) 2 url net)
  unfolding request
  request_last fuel net =
      let sent = send-Asks url net in break_last _ net _ _ sent.answers sent.within

  request_round :
      (fuel retries k ms : ℕ) (net : Net)
      → ((n : Net) → Asks Anything k ms n (request fuel (suc retries) url n))
      → Asks Anything (1 + k) (250 * 2 ^ retries + ms) net (request (suc fuel) retries url net)
  unfolding request
  request_round fuel retries k ms net later =
      let sent = send-Asks url net in
      let paused = sleep-Within (250 * 2 ^ retries) (send url net).1 in
      let rest = later (sleep (250 * 2 ^ retries) (send url net).1) in
      break_round retries k (250 * 2 ^ retries + ms) _ net _ _ sent.answers sent.within (record {
        answers = rest.answers;
        within = record {
          requests = omega (arith, sent.within.requests, paused.requests, rest.within.requests);
          waits = omega (arith, sent.within.waits, paused.waits, rest.within.waits);
        };
      })

  request-Asks : (net : Net) → Asks Anything 3 750 net (request rounds 0 url net)
  request-Asks net = request_round 2 0 2 500 net λ n. request_round 1 1 1 0 n λ m. request_last 0 m

read_body-Ends :
    (body : List ℕ) (chunks : List (Option (List ℕ))) → Ends Anything (read_body body chunks)
unfolding read_body
read_body-Ends body [] = tt
read_body-Ends body (none ∷ chunks) = tt
read_body-Ends body (some chunk ∷ chunks) =
    elim (Bool-cases (ltb max_body (length body + length chunk))) [
      | inl b ↦ rw b tt
      | inr b ↦ rw b (read_body-Ends (body ++ chunk) chunks)
    ]

or_invalid-Ends : (o : Option Value) (m : String) → Ends Anything (or_invalid o m)
unfolding or_invalid
or_invalid-Ends none m = tt
or_invalid-Ends (some v) m = tt

module _ (crates : Crates) where
  parsed-Ends : (r : Result (List ℕ)) → Ends Anything r → Ends Anything (parsed crates r)
  parsed-Ends (ok body) h = or_invalid-Ends (crates.from_slice body) _
  parsed-Ends (err e) h = tt
  parsed-Ends panicked h = h

  receive-Ends : (r : Response) → Ends Anything (receive crates r)
  unfolding receive
  receive-Ends r = elim (Bool-cases (is_success r.status)) [
    | inl b ↦ elim (Bool-cases (announced r.content_length)) [
      | inl e ↦ rw (b, e) tt
      | inr e ↦ rw (b, e) (parsed-Ends (read_body [] r.chunks) (read_body-Ends [] r.chunks))
    ]
    | inr b ↦ elim (Bool-cases (is_server_error r.status || r.status == 429)) [
      | inl e ↦ rw (b, e) tt
      | inr e ↦ rw (b, e) tt
    ]
  ]

  receive_from-Ends :
      (r : Result Response) → Ends Anything r → Ends Anything (receive_from crates r)
  receive_from-Ends (ok r) h = receive-Ends r
  receive_from-Ends (err e) h = tt
  receive_from-Ends panicked h = h

  -- The loop of `fetch` ends within its fuel.
  pub fetch-Asks : (url : Text) (net : Net) → Asks Anything 3 750 net (fetch crates url net)
  unfolding fetch
  fetch-Asks url net =
      let h = request-Asks url net in
      record { answers = receive_from-Ends _ h.answers; within = h.within }

module _ {A B : Type 0} (P : A → Type 0) (Q : B → Type 0) where
  pub Asks-then_check :
      (k ms : ℕ) (net : Net) (out : Fetched A) (f : A → Result B)
      → Asks P k ms net out
      → ((a : A) → P a → Ends Q (f a))
      → Asks Q k ms net (then_check out f)
  Asks-then_check k ms net out f h g = record {
    answers = Ends-bind Q P out.0 f h.answers g;
    within = h.within;
  }

  -- The first part is a pure result.
  pub Asks-go_on :
      (k ms : ℕ) (net : Net) (r : Result A) (f : A → Net → Fetched B)
      → Ends P r
      → ((a : A) → P a → Asks Q k ms net (f a net))
      → Asks Q k ms net (go_on r f net)
  Asks-go_on k ms net (ok a) f h g = g a h
  Asks-go_on k ms net (err e) f h g = record { answers = tt; within = Within-stay }
  Asks-go_on k ms net panicked f h g = absurd h

  -- The first part has asked the network too.
  pub Asks-go_on_after :
      (k ms l ns : ℕ) (net : Net) (out : Fetched A) (f : A → Net → Fetched B)
      → Asks P k ms net out
      → ((a : A) → P a → Asks Q l ns out.1 (f a out.1))
      → Asks Q (k + l) (ms + ns) net (go_on out.0 f out.1)
  Asks-go_on_after k ms l ns net out f h g =
      let rest = Asks-go_on l ns out.1 out.0 f h.answers g in
      record { answers = rest.answers; within = Within-trans k ms l ns _ h.within rest.within }

pub Asks-more :
    {A : Type 0} {Q : A → Type 0} {net : Net} {out : Fetched A}
    → Asks Q 3 750 net out
    → Asks Q 6 1500 net out
Asks-more h = record {
  answers = h.answers;
  within = Within-more h.within (omega arith) (omega arith);
}

pub Asks-refused :
    {A : Type 0} {Q : A → Type 0} {e : ApiError} {k ms : ℕ} {net : Net}
    → Asks Q k ms net (err e, net)
Asks-refused = record { answers = tt; within = Within-stay }
