-- ===== src/FactSources/Read.antt =====
-- What an answer of `fetch` (src/dj_fact_sources.rs) was read from.
use any_player_sync_server.Prelude.{
  ℕ, zero, suc, ◌+◌, ◌≤◌, ◌≡◌, refl, inl, inr, ◌⊎◌, true, not, ◌||◌, Option, none, some, List, [],
  ◌∷◌, ◌++◌, String, Text, ltb, ◌==◌, length, length-append, arith, Bool-cases,
}
use mathlib.Core.List.{Memᴰ}
use any_player_sync_server.Json.{Value}
use any_player_sync_server.Errors.{Result, ok, err, panicked}
use any_player_sync_server.FactSources.Chain.{or_invalid}
use any_player_sync_server.FactSources.Fetch.{
  Crates, Response, Net, Fetched, send, sleep, request, fetch, receive, receive_from, rounds,
  read_body, reply, head_reply, tail_replies, break_or, max_body, parsed, announced, is_success,
  is_server_error,
}

module _ (crates : Crates) where
  -- One of the replies was a success, and its body, of at most 512000 bytes, parses to the page.
  pub record IsReply (net : Net) (page : Value) : Type 0 where
    pub response : Response
    pub listed : Memᴰ (some response) net.replies
    pub success : is_success response.status ≡ true
    pub body : List ℕ
    pub whole : read_body [] response.chunks ≡ ok body
    pub small : length body ≤ max_body
    pub parses : crates.from_slice body ≡ some page

  -- The page is what the network gives for the address.
  pub record IsRead (url : Text) (net : Net) (page : Value) : Type 0 where
    pub fetched : (fetch crates url net).0 ≡ ok page
    pub reply : IsReply net page

head_listed :
    (rs : List (Option Response)) (r : Response) → reply (head_reply rs) ≡ ok r → Memᴰ (some r) rs
head_listed [] r h = absurd (cc)
head_listed (none ∷ rs) r h = absurd (cc)
head_listed (some s ∷ rs) r h = Memᴰ.head (cc)

tail_listed :
    (rs : List (Option Response)) (o : Option Response) → Memᴰ o (tail_replies rs) → Memᴰ o rs
tail_listed [] o m = m
tail_listed (r ∷ rs) o m = Memᴰ.tail m

round_cases :
    (retries : ℕ) (answer : Result Response) (after : Net) (again : Fetched Response) (r : Response)
    → (break_or retries answer after again).0 ≡ ok r
    → (answer ≡ ok r) ⊎ (again.0 ≡ ok r)
round_cases retries (ok s) after again r h =
    elim (Bool-cases (not (s.status == 503) || retries == 2)) [
      | inl e ↦ inl (ground (arith, e, h))
      | inr e ↦ inr (ground (arith, e, h))
    ]
round_cases retries (err e) after again r h = absurd (cc)
round_cases retries panicked after again r h = absurd (cc)

request_listed :
    (fuel retries : ℕ) (url : Text) (net : Net) (r : Response)
    → (request fuel retries url net).0 ≡ ok r
    → Memᴰ (some r) net.replies
unfolding request send sleep
request_listed zero retries url net r h = absurd (cc)
request_listed (suc fuel) retries url net r h =
    elim (round_cases retries (reply (head_reply net.replies)) _ _ r h) [
      | inl e ↦ head_listed net.replies r e
      | inr e ↦ tail_listed net.replies (some r) (request_listed fuel (suc retries) url _ r e)
    ]

read_body-small :
    (body : List ℕ) (chunks : List (Option (List ℕ))) (out : List ℕ)
    → read_body body chunks ≡ ok out
    → length body ≤ max_body
    → length out ≤ max_body
unfolding read_body
read_body-small body [] out h k = ground (arith, h, k)
read_body-small body (none ∷ chunks) out h k = absurd (cc)
read_body-small body (some chunk ∷ chunks) out h k =
    elim (Bool-cases (ltb max_body (length body + length chunk))) [
      | inl e ↦ absurd (ground (arith, e, h))
      | inr e ↦
          read_body-small (body ++ chunk) chunks out (ground (arith, e, h))
            (ground (arith, e, length-append body chunk))
    ]

module _ (crates : Crates) where
  or_invalid_sound :
      {A : Type 0} (o : Option A) (m : String) (a : A) → or_invalid o m ≡ ok a → o ≡ some a
  unfolding or_invalid
  or_invalid_sound none m a h = absurd (cc)
  or_invalid_sound (some b) m a h = cc

  parsed-body :
      (r : Result (List ℕ)) (page : Value)
      → parsed crates r ≡ ok page
      → (body : List ℕ) × (r ≡ ok body) × (crates.from_slice body ≡ some page)
  parsed-body (ok body) page h = (body, refl, or_invalid_sound (crates.from_slice body) _ page h)
  parsed-body (err e) page h = absurd (cc)
  parsed-body panicked page h = absurd (cc)

  receive-IsReply :
      (net : Net) (r : Response) (page : Value)
      → Memᴰ (some r) net.replies
      → receive crates r ≡ ok page
      → IsReply crates net page
  unfolding receive
  receive-IsReply net r page m h = elim (Bool-cases (is_success r.status)) [
    | inl b ↦ elim (Bool-cases (announced r.content_length)) [
      | inl e ↦ absurd (ground (arith, b, e, h))
      | inr e ↦
          let (body, whole, parses) =
            parsed-body (read_body [] r.chunks) page (ground (arith, b, e, h)) in
          record {
            response = r;
            listed = m;
            success = b;
            body = body;
            whole = whole;
            small = read_body-small [] r.chunks body whole (omega arith);
            parses = parses;
          }
    ]
    | inr b ↦ elim (Bool-cases (is_server_error r.status || r.status == 429)) [
      | inl e ↦ absurd (ground (arith, b, e, h))
      | inr e ↦ absurd (ground (arith, b, e, h))
    ]
  ]

  received :
      (net : Net) (o : Result Response) (page : Value)
      → ((r : Response) → o ≡ ok r → Memᴰ (some r) net.replies)
      → receive_from crates o ≡ ok page
      → IsReply crates net page
  received net (ok r) page m h = receive-IsReply net r page (m r refl) h
  received net (err e) page m h = absurd (cc)
  received net panicked page m h = absurd (cc)

  -- The answer of `fetch` is read from one of the replies.
  pub fetch-IsRead :
      (url : Text) (net : Net) (page : Value)
      → (fetch crates url net).0 ≡ ok page
      → IsRead crates url net page
  unfolding fetch
  fetch-IsRead url net page h = record {
    fetched = h;
    reply = received net _ page (λ r e. request_listed rounds 0 url net r e) h;
  }
