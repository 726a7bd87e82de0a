-- ===== src/Handlers/Touched.antt =====
-- What authentication changes: the time at which a token was last used.
use any_player_sync_server.Prelude.{
  ℕ, ◌==◌, ◌≡◌, refl, ◌∙◌, Bool, Option, none, some, List, [], ◌∷◌, update_where, Text, arith,
}
use any_player_sync_server.Errors.{Result}
use any_player_sync_server.World.{World, Action}
use any_player_sync_server.World.Rows.{TokenRow}
use any_player_sync_server.World.Keeps.{Keeps, IsStable, keeps_rules}
use any_player_sync_server.Accounts.{authenticate_token, spawn, touch_token}
use any_player_sync_server.Handlers.{
  Headers, bearer_token_from_headers, authenticate_with_headers, or_missing,
}

-- The tokens without the times of their last use.
unfoldable pub unused : List TokenRow → List TokenRow
unused [] = []
unused (t ∷ ts) = record t { last_used_at = none } ∷ unused ts

pub record OnlyTouched (start w : World) : Type 0 where
  pub users : w.users ≡ start.users
  pub tokens : unused w.tokens ≡ unused start.tokens
  pub documents : w.documents ≡ start.documents
  pub facts : w.facts ≡ start.facts
  pub fact_plays : w.fact_plays ≡ start.fact_plays
  pub next_fact : w.next_fact ≡ start.next_fact
  pub jobs : w.jobs ≡ start.jobs
  pub next_job : w.next_job ≡ start.next_job
  pub dj_documents : w.dj_documents ≡ start.dj_documents
  pub dj_chunks : w.dj_chunks ≡ start.dj_chunks
  pub passage_plays : w.passage_plays ≡ start.passage_plays
  pub next_dj_document : w.next_dj_document ≡ start.next_dj_document
  pub next_dj_chunk : w.next_dj_chunk ≡ start.next_dj_chunk
  pub sent : w.sent ≡ start.sent
  pub clock : w.clock ≡ start.clock

unused-update_where :
    (p : TokenRow → Bool) (time : Option ℕ) (ts : List TokenRow)
    → unused (update_where p (λ t. record t { last_used_at = time }) ts) ≡ unused ts
unfolding unused
unused-update_where p time [] = refl
unused-update_where p time (t ∷ ts) = ground (arith, unused-update_where p time ts)

module _ (start : World) where
  pub OnlyTouched-stable : IsStable (OnlyTouched start)
  OnlyTouched-stable = record {
    faults = λ w rest h. record {
      users = h.users;
      tokens = h.tokens;
      documents = h.documents;
      facts = h.facts;
      fact_plays = h.fact_plays;
      next_fact = h.next_fact;
      jobs = h.jobs;
      next_job = h.next_job;
      dj_documents = h.dj_documents;
      dj_chunks = h.dj_chunks;
      passage_plays = h.passage_plays;
      next_dj_document = h.next_dj_document;
      next_dj_chunk = h.next_dj_chunk;
      sent = h.sent;
      clock = h.clock;
    };
  }

  touch_token-OnlyTouched : (id : ℕ) → Keeps (OnlyTouched start) (touch_token id)
  unfolding touch_token
  touch_token-OnlyTouched id = record {
    at = λ w h. record {
      users = h.users;
      tokens = unused-update_where (λ t. t.id == id) (some w.clock) w.tokens ∙ h.tokens;
      documents = h.documents;
      facts = h.facts;
      fact_plays = h.fact_plays;
      next_fact = h.next_fact;
      jobs = h.jobs;
      next_job = h.next_job;
      dj_documents = h.dj_documents;
      dj_chunks = h.dj_chunks;
      passage_plays = h.passage_plays;
      next_dj_document = h.next_dj_document;
      next_dj_chunk = h.next_dj_chunk;
      sent = h.sent;
      clock = h.clock;
    };
  }

  spawn-OnlyTouched :
      (m : Action (Unit {0})) → Keeps (OnlyTouched start) m → Keeps (OnlyTouched start) (spawn m)
  unfolding spawn
  spawn-OnlyTouched m km = record { at = λ w h. km.at w h }

  query-OnlyTouched :
      {A : Type 0} (f : World → Result A) → Keeps (OnlyTouched start) (λ w. (f w, w))
  query-OnlyTouched f = record { at = λ w h. h }

  authenticate_token-OnlyTouched :
      (hash_token : Text → Text) (token : Text)
      → Keeps (OnlyTouched start) (authenticate_token hash_token token)
  unfolding authenticate_token
  authenticate_token-OnlyTouched hash_token token =
      search
        (
          keeps_rules, OnlyTouched-stable, spawn-OnlyTouched, touch_token-OnlyTouched,
          query-OnlyTouched,
        )
        depth 12

  or_missing-OnlyTouched :
      (hash_token : Text → Text) (found : Option Text)
      → Keeps (OnlyTouched start) (or_missing hash_token found)
  or_missing-OnlyTouched hash_token none = search keeps_rules
  or_missing-OnlyTouched hash_token (some token) = authenticate_token-OnlyTouched hash_token token

pub authenticate-OnlyTouched :
    (hash_token : Text → Text) (headers : Headers) (w : World)
    → OnlyTouched w (authenticate_with_headers hash_token headers w).1
unfolding authenticate_with_headers
authenticate-OnlyTouched hash_token headers w =
    (or_missing-OnlyTouched w hash_token (bearer_token_from_headers headers)).at w (record {
      users = refl;
      tokens = refl;
      documents = refl;
      facts = refl;
      fact_plays = refl;
      next_fact = refl;
      jobs = refl;
      next_job = refl;
      dj_documents = refl;
      dj_chunks = refl;
      passage_plays = refl;
      next_dj_document = refl;
      next_dj_chunk = refl;
      sent = refl;
      clock = refl;
    })
