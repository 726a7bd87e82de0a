-- ===== src/World.antt =====
-- The database that the server works on, the clock, and the actions over them. A statement fails
-- where the environment says so; a transaction that does not end well is rolled back.
pub mod Rows
pub mod Keeps
pub mod Steps
pub mod Failure
pub mod Runs
use any_player_sync_server.Prelude.{ℕ, ◌+◌, Bool, true, false, String, List, [], ◌∷◌, if◌then◌else◌}
use any_player_sync_server.Errors.{Result, ok, err, panicked, ApiError, internal, plain}
use any_player_sync_server.Models.{UpdateEvent}
use any_player_sync_server.World.Rows.{
  UserRow, TokenRow, DocumentRow, FactRow, FactPlayRow, JobRow, DjDocumentRow, DjChunkRow,
  DjPassagePlayRow,
}

-- The calls of `send_user_event` are logged in `sent`, with the user that each is for. The counters
-- are those of the BIGSERIAL columns; a statement that is refused uses up no number, but for the
-- INSERT of a document. The head of `faults` says whether the next statement fails; after the last
-- entry no statement fails.
pub record World : Type 0 where
  pub users : List UserRow
  pub tokens : List TokenRow
  pub documents : List DocumentRow
  pub facts : List FactRow
  pub fact_plays : List FactPlayRow
  pub jobs : List JobRow
  pub dj_documents : List DjDocumentRow
  pub dj_chunks : List DjChunkRow
  pub passage_plays : List DjPassagePlayRow
  pub next_user : ℕ
  pub next_token : ℕ
  pub next_fact : ℕ
  pub next_job : ℕ
  pub next_dj_document : ℕ
  pub next_dj_chunk : ℕ
  pub clock : ℕ
  pub sent : List (ℕ × UpdateEvent)
  pub faults : List Bool

abbrev pub empty : World
empty = record {
  users = [];
  tokens = [];
  documents = [];
  facts = [];
  fact_plays = [];
  jobs = [];
  dj_documents = [];
  dj_chunks = [];
  passage_plays = [];
  next_user = 1;
  next_token = 1;
  next_fact = 1;
  next_job = 1;
  next_dj_document = 1;
  next_dj_chunk = 1;
  clock = 0;
  sent = [];
  faults = [];
}

abbrev pub Action {ℓ} : Type ℓ → Type ℓ
Action A = World → Result A × World

-- ROLLBACK: the tables are as before; a number that a sequence has given is not given again, and the
-- events that were sent and the statements that were tried stay.
abbrev pub rolled_back : World → World → World
rolled_back before after = record before {
  next_user = after.next_user;
  next_token = after.next_token;
  next_fact = after.next_fact;
  next_job = after.next_job;
  next_dj_document = after.next_dj_document;
  next_dj_chunk = after.next_dj_chunk;
  sent = after.sent;
  faults = after.faults;
}

module _ {ℓ} {A : Type ℓ} where
  unfoldable pub pure : A → Action A
  pure a w = (ok a, w)

  unfoldable pub raise : ApiError → Action A
  raise e w = (err e, w)

  unfoldable pub panic : Action A
  panic w = (panicked, w)

  unfoldable pub lift : Result A → Action A
  lift r w = (r, w)

  unfoldable pub gets : (World → A) → Action A
  gets f w = (ok (f w), w)

  abbrev pub run_statement : List Bool → ApiError → Action A → Action A
  run_statement [] e m w = m w
  run_statement (true ∷ rest) e m w = (err e, record w { faults = rest })
  run_statement (false ∷ rest) e m w = m (record w { faults = rest })

  -- One statement, with the error that the source maps a failure to.
  unfoldable pub statement : ApiError → Action A → Action A
  statement e m w = run_statement w.faults e m w

  abbrev settle : World → Result A → World → Result A × World
  settle before (ok a) after = (ok a, after)
  settle before (err e) after = (err e, rolled_back before after)
  settle before panicked after = (panicked, rolled_back before after)

  unfoldable pub transaction : Action A → Action A
  transaction m w = let (r, after) = m w in settle w r after

module _ {ℓ κ} {A : Type ℓ} {B : Type κ} where
  abbrev pub continue : Result A → (A → Action B) → Action B
  continue (ok a) f w = f a w
  continue (err e) f w = (err e, w)
  continue panicked f w = (panicked, w)

  infixl 10 ◌>>=◌ ◌>>◌
  -- Opening this opens the plain actions too.
  unfoldable pub ◌>>=◌ : Action A → (A → Action B) → Action B
  unfolding pure raise panic lift gets
  ◌>>=◌ m f w = let (r, after) = m w in continue r f after

  abbrev pub ◌>>◌ : Action A → Action B → Action B
  m >> n = m >>= λ _. n

unfoldable pub now : Action ℕ
now w = (ok w.clock, w)
