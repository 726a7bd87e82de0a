-- ===== src/Lib.antt =====
-- The verification library of any-player-sync-server, the synchronisation server of Any Player. The
-- server keeps one document per user (app state, playlists, provider configuration, settings) with a
-- version, hands every accepted change to the user's other clients as an event, and prepares passages
-- for an AI DJ from texts that background jobs collect.
--
-- The parts and their files:
--   Prelude, Json, Strings: Boolean tests, lists, integers over the native numbers, texts as lists of
--     code points; serde_json::Value; the functions of str and char that the source calls.
--   Errors (src/errors.rs), Models (src/models.rs): ApiError and its constructors; the snapshot, its
--     namespaces, the payloads and the events.
--   World: the tables of src/db.rs and src/passages/schema.rs as lists of rows, the clock, and
--     actions over them. An action answers `ok`, an error or a panic. Every statement may fail: the
--     list `faults` of the world says which do, so that a theorem about any world speaks of any
--     failure. A transaction that does not end well is rolled back, but for the numbers that sequences
--     have given. World.Keeps and World.Runs have the rules by which invariants and postconditions go
--     through an action.
--   Sync (src/db.rs: ensure_user_document, load_snapshot, update_namespace, replace_snapshot). The
--     transaction of a write is read_version, then write_namespace or write_snapshot, so that
--     Sync.Race can interleave two of them as READ COMMITTED allows.
--   Accounts (src/db.rs: authenticate_token, create_user, set_user_disabled, create_token,
--     revoke_token, ensure_bootstrap_admin; list_users in Accounts.Listing). SHA-256 is a parameter,
--     hash_token.
--   Handlers (src/handlers.rs): a handler authenticates, calls Sync or Accounts, and logs in `sent`
--     what it passes to send_user_event.
--   Channels (src/state.rs): the map of the users' broadcast channels. The channels of tokio are a
--     parameter, an interface with laws.
--   MatchKeys (src/match_keys.rs): the keys of songs and artists. The tables of Unicode are a
--     parameter.
--   Jobs (src/passages/jobs.rs): the queue of ingest jobs, a series of calls as a list of steps.
--   Rank (src/passages/rank.rs): the choice of passages. The arithmetic of floats is a parameter.
--   Chunk (src/passages/chunk.rs): the division of a document. The tokenizer is a parameter.
--   Clean (src/passages/sources/clean.rs): the cleaning of texts that the sources give.
--   Store (src/passages/store.rs): documents, their chunks and the plays of chunks. Store.View sees the
--     two tables as a map from a source and a reference to a document and its pieces, which is what
--     Store.Refines speaks of. SHA-256, the embedding model and the reading of a float from its bits
--     are parameters.
--   FactSources (src/dj_fact_sources.rs): the check of a contributed fact at its source. The network
--     is the series of replies that it will give; serde_json::from_slice and percent_encoding are a
--     parameter, Crates. FactSources.Records says what a page must hold to support a claim,
--     FactSources.Read what a page was read from, and FactSources.Bounds counts the requests and the
--     waiting of a run.
--   Facts (src/dj_facts.rs): the lookup, the contribution and the play of facts.
--   PassageApi (src/passages/api.rs): the routes of passages, over Store, Jobs and Rank.
-- In each part the definitions stand in the file of the part, and the proofs in the files below it;
-- Examples has runs at concrete inputs.
--
-- Bounds: versions are i64, with add_one_i64 for the increment that wraps around. The loop of
-- base_title has the length of the title as its bound, which is enough since each round leaves a
-- shorter text (strip_qualifiers-ends). The loop that sends a request again has 3 rounds as its bound,
-- which is enough since the source leaves it at the third round; without fuel the model panics. All
-- other loops are structural recursion. Ids and times are natural numbers.
--
-- Not modelled: the HTTP layer, the WebSocket loop, the embedding model, the sources of passages with
-- their HTTP client, the worker that runs the ingest jobs, DjCatalog (src/state.rs), IntoResponse
-- (src/errors.rs), the creation of the tables and the rows that ensure_schema (src/db.rs) moves from
-- the older table sync_document or writes anew, configuration and start. A statement is run at once
-- and a spawned one is run where it is spawned; the two interleavings that are modelled are those of
-- Sync.Race and of Channels.
pub mod Prelude
pub mod Json
pub mod Errors
pub mod FactSources
pub mod Facts
pub mod Models
pub mod Strings
pub mod World
pub mod Sync
pub mod Accounts
pub mod Handlers
pub mod Channels
pub mod MatchKeys
pub mod Jobs
pub mod Store
pub mod PassageApi
pub mod Rank
pub mod Chunk
pub mod Clean
