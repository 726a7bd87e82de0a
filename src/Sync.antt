-- ===== src/Sync.antt =====
-- src/db.rs: the snapshot of each user (ensure_user_document, load_snapshot, update_namespace,
-- replace_snapshot). Each SQL statement is one `statement` over the table `documents`.
pub mod Documents
pub mod Ensure
pub mod Update
pub mod Replace
pub mod Reads
pub mod Keys
pub mod Others
pub mod Rollback
pub mod Race
mod Examples
use any_player_sync_server.Prelude.{
  ℕ, Bool, true, false, Option, none, some, List, [], ◌∷◌, ◌++◌, ℤ, pos, eq_ℤ, add_one_i64, ◌==◌,
  ◌&&◌, if◌then◌else◌, any, find, update_where, Text,
}
use any_player_sync_server.Json.{Value, arr, nil, obj, end}
use any_player_sync_server.Errors.{
  Result, ok, err, panicked, ApiError, internal, conflict, plain, Piece, lit, num,
}
use any_player_sync_server.Models.{
  Snapshot, Namespace, app_state, playlists, provider_configuration, settings, snapshot,
  NamespacePayload, SnapshotPayload, UpdateEvent,
}
use any_player_sync_server.World.{
  World, Action, pure, panic, lift, now, statement, transaction, ◌>>=◌, ◌>>◌,
}
use any_player_sync_server.World.Rows.{DocumentRow}

-- WHERE user_id = $1 AND id = 1
abbrev pub is_document : ℕ → DocumentRow → Bool
is_document user_id r = r.user_id == user_id && r.id == 1

-- The row that ensure_user_document inserts.
abbrev pub blank_document : ℕ → ℕ → DocumentRow
blank_document user_id time = record {
  user_id = user_id;
  id = 1;
  version = pos 0;
  updated_at = time;
  app_state = obj end;
  playlists = arr nil;
  provider_configuration = obj end;
  settings = obj end;
}

abbrev pub row_error : ApiError
row_error = internal (plain "failed to ensure user snapshot row")

-- ON CONFLICT (user_id, id) DO NOTHING; `user_id` references `users`.
unfoldable pub insert_document : ℕ → Action (Unit {0})
insert_document user_id w =
    if any (is_document user_id) w.documents
    then (ok tt, w)
    else if any (λ u. u.id == user_id) w.users
    then (ok tt, record w { documents = w.documents ++ blank_document user_id w.clock ∷ [] })
    else (err row_error, w)

unfoldable pub ensure_user_document : ℕ → Action (Unit {0})
ensure_user_document user_id = statement row_error (insert_document user_id)

-- fetch_one: no row is an error too.
abbrev pub fetch_one {ℓ} : {A : Type ℓ} → ApiError → Option A → Result A
fetch_one e none = err e
fetch_one e (some a) = ok a

abbrev pub to_snapshot : DocumentRow → Snapshot
to_snapshot r = record {
  version = r.version;
  updated_at = r.updated_at;
  app_state = r.app_state;
  playlists = r.playlists;
  provider_configuration = r.provider_configuration;
  settings = r.settings;
}

-- SELECT … FROM user_sync_document WHERE user_id = $1 AND id = 1
unfoldable pub select_document : ApiError → ℕ → Action DocumentRow
select_document e user_id =
    statement e (λ w. (fetch_one e (find (is_document user_id) w.documents), w))

unfoldable pub load_snapshot : ℕ → Action Snapshot
load_snapshot user_id = do
  ensure_user_document user_id
  row ← select_document (internal (plain "failed to read snapshot")) user_id
  pure (to_snapshot row)

-- The test of `expected_version` in update_namespace and in replace_snapshot.
unfoldable pub check_version : Option ℤ → ℤ → Result (Unit {0})
check_version none current = ok tt
check_version (some expected) current =
    if eq_ℤ expected current
    then ok tt
    else err (
        conflict (
          lit "expected version "
          ∷ num expected
          ∷ lit ", but current version is "
          ∷ num current
          ∷ []))

-- The column that the UPDATE of update_namespace sets. `Namespace::Snapshot` is unreachable!().
unfoldable pub set_column : Namespace → Value → Result (DocumentRow → DocumentRow)
set_column app_state v = ok (λ r. record r { app_state = v })
set_column playlists v = ok (λ r. record r { playlists = v })
set_column provider_configuration v = ok (λ r. record r { provider_configuration = v })
set_column settings v = ok (λ r. record r { settings = v })
set_column snapshot v = panicked

-- UPDATE user_sync_document SET … WHERE user_id = … AND id = 1 RETURNING …
unfoldable pub update_document : ApiError → ℕ → (DocumentRow → DocumentRow) → Action DocumentRow
update_document e user_id f = statement e λ w.
    let rows = update_where (is_document user_id) f w.documents in
    (fetch_one e (find (is_document user_id) rows), record w { documents = rows })

abbrev pub begin : Action (Unit {0})
begin = statement (internal (plain "failed to start transaction")) (pure tt)

abbrev pub commit : Action (Unit {0})
commit = statement (internal (plain "failed to commit update")) (pure tt)

abbrev pub version_error : ApiError
version_error = internal (plain "failed to read current version")

abbrev pub state_updated : Namespace → ℤ → ℕ → Option Text → UpdateEvent
state_updated namespace version time client = record {
  event_type = "state_updated";
  namespace = namespace;
  version = version;
  updated_at = time;
  source_client_id = client;
}

-- The transaction up to the test of the version: what update_namespace and replace_snapshot share.
unfoldable pub read_version : ℕ → Option ℤ → Action ℤ
read_version user_id expected = do
  begin
  current ← select_document version_error user_id
  lift (check_version expected current.version)
  pure current.version

-- The rest of update_namespace's transaction.
unfoldable pub write_namespace :
    ℕ → Namespace → NamespacePayload → ℤ → Action (Snapshot × UpdateEvent)
write_namespace user_id namespace payload current = do
  let new_version = add_one_i64 current
  time ← now
  set ← lift (set_column namespace payload.value)
  row ←
      update_document (internal (plain "failed to update snapshot")) user_id
        (λ r. record (set r) { version = new_version; updated_at = time })
  commit
  pure (to_snapshot row, state_updated namespace new_version time payload.client_id)

unfoldable pub update_namespace_tx :
    ℕ → Namespace → NamespacePayload → Action (Snapshot × UpdateEvent)
update_namespace_tx user_id namespace payload = do
  current ← read_version user_id payload.expected_version
  write_namespace user_id namespace payload current

unfoldable pub update_namespace : ℕ → Namespace → NamespacePayload → Action (Snapshot × UpdateEvent)
update_namespace user_id namespace payload = do
  ensure_user_document user_id
  transaction (update_namespace_tx user_id namespace payload)

-- The rest of replace_snapshot's transaction.
unfoldable pub write_snapshot : ℕ → SnapshotPayload → ℤ → Action (Snapshot × UpdateEvent)
write_snapshot user_id payload current = do
  let new_version = add_one_i64 current
  time ← now
  row ← update_document (internal (plain "failed to write snapshot")) user_id (λ r. record r {
    app_state = payload.app_state;
    playlists = payload.playlists;
    provider_configuration = payload.provider_configuration;
    settings = payload.settings;
    version = new_version;
    updated_at = time;
  })
  commit
  pure (to_snapshot row, state_updated snapshot new_version time payload.client_id)

unfoldable pub replace_snapshot_tx : ℕ → SnapshotPayload → Action (Snapshot × UpdateEvent)
replace_snapshot_tx user_id payload = do
  current ← read_version user_id payload.expected_version
  write_snapshot user_id payload current

unfoldable pub replace_snapshot : ℕ → SnapshotPayload → Action (Snapshot × UpdateEvent)
replace_snapshot user_id payload = do
  ensure_user_document user_id
  transaction (replace_snapshot_tx user_id payload)

-- What a run opens.
unfoldable pub program : Unit {0}
unfolding insert_document ensure_user_document select_document load_snapshot check_version
    set_column update_document read_version write_namespace update_namespace_tx update_namespace
    write_snapshot replace_snapshot_tx replace_snapshot add_one_i64 statement transaction ◌>>=◌ now
program = tt
