-- ===== src/Handlers/Sent.antt =====
-- What the parts of a request do with the event log: nothing.
use any_player_sync_server.Prelude.{
  ◌≡◌, refl, ap, ◌∙◌, find, ◌≢◌, ℕ, ℤ, Bool, true, false, Option, none, some, List, [], Text, arith,
}
use any_player_sync_server.Errors.{Result, internal, ok, err, panicked, ApiError}
use any_player_sync_server.Models.{
  Snapshot, Namespace, snapshot, NamespacePayload, SnapshotPayload, UpdateEvent,
}
use any_player_sync_server.World.{World, Action, statement, ◌>>=◌, ◌>>◌, pure, lift, now}
use any_player_sync_server.World.Keeps.{IsStable, IsRestored}
use any_player_sync_server.World.Runs.{
  Outcome, answered, refused, Runs, Runs-bind, Runs-lift, Runs-pure, Runs-raise, Runs-if,
  Runs-statement, Runs-transaction,
}
use any_player_sync_server.World.Rows.{DocumentRow, UserRow, TokenRow}
use any_player_sync_server.Json.{Value}
use any_player_sync_server.Strings.{is_empty, trim}
use any_player_sync_server.Accounts.{authenticate_token, check_session, spawn, touch_token}
use any_player_sync_server.Sync.Documents.{find-update_where_self}
use any_player_sync_server.Sync.{
  to_snapshot, is_document, insert_document, ensure_user_document, select_document, fetch_one,
  check_version, read_version, set_column, update_document, write_namespace, write_snapshot,
  update_namespace_tx, update_namespace, replace_snapshot_tx, replace_snapshot, state_updated,
  commit,
}

abbrev pub panics {ℓ} : {A : Type ℓ} → Result A → Bool
panics (ok a) = false
panics (err e) = false
panics panicked = true

fetch_one-panics {ℓ} : {A : Type ℓ} (e : ApiError) (o : Option A) → panics (fetch_one e o) ≡ false
fetch_one-panics e none = refl
fetch_one-panics e (some a) = refl

-- Nothing has been sent beyond `log`.
pub record HasSent (log : List (ℕ × UpdateEvent)) (w : World) : Type 0 where
  pub sent : w.sent ≡ log

module _ (log : List (ℕ × UpdateEvent)) where
  pub HasSent-stable : IsStable (HasSent log)
  HasSent-stable = record { faults = λ w rest h. record { sent = h.sent } }

  HasSent-IsRestored : IsRestored (HasSent log) (HasSent log)
  HasSent-IsRestored = record { restores = λ before after h k. record { sent = k.sent } }

  -- Any answer, and an unchanged log.
  abbrev pub Quiet {ℓ} : {A : Type ℓ} → A → World → Type 0
  Quiet a w = HasSent log w

  Outcome-Quiet {ℓ} :
      {A : Type ℓ} (r : Result A) (w : World)
      → panics r ≡ false
      → HasSent log w
      → Outcome (HasSent log) Quiet (r, w)
  Outcome-Quiet (ok a) w calm h = answered a w h
  Outcome-Quiet (err e) w calm h = refused e w h
  Outcome-Quiet panicked w calm h = absurd (ground arith)

  pub quiet {ℓ} :
      {A : Type ℓ} (m : Action A)
      → ((w : World) → panics (m w).0 ≡ false)
      → ((w : World) → (m w).1.sent ≡ w.sent)
      → Runs (HasSent log) Quiet m
  quiet m calm same = record {
    at = λ w h. Outcome-Quiet (m w).0 (m w).1 (calm w) (record { sent = same w ∙ h.sent });
  }

  ensure-Quiet : (u : ℕ) → Runs (HasSent log) Quiet (ensure_user_document u)
  unfolding ensure_user_document insert_document
  ensure-Quiet u =
      Runs-statement _ _ HasSent-stable (quiet _ (λ w. ground arith) (λ w. ground arith))

  select-Quiet : (e : ApiError) (u : ℕ) → Runs (HasSent log) Quiet (select_document e u)
  unfolding select_document
  select-Quiet e u =
      Runs-statement _ _ HasSent-stable
        (quiet _ (λ w. fetch_one-panics e (find (is_document u) w.documents)) (λ w. refl))

  -- The row that the UPDATE returns is one that it has written.
  abbrev Wrote : (DocumentRow → DocumentRow) → DocumentRow → World → Type 0
  Wrote f row w = HasSent log w × (old : DocumentRow) × (row ≡ f old)

  written-Outcome :
      (e : ApiError) (f : DocumentRow → DocumentRow) (o : Option DocumentRow) (w : World)
      → HasSent log w
      → Outcome
          (HasSent log)
          (Wrote f)
          (fetch_one e (elim o [ none ↦ none | some r ↦ some (f r) ]), w)
  written-Outcome e f none w h = refused e w h
  written-Outcome e f (some r) w h = answered (f r) w (h, r, refl)

  update-Wrote :
      (e : ApiError) (u : ℕ) (f : DocumentRow → DocumentRow)
      → ((r : DocumentRow) → is_document u (f r) ≡ is_document u r)
      → Runs (HasSent log) (Wrote f) (update_document e u f)
  unfolding update_document
  update-Wrote e u f same = Runs-statement _ _ HasSent-stable (record {
    at = λ w h.
        rw (find-update_where_self u f w.documents same)
          (written-Outcome e f (find (is_document u) w.documents) _ (record { sent = h.sent }));
  })

  check_version-Quiet :
      (expected : Option ℤ) (current : ℤ)
      → Runs (HasSent log) Quiet (lift (check_version expected current))
  unfolding check_version lift
  check_version-Quiet none current = quiet _ (λ w. refl) (λ w. refl)
  check_version-Quiet (some e) current = quiet _ (λ w. ground arith) (λ w. refl)

  pub then-Quiet {ℓ κ} :
      {A : Type ℓ} {B : Type κ} {Q : B → World → Type 0} (m : Action A) (f : A → Action B)
      → Runs (HasSent log) Quiet m
      → ((a : A) → Runs (HasSent log) Q (f a))
      → Runs (HasSent log) Q (m >>= f)
  then-Quiet m f h k = Runs-bind m f h λ a w sent. (k a).at w sent

  step-Quiet : (e : ApiError) → Runs (HasSent log) Quiet (statement e (pure (tt {0})))
  step-Quiet e = Runs-statement _ _ HasSent-stable (Runs-pure tt λ w h. h)

  read_version-Quiet :
      (u : ℕ) (expected : Option ℤ) → Runs (HasSent log) Quiet (read_version u expected)
  unfolding read_version
  read_version-Quiet u expected = then-Quiet _ _ (step-Quiet _) λ _.
      then-Quiet _ _ (select-Quiet _ u) λ row.
        then-Quiet _ _ (check_version-Quiet expected row.version)
          λ _. Runs-pure row.version λ w h. h

  -- The event that goes with the answer.
  abbrev pub Reports : Namespace → Option Text → Snapshot × UpdateEvent → World → Type 0
  Reports ns client result w =
      HasSent log w × (result.1 ≡ state_updated ns result.0.version result.0.updated_at client)

  finish-Reports :
      (ns : Namespace) (client : Option Text) (s : Snapshot) (version : ℤ) (time : ℕ)
      → s.version ≡ version
      → s.updated_at ≡ time
      → Runs
          (HasSent log)
          (Reports ns client)
          (do commit; pure (s, state_updated ns version time client))
  finish-Reports ns client s version time v t =
      then-Quiet _ _ (step-Quiet _) λ _. Runs-pure _ λ w h. (h, cc)

  set_column-Outcome :
      (ns : Namespace) (v : Value) (w : World)
      → ns ≢ snapshot
      → HasSent log w
      → Outcome
          (HasSent log)
          (λ f w.
            HasSent log w × ((u : ℕ) (r : DocumentRow) → is_document u (f r) ≡ is_document u r))
          (set_column ns v, w)
  unfolding set_column
  set_column-Outcome snapshot v w ne h = absurd (ne refl)
  set_column-Outcome _ v w ne h = answered _ w (h, λ u r. refl)

  now-Quiet : Runs (HasSent log) Quiet now
  unfolding now
  now-Quiet = record { at = λ w h. answered _ w h }

  write_namespace-Reports :
      (u : ℕ) (ns : Namespace) (p : NamespacePayload) (current : ℤ)
      → ns ≢ snapshot
      → Runs (HasSent log) (Reports ns p.client_id) (write_namespace u ns p current)
  unfolding write_namespace
  write_namespace-Reports u ns p current ne = then-Quiet _ _ now-Quiet λ time.
      Runs-bind _ _ (Runs-lift _ λ w h. set_column-Outcome ns p.value w ne h) λ set w (h, keys).
        (Runs-bind _ _ (update-Wrote _ u _ (keys u)) λ row w (h, old, eq).
            (finish-Reports ns p.client_id (to_snapshot row) _ time (ap (λ r. r.version) eq)
                (ap (λ r. r.updated_at) eq)).at
              w h).at
          w h

  pub update_namespace-Reports :
      (u : ℕ) (ns : Namespace) (p : NamespacePayload)
      → ns ≢ snapshot
      → Runs (HasSent log) (Reports ns p.client_id) (update_namespace u ns p)
  unfolding update_namespace update_namespace_tx
  update_namespace-Reports u ns p ne = then-Quiet _ _ (ensure-Quiet u) λ _.
      Runs-transaction _ HasSent-IsRestored (
        then-Quiet _ _ (read_version-Quiet u p.expected_version)
          λ current. write_namespace-Reports u ns p current ne)

  write_snapshot-Reports :
      (u : ℕ) (p : SnapshotPayload) (current : ℤ)
      → Runs (HasSent log) (Reports snapshot p.client_id) (write_snapshot u p current)
  unfolding write_snapshot
  write_snapshot-Reports u p current = then-Quiet _ _ now-Quiet λ time.
      Runs-bind _ _ (update-Wrote _ u _ λ r. refl) λ row w (h, old, eq).
        (finish-Reports snapshot p.client_id (to_snapshot row) _ time (ap (λ r. r.version) eq)
            (ap (λ r. r.updated_at) eq)).at
          w h

  pub replace_snapshot-Reports :
      (u : ℕ) (p : SnapshotPayload)
      → Runs (HasSent log) (Reports snapshot p.client_id) (replace_snapshot u p)
  unfolding replace_snapshot replace_snapshot_tx
  replace_snapshot-Reports u p = then-Quiet _ _ (ensure-Quiet u) λ _.
      Runs-transaction _ HasSent-IsRestored (
        then-Quiet _ _ (read_version-Quiet u p.expected_version)
          λ current. write_snapshot-Reports u p current)

  check_session-Quiet :
      (o : Option (UserRow × TokenRow)) → Runs (HasSent log) Quiet (lift (check_session o))
  unfolding check_session lift
  check_session-Quiet none = quiet _ (λ w. refl) (λ w. refl)
  check_session-Quiet (some (u, t)) = quiet _ (λ w. ground arith) (λ w. refl)

  -- Whether the spawned statement fails or not.
  spawn-Quiet :
      (id : ℕ) → Runs (HasSent log) Quiet (spawn (statement (internal []) (touch_token id)))
  unfolding spawn touch_token statement
  spawn-Quiet id = quiet _ (λ w. refl) (λ w. ground arith)

  pub authenticate_token-Quiet :
      (hash_token : Text → Text) (token : Text)
      → Runs (HasSent log) Quiet (authenticate_token hash_token token)
  unfolding authenticate_token
  authenticate_token-Quiet hash_token token = Runs-if (is_empty (trim token)) _ _ (Runs-raise _) (
      then-Quiet _ _ (Runs-statement _ _ HasSent-stable (quiet _ (λ w. refl) (λ w. refl))) λ row.
        then-Quiet _ _ (check_session-Quiet row)
          λ session. then-Quiet _ _ (spawn-Quiet session.1.id) λ _. Runs-pure _ λ w h. h)
