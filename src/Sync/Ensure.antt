-- ===== src/Sync/Ensure.antt =====
-- The row that a request works on: ensure_user_document, and the test of the expected version.
use any_player_sync_server.Prelude.{
  ℕ, ◌≡◌, ◌≢◌, refl, true, Option, none, some, [], ◌∷◌, ℤ, eq_ℤ_iff, arith, ◌==◌, any,
}
use any_player_sync_server.Errors.{ok, Message, lit, num}
use any_player_sync_server.World.{World, statement}
use any_player_sync_server.World.Rows.{DocumentRow}
use any_player_sync_server.Sync.{
  is_document, blank_document, insert_document, ensure_user_document, check_version,
}
use any_player_sync_server.Sync.Documents.{stored, current_row, any-eq-is_some-find, find-append}

abbrev pub HasUser : World → ℕ → Type 0
HasUser w user_id = any (λ u. u.id == user_id) w.users ≡ true

-- The state after ensure_user_document.
abbrev pub ensured : World → ℕ → World
ensured w u = (ensure_user_document u w).1

module _ (w : World) (u : ℕ) (calm : w.faults ≡ []) (known : HasUser w u) where
  pub ensure-eq : ensure_user_document u w ≡ (ok tt, ensured w u)
  unfolding ensure_user_document insert_document statement
  ensure-eq = ground arith

  pub ensure-stored : stored (ensure_user_document u w).1 u ≡ some (current_row w u)
  unfolding ensure_user_document insert_document statement
  ensure-stored = ground (
    arith,
    any-eq-is_some-find (is_document u) w.documents,
    find-append (is_document u) w.documents (blank_document u w.clock ∷ []),
  )

  pub ensure-stored_ne : (v : ℕ) → u ≢ v → stored (ensure_user_document u w).1 v ≡ stored w v
  unfolding ensure_user_document insert_document statement
  ensure-stored_ne v ne =
      ground (arith, find-append (is_document v) w.documents (blank_document u w.clock ∷ []))

  pub ensure-faults : (ensure_user_document u w).1.faults ≡ []
  unfolding ensure_user_document insert_document statement
  ensure-faults = ground arith

  pub ensure-users : (ensure_user_document u w).1.users ≡ w.users
  unfolding ensure_user_document insert_document statement
  ensure-users = ground arith

  pub ensure-clock : (ensure_user_document u w).1.clock ≡ w.clock
  unfolding ensure_user_document insert_document statement
  ensure-clock = ground arith

-- No version is expected, or the current one is.
abbrev pub Accepts : Option ℤ → ℤ → Type 0
Accepts none current = Unit
Accepts (some expected) current = expected ≡ current

-- The message of a version conflict.
abbrev pub stale : ℤ → ℤ → Message
stale expected current =
    lit "expected version " ∷ num expected ∷ lit ", but current version is " ∷ num current ∷ []

pub check_version_ok : (e : Option ℤ) (v : ℤ) → Accepts e v → check_version e v ≡ ok tt
unfolding check_version
check_version_ok none v h = refl
check_version_ok (some x) v h = rw ((eq_ℤ_iff x v).1 h)

-- What a request that answers `ok` has done to the stored rows.
pub record Updates (before after : World) (u : ℕ) (row : DocumentRow) : Type 0 where
  pub stored_self : stored after u ≡ some row
  pub stored_ne : (v : ℕ) → u ≢ v → stored after v ≡ stored before v
  pub users : after.users ≡ before.users
  pub clock : after.clock ≡ before.clock
  pub calm : after.faults ≡ []

-- `ensure_user_document` alone leaves the current row.
pub ensured-Updates :
    (w : World) (u : ℕ) → w.faults ≡ [] → HasUser w u → Updates w (ensured w u) u (current_row w u)
ensured-Updates w u calm known = record {
  stored_self = ensure-stored w u calm known;
  stored_ne = ensure-stored_ne w u calm known;
  users = ensure-users w u calm known;
  clock = ensure-clock w u calm known;
  calm = ensure-faults w u calm known;
}

module _ {before after : World} {u : ℕ} {row : DocumentRow} (up : Updates before after u row) where
  -- The current rows after a request.
  pub Updates-current_self : current_row after u ≡ row
  Updates-current_self = ground (arith, up.stored_self)

  pub Updates-current_ne : (v : ℕ) → u ≢ v → current_row after v ≡ current_row before v
  Updates-current_ne v ne = ground (arith, up.stored_ne v ne, up.clock)

  pub Updates-HasUser : (v : ℕ) → HasUser before v → HasUser after v
  Updates-HasUser v h = rw up.users h
