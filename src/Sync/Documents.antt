-- ===== src/Sync/Documents.antt =====
-- The table `user_sync_document` as a map from users to rows.
use any_player_sync_server.Prelude.{
  ℕ, ◌≡◌, ◌≢◌, refl, Bool, Option, none, some, List, [], ◌∷◌, ◌++◌, arith, any, find, update_where,
  is_some,
}
use any_player_sync_server.World.{World}
use any_player_sync_server.World.Rows.{DocumentRow}
use any_player_sync_server.Sync.{is_document, blank_document}

-- What the table holds for a user.
abbrev pub stored : World → ℕ → Option DocumentRow
stored w user_id = find (is_document user_id) w.documents

-- The row that a request works on: the stored one, or the blank one that is inserted first.
abbrev or_blank : ℕ → ℕ → Option DocumentRow → DocumentRow
or_blank user_id time none = blank_document user_id time
or_blank user_id time (some r) = r

abbrev pub current_row : World → ℕ → DocumentRow
current_row w user_id = or_blank user_id w.clock (stored w user_id)

pub any-eq-is_some-find : {A : Type 0} (p : A → Bool) (xs : List A) → any p xs ≡ is_some (find p xs)
any-eq-is_some-find p [] = refl
any-eq-is_some-find p (x ∷ xs) = ground (arith, any-eq-is_some-find p xs)

pub find-append :
    {A : Type 0} (p : A → Bool) (xs ys : List A)
    → find p (xs ++ ys) ≡ elim (find p xs) [ none ↦ find p ys | some r ↦ some r ]
find-append p [] ys = refl
find-append p (x ∷ xs) ys = ground (arith, find-append p xs ys)

-- A write that leaves the keys alone changes the row that it selects and no other.
pub find-update_where_self :
    (u : ℕ) (f : DocumentRow → DocumentRow) (rows : List DocumentRow)
    → ((r : DocumentRow) → is_document u (f r) ≡ is_document u r)
    → find (is_document u) (update_where (is_document u) f rows)
      ≡ elim (find (is_document u) rows) [ none ↦ none | some r ↦ some (f r) ]
find-update_where_self u f [] keys = refl
find-update_where_self u f (r ∷ rows) keys =
    ground (arith, keys r, find-update_where_self u f rows keys)

pub find-update_where_ne :
    (u v : ℕ) (f : DocumentRow → DocumentRow) (rows : List DocumentRow)
    → u ≢ v
    → ((r : DocumentRow) → is_document v (f r) ≡ is_document v r)
    → find (is_document v) (update_where (is_document u) f rows) ≡ find (is_document v) rows
find-update_where_ne u v f [] ne keys = refl
find-update_where_ne u v f (r ∷ rows) ne keys =
    ground (arith, keys r, find-update_where_ne u v f rows ne keys)

pub find-update_where-some :
    (u : ℕ) (f : DocumentRow → DocumentRow) (rows : List DocumentRow) (r : DocumentRow)
    → ((x : DocumentRow) → is_document u (f x) ≡ is_document u x)
    → find (is_document u) rows ≡ some r
    → find (is_document u) (update_where (is_document u) f rows) ≡ some (f r)
find-update_where-some u f rows r keys h = ground (arith, find-update_where_self u f rows keys)
