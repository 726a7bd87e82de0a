-- ===== src/Accounts/Listing.antt =====
-- src/db.rs: list_users. The order of names is the collation of the database, a parameter.
pub mod Grouping
use any_player_sync_server.Prelude.{
  ℕ, Bool, Option, none, some, List, [], ◌∷◌, ◌++◌, Text, ltb, ◌==◌, if◌then◌else◌,
}
use any_player_sync_server.Errors.{ok, internal, plain}
use any_player_sync_server.Models.{TokenInfo, UserSummary}
use any_player_sync_server.World.{World, Action, statement, pure, ◌>>=◌}
use any_player_sync_server.World.Rows.{UserRow, TokenRow}

-- An insertion sort, which is stable; `before` holds of items that belong in that order.
module _ {ℓ} {A : Type ℓ} (before : A → A → Bool) where
  unfoldable pub insert_sorted : A → List A → List A
  insert_sorted x [] = x ∷ []
  insert_sorted x (y ∷ ys) =
      let later = insert_sorted x ys in if before y x then y ∷ later else x ∷ y ∷ ys

  unfoldable pub sort : List A → List A
  unfolding insert_sorted
  sort [] = []
  sort (x ∷ xs) = insert_sorted x (sort xs)

-- ORDER BY created_at DESC
abbrev pub is_newer : TokenRow → TokenRow → Bool
is_newer s t = ltb t.created_at s.created_at

abbrev pub to_info : TokenRow → TokenInfo
to_info t = record {
  id = t.id;
  label = t.label;
  token_prefix = t.token_prefix;
  created_at = t.created_at;
  last_used_at = t.last_used_at;
  revoked_at = t.revoked_at;
}

-- The HashMap `by_user`.
abbrev pub Buckets : Type 0
Buckets = List (ℕ × List TokenInfo)

-- entry(user_id).or_default().push(info)
unfoldable pub push_info : ℕ → TokenInfo → Buckets → Buckets
push_info user info [] = (user, info ∷ []) ∷ []
push_info user info ((v, infos) ∷ rest) =
    let later = push_info user info rest in
    if v == user then (v, infos ++ info ∷ []) ∷ rest else (v, infos) ∷ later

unfoldable pub by_user : List TokenRow → Buckets → Buckets
unfolding push_info
by_user [] map = map
by_user (t ∷ tokens) map = by_user tokens (push_info t.user_id (to_info t) map)

-- get(user).unwrap_or_default()
unfoldable pub bucket : ℕ → Buckets → List TokenInfo
bucket user [] = []
bucket user ((v, infos) ∷ rest) = let later = bucket user rest in if v == user then infos else later

unfoldable pub remove_bucket : ℕ → Buckets → Buckets
remove_bucket user [] = []
remove_bucket user ((v, infos) ∷ rest) =
    let later = remove_bucket user rest in if v == user then later else (v, infos) ∷ later

abbrev pub to_summary : UserRow → List TokenInfo → UserSummary
to_summary u tokens = record {
  id = u.id;
  name = u.name;
  is_admin = u.is_admin;
  created_at = u.created_at;
  disabled_at = u.disabled_at;
  tokens = tokens;
}

-- Each summary takes the tokens of its user out of the map.
unfoldable pub summaries : List UserRow → Buckets → List UserSummary
unfolding bucket remove_bucket
summaries [] map = []
summaries (u ∷ users) map =
    to_summary u (bucket u.id map) ∷ summaries users (remove_bucket u.id map)

module _ (name_before : Text → Text → Bool) where
  abbrev pub by_name : UserRow → UserRow → Bool
  by_name u v = name_before u.name v.name

  unfoldable pub list_users : Action (List UserSummary)
  unfolding sort by_user summaries
  list_users = do
    users ←
        statement (internal (plain "failed to list users")) (λ w. (ok (sort by_name w.users), w))
    tokens ←
        statement (internal (plain "failed to list tokens")) (λ w. (ok (sort is_newer w.tokens), w))
    pure (summaries users (by_user tokens []))
