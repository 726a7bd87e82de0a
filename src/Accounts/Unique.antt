-- ===== src/Accounts/Unique.antt =====
-- The unique indexes on users(name) and auth_tokens(token_hash).
use any_player_sync_server.Prelude.{
  ℕ, ◌≡◌, refl, Bool, false, Option, none, some, List, [], ◌∷◌, ◌++◌, Text, text_eq, text_eq_iff,
  ◌==◌, any, find, update_where, arith, Bool-cases, Option-cases, inl, inr, length, keep,
  keep-append, keep_of_not_any, keep-update_where, ◌≤◌,
}
use any_player_sync_server.Errors.{Result, ok}
use any_player_sync_server.World.{World, Action}
use any_player_sync_server.World.Keeps.{
  Keeps, IsStable, IsRestored, keeps_rules, Keeps-statement, Keeps-bind, Keeps-lift,
}
use any_player_sync_server.World.Rows.{UserRow, TokenRow}
use any_player_sync_server.Accounts.Lookup.{not-any_of_find}
use any_player_sync_server.Accounts.{
  spawn, has_id, touch_token, authenticate_token, insert_user, create_user, set_user_disabled,
  insert_token, create_token, is_revocable, revoke_token, upsert_admin, upsert_token, bootstrap_tx,
  ensure_bootstrap_admin,
}

abbrev named : Text → UserRow → Bool
named name u = text_eq u.name name

abbrev hashed : Text → TokenRow → Bool
hashed hash t = text_eq t.token_hash hash

-- No two users have one name, and no two tokens have one hash.
pub record IsUnique (w : World) : Type 0 where
  pub names : (name : Text) → length (keep (λ u. text_eq u.name name) w.users) ≤ 1
  pub hashes : (hash : Text) → length (keep (λ t. text_eq t.token_hash hash) w.tokens) ≤ 1

IsUnique-stable : IsStable IsUnique
IsUnique-stable = record { faults = λ w rest h. record { names = h.names; hashes = h.hashes } }

IsUnique-IsRestored : IsRestored IsUnique IsUnique
IsUnique-IsRestored = record {
  restores = λ before after h k. record { names = h.names; hashes = h.hashes };
}

module _ {A : Type 0} (key : A → Text) where
  -- Adding an item whose key is new.
  keep_new :
      (xs : List A) (x : A) (k : Text)
      → any (λ y. text_eq (key y) (key x)) xs ≡ false
      → length (keep (λ y. text_eq (key y) k) xs) ≤ 1
      → length (keep (λ y. text_eq (key y) k) (xs ++ x ∷ [])) ≤ 1
  keep_new xs x k new h = elim (Bool-cases (text_eq (key x) k)) [
    | inl same ↦
        let e : key x ≡ k = (text_eq_iff (key x) k).0 same in
        ground (
          arith,
          keep-append (λ y. text_eq (key y) k) xs x,
          keep_of_not_any (λ y. text_eq (key y) k) xs (rw e at new),
        )
    | inr other ↦ ground (arith, keep-append (λ y. text_eq (key y) k) xs x)
  ]

  keep_same :
      (q : A → Bool) (f : A → A) (xs : List A) (k : Text)
      → ((x : A) → key (f x) ≡ key x)
      → length (keep (λ y. text_eq (key y) k) xs) ≤ 1
      → length (keep (λ y. text_eq (key y) k) (update_where q f xs)) ≤ 1
  keep_same q f xs k same h =
      rw (keep-update_where (λ y. text_eq (key y) k) q f xs (λ x. rw (same x))) h

insert_user-IsUnique : (name : Text) (is_admin : Bool) → Keeps IsUnique (insert_user name is_admin)
unfolding insert_user
insert_user-IsUnique name is_admin = record {
  at = λ w h. elim (Bool-cases (any (named name) w.users)) [
    | inl taken ↦ rw taken h
    | inr new ↦ rw new (record {
      names = λ k. keep_new (λ u. u.name) w.users _ k new (h.names k);
      hashes = h.hashes;
    })
  ];
}

insert_token-IsUnique :
    (user_id : ℕ) (hash prefix label : Text)
    → Keeps IsUnique (insert_token user_id hash prefix label)
unfolding insert_token
insert_token-IsUnique user_id hash prefix label = record {
  at = λ w h. elim (Bool-cases (any (hashed hash) w.tokens)) [
    | inl taken ↦ rw taken h
    | inr new ↦ rw new (record {
      names = h.names;
      hashes = λ k. keep_new (λ t. t.token_hash) w.tokens _ k new (h.hashes k);
    })
  ];
}

-- A statement that changes columns of users other than the name.
write_users-IsUnique :
    {A : Type 0} (q : UserRow → Bool) (f : World → UserRow → UserRow) (r : World → Result A)
    → ((w : World) (u : UserRow) → (f w u).name ≡ u.name)
    → Keeps IsUnique (λ w. (r w, record w { users = update_where q (f w) w.users }))
write_users-IsUnique q f r same = record {
  at = λ w h. record {
    names = λ k. keep_same (λ u. u.name) q (f w) w.users k (same w) (h.names k);
    hashes = h.hashes;
  };
}

-- A statement that changes columns of tokens other than the hash.
write_tokens-IsUnique :
    {A : Type 0} (q : TokenRow → Bool) (f : World → TokenRow → TokenRow) (r : World → Result A)
    → ((w : World) (t : TokenRow) → (f w t).token_hash ≡ t.token_hash)
    → Keeps IsUnique (λ w. (r w, record w { tokens = update_where q (f w) w.tokens }))
write_tokens-IsUnique q f r same = record {
  at = λ w h. record {
    names = h.names;
    hashes = λ k. keep_same (λ t. t.token_hash) q (f w) w.tokens k (same w) (h.hashes k);
  };
}

read-IsUnique : {A : Type 0} (r : World → A) → Keeps IsUnique (λ w. (ok (r w), w))
read-IsUnique r = record { at = λ w h. h }

ruleset unique_rules = (keeps_rules, IsUnique-stable, IsUnique-IsRestored)

pub create_user-IsUnique :
    (name : Text) (is_admin : Bool) → Keeps IsUnique (create_user name is_admin)
unfolding create_user
create_user-IsUnique name is_admin = search (unique_rules, insert_user-IsUnique)

pub set_user_disabled-IsUnique :
    (id : ℕ) (disabled : Bool) → Keeps IsUnique (set_user_disabled id disabled)
unfolding set_user_disabled
set_user_disabled-IsUnique id disabled =
    Keeps-bind _ _
      (Keeps-statement IsUnique-stable _ (write_users-IsUnique (has_id id) _ _ (λ w u. refl)) _)
      (λ found. Keeps-lift _)

pub revoke_token-IsUnique : (id : ℕ) → Keeps IsUnique (revoke_token id)
unfolding revoke_token
revoke_token-IsUnique id =
    Keeps-bind _ _
      (Keeps-statement IsUnique-stable _ (write_tokens-IsUnique (is_revocable id) _ _ (λ w t. refl))
        _)
      (λ found. Keeps-lift _)

pub create_token-IsUnique :
    (hash_token : Text → Text) (random : Text) (id : ℕ) (label : Option Text)
    → Keeps IsUnique (create_token hash_token random id label)
unfolding create_token
create_token-IsUnique hash_token random id label =
    search (unique_rules, read-IsUnique, insert_token-IsUnique)

spawn-Keeps : (m : Action (Unit {0})) → Keeps IsUnique m → Keeps IsUnique (spawn m)
unfolding spawn
spawn-Keeps m k = record { at = k.at }

touch_token-IsUnique : (id : ℕ) → Keeps IsUnique (touch_token id)
unfolding touch_token
touch_token-IsUnique id = write_tokens-IsUnique (λ t. t.id == id) _ _ (λ w t. refl)

pub authenticate_token-IsUnique :
    (hash_token : Text → Text) (token : Text) → Keeps IsUnique (authenticate_token hash_token token)
unfolding authenticate_token
authenticate_token-IsUnique hash_token token =
    search (unique_rules, read-IsUnique, spawn-Keeps, touch_token-IsUnique) depth 12

upsert_admin-IsUnique : (name : Text) → Keeps IsUnique (upsert_admin name)
unfolding upsert_admin
upsert_admin-IsUnique name = record {
  at = λ w h. elim (Option-cases (find (named name) w.users)) [
    | inl new ↦
        rw (new, upsert_admin)
          (record {
            names = λ k.
                keep_new (λ u. u.name) w.users _ k (not-any_of_find (named name) w.users new)
                  (h.names k);
            hashes = h.hashes;
          })
    | inr (u, old) ↦
        rw (old, upsert_admin)
          (record {
            names = λ k. keep_same (λ u. u.name) (named name) _ w.users k (λ x. refl) (h.names k);
            hashes = h.hashes;
          })
  ];
}

upsert_token-IsUnique :
    (user_id : ℕ) (hash prefix : Text) → Keeps IsUnique (upsert_token user_id hash prefix)
unfolding upsert_token
upsert_token-IsUnique user_id hash prefix = record {
  at = λ w h. elim (Bool-cases (any (hashed hash) w.tokens)) [
    | inl old ↦ rw old (record {
      names = h.names;
      hashes =
          λ k. keep_same (λ t. t.token_hash) (hashed hash) _ w.tokens k (λ x. refl) (h.hashes k);
    })
    | inr new ↦ rw new (record {
      names = h.names;
      hashes = λ k. keep_new (λ t. t.token_hash) w.tokens _ k new (h.hashes k);
    })
  ];
}

bootstrap_tx-IsUnique :
    (hash_token : Text → Text) (name token : Text)
    → Keeps IsUnique (bootstrap_tx hash_token name token)
unfolding bootstrap_tx
bootstrap_tx-IsUnique hash_token name token =
    search (unique_rules, upsert_admin-IsUnique, upsert_token-IsUnique) depth 12

pub ensure_bootstrap_admin-IsUnique :
    (hash_token : Text → Text) (name : Text) (token : Option Text)
    → Keeps IsUnique (ensure_bootstrap_admin hash_token name token)
unfolding ensure_bootstrap_admin
ensure_bootstrap_admin-IsUnique hash_token name none = search unique_rules
ensure_bootstrap_admin-IsUnique hash_token name (some token) =
    search (unique_rules, bootstrap_tx-IsUnique)
