-- ===== src/Accounts/Listing/Grouping.antt =====
-- The tokens of each summary are those of its user.
use any_player_sync_server.Prelude.{
  ℕ, ◌≡◌, ◌≢◌, refl, sym, ap, ◌∙◌, Bool, true, false, List, [], ◌∷◌, ◌++◌, Text, keep, ◌==◌, All,
  arith, if◌then◌else◌, Bool-cases, inl, inr,
}
use mathlib.Core.List.{map, append-nil, append_assoc}
use any_player_sync_server.Errors.{ok}
use any_player_sync_server.Models.{TokenInfo}
use any_player_sync_server.World.{World, statement, ◌>>=◌}
use any_player_sync_server.World.Rows.{UserRow, TokenRow}
use any_player_sync_server.Accounts.Listing.{
  sort, insert_sorted, is_newer, by_name, to_info, Buckets, push_info, by_user, bucket,
  remove_bucket, to_summary, summaries, list_users,
}

abbrev pub is_owned_by : ℕ → TokenRow → Bool
is_owned_by user t = t.user_id == user

bucket-push_info :
    (u : ℕ) (t : TokenRow) (m : Buckets)
    → bucket u (push_info t.user_id (to_info t) m)
      ≡ bucket u m ++ (if is_owned_by u t then to_info t ∷ [] else [])
unfolding bucket push_info
bucket-push_info u t [] = ground arith
bucket-push_info u t ((v, infos) ∷ m) =
    ground (arith, bucket-push_info u t m, append-nil infos, append-nil (bucket u m))

bucket-by_user :
    (u : ℕ) (ts : List TokenRow) (m : Buckets)
    → bucket u (by_user ts m) ≡ bucket u m ++ map to_info (keep (is_owned_by u) ts)
unfolding by_user
bucket-by_user u [] m = sym (append-nil (bucket u m))
bucket-by_user u (t ∷ ts) m =
    bucket-by_user u ts (push_info t.user_id (to_info t) m)
    ∙ ap (λ x. x ++ map to_info (keep (is_owned_by u) ts)) (bucket-push_info u t m)
    ∙ append_assoc (bucket u m) _ _
    ∙ ap (λ x. bucket u m ++ x) (one_kept (is_owned_by u t))
  where
    one_kept :
        (b : Bool)
        → (if b then to_info t ∷ [] else []) ++ map to_info (keep (is_owned_by u) ts)
          ≡ map to_info (if b then t ∷ keep (is_owned_by u) ts else keep (is_owned_by u) ts)
    one_kept true = refl
    one_kept false = refl

bucket-remove_bucket : (u v : ℕ) (m : Buckets) → u ≢ v → bucket v (remove_bucket u m) ≡ bucket v m
unfolding bucket remove_bucket
bucket-remove_bucket u v [] ne = refl
bucket-remove_bucket u v ((w, infos) ∷ m) ne = ground (arith, bucket-remove_bucket u v m ne)

-- No two users of the list have the same id.
pub data AreDistinct : List UserRow → Type 0 where
  nobody : AreDistinct []
  one_more :
      (u : UserRow) (users : List UserRow)
      → All (λ v. u.id ≢ v.id) users
      → AreDistinct users
      → AreDistinct (u ∷ users)

left_alone :
    (u : UserRow) (f : ℕ → List TokenInfo) (users : List UserRow) (m : Buckets)
    → All (λ v. u.id ≢ v.id) users
    → All (λ v. bucket v.id m ≡ f v.id) users
    → All (λ v. bucket v.id (remove_bucket u.id m) ≡ f v.id) users
left_alone u f [] m others h = tt
left_alone u f (v ∷ users) m (ne, others) (p, h) =
    (bucket-remove_bucket u.id v.id m ne ∙ p, left_alone u f users m others h)

-- Taking buckets out of the map does not take away what later users need.
summaries-buckets :
    (f : ℕ → List TokenInfo) (users : List UserRow) (m : Buckets)
    → AreDistinct users
    → All (λ v. bucket v.id m ≡ f v.id) users
    → summaries users m ≡ map (λ u. to_summary u (f u.id)) users
unfolding summaries
summaries-buckets f [] m distinct h = refl
summaries-buckets f (u ∷ users) m (one_more u' us' others distinct) (p, h) =
    ap (λ x. to_summary u x ∷ summaries users (remove_bucket u.id m)) p
    ∙ ap (λ x. to_summary u (f u.id) ∷ x)
        (summaries-buckets f users (remove_bucket u.id m) distinct
          (left_alone u f users m others h))

module _ (before : UserRow → UserRow → Bool) where
  insert_sorted-All {ℓ} :
      (P : UserRow → Type ℓ) (x : UserRow) (ys : List UserRow)
      → P x
      → All P ys
      → All P (insert_sorted before x ys)
  unfolding insert_sorted
  insert_sorted-All P x [] p h = (p, tt)
  insert_sorted-All P x (y ∷ ys) p (q, h) = elim (Bool-cases (before y x)) [
    | inl e ↦ rw e (q, insert_sorted-All P x ys p h)
    | inr e ↦ rw e (p, (q, h))
  ]

  sort-All {ℓ} : (P : UserRow → Type ℓ) (xs : List UserRow) → All P xs → All P (sort before xs)
  unfolding sort
  sort-All P [] h = tt
  sort-All P (x ∷ xs) (p, h) = insert_sorted-All P x (sort before xs) p (sort-All P xs h)

  insert_sorted-AreDistinct :
      (x : UserRow) (ys : List UserRow)
      → All (λ v. x.id ≢ v.id) ys
      → AreDistinct ys
      → AreDistinct (insert_sorted before x ys)
  unfolding insert_sorted
  insert_sorted-AreDistinct x [] others distinct = one_more x [] tt nobody
  insert_sorted-AreDistinct x (y ∷ ys) (ne, others) (one_more y' ys' later distinct) =
      elim (Bool-cases (before y x)) [
        | inl e ↦ rw e (
            one_more y _ (insert_sorted-All (λ v. y.id ≢ v.id) x ys (λ same. ne (sym same)) later)
              (insert_sorted-AreDistinct x ys others distinct))
        | inr e ↦ rw e (one_more x _ (ne, others) (one_more y ys later distinct))
      ]

  sort-AreDistinct : (xs : List UserRow) → AreDistinct xs → AreDistinct (sort before xs)
  unfolding sort
  sort-AreDistinct [] distinct = nobody
  sort-AreDistinct (x ∷ xs) (one_more u' us' others distinct) =
      insert_sorted-AreDistinct x (sort before xs) (sort-All (λ v. x.id ≢ v.id) xs others)
        (sort-AreDistinct xs distinct)

every_bucket :
    (ts : List TokenRow) (users : List UserRow)
    → All (λ v. bucket v.id (by_user ts []) ≡ map to_info (keep (is_owned_by v.id) ts)) users
unfolding bucket
every_bucket ts [] = tt
every_bucket ts (u ∷ users) = (bucket-by_user u.id ts [], every_bucket ts users)

-- Where no two users have the same id and no statement fails, list_users answers with one summary
-- for each user, in the order of names, which has the tokens of that user and all of them, the
-- newest first.
pub list_users-answer :
    (name_before : Text → Text → Bool) (w : World)
    → w.faults ≡ []
    → AreDistinct w.users
    → (list_users name_before w).0
      ≡ ok (
          map
            (λ u. to_summary u (map to_info (keep (is_owned_by u.id) (sort is_newer w.tokens))))
            (sort (by_name name_before) w.users))
unfolding list_users statement ◌>>=◌
list_users-answer name_before w calm distinct =
    let tokens = sort is_newer w.tokens in
    let users = sort (by_name name_before) w.users in
    rw calm (
      ap ok (
        summaries-buckets (λ u. map to_info (keep (is_owned_by u) tokens)) users (by_user tokens [])
          (sort-AreDistinct (by_name name_before) w.users distinct) (every_bucket tokens users)))
