-- ===== src/Accounts/Examples.antt =====
-- Runs of the account operations, and their theorems at concrete inputs. The stand-in for SHA-256
-- is a text that is marked as hashed.
use any_player_sync_server.Prelude.{
  ◌++◌, any, ◌≤◌, ◌≡◌, refl, true, false, none, some, List, [], ◌∷◌, Text, codes, length, keep,
  text_eq, arith,
}
use any_player_sync_server.Errors.{ok, err, unauthorized, forbidden, plain}
use any_player_sync_server.Strings.{trim, is_empty, is_ascii_alphanumeric}
use any_player_sync_server.World.{World, empty}
use any_player_sync_server.World.Rows.{UserRow, TokenRow}
use any_player_sync_server.Accounts.{
  program, authenticate_token, create_token, revoke_token, set_user_disabled, generate_token,
  find_session,
}
use any_player_sync_server.Accounts.Authenticate.{IsSession, to_user, authenticate_token_sound}
use any_player_sync_server.Accounts.Tokens.{create-authenticate}
use any_player_sync_server.Accounts.Revoke.{revoke-authenticate, disable-authenticate}
use any_player_sync_server.Accounts.Unique.{IsUnique}
use any_player_sync_server.Accounts.Calls.{
  Call, create_user_call, create_token_call, revoke_call, perform_all, perform_all-IsUnique,
}
use mathlib.Core.List.{map}
use any_player_sync_server.Prelude.{Bool}
use any_player_sync_server.Accounts.Listing.{
  sort, is_newer, by_name, to_info, to_summary, list_users,
}
use any_player_sync_server.Accounts.Listing.Grouping.{
  is_owned_by, nobody, one_more, list_users-answer,
}

abbrev hashed : Text → Text
hashed s = codes "#" ++ s

abbrev ann : UserRow
ann = record { id = 7; name = codes "ann"; is_admin = true; created_at = 0; disabled_at = none }

abbrev held : TokenRow
held = record {
  id = 3;
  user_id = 7;
  token_hash = codes "#key";
  token_prefix = codes "key";
  label = codes "manual";
  created_at = 0;
  last_used_at = none;
  revoked_at = none;
}

abbrev before : World
before = record empty { users = ann ∷ []; tokens = held ∷ []; next_token = 4; clock = 9 }

authenticates : (authenticate_token hashed (codes " key") before).0 ≡ ok (to_user ann)
unfolding program
authenticates = refl

authenticate_token_sound_example : IsSession hashed before (codes " key") (to_user ann)
authenticate_token_sound_example =
    authenticate_token_sound hashed (codes " key") before (to_user ann) authenticates

letters : (is_ascii_alphanumeric b'x' ≡ true) × (is_ascii_alphanumeric b'9' ≡ true)
unfolding is_ascii_alphanumeric
letters = (refl, refl)

unused :
    any (λ t. text_eq t.token_hash (hashed (generate_token (codes "x9")))) before.tokens ≡ false
unfolding text_eq
unused = refl

create-authenticate_example :
    ((create_token hashed (codes "x9") 7 none before).0
      ≡ ok (4, codes "manual", codes "ap_x9", codes "ap_x9", 9))
    × ((authenticate_token hashed
          (codes "ap_x9")
          (create_token hashed (codes "x9") 7 none before).1).0
        ≡ ok (to_user ann))
create-authenticate_example =
    create-authenticate hashed (codes "x9") ann none before refl (letters.0, (letters.1, tt)) refl
      unused refl

found : find_session (hashed (trim (codes " key"))) before.users before.tokens ≡ some (ann, held)
unfolding program
found = refl

not_blank : is_empty (trim (codes " key")) ≡ false
unfolding program
not_blank = refl

one_row : length (keep (λ x. text_eq x.token_hash (hashed (trim (codes " key")))) before.tokens) ≤ 1
unfolding program
one_row = omega arith

revoke-authenticate_example :
    ((revoke_token 3 before).0 ≡ ok tt)
    × ((authenticate_token hashed (codes " key") (revoke_token 3 before).1).0
        ≡ err (unauthorized (plain "invalid bearer token")))
revoke-authenticate_example =
    revoke-authenticate hashed (codes " key") ann held before refl not_blank found one_row

disable-authenticate_example :
    ((set_user_disabled 7 true before).0 ≡ ok tt)
    × ((authenticate_token hashed (codes " key") (set_user_disabled 7 true before).1).0
        ≡ err (forbidden (plain "user account is disabled")))
disable-authenticate_example =
    disable-authenticate hashed (codes " key") ann held before refl not_blank found true

empty-IsUnique : IsUnique empty
empty-IsUnique = record { names = λ k. omega arith; hashes = λ k. omega arith }

abbrev calls : List Call
calls =
    create_user_call (codes "ann") true
    ∷ create_user_call (codes "ann") false
    ∷ create_token_call (codes "x9") 1 none
    ∷ revoke_call 1
    ∷ []

perform_all-IsUnique_example : IsUnique (perform_all hashed calls empty)
perform_all-IsUnique_example = perform_all-IsUnique hashed calls empty empty-IsUnique

abbrev no_order : Text → Text → Bool
no_order s t = false

list_users-answer_example :
    (list_users no_order before).0
    ≡ ok (
        map
          (λ u. to_summary u (map to_info (keep (is_owned_by u.id) (sort is_newer before.tokens))))
          (sort (by_name no_order) before.users))
list_users-answer_example = list_users-answer no_order before refl (one_more ann [] tt nobody)
