-- ===== src/FactSources/Pointer.antt =====
-- JSON Pointer (serde_json::Value::pointer), and the casts of serde_json::Value.
use any_player_sync_server.Prelude.{
  ℕ, zero, suc, ◌+◌, ◌*◌, ◌-◌, Bool, false, not, ◌&&◌, Option, none, some, List, [], ◌∷◌, Text,
  codes, ◌==◌, all, if◌then◌else◌,
}
use any_player_sync_server.Prelude.Options.{◌>>=◌}
use any_player_sync_server.Json.{Value, arr, obj, Items, nil, cons, Fields, get, get_field}
use any_player_sync_server.Strings.{is_ascii_digit, is_empty, starts_with}
use any_player_sync_server.MatchKeys.{split_by}

abbrev pub as_object : Value → Option Fields
as_object (obj fs) = some fs
as_object _ = none

abbrev elements : Items → List Value
elements nil = []
elements (cons v vs) = v ∷ elements vs

-- Value::as_array
unfoldable pub as_array : Value → Option (List Value)
as_array (arr vs) = some (elements vs)
as_array _ = none

-- A token with "~1" for "/" and then "~0" for "~".
unfoldable pub unescape : Text → Text
unescape [] = []
unescape (c ∷ []) = c ∷ []
unescape (c ∷ d ∷ s) =
    let later = unescape (d ∷ s) in
    let after = unescape s in
    if c == b'~' && d == b'1'
    then b'/' ∷ after
    else if c == b'~' && d == b'0'
    then b'~' ∷ after
    else c ∷ later

abbrev decimal_from : ℕ → Text → ℕ
decimal_from n [] = n
decimal_from n (c ∷ s) = decimal_from (n * 10 + (c - 48)) s

-- A leading zero is for the index 0 only.
abbrev is_index : Text → Bool
is_index [] = false
is_index (c ∷ []) = is_ascii_digit c
is_index (c ∷ d ∷ s) = not (c == b'0') && all is_ascii_digit (c ∷ d ∷ s)

abbrev element_at : ℕ → Items → Option Value
element_at n nil = none
element_at zero (cons v vs) = some v
element_at (suc n) (cons v vs) = element_at n vs

unfoldable pub step_into : Text → Value → Option Value
unfolding get get_field is_ascii_digit
step_into token (obj fs) = get_field token fs
step_into token (arr vs) = if is_index token then element_at (decimal_from 0 token) vs else none
step_into token _ = none

abbrev walk : List Text → Value → Option Value
walk [] v = some v
walk (token ∷ tokens) v = step_into (unescape token) v >>= walk tokens

abbrev behind_first : List Text → List Text
behind_first [] = []
behind_first (t ∷ ts) = ts

-- Value::pointer
unfoldable pub pointer : Text → Value → Option Value
unfolding split_by starts_with unescape step_into
pointer path v =
    if is_empty path
    then some v
    else if starts_with path (codes "/")
    then walk (behind_first (split_by (λ c. c == b'/') path)) v
    else none
