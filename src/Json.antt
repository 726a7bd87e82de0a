-- ===== src/Json.antt =====
-- JSON values (serde_json::Value), as far as the server reads and builds them. A number is kept as
-- its text. An object is the list of its members, in the order in which the map gives them.
use any_player_sync_server.Prelude.{Bool, Option, none, some, Text, text_eq, if◌then◌else◌}

mutual
  pub data Value : Type 0 where
    null : Value
    bool : Bool → Value
    num : Text → Value
    str : Text → Value
    arr : Items → Value
    obj : Fields → Value

  pub data Items : Type 0 where
    nil : Items
    cons : Value → Items → Items

  pub data Fields : Type 0 where
    end : Fields
    field : Text → Value → Fields → Fields

-- Map::get
unfoldable pub get_field : Text → Fields → Option Value
get_field k end = none
get_field k (field j v rest) = let later = get_field k rest in if text_eq j k then some v else later

-- Map::insert: an existing member keeps its place.
unfoldable pub insert_field : Text → Value → Fields → Fields
insert_field k v end = field k v end
insert_field k v (field j w rest) =
    if text_eq j k then field j v rest else field j w (insert_field k v rest)

-- Value::get with a string index
unfoldable pub get : Text → Value → Option Value
unfolding get_field
get k (obj fs) = get_field k fs
get k _ = none

abbrev pub as_str : Value → Option Text
as_str (str s) = some s
as_str _ = none
