-- ===== src/Model/Json.antt =====
-- `serde_json::Value` and the payloads of src/model/decoded.rs. A number is kept as its text, since
-- the program never computes with it.
use lo_ra_db.Prelude.{ℕ, Bool, Option, none, some, List, [], ◌∷◌, if◌then◌else◌, ◌==◌}
use lo_ra_db.Model.Text.{Text, eq_text}

mutual
  pub data Value : Type 0 where
    null : Value
    bool : Bool → Value
    number : Text → Value
    string : Text → Value
    array : Items → Value
    object : Fields → Value

  pub data Items : Type 0 where
    nil : Items
    cons : Value → Items → Items

  -- Unique keys, in the order of the map.
  pub data Fields : Type 0 where
    end : Fields
    field : Text → Value → Fields → Fields

unfoldable pub get_key : Text → Fields → Option Value
unfolding eq_text
get_key k end = none
get_key k (field j v fs) = if eq_text k j then some v else get_key k fs

-- `value.get(segment)` with a text: only an object has such an element.
unfoldable pub get : Text → Value → Option Value
unfolding get_key
get segment (object fs) = get_key segment fs
get segment null = none
get segment (bool b) = none
get segment (number n) = none
get segment (string s) = none
get segment (array xs) = none

-- `path.split('.')`: always at least one segment. `acc` is the current segment, reversed.
unfoldable pub split_from : ℕ → Text → Text → List Text
split_from sep acc [] = mathlib.Core.List.reverse acc ∷ []
split_from sep acc (c ∷ s) =
    if c == sep
    then mathlib.Core.List.reverse acc ∷ split_from sep [] s
    else split_from sep (c ∷ acc) s
