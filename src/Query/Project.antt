-- ===== src/Query/Project.antt =====
-- The work of src/query/executor.rs and src/model/decoded.rs on JSON values. An object keeps its keys
-- in order, as the map of the crate serde_json does by default. The reading of a text as JSON is a
-- parameter.
use lo_ra_db.Prelude.{
  Bool, true, false, Option, none, some, List, [], ◌∷◌, Ordering, ◌==◌, if◌then◌else◌,
}
use lo_ra_db.Prelude.Order.{cmp_list, nat_ord}
use lo_ra_db.Model.Text.{Text, text}
use lo_ra_db.Model.Json.{Value, Fields, string, object, end, field, get_key, get, split_from}
use lo_ra_db.Model.Frames.{DecodedPayload}
use lo_ra_db.Query.Dsl.{SelectClause}

-- `Map::insert`
unfoldable pub insert_field : Text → Value → Fields → Fields
insert_field k v end = field k v end
insert_field k v (field j w fs) = elim (cmp_list k j) [
  | Ordering.lt ↦ field k v (field j w fs)
  | Ordering.eq ↦ field k v fs
  | Ordering.gt ↦ field j w (insert_field k v fs)
]

unfoldable pub follow : List Text → Value → Option Value
follow [] current = some current
follow (segment ∷ path) current = elim (get segment current) [
  | none ↦ none
  | some v ↦ follow path v
]

-- `get_nested_field`: the path is split at its dots.
unfoldable pub get_nested_field : Value → Text → Option Value
unfolding follow split_from
get_nested_field json path = follow (split_from 46 [] path) json

-- `DecodedPayload::get_field`
unfoldable pub get_field : DecodedPayload → Text → Option Value
unfolding follow split_from
get_field payload path = follow (split_from 46 [] path) payload.object

abbrev has_dot : Text → Bool
has_dot [] = false
has_dot (c ∷ s) = if c == 46 then true else has_dot s

abbrev lookup_field : Value → Text → Option Value
lookup_field json k = if has_dot k then get_nested_field json k else get k json

-- The loop of `project_fields`: a path that leads nowhere is left out.
unfoldable pub project_each : Value → List Text → Fields → Fields
unfolding insert_field get_nested_field get
project_each json [] result = result
project_each json (k ∷ fields) result = elim (lookup_field json k) [
  | none ↦ project_each json fields result
  | some v ↦ project_each json fields (insert_field k v result)
]

unfoldable pub project_fields : Value → SelectClause → Value
unfolding project_each
project_fields json select = elim select [
  | SelectClause.fields ks ↦ object (project_each json ks end)
  | _ ↦ json
]

-- An object with one key, whose value is an object, is replaced by that object with its key added.
unfoldable pub unwrap_frame_variant : Value → Value
unfolding insert_field
unwrap_frame_variant (object (field variant_name (object inner) end)) =
    object (insert_field (text "frame_type") (string variant_name) inner)
unwrap_frame_variant json = json

module _ (from_str : Text → Option Value) where
  -- `DecodedPayload::from_json`: a text that reads as JSON is replaced by what it reads as.
  unfoldable pub from_json : Value → DecodedPayload
  from_json (string s) = elim (from_str s) [
    | some parsed ↦ record { object = parsed }
    | none ↦ record { object = string s }
  ]
  from_json value = record { object = value }

  -- The payload with its text read.
  unfoldable pub unwrap_payload : Fields → Option Fields
  unfolding insert_field get_key
  unwrap_payload dp_map = elim (get_key (text "object") dp_map) [
    | none ↦ none
    | some inner ↦ elim inner [
      | string object_str ↦ elim (from_str object_str) [
        | none ↦ none
        | some parsed ↦ some (insert_field (text "object") parsed dp_map)
      ]
      | _ ↦ none
    ]
  ]

  unfoldable pub unwrap_decoded_payload : Value → Value
  unfolding unwrap_payload
  unwrap_decoded_payload (object fs) = elim (get_key (text "decoded_payload") fs) [
    | none ↦ object fs
    | some payload ↦ elim payload [
      | object dp_map ↦ elim (unwrap_payload dp_map) [
        | none ↦ object fs
        | some dp ↦ object (insert_field (text "decoded_payload") (object dp) fs)
      ]
      | _ ↦ object fs
    ]
  ]
  unwrap_decoded_payload json = json
