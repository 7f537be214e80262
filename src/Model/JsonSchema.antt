-- ===== src/Model/JsonSchema.antt =====
-- The part of JSON Schema that the prompts of backend/app ask answers in, and when a value conforms.
use ai_badge.Prelude.{
  leb, decimal, string_eq, nat_eq, ◌==◌, ℕ, suc, String, Bool, true, false, ◌&&◌, ◌||◌, Option,
  none, some, List, [], ◌∷◌,
}
use ai_badge.Model.Json.{get, Json, str, uuid, arr, obj, Items, no_items, item, Fields, end, field}

mutual
  pub data Schema : Type 0 where
    -- {"type": "string"}, with its maxLength
    any_text : Option ℕ → Schema
    -- {"type": "string", "enum": [...]}
    one_of : List String → Schema
    -- {"type": "array", "items": ...}
    array_of : Schema → Schema
    -- {"type": "object", "properties": ..., "additionalProperties": False}, each of them required
    object_of : Properties → Schema

  pub data Properties : Type 0 where
    no_more : Properties
    property : String → Schema → Properties → Properties

abbrev pub text_length : String → ℕ
text_length String.[] = 0
text_length (String.◌∷◌ c s) = suc (text_length s)

abbrev fits : Option ℕ → String → Bool
fits none s = true
fits (some n) s = leb (text_length s) n

abbrev pub is_one_of : List String → String → Bool
is_one_of [] s = false
is_one_of (x ∷ xs) s = s == x || is_one_of xs s

abbrev pub is_declared : String → Properties → Bool
is_declared key no_more = false
is_declared key (property k _ rest) = key == k || is_declared key rest

abbrev no_others : Properties → Fields → Bool
no_others ps end = true
no_others ps (field key _ rest) = is_declared key ps && no_others ps rest

-- A value that must be there, and satisfy a test.
abbrev pub present : (Json → Bool) → Option Json → Bool
present test none = false
present test (some v) = test v

-- Every item satisfies a test.
abbrev pub all_items : (Json → Bool) → Items → Bool
all_items test no_items = true
all_items test (item v rest) = test v && all_items test rest

abbrev text_fits : Option ℕ → Json → Bool
text_fits limit (str s) = fits limit s
text_fits limit (uuid n) = fits limit (decimal n)
text_fits limit _ = false

-- The text of a UUID is none of the names.
abbrev pub text_among : List String → Json → Bool
text_among names (str s) = is_one_of names s
text_among names _ = false

abbrev items_satisfy : (Json → Bool) → Json → Bool
items_satisfy test (arr items) = all_items test items
items_satisfy test _ = false

abbrev fields_satisfy : (Fields → Bool) → Json → Bool
fields_satisfy test (obj fields) = test fields
fields_satisfy test _ = false

abbrev mutual
  pub conforms : Schema → Json → Bool
  conforms (any_text limit) v = text_fits limit v
  conforms (one_of names) v = text_among names v
  conforms (array_of s) v = items_satisfy (conforms s) v
  conforms (object_of ps) v =
      fields_satisfy (λ fields. no_others ps fields && all_present ps fields) v

  -- Each property is there and conforms.
  pub all_present : Properties → Fields → Bool
  all_present no_more fields = true
  all_present (property key s rest) fields =
      present (conforms s) (get key fields) && all_present rest fields
