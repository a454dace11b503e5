-- ===== src/Schema.antt =====
-- src/protocol/schema.c: a message against its schema. The values are those of cJSON, over an interface.
pub mod Spec
pub mod Enough
pub mod Loops
pub mod Sound
pub mod Trees
use filly.Prelude.{
  ℕ, zero, suc, ◌+◌, ◌<◌, ◌≡◌, Bool, true, false, not, ◌&&◌, ◌||◌, Option, none, some, List, [],
  ◌∷◌, ◌++◌, Text, codes, text_eq, snprintf, if◌then◌else◌, length, get_elem?,
}

pub data Kind : Type 0 where
  null_kind false_kind true_kind number_kind string_kind array_kind object_kind : Kind

-- What the validator reads of a `cJSON`: the kind in `type`, `valuestring`, and its children in order,
-- with the field `string` of each, and `cJSON_GetObjectItem`. `size` measures the value.
pub record Values (J : Type 0) : Type 0 where
  pub kind : J → Kind
  pub valuestring : J → Option Text
  pub children : J → List (Option Text × J)
  pub get_object_item : J → Text → Option J
  pub size : J → ℕ

-- Values are finite trees, and an item that is got is one of the children.
pub record IsFinite {J : Type 0} (V : Values J) : Type 0 where
  pub child_smaller :
      (v : J) (i : ℕ) (name : Option Text) (c : J)
      → get_elem? (V.children v) i ≡ some (name, c)
      → V.size c < V.size v
  pub item_smaller :
      (v : J) (name : Text) (c : J) → V.get_object_item v name ≡ some c → V.size c < V.size v

-- What a validation comes to; `null_name` is none of C's: `strcmp` of a member without a name.
pub data Verdict : Type 0 where
  valid null_name out_of_fuel : Verdict
  invalid : Text → Verdict

-- `if (!check) return false;`
abbrev pub and_also : Verdict → Verdict → Verdict
and_also valid rest = rest
and_also v rest = v

abbrev pub is_bool : Kind → Bool
is_bool true_kind = true
is_bool false_kind = true
is_bool _ = false

abbrev pub is_number : Kind → Bool
is_number number_kind = true
is_number _ = false

abbrev pub is_string : Kind → Bool
is_string string_kind = true
is_string _ = false

abbrev pub is_array : Kind → Bool
is_array array_kind = true
is_array _ = false

abbrev pub is_object : Kind → Bool
is_object object_kind = true
is_object _ = false

-- The chain of `strcmp(type, …)`, for a value of a kind.
unfoldable pub check_type : Text → Kind → Verdict
check_type type kind =
    if text_eq type (codes "string") && not (is_string kind)
    then invalid (codes "Expected string")
    else if text_eq type (codes "number") && not (is_number kind)
    then invalid (codes "Expected number")
    else if text_eq type (codes "boolean") && not (is_bool kind)
    then invalid (codes "Expected boolean")
    else if text_eq type (codes "object") && not (is_object kind)
    then invalid (codes "Expected object")
    else if text_eq type (codes "array") && not (is_array kind)
    then invalid (codes "Expected array")
    else valid

unfoldable missing : Text → Text
missing key = snprintf 256 (codes "Missing required field: " ++ key)

-- One round of the loop over `required`, with what the rest comes to.
unfoldable pub check_name : Option Text → Option Text → Verdict → Verdict
unfolding missing
check_name key none rest = rest
check_name none (some name) rest = null_name
check_name (some k) (some name) rest = if text_eq name k then invalid (missing k) else rest

module _ {J : Type 0} (V : Values J) where
  -- `valuestring` of an item that may be missing.
  abbrev pub item_text : J → Text → Option Text
  item_text v name = elim (V.get_object_item v name) [ none ↦ none | some t ↦ V.valuestring t ]

  unfoldable pub validate_type : J → J → Verdict
  unfolding check_type
  validate_type node schema = elim (item_text schema (codes "type")) [
    | none ↦ valid
    | some type ↦ check_type type (V.kind node)
  ]

  -- `cJSON_GetObjectItem(node, key)`, which finds nothing under a null key.
  abbrev pub get_item : J → Option Text → Option J
  get_item node none = none
  get_item node (some key) = V.get_object_item node key

  -- The loop over `required`.
  unfoldable pub check_required : Option Text → List (Option Text × J) → Verdict
  unfolding check_name
  check_required key [] = valid
  check_required key ((_, req) ∷ reqs) =
      check_name key (V.valuestring req) (check_required key reqs)

  abbrev pub required_children : J → List (Option Text × J)
  required_children schema = elim (V.get_object_item schema (codes "required")) [
    | none ↦ []
    | some r ↦ V.children r
  ]

  -- The loops of `validate_object` and `validate_array`, given `validate_node`.
  unfoldable pub check_properties :
      (J → J → Verdict) → J → List (Option Text × J) → List (Option Text × J) → Verdict
  unfolding check_required
  check_properties check node reqs [] = valid
  check_properties check node reqs ((key, child) ∷ cs) =
      and_also
        (elim (get_item node key) [
          | none ↦ check_required key reqs
          | some val_node ↦ check val_node child
        ])
        (check_properties check node reqs cs)

  unfoldable pub validate_object : (J → J → Verdict) → J → J → Verdict
  unfolding check_properties
  validate_object check node schema = elim (V.get_object_item schema (codes "properties")) [
    | none ↦ valid
    | some props ↦ check_properties check node (required_children schema) (V.children props)
  ]

  unfoldable pub check_items : (J → J → Verdict) → J → List (Option Text × J) → Verdict
  check_items check items [] = valid
  check_items check items ((_, child) ∷ cs) =
      and_also (check child items) (check_items check items cs)

  unfoldable pub validate_array : (J → J → Verdict) → J → J → Verdict
  unfolding check_items
  validate_array check node schema = elim (V.get_object_item schema (codes "items")) [
    | none ↦ valid
    | some items ↦ check_items check items (V.children node)
  ]

  -- What `validate_node` does after the type.
  unfoldable pub check_parts : (J → J → Verdict) → J → J → Verdict
  unfolding validate_object validate_array
  check_parts check node schema =
      if is_object (V.kind node)
      then validate_object check node schema
      else if is_array (V.kind node)
      then validate_array check node schema
      else valid

  unfoldable pub validate_node : ℕ → J → J → Verdict
  unfolding validate_type check_parts
  validate_node zero node schema = out_of_fuel
  validate_node (suc fuel) node schema =
      and_also (validate_type node schema) (check_parts (validate_node fuel) node schema)

  -- Both texts are parsed; then the members of the root are checked, not its type.
  unfoldable pub schema_validate : (Text → Option J) → Text → Text → Verdict
  unfolding validate_object validate_node
  schema_validate parse json_str schema_str = elim (parse json_str) [
    | none ↦ invalid (codes "Invalid JSON")
    | some node ↦ elim (parse schema_str) [
      | none ↦ invalid (codes "Invalid schema JSON")
      | some schema ↦ validate_object (validate_node (V.size schema)) node schema
    ]
  ]
