-- ===== src/CJson.antt =====
-- The calls of cJSON (src/cJSON.c, a copy of another project) that the modelled code makes, as an
-- interface over a type `J` of JSON values. A value is what cJSON reads back after printing it: so the
-- `valueint` of a Boolean is 0 or 1.
pub mod Tree
use filly.Prelude.{
  ℕ, ◌+◌, ◌≤◌, ◌≡◌, Bool, true, false, ◌&&◌, Option, none, some, List, [], ◌∷◌, ◌++◌, map, Text,
  leb, text_eq, if◌then◌else◌,
}
use filly.Prelude.Int.{ℤ, pos, negsuc}

-- `tolower`
unfoldable pub lower : ℕ → ℕ
lower c = if leb b'A' c && leb c b'Z' then c + 32 else c

-- cJSON compares the names of members without regard to case.
unfoldable pub same_name : Text → Text → Bool
unfolding lower text_eq
same_name a b = text_eq (map lower a) (map lower b)

-- The first member of a name.
unfoldable pub find_member {ℓ} : {J : Type ℓ} → Text → List (Text × J) → Option J
unfolding same_name
find_member name [] = none
find_member name ((n, v) ∷ ms) =
    let rest = find_member name ms in if same_name name n then some v else rest

-- A double as an `int`: `valueint` stops at the ends of the range.
unfoldable pub saturate : ℤ → ℤ
saturate (pos n) = if leb n 2147483647 then pos n else pos 2147483647
saturate (negsuc n) = if leb n 2147483647 then negsuc n else negsuc 2147483647

pub record CJson (J : Type 0) : Type 0 where
  -- `cJSON_CreateObject`, with a `cJSON_Add…ToObject` for each member.
  pub create_object : List (Text × J) → J
  -- `cJSON_CreateArray`, with a `cJSON_AddItemToArray` for each item.
  pub create_array : List J → J
  pub create_number : ℤ → J
  pub create_string : Text → J
  pub create_bool : Bool → J
  pub get_object_item : J → Text → Option J
  pub valueint : J → ℤ
  -- The field `valuestring`, which is null unless the value is a string.
  pub valuestring : J → Option Text
  -- The items, if `cJSON_IsArray`.
  pub array_items : J → Option (List J)
  pub print_unformatted : J → Text
  pub parse : Text → Option J

-- What the code relies on.
pub record IsLawful {J : Type 0} (C : CJson J) : Type 0 where
  pub get_object_item-create :
      (members : List (Text × J)) (name : Text)
      → C.get_object_item (C.create_object members) name ≡ find_member name members
  pub valueint-number : (n : ℤ) → C.valueint (C.create_number n) ≡ saturate n
  pub valueint-bool : (b : Bool) → C.valueint (C.create_bool b) ≡ (if b then pos 1 else pos 0)
  pub valuestring-string : (s : Text) → C.valuestring (C.create_string s) ≡ some s
  pub array_items-create : (items : List J) → C.array_items (C.create_array items) ≡ some items
