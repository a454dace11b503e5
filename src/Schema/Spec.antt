-- ===== src/Schema/Spec.antt =====
-- src/protocol/schema.c: what it means that a value conforms to a schema, apart from the code.
use filly.Prelude.{ℕ, ◌≡◌, ◌≢◌, true, Option, none, some, List, Text, codes, get_elem?}
use filly.Schema.{
  Kind, Values, is_bool, is_number, is_string, is_array, is_object, item_text, get_item,
  required_children,
}

-- A type that a schema may name, and the kinds that it stands for.
abbrev pub IsOfType : Text → Kind → Type 0
IsOfType type kind =
    (type ≡ codes "string" → is_string kind ≡ true)
    × (type ≡ codes "number" → is_number kind ≡ true)
    × (type ≡ codes "boolean" → is_bool kind ≡ true)
    × (type ≡ codes "object" → is_object kind ≡ true)
    × (type ≡ codes "array" → is_array kind ≡ true)

module _ {J : Type 0} (V : Values J) where
  abbrev pub HasType : J → J → Type 0
  HasType v s = (type : Text) → item_text V s (codes "type") ≡ some type → IsOfType type (V.kind v)

  -- No property of this name, or without a name, is asked for.
  abbrev pub IsOptional : Option Text → List (Option Text × J) → Type 0
  IsOptional key reqs =
      (i : ℕ) (n : Option Text) (req : J) (name : Text)
      → get_elem? reqs i ≡ some (n, req)
      → V.valuestring req ≡ some name
      → (key ≢ none) × (key ≢ some name)

  -- The property at a place of the schema's `properties`.
  abbrev pub IsProperty : J → Option Text → J → Type 0
  IsProperty s key child =
      (props : J) × (i : ℕ) × (V.get_object_item s (codes "properties") ≡ some props)
      × (get_elem? (V.children props) i ≡ some (key, child))

  -- Each property that the value lacks is optional.
  abbrev pub HasRequired : J → J → Type 0
  HasRequired v s =
      (key : Option Text) (child : J)
      → IsProperty s key child
      → get_item V v key ≡ none
      → IsOptional key (required_children V s)

  pub data Conforms : J → J → Type 0 where
    conforms :
        {v s : J}
        → HasType v s
        → (is_object (V.kind v) ≡ true → HasRequired v s)
        → (is_object (V.kind v) ≡ true
            → (key : Option Text) (child x : J) → IsProperty s key child
            → get_item V v key ≡ some x
            → Conforms x child)
        → (is_array (V.kind v) ≡ true
            → (items : J) (i : ℕ) (n : Option Text) (x : J)
            → V.get_object_item s (codes "items") ≡ some items
            → get_elem? (V.children v) i ≡ some (n, x)
            → Conforms x items)
        → Conforms v s

  -- What is asked of the root: its members conform, whatever its type.
  abbrev pub RootConforms : J → J → Type 0
  RootConforms v s =
      HasRequired v s
      × ((key : Option Text) (child x : J)
          → IsProperty s key child
          → get_item V v key ≡ some x
          → Conforms x child)
