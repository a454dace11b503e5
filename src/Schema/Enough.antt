-- ===== src/Schema/Enough.antt =====
-- src/protocol/schema.c: the validator comes to its end, with a verdict.
use filly.Prelude.{
  ℕ, zero, suc, ◌<◌, ◌≡◌, ◌≢◌, inl, inr, refl, Option, none, some, List, [], ◌∷◌, Text, codes,
  text_eq, get_elem?, arith, Option-cases, if_both,
}
use filly.Schema.{
  Kind, Values, IsFinite, Verdict, valid, null_name, out_of_fuel, invalid, and_also, check_type,
  item_text, validate_type, get_item, check_name, check_required, required_children,
  check_properties, validate_object, check_items, validate_array, check_parts, validate_node,
  schema_validate, is_object, is_array,
}
use filly.Schema.Sound.{property_smaller}

-- A verdict, and not the end of the fuel.
abbrev pub IsVerdict : Verdict → Type 0
IsVerdict v = v ≢ out_of_fuel

and_also-IsVerdict : (a b : Verdict) → IsVerdict a → IsVerdict b → IsVerdict (and_also a b)
and_also-IsVerdict valid b h k = k
and_also-IsVerdict null_name b h k = (λ e. cc)
and_also-IsVerdict out_of_fuel b h k = h
and_also-IsVerdict (invalid m) b h k = (λ e. cc)

check_type-IsVerdict : (type : Text) (kind : Kind) → IsVerdict (check_type type kind)
unfolding check_type
check_type-IsVerdict type kind = ground arith

check_name-IsVerdict :
    (key o : Option Text) (rest : Verdict) → IsVerdict rest → IsVerdict (check_name key o rest)
unfolding check_name
check_name-IsVerdict key none rest h = h
check_name-IsVerdict none (some name) rest h = (λ e. cc)
check_name-IsVerdict (some k) (some name) rest h = if_both IsVerdict (text_eq name k) (λ e. cc) h

module _ {J : Type 0} (V : Values J) where
  validate_type-IsVerdict : (v s : J) → IsVerdict (validate_type V v s)
  unfolding validate_type
  validate_type-IsVerdict v s = by_type (item_text V s (codes "type"))
    where
      by_type :
          (o : Option Text)
          → IsVerdict
              (elim o as (λ _. Verdict) [ none ↦ valid | some type ↦ check_type type (V.kind v) ])
      by_type none = (λ e. cc)
      by_type (some type) = check_type-IsVerdict type (V.kind v)

  check_required-IsVerdict :
      (key : Option Text) (reqs : List (Option Text × J)) → IsVerdict (check_required V key reqs)
  unfolding check_required
  check_required-IsVerdict key [] = (λ e. cc)
  check_required-IsVerdict key ((m, r) ∷ reqs) =
      check_name-IsVerdict key (V.valuestring r) (check_required V key reqs)
        (check_required-IsVerdict key reqs)

  check_properties-IsVerdict :
      (check : J → J → Verdict) (v : J) (reqs cs : List (Option Text × J))
      → ((i : ℕ) (key : Option Text) (child x : J)
          → get_elem? cs i ≡ some (key, child)
          → IsVerdict (check x child))
      → IsVerdict (check_properties V check v reqs cs)
  unfolding check_properties
  check_properties-IsVerdict check v reqs [] h = (λ e. cc)
  check_properties-IsVerdict check v reqs ((k, c) ∷ cs) h =
      and_also-IsVerdict (first (get_item V v k)) _ (ends (get_item V v k))
        (check_properties-IsVerdict check v reqs cs (λ i. h (suc i)))
    where
      first : Option J → Verdict
      first o = elim o [ none ↦ check_required V k reqs | some x ↦ check x c ]

      ends : (o : Option J) → IsVerdict (first o)
      ends none = check_required-IsVerdict k reqs
      ends (some x) = h 0 k c x refl

  check_items-IsVerdict :
      (check : J → J → Verdict) (items : J) (cs : List (Option Text × J))
      → ((x : J) → IsVerdict (check x items))
      → IsVerdict (check_items V check items cs)
  unfolding check_items
  check_items-IsVerdict check items [] h = (λ e. cc)
  check_items-IsVerdict check items ((m, c) ∷ cs) h =
      and_also-IsVerdict (check c items) _ (h c) (check_items-IsVerdict check items cs h)

  module _ (finite : IsFinite V) (check : J → J → Verdict) (s : J)
      (smaller : (x child : J) → V.size child < V.size s → IsVerdict (check x child)) where
    validate_object-IsVerdict : (v : J) → IsVerdict (validate_object V check v s)
    unfolding validate_object
    validate_object-IsVerdict v = elim (Option-cases (V.get_object_item s (codes "properties"))) [
      | inl e ↦ rw (e, validate_object) (λ e. cc)
      | inr (props, e) ↦
          rw (e, validate_object)
            (check_properties-IsVerdict check v (required_children V s) (V.children props)
              (λ i key child x at.
                smaller x child (property_smaller V finite s key child (props, i, e, at))))
    ]

    validate_array-IsVerdict : (v : J) → IsVerdict (validate_array V check v s)
    unfolding validate_array
    validate_array-IsVerdict v = elim (Option-cases (V.get_object_item s (codes "items"))) [
      | inl e ↦ rw (e, validate_array) (λ e. cc)
      | inr (items, e) ↦
          rw (e, validate_array)
            (check_items-IsVerdict check items (V.children v)
              (λ x. smaller x items (finite.item_smaller s (codes "items") items e)))
    ]

  validate_node-IsVerdict :
      IsFinite V → (fuel : ℕ) (v s : J) → V.size s < fuel → IsVerdict (validate_node V fuel v s)
  unfolding validate_node check_parts
  validate_node-IsVerdict finite zero v s h = absurd (omega arith)
  validate_node-IsVerdict finite (suc fuel) v s h =
      let below = λ (x child : J) (k : V.size child < V.size s).
        validate_node-IsVerdict finite fuel x child (omega arith) in
      and_also-IsVerdict (validate_type V v s) _ (validate_type-IsVerdict v s) (
        if_both IsVerdict (is_object (V.kind v))
          (validate_object-IsVerdict finite (validate_node V fuel) s below v)
          (if_both IsVerdict (is_array (V.kind v))
            (validate_array-IsVerdict finite (validate_node V fuel) s below v) (λ e. cc)))

-- The validation of any two texts comes to an end with a verdict.
pub schema_validate-IsVerdict :
    {J : Type 0} (V : Values J) (finite : IsFinite V) (parse : Text → Option J)
    (json_str schema_str : Text)
    → IsVerdict (schema_validate V parse json_str schema_str)
unfolding schema_validate
schema_validate-IsVerdict {J} V finite parse json_str schema_str =
    elim (Option-cases (parse json_str)) [
      | inl e ↦ rw (e, schema_validate) (λ e. cc)
      | inr (v, e) ↦ elim (Option-cases (parse schema_str)) [
        | inl f ↦ rw (e, f, schema_validate) (λ e. cc)
        | inr (s, f) ↦
            rw (e, f, schema_validate)
              (validate_object-IsVerdict V finite (validate_node V (V.size s)) s
                (λ x child. validate_node-IsVerdict V finite (V.size s) x child) v)
      ]
    ]
