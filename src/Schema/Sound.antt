-- ===== src/Schema/Sound.antt =====
-- src/protocol/schema.c: the validator accepts what conforms to the schema, and nothing else.
use filly.Prelude.{
  ℕ, zero, suc, ◌<◌, ◌≡◌, ◌↔◌, inl, inr, refl, true, Option, some, Text, codes, get_elem?, arith,
  Option-cases, if◌then◌else◌,
}
use filly.Schema.{
  Kind, object_kind, array_kind, Values, IsFinite, Verdict, valid, is_array, is_object, item_text,
  validate_type, get_item, required_children, validate_object, validate_array, check_parts,
  validate_node, schema_validate,
}
use filly.Schema.Spec.{HasType, IsProperty, HasRequired, Conforms, conforms, RootConforms}
use filly.Schema.Loops.{
  and_also-eq-valid, check_type-IsOfType, IsOfType-check_type, check_properties-Checks,
  Checks-check_properties, check_items-ChecksItems, ChecksItems-check_items,
}

module _ {J : Type 0} (V : Values J) where
  validate_type-HasType : (v s : J) → validate_type V v s ≡ valid → HasType V v s
  unfolding validate_type
  validate_type-HasType v s h type e =
      check_type-IsOfType type (V.kind v) (rw (e, validate_type) at h)

  HasType-validate_type : (v s : J) → HasType V v s → validate_type V v s ≡ valid
  unfolding validate_type
  HasType-validate_type v s h = elim (Option-cases (item_text V s (codes "type"))) [
    | inl e ↦ rw (e, validate_type)
    | inr (type, e) ↦ rw (e, validate_type) (IsOfType-check_type type (V.kind v) (h type e))
  ]

  -- What `validate_object` makes sure of.
  abbrev ChecksObject : (J → J → Verdict) → J → J → Type 0
  ChecksObject check v s =
      HasRequired V v s
      × ((key : Option Text) (child x : J)
          → IsProperty V s key child
          → get_item V v key ≡ some x
          → check x child ≡ valid)

  validate_object-ChecksObject :
      (check : J → J → Verdict) (v s : J)
      → validate_object V check v s ≡ valid
      → ChecksObject check v s
  unfolding validate_object
  validate_object-ChecksObject check v s h = (
    λ key child (props, i, e, at) lacks.
        (check_properties-Checks V check v (required_children V s) (V.children props)
            (rw (e, validate_object) at h) i key child at).0
          lacks,
    λ key child x (props, i, e, at) has.
        (check_properties-Checks V check v (required_children V s) (V.children props)
            (rw (e, validate_object) at h) i key child at).1
          x has,
  )

  ChecksObject-validate_object :
      (check : J → J → Verdict) (v s : J)
      → ChecksObject check v s
      → validate_object V check v s ≡ valid
  unfolding validate_object
  ChecksObject-validate_object check v s (required, kept) =
      elim (Option-cases (V.get_object_item s (codes "properties"))) [
        | inl e ↦ rw (e, validate_object)
        | inr (props, e) ↦
            rw (e, validate_object)
              (Checks-check_properties V check v (required_children V s) (V.children props)
                (λ i key child at.
                  (required key child (props, i, e, at), λ x. kept key child x (props, i, e, at))))
      ]

  -- What `validate_array` makes sure of.
  abbrev ChecksArray : (J → J → Verdict) → J → J → Type 0
  ChecksArray check v s =
      (items : J) (i : ℕ) (n : Option Text) (x : J)
      → V.get_object_item s (codes "items") ≡ some items
      → get_elem? (V.children v) i ≡ some (n, x)
      → check x items ≡ valid

  validate_array-ChecksArray :
      (check : J → J → Verdict) (v s : J)
      → validate_array V check v s ≡ valid
      → ChecksArray check v s
  unfolding validate_array
  validate_array-ChecksArray check v s h items i n x e at =
      check_items-ChecksItems V check items (V.children v) (rw (e, validate_array) at h) i n x at

  ChecksArray-validate_array :
      (check : J → J → Verdict) (v s : J)
      → ChecksArray check v s
      → validate_array V check v s ≡ valid
  unfolding validate_array
  ChecksArray-validate_array check v s h =
      elim (Option-cases (V.get_object_item s (codes "items"))) [
        | inl e ↦ rw (e, validate_array)
        | inr (items, e) ↦
            rw (e, validate_array)
              (ChecksItems-check_items V check items (V.children v) (λ i n x. h items i n x e))
      ]

  -- What `validate_node` makes sure of, given its own calls.
  abbrev ChecksParts : (J → J → Verdict) → J → J → Type 0
  ChecksParts check v s =
      (is_object (V.kind v) ≡ true → ChecksObject check v s)
      × (is_array (V.kind v) ≡ true → ChecksArray check v s)

  parts-ChecksParts :
      (check : J → J → Verdict) (v s : J) → check_parts V check v s ≡ valid → ChecksParts check v s
  unfolding check_parts
  parts-ChecksParts check v s h = by_kind (V.kind v) h
    where
      by_kind :
          (k : Kind)
          → (if is_object k
              then validate_object V check v s
              else if is_array k
              then validate_array V check v s
              else valid)
            ≡ valid
          → (is_object k ≡ true → ChecksObject check v s)
            × (is_array k ≡ true → ChecksArray check v s)
      by_kind object_kind h = (λ _. validate_object-ChecksObject check v s h, λ e. cc)
      by_kind array_kind h = (λ e. cc, λ _. validate_array-ChecksArray check v s h)
      by_kind _ h = (λ e. cc, λ e. cc)

  ChecksParts-parts :
      (check : J → J → Verdict) (v s : J) → ChecksParts check v s → check_parts V check v s ≡ valid
  unfolding check_parts
  ChecksParts-parts check v s (object, array) = by_kind (V.kind v) object array
    where
      by_kind :
          (k : Kind)
          → (is_object k ≡ true → ChecksObject check v s)
          → (is_array k ≡ true → ChecksArray check v s)
          → (if is_object k
              then validate_object V check v s
              else if is_array k
              then validate_array V check v s
              else valid)
            ≡ valid
      by_kind object_kind o a = ChecksObject-validate_object check v s (o refl)
      by_kind array_kind o a = ChecksArray-validate_array check v s (a refl)
      by_kind _ o a = refl

  validate_node-Conforms : (fuel : ℕ) (v s : J) → validate_node V fuel v s ≡ valid → Conforms V v s
  unfolding validate_node
  validate_node-Conforms zero v s h = cc
  validate_node-Conforms (suc fuel) v s h =
      let (typed, rest) = and_also-eq-valid _ _ h in
      let (object, array) = parts-ChecksParts (validate_node V fuel) v s rest in
      conforms (validate_type-HasType v s typed) (λ o. (object o).0)
        (λ o key child x p e. validate_node-Conforms fuel x child ((object o).1 key child x p e))
        (λ a items i n x e at. validate_node-Conforms fuel x items (array a items i n x e at))

  pub property_smaller :
      IsFinite V
      → (s : J) (key : Option Text) (child : J) → IsProperty V s key child
      → V.size child < V.size s
  property_smaller finite s key child (props, i, e, at) = omega (
    arith,
    finite.child_smaller props i key child at,
    finite.item_smaller s (codes "properties") props e,
  )

  Conforms-validate_node :
      IsFinite V
      → (fuel : ℕ) (v s : J) → V.size s < fuel
      → Conforms V v s
      → validate_node V fuel v s ≡ valid
  unfolding validate_node
  Conforms-validate_node finite zero v s h c = absurd (omega arith)
  Conforms-validate_node finite (suc fuel) v s h (conforms typed required object array) = rw (
    HasType-validate_type v s typed,
    ChecksParts-parts (validate_node V fuel) v s (
      λ o. (
        required o,
        λ key child x p e.
            Conforms-validate_node finite fuel x child
              (omega (arith, property_smaller finite s key child p)) (object o key child x p e),
      ),
      λ a items i n x e at.
          Conforms-validate_node finite fuel x items
            (omega (arith, finite.item_smaller s (codes "items") items e))
            (array a items i n x e at),
    ),
  )

-- Over values that are finite trees, a message is accepted exactly if both texts are JSON, each
-- property of the schema that the message lacks is one that the schema does not require, and each that
-- it has conforms to its part of the schema, at all depths. The type of the message itself is not
-- looked at, nor a required name that is not among the properties.
pub schema_validate-RootConforms :
    {J : Type 0} (V : Values J) (finite : IsFinite V) (parse : Text → Option J)
    (json_str schema_str : Text)
    → (schema_validate V parse json_str schema_str ≡ valid) ↔ (
        (v : J) × (s : J) × (parse json_str ≡ some v)
        × (parse schema_str ≡ some s)
        × RootConforms V v s)
unfolding schema_validate
schema_validate-RootConforms {J} V finite parse json_str schema_str = (accepted, accepts)
  where
    accepted :
        schema_validate V parse json_str schema_str ≡ valid
        → (v : J) × (s : J) × (parse json_str ≡ some v)
          × (parse schema_str ≡ some s)
          × RootConforms V v s
    accepted h = elim (Option-cases (parse json_str)) [
      | inl e ↦ absurd (ground (arith, h))
      | inr (v, e) ↦ elim (Option-cases (parse schema_str)) [
        | inl f ↦ absurd (ground (arith, h))
        | inr (s, f) ↦
            let (required, kept) =
              validate_object-ChecksObject V (validate_node V (V.size s)) v s
                (rw (e, f, schema_validate) at h) in
            (
              v,
              s,
              e,
              f,
              (
                required,
                λ key child x p g.
                    validate_node-Conforms V (V.size s) x child (kept key child x p g),
              ),
            )
      ]
    ]

    accepts :
        ((v : J) × (s : J) × (parse json_str ≡ some v)
          × (parse schema_str ≡ some s)
          × RootConforms V v s)
        → schema_validate V parse json_str schema_str ≡ valid
    accepts (v, s, e, f, (required, kept)) =
        rw (e, f, schema_validate)
          (ChecksObject-validate_object V (validate_node V (V.size s)) v s (
            required,
            λ key child x p g.
                Conforms-validate_node V finite (V.size s) x child
                  (property_smaller V finite s key child p) (kept key child x p g),
          ))
