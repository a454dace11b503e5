-- ===== src/Schema/Loops.antt =====
-- src/protocol/schema.c: what a type, a list of required names and each loop accept.
use filly.Prelude.{
  ℕ, zero, suc, ◌≡◌, ◌≢◌, inl, inr, refl, subst, Option, none, some, List, [], ◌∷◌, Text, codes,
  text_eq_iff, get_elem?, arith, Option-cases,
}
use filly.Schema.{
  Kind, Values, Verdict, valid, null_name, out_of_fuel, invalid, and_also, check_type, get_item,
  check_name, check_required, check_properties, check_items,
}
use filly.Schema.Spec.{IsOfType, IsOptional}

pub and_also-eq-valid : (a b : Verdict) → and_also a b ≡ valid → (a ≡ valid) × (b ≡ valid)
and_also-eq-valid valid b h = (refl, h)
and_also-eq-valid null_name b h = cc
and_also-eq-valid out_of_fuel b h = cc
and_also-eq-valid (invalid m) b h = cc

pub check_type-IsOfType :
    (type : Text) (kind : Kind) → check_type type kind ≡ valid → IsOfType type kind
unfolding check_type
check_type-IsOfType type kind h = ground (
  arith,
  text_eq_iff type (codes "string"),
  text_eq_iff type (codes "number"),
  text_eq_iff type (codes "boolean"),
  text_eq_iff type (codes "object"),
  text_eq_iff type (codes "array"),
)

pub IsOfType-check_type :
    (type : Text) (kind : Kind) → IsOfType type kind → check_type type kind ≡ valid
unfolding check_type
IsOfType-check_type type kind h = ground (
  arith,
  text_eq_iff type (codes "string"),
  text_eq_iff type (codes "number"),
  text_eq_iff type (codes "boolean"),
  text_eq_iff type (codes "object"),
  text_eq_iff type (codes "array"),
)

check_name-valid :
    (key o : Option Text) (rest : Verdict)
    → check_name key o rest ≡ valid
    → (rest ≡ valid) × ((name : Text) → o ≡ some name → (key ≢ none) × (key ≢ some name))
unfolding check_name
check_name-valid key none rest h = (h, λ name e. cc)
check_name-valid none (some n) rest h = cc
check_name-valid (some k) (some n) rest h =
    (ground (arith, text_eq_iff n k), λ name e. (λ p. cc, λ p. ground (arith, text_eq_iff n k)))

valid-check_name :
    (key o : Option Text) (rest : Verdict)
    → rest ≡ valid
    → ((name : Text) → o ≡ some name → (key ≢ none) × (key ≢ some name))
    → check_name key o rest ≡ valid
unfolding check_name
valid-check_name key none rest h k = h
valid-check_name none (some n) rest h k = absurd ((k n refl).0 refl)
valid-check_name (some k) (some n) rest h f = ground (arith, text_eq_iff n k, f n refl)

module _ {J : Type 0} (V : Values J) where
  check_required-IsOptional :
      (key : Option Text) (reqs : List (Option Text × J))
      → check_required V key reqs ≡ valid
      → IsOptional V key reqs
  unfolding check_required
  check_required-IsOptional key [] h _ n req name at e = cc
  check_required-IsOptional key ((m, r) ∷ reqs) h zero n req name at e =
      (check_name-valid key (V.valuestring r) (check_required V key reqs) h).1 name cc
  check_required-IsOptional key ((m, r) ∷ reqs) h (suc i) n req name at e =
      let rest = (check_name-valid key (V.valuestring r) (check_required V key reqs) h).0 in
      check_required-IsOptional key reqs rest i n req name at e

  IsOptional-check_required :
      (key : Option Text) (reqs : List (Option Text × J))
      → IsOptional V key reqs
      → check_required V key reqs ≡ valid
  unfolding check_required
  IsOptional-check_required key [] h = refl
  IsOptional-check_required key ((m, r) ∷ reqs) h =
      valid-check_name key (V.valuestring r) (check_required V key reqs)
        (IsOptional-check_required key reqs (λ i. h (suc i))) (λ name. h 0 m r name refl)

  -- What the loop over the properties makes sure of, for one of them.
  abbrev pub One : (J → J → Verdict) → J → List (Option Text × J) → Option Text → J → Type 0
  One check v reqs key child =
      (get_item V v key ≡ none → IsOptional V key reqs)
      × ((x : J) → get_item V v key ≡ some x → check x child ≡ valid)

  abbrev first : (J → J → Verdict) → List (Option Text × J) → Option Text → J → Option J → Verdict
  first check reqs key child none = check_required V key reqs
  first check reqs key child (some x) = check x child

  first-One :
      (check : J → J → Verdict) (v : J) (reqs : List (Option Text × J)) (key : Option Text)
      (child : J)
      → first check reqs key child (get_item V v key) ≡ valid
      → One check v reqs key child
  first-One check v reqs key child h = elim (Option-cases (get_item V v key)) [
    | inl e ↦ (λ _. check_required-IsOptional key reqs (rw e at h), λ x f. cc)
    | inr (x, e) ↦ (λ f. cc, λ y f. ground (arith, h))
  ]

  One-first :
      (check : J → J → Verdict) (v : J) (reqs : List (Option Text × J)) (key : Option Text)
      (child : J)
      → One check v reqs key child
      → first check reqs key child (get_item V v key) ≡ valid
  One-first check v reqs key child (optional, kept) = elim (Option-cases (get_item V v key)) [
    | inl e ↦ rw e (IsOptional-check_required key reqs (optional e))
    | inr (x, e) ↦ rw e (kept x e)
  ]

  -- What the loop over the properties makes sure of.
  abbrev pub Checks :
      (J → J → Verdict) → J → List (Option Text × J) → List (Option Text × J) → Type 0
  Checks check v reqs cs =
      (i : ℕ) (key : Option Text) (child : J)
      → get_elem? cs i ≡ some (key, child)
      → One check v reqs key child

  pub check_properties-Checks :
      (check : J → J → Verdict) (v : J) (reqs cs : List (Option Text × J))
      → check_properties V check v reqs cs ≡ valid
      → Checks check v reqs cs
  unfolding check_properties
  check_properties-Checks check v reqs [] h _ key child at = cc
  check_properties-Checks check v reqs ((k, c) ∷ cs) h zero key child at =
      let e : ◌≡◌ {A = Option Text × J} (k, c) (key, child) = cc in
      subst (λ (p : Option Text × J). One check v reqs p.0 p.1) e
        (first-One check v reqs k c (and_also-eq-valid _ _ h).0)
  check_properties-Checks check v reqs ((k, c) ∷ cs) h (suc i) key child at =
      check_properties-Checks check v reqs cs (and_also-eq-valid _ _ h).1 i key child at

  pub Checks-check_properties :
      (check : J → J → Verdict) (v : J) (reqs cs : List (Option Text × J))
      → Checks check v reqs cs
      → check_properties V check v reqs cs ≡ valid
  unfolding check_properties
  Checks-check_properties check v reqs [] h = refl
  Checks-check_properties check v reqs ((k, c) ∷ cs) h = rw (
    One-first check v reqs k c (h 0 k c refl),
    Checks-check_properties check v reqs cs (λ i. h (suc i)),
  )

  -- What the loop over the items makes sure of.
  abbrev pub ChecksItems : (J → J → Verdict) → J → List (Option Text × J) → Type 0
  ChecksItems check items cs =
      (i : ℕ) (n : Option Text) (x : J) → get_elem? cs i ≡ some (n, x) → check x items ≡ valid

  pub check_items-ChecksItems :
      (check : J → J → Verdict) (items : J) (cs : List (Option Text × J))
      → check_items V check items cs ≡ valid
      → ChecksItems check items cs
  unfolding check_items
  check_items-ChecksItems check items [] h _ n x at = cc
  check_items-ChecksItems check items ((m, c) ∷ cs) h zero n x at =
      let e : c ≡ x = cc in subst (λ (y : J). check y items ≡ valid) e (and_also-eq-valid _ _ h).0
  check_items-ChecksItems check items ((m, c) ∷ cs) h (suc i) n x at =
      check_items-ChecksItems check items cs (and_also-eq-valid _ _ h).1 i n x at

  pub ChecksItems-check_items :
      (check : J → J → Verdict) (items : J) (cs : List (Option Text × J))
      → ChecksItems check items cs
      → check_items V check items cs ≡ valid
  unfolding check_items
  ChecksItems-check_items check items [] h = refl
  ChecksItems-check_items check items ((m, c) ∷ cs) h =
      rw (h 0 m c refl, ChecksItems-check_items check items cs (λ i. h (suc i)))
