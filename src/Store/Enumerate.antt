-- ===== src/Store/Enumerate.antt =====
-- The loop `int i = 0; while (store_enum(s, &i, &key, &value)) …` of the clients of store.c.
use filly.Prelude.{
  ℕ, zero, suc, ◌+◌, ◌≡◌, ◌<◌, ◌≤◌, refl, Option, none, some, List, [], ◌∷◌, Text, arith, map,
  length, get_elem?, drop, inl, inr, Option-cases,
}
use native.Mathlib.Numerals.{add-one}
use filly.Store.{Entry, Store, store_enum}

-- The pairs that the loop sees, on fuel, with the answer that ended it.
unfoldable pub enumerate : ℕ → Option Store → ℕ → Option (List (Text × Text))
enumerate zero s idx = none
enumerate (suc fuel) s idx = elim (store_enum s idx).0 [
  | none ↦ some []
  | some p ↦ elim (enumerate fuel s (store_enum s idx).1) [ none ↦ none | some ps ↦ some (p ∷ ps) ]
]

abbrev pub pairs : List Entry → List (Text × Text)
pairs = map (λ (e : Entry). (e.key, e.value))

get_elem?-drop : (es : List Entry) (i : ℕ) → get_elem? es i ≡ none → drop i es ≡ []
get_elem?-drop [] zero h = refl
get_elem?-drop [] (suc i) h = refl
get_elem?-drop (e ∷ es) zero h = cc
get_elem?-drop (e ∷ es) (suc i) h = get_elem?-drop es i h

drop-suc :
    (es : List Entry) (i : ℕ) {e : Entry}
    → get_elem? es i ≡ some e
    → drop i es ≡ e ∷ drop (suc i) es
drop-suc [] i h = cc
drop-suc (x ∷ es) zero h = cc
drop-suc (x ∷ es) (suc i) h = drop-suc es i h

drop_step :
    (es : List Entry) (i : ℕ) {e : Entry}
    → get_elem? es i ≡ some e
    → drop i es ≡ e ∷ drop (i + 1) es
drop_step es i h = rw add-one (drop-suc es i h)

get_elem?_lt : (es : List Entry) (i : ℕ) {e : Entry} → get_elem? es i ≡ some e → i < length es
get_elem?_lt [] i h = cc
get_elem?_lt (x ∷ es) zero h = omega arith
get_elem?_lt (x ∷ es) (suc i) h = omega (arith, get_elem?_lt es i h)

module _ (fuel : ℕ) (s : Store) (idx : ℕ) where
  enumerate_stop : get_elem? s.entries idx ≡ none → enumerate (suc fuel) (some s) idx ≡ some []
  unfolding enumerate store_enum
  enumerate_stop h = ground arith

  enumerate_next :
      {e : Entry} {ps : List (Text × Text)}
      → get_elem? s.entries idx ≡ some e
      → enumerate fuel (some s) (idx + 1) ≡ some ps
      → enumerate (suc fuel) (some s) idx ≡ some ((e.key, e.value) ∷ ps)
  unfolding enumerate store_enum
  enumerate_next h k = ground arith

enumerate_from :
    (fuel : ℕ) (s : Store) (idx : ℕ)
    → idx ≤ length s.entries
    → length s.entries < fuel + idx
    → enumerate fuel (some s) idx ≡ some (pairs (drop idx s.entries))
enumerate_from zero s idx b h = absurd (omega arith)
enumerate_from (suc fuel) s idx b h = elim (Option-cases (get_elem? s.entries idx)) [
  | inl e ↦ rw (get_elem?-drop s.entries idx e) (enumerate_stop fuel s idx e)
  | inr (x, e) ↦ rw (drop_step s.entries idx e) (
      enumerate_next fuel s idx e (
        enumerate_from fuel s (idx + 1) (omega (arith, get_elem?_lt s.entries idx e))
          (omega arith)))
]

-- The loop ends after one round more than there are entries, and has seen every entry once, from
-- the newest to the oldest.
pub enumerate_all :
    (s : Store) → enumerate (suc (length s.entries)) (some s) 0 ≡ some (pairs s.entries)
enumerate_all s = enumerate_from (suc (length s.entries)) s 0 (omega arith) (omega arith)
