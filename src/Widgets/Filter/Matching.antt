-- ===== src/Widgets/Filter/Matching.antt =====
-- src/core/widgets/filter.c: the list of `filter_update` against a description of what matches.
use filly.Prelude.{
  ℕ, zero, suc, ◌+◌, ◌≡◌, inl, inr, refl, sym, ap, ◌∙◌, true, some, List, [], ◌∷◌, ◌++◌, map, Text,
  get_elem?, arith, Bool-cases, subst,
}
use filly.CJson.{lower}
use filly.Widgets.Filter.{starts_with, has_word, all_from, matches_from}

-- The word stands in the text, whatever the case of either.
abbrev pub Contains : Text → Text → Type 0
Contains text word =
    (before : Text) × (after : Text) × (map lower text ≡ before ++ (map lower word ++ after))

starts_with→eq :
    (text word : Text) → starts_with text word ≡ true → (after : Text) × (text ≡ word ++ after)
unfolding starts_with
starts_with→eq text [] h = (text, refl)
starts_with→eq [] (c ∷ word) h = cc
starts_with→eq (t ∷ text) (c ∷ word) h =
    let (after, e) = starts_with→eq text word (ground arith) in (after, ground arith)

starts_with-append : (word after : Text) → starts_with (word ++ after) word ≡ true
unfolding starts_with
starts_with-append [] after = refl
starts_with-append (c ∷ word) after = ground (arith, starts_with-append word after)

has_word→eq :
    (text word : Text)
    → has_word text word ≡ true
    → (before : Text) × (after : Text) × (text ≡ before ++ (word ++ after))
unfolding has_word
has_word→eq [] word h = let (after, e) = starts_with→eq [] word h in ([], after, e)
has_word→eq (t ∷ text) word h = elim (Bool-cases (starts_with (t ∷ text) word)) [
  | inl e ↦ let (after, f) = starts_with→eq (t ∷ text) word e in ([], after, f)
  | inr e ↦
      let (before, after, f) = has_word→eq text word (ground arith) in
      (t ∷ before, after, ap (t ∷◌) f)
]

has_word-append : (before word after : Text) → has_word (before ++ (word ++ after)) word ≡ true
unfolding has_word
has_word-append [] word after = at_start (word ++ after) (starts_with-append word after)
  where
    at_start : (text : Text) → starts_with text word ≡ true → has_word text word ≡ true
    at_start [] e = e
    at_start (t ∷ text) e = ground arith
has_word-append (b ∷ before) word after = ground (arith, has_word-append before word after)

-- A list of places of `cs`, counted from `i`: those of the choices that hold the word.
abbrev pub Lists : ℕ → Text → List Text → List ℕ → Type 0
Lists i word cs places =
    ((k p : ℕ)
      → get_elem? places k ≡ some p
      → (j : ℕ) × (c : Text) × (p ≡ i + j) × (get_elem? cs j ≡ some c) × Contains c word)
    × ((j : ℕ) (c : Text)
        → get_elem? cs j ≡ some c
        → Contains c word
        → (k : ℕ) × (get_elem? places k ≡ some (i + j)))

has_word-Contains :
    (c word : Text) → has_word (map lower c) (map lower word) ≡ true → Contains c word
has_word-Contains c word h = has_word→eq (map lower c) (map lower word) h

Contains-has_word :
    (c word : Text) → Contains c word → has_word (map lower c) (map lower word) ≡ true
Contains-has_word c word (before, after, e) = rw e (has_word-append before (map lower word) after)

-- The rest of the places, with a choice in front that is not among them.
Lists-skip :
    (i : ℕ) (word c : Text) (cs : List Text) (places : List ℕ)
    → (Contains c word → ⊥)
    → Lists (i + 1) word cs places
    → Lists i word (c ∷ cs) places
Lists-skip i word c cs places out (sound, complete) = (places_match, matches_placed)
  where
    places_match :
        (k p : ℕ)
        → get_elem? places k ≡ some p
        → (j : ℕ) × (d : Text) × (p ≡ i + j) × (get_elem? (c ∷ cs) j ≡ some d) × Contains d word
    places_match k p e = let (j, d, at, f, g) = sound k p e in (suc j, d, omega arith, f, g)

    matches_placed :
        (j : ℕ) (d : Text)
        → get_elem? (c ∷ cs) j ≡ some d
        → Contains d word
        → (k : ℕ) × (get_elem? places k ≡ some (i + j))
    matches_placed zero d e g =
        let same : c ≡ d = cc in absurd (out (subst (λ x. Contains x word) (sym same) g))
    matches_placed (suc j) d e g = let (k, at) = complete j d e g in (k, at ∙ ap some (omega arith))

-- With a choice in front that is the first of them.
Lists-take :
    (i : ℕ) (word c : Text) (cs : List Text) (places : List ℕ)
    → Contains c word
    → Lists (i + 1) word cs places
    → Lists i word (c ∷ cs) (i ∷ places)
Lists-take i word c cs places here (sound, complete) = (places_match, matches_placed)
  where
    places_match :
        (k p : ℕ)
        → get_elem? (i ∷ places) k ≡ some p
        → (j : ℕ) × (d : Text) × (p ≡ i + j) × (get_elem? (c ∷ cs) j ≡ some d) × Contains d word
    places_match zero p e = let same : i ≡ p = cc in (zero, c, omega arith, refl, here)
    places_match (suc k) p e = let (j, d, at, f, g) = sound k p e in (suc j, d, omega arith, f, g)

    matches_placed :
        (j : ℕ) (d : Text)
        → get_elem? (c ∷ cs) j ≡ some d
        → Contains d word
        → (k : ℕ) × (get_elem? (i ∷ places) k ≡ some (i + j))
    matches_placed zero d e g = (zero, ap some (omega arith))
    matches_placed (suc j) d e g =
        let (k, at) = complete j d e g in (suc k, at ∙ ap some (omega arith))

Lists-nil : (i : ℕ) (word : Text) → Lists i word [] []
Lists-nil i word = (λ k p e. cc, λ j c e g. cc)

pub matches_from-Lists :
    (i : ℕ) (word : Text) (cs : List Text) → Lists i word cs (matches_from i (map lower word) cs)
unfolding matches_from
matches_from-Lists i word [] = Lists-nil i word
matches_from-Lists i word (c ∷ cs) = elim (Bool-cases (has_word (map lower c) (map lower word))) [
  | inl e ↦ rw e (
      Lists-take i word c cs (matches_from (i + 1) (map lower word) cs) (has_word-Contains c word e)
        (matches_from-Lists (i + 1) word cs))
  | inr e ↦ rw e (
      Lists-skip i word c cs (matches_from (i + 1) (map lower word) cs)
        (λ g. let f = Contains-has_word c word g in cc) (matches_from-Lists (i + 1) word cs))
]

pub all_from-Lists : (i : ℕ) (cs : List Text) → Lists i [] cs (all_from i cs)
unfolding all_from
all_from-Lists i [] = Lists-nil i []
all_from-Lists i (c ∷ cs) =
    Lists-take i [] c cs (all_from (i + 1) cs) ([], map lower c, refl) (all_from-Lists (i + 1) cs)
