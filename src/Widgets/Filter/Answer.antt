-- ===== src/Widgets/Filter/Answer.antt =====
-- src/core/widgets/filter.c: what Enter answers after a rendering.
use filly.Prelude.{
  ℕ, zero, suc, ◌+◌, ◌<◌, ◌≡◌, ◌⊎◌, inl, inr, refl, sym, ap, ◌∙◌, false, some, List, [], ◌∷◌, map,
  Text, ltb, ◌==◌, if◌then◌else◌, length, get_elem?, arith, subst, ◌&&◌,
}
use native.Mathlib.Nat.{zero-add}
use filly.CJson.{lower}
use filly.Widgets.Events.{EventResult, string, handled, answer, press, enter}
use filly.Widgets.Filter.{
  FilterData, all_from, matches_from, clamp_selected, filter_update, choose, filter_key,
  filter_handle_event,
}
use filly.Widgets.Filter.Matching.{Contains, Lists, matches_from-Lists, all_from-Lists}

-- The list after `filter_update`, with the selection inside it unless it is empty.
abbrev IsUpdated : FilterData → FilterData → Type 0
IsUpdated d d' =
    (d'.choices ≡ d.choices)
    × Lists 0 d.query d.choices d'.filtered
    × ((d'.selected < length d'.filtered) ⊎ (d'.filtered ≡ []))

clamp_selected_lem :
    (d : FilterData)
    → ((clamp_selected d).choices ≡ d.choices)
      × ((clamp_selected d).filtered ≡ d.filtered)
      × (((clamp_selected d).selected < length d.filtered) ⊎ (d.filtered ≡ []))
unfolding clamp_selected
clamp_selected_lem d = by_list d.filtered
  where
    by_list :
        (places : List ℕ)
        → ((clamp_selected (record d { filtered = places })).choices ≡ d.choices)
          × ((clamp_selected (record d { filtered = places })).filtered ≡ places)
          × (((clamp_selected (record d { filtered = places })).selected < length places)
              ⊎ (places ≡ []))
    by_list [] = (ground arith, ground arith, inr refl)
    by_list (p ∷ ps) = (ground arith, ground arith, inl (ground arith))

filter_update-IsUpdated : (d : FilterData) → IsUpdated d (filter_update d)
unfolding filter_update
filter_update-IsUpdated d = by_query d.query
  where
    listed :
        (query : Text) (places : List ℕ)
        → Lists 0 query d.choices places
        → IsUpdated
            (record d { query = query })
            (clamp_selected (record d { query = query; filtered = places }))
    listed query places l =
        let (c, f, s) = clamp_selected_lem (record d { query = query; filtered = places }) in
        (
          c,
          subst (Lists 0 query d.choices) (sym f) l,
          elim s [ inl b ↦ inl (ground (arith, f)) | inr e ↦ inr (f ∙ e) ],
        )

    by_query :
        (query : Text)
        → IsUpdated (record d { query = query }) (filter_update (record d { query = query }))
    by_query [] = listed [] (all_from 0 d.choices) (all_from-Lists 0 d.choices)
    by_query (q ∷ qs) =
        let e : (suc (length qs) == 0) ≡ false = ground arith in
        rw (e, filter_update)
          (listed (q ∷ qs) (matches_from 0 (map lower (q ∷ qs)) d.choices)
            (matches_from-Lists 0 (q ∷ qs) d.choices))

some_elem : (xs : List ℕ) (k : ℕ) → k < length xs → (x : ℕ) × (get_elem? xs k ≡ some x)
some_elem [] k h = absurd (omega arith)
some_elem (x ∷ xs) zero h = (x, refl)
some_elem (x ∷ xs) (suc k) h = some_elem xs k (omega arith)

-- A choice of the list that contains what was typed.
abbrev pub IsMatch : FilterData → Text → Type 0
IsMatch d c = ((i : ℕ) × (get_elem? d.choices i ≡ some c)) × Contains c d.query

-- What Enter comes to: one of the choices that contain the query, or nothing if there is none.
abbrev pub Enters : FilterData → EventResult → Type 0
Enters d o =
    ((c : Text) × IsMatch d c × (o ≡ answer (string c)))
    ⊎ (((c : Text) → ¬ IsMatch d c) × (o ≡ handled))

not_there : (k p : ℕ) → get_elem? {A = ℕ} [] k ≡ some p → ⊥
not_there k p e = cc

enter-Enters :
    (d d' : FilterData)
    → IsUpdated d d'
    → Enters d (
        if ltb 0 (length d'.filtered) && ltb d'.selected (length d'.filtered)
        then choose d'
        else handled)
unfolding choose
enter-Enters d d' (same, (sound, complete), inl inside) =
    let (p, at) = some_elem d'.filtered d'.selected inside in
    let (j, c, e, f, g) = sound d'.selected p at in
    let chosen : get_elem? d'.choices p ≡ some c =
      ap (λ cs. get_elem? cs p) same ∙ (ap (get_elem? d.choices) (e ∙ zero-add j) ∙ f) in
    inl (c, ((j, f), g), ground (arith, at, chosen))
enter-Enters d d' (same, (sound, complete), inr empty) = inr (
  λ c ((j, f), g).
      let (k, at) = complete j c f g in
      not_there k (0 + j) (ap (λ xs. get_elem? xs k) (sym empty) ∙ at),
  ground (arith, empty),
)

-- After a rendering, Enter answers with a choice that contains the query, whatever the case of either,
-- if there is one; and does nothing if there is none.
pub filter_enter :
    (d : FilterData) (ch : ℕ) → Enters d (filter_handle_event (filter_update d) (press enter ch)).1
unfolding filter_handle_event filter_key
filter_enter d ch = enter-Enters d (filter_update d) (filter_update-IsUpdated d)
