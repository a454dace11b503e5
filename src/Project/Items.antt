-- ===== src/Project/Items.antt =====
-- src/builder/project.c: the items of the canvas, found by their ids.
use filly.Prelude.{
  ℕ, ◌+◌, ◌≤◌, ◌<◌, ◌≡◌, refl, Option, none, some, List, [], ◌∷◌, ◌++◌, ◌==◌, if◌then◌else◌, arith,
  Text,
}
use mathlib.Core.Option
use filly.Prelude.Int.{ℤ}
use filly.Project.{
  BuilderProject, CanvasItem, Rect, find_item, update_item, remove_item, new_item,
  project_find_item, project_add_item, project_remove_item, project_move_item, project_resize_item,
  project_set_parent, project_update_item_params,
}

module _ {J : Type 0} where
  -- The ids grow along the list, from at least `low`, and stay below `high`.
  abbrev pub HasGrowingIds : ℕ → List (CanvasItem J) → ℕ → Type 0
  HasGrowingIds low [] high = low ≤ high
  HasGrowingIds low (i ∷ is) high = (low ≤ i.id) × HasGrowingIds (i.id + 1) is high

  -- No id is 0, none occurs twice and the next id is new.
  abbrev pub HasNewIds : BuilderProject J → Type 0
  HasNewIds p = HasGrowingIds 1 p.items p.next_item_id

  weaken :
      (l m : ℕ) (is : List (CanvasItem J)) (h : ℕ)
      → l ≤ m
      → HasGrowingIds m is h
      → HasGrowingIds l is h
  weaken l m [] h le g = omega arith
  weaken l m (i ∷ is) h le g = (omega arith, g.1)

  pub growing-append :
      (l h : ℕ) (is : List (CanvasItem J)) (i : CanvasItem J)
      → i.id ≡ h
      → HasGrowingIds l is h
      → HasGrowingIds l (is ++ (i ∷ [])) (h + 1)
  growing-append l h [] i e g = (omega arith, omega arith)
  growing-append l h (x ∷ xs) i e g = (g.0, growing-append (x.id + 1) h xs i e g.1)

  pub growing-remove :
      (l h id : ℕ) (is : List (CanvasItem J))
      → HasGrowingIds l is h
      → HasGrowingIds l (remove_item id is) h
  unfolding remove_item
  growing-remove l h id [] g = g
  growing-remove l h id (x ∷ xs) g =
      ground
        (arith, weaken l (x.id + 1) xs h (omega arith) g.1, growing-remove (x.id + 1) h id xs g.1)

  pub growing-update :
      (l h id : ℕ) (f : CanvasItem J → CanvasItem J) (is : List (CanvasItem J))
      → ((i : CanvasItem J) → (f i).id ≡ i.id)
      → HasGrowingIds l is h
      → HasGrowingIds l (update_item id f is) h
  unfolding update_item
  growing-update l h id f [] keep g = g
  growing-update l h id f (x ∷ xs) keep g =
      ground (arith, keep x, growing-update (x.id + 1) h id f xs keep g.1)

  find_item-below :
      (l h id : ℕ) (is : List (CanvasItem J))
      → id < l
      → HasGrowingIds l is h
      → find_item id is ≡ none
  unfolding find_item
  find_item-below l h id [] lt g = refl
  find_item-below l h id (x ∷ xs) lt g = ground (arith, find_item-below (x.id + 1) h id xs)

  find_item-above :
      (l h id : ℕ) (is : List (CanvasItem J))
      → h ≤ id
      → HasGrowingIds l is h
      → find_item id is ≡ none
  unfolding find_item
  find_item-above l h id [] le g = refl
  find_item-above l h id (x ∷ xs) le g =
      ground (arith, find_item-above (x.id + 1) h id xs le g.1, growing_le (x.id + 1) h xs g.1)
    where
      growing_le : (l h : ℕ) (is : List (CanvasItem J)) → HasGrowingIds l is h → l ≤ h
      growing_le l h [] g = g
      growing_le l h (x ∷ xs) g = omega (arith, growing_le (x.id + 1) h xs g.1)

  find_item-append :
      (id : ℕ) (is : List (CanvasItem J)) (i : CanvasItem J)
      → find_item id (is ++ (i ∷ [])) ≡ (
          if i.id == id
          then elim (find_item id is) [ none ↦ some i | some x ↦ some x ]
          else find_item id is)
  unfolding find_item
  find_item-append id [] i = refl
  find_item-append id (x ∷ xs) i = ground (arith, find_item-append id xs i)

  find_item-remove :
      (l h id j : ℕ) (is : List (CanvasItem J))
      → HasGrowingIds l is h
      → find_item j (remove_item id is) ≡ (if j == id then none else find_item j is)
  unfolding find_item remove_item
  find_item-remove l h id j [] g = ground arith
  find_item-remove l h id j (x ∷ xs) g =
      ground (arith, find_item-remove (x.id + 1) h id j xs g.1, find_item-below (x.id + 1) h j xs)

  find_item-update :
      (id j : ℕ) (f : CanvasItem J → CanvasItem J) (is : List (CanvasItem J))
      → ((i : CanvasItem J) → (f i).id ≡ i.id)
      → find_item j (update_item id f is)
        ≡ (if j == id then Option.map f (find_item j is) else find_item j is)
  unfolding find_item update_item
  find_item-update id j f [] keep = ground arith
  find_item-update id j f (x ∷ xs) keep = ground (arith, keep x, find_item-update id j f xs keep)

  -- With new ids ahead, the added item is the one found under the id that was next; every other id
  -- finds what it found before.
  pub project_find_item-project_add_item :
      (titled : Text → J) (p : BuilderProject J) (widget_type : Text) (rect : Rect) (j : ℕ)
      → HasNewIds p
      → project_find_item (project_add_item titled p widget_type rect) j ≡ (
          if j == p.next_item_id
          then some (new_item titled p.next_item_id widget_type rect)
          else project_find_item p j)
  unfolding project_find_item project_add_item new_item
  project_find_item-project_add_item titled p widget_type rect j v =
      rw (find_item-append) (ground (arith, find_item-above 1 p.next_item_id j p.items))

  -- With distinct ids, a removed item is not found any more, and every other item is found as before.
  pub project_find_item-project_remove_item :
      (p : BuilderProject J) (item_id j : ℕ)
      → HasNewIds p
      → project_find_item (project_remove_item p item_id) j
        ≡ (if j == item_id then none else project_find_item p j)
  unfolding project_find_item project_remove_item
  project_find_item-project_remove_item p item_id j v =
      find_item-remove 1 p.next_item_id item_id j p.items v

  -- What a search finds once the item of `item_id` has been changed by `f`.
  abbrev pub changed :
      (CanvasItem J → CanvasItem J) → BuilderProject J → ℕ → ℕ → Option (CanvasItem J)
  changed f p item_id j =
      if j == item_id then Option.map f (project_find_item p j) else project_find_item p j

  -- A move sets the position of the named item, a resize its size, `project_set_parent` its parent and
  -- `project_update_item_params` its parameters; the rest of the item and all other items stay.
  pub project_find_item-changed :
      (duplicate : J → J) (p : BuilderProject J) (id j : ℕ) (a b parent : ℤ) (params : J)
      → (project_find_item (project_move_item p id a b) j
          ≡ changed
              (λ i. record i { rect = record { x = a; y = b; w = i.rect.w; h = i.rect.h } })
              p
              id
              j)
        × (project_find_item (project_resize_item p id a b) j
            ≡ changed
                (λ i. record i { rect = record { x = i.rect.x; y = i.rect.y; w = a; h = b } })
                p
                id
                j)
        × (project_find_item (project_set_parent p id parent) j
            ≡ changed (λ i. record i { parent_id = parent }) p id j)
        × (project_find_item (project_update_item_params duplicate p id params) j
            ≡ changed (λ i. record i { params = duplicate params }) p id j)
  unfolding project_find_item project_move_item project_resize_item project_set_parent
      project_update_item_params
  project_find_item-changed duplicate p id j a b parent params = (
    find_item-update id j _ p.items (λ i. refl),
    find_item-update id j _ p.items (λ i. refl),
    find_item-update id j _ p.items (λ i. refl),
    find_item-update id j _ p.items (λ i. refl),
  )
