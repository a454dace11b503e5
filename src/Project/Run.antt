-- ===== src/Project/Run.antt =====
-- src/builder/project.c: what every project keeps that the operations build from `project_new`.
use filly.Prelude.{
  ℕ, ◌≡◌, refl, false, Option, List, [], ◌∷◌, ◌++◌, arith, Text, text_eq, text_eq_iff, inl, inr,
  Bool-cases,
}
use filly.Prelude.Int.{ℤ, pos, ◌≤ℤ◌}
use filly.Project.{
  BuilderProject, CanvasItem, Rect, StoreVar, KeymapScope, has_var, update_item, new_item,
  project_new, project_add_item, project_remove_item, project_move_item, project_resize_item,
  project_set_parent, project_update_item_params, project_add_node, project_add_store_node,
  project_remove_node, project_add_edge, project_remove_edge, project_add_keymap,
  project_remove_keymap, project_add_store_var,
}
use filly.Project.Items.{HasNewIds, growing-append, growing-remove, growing-update}

pub data Operation (J : Type 0) : Type 0 where
  add_item : Text → Rect → Operation J
  remove_item : ℕ → Operation J
  move_item resize_item : ℕ → ℤ → ℤ → Operation J
  set_parent : ℕ → ℤ → Operation J
  update_item_params : ℕ → J → Operation J
  add_node remove_node : ℕ → Operation J
  add_store_node add_store_var : Text → Option Text → Option Text → Operation J
  add_edge : ℕ → ℕ → ℕ → ℕ → Operation J
  remove_edge remove_keymap : ℕ → Operation J
  add_keymap : KeymapScope → ℤ → Text → Text → Operation J

-- No two variables have one key.
abbrev pub HasUniqueVars : List StoreVar → Type 0
HasUniqueVars [] = Unit
HasUniqueVars (v ∷ vs) = (has_var v.key vs ≡ false) × HasUniqueVars vs

has_var-append :
    (k : Text) (vs : List StoreVar) (v : StoreVar)
    → has_var k vs ≡ false
    → text_eq v.key k ≡ false
    → has_var k (vs ++ (v ∷ [])) ≡ false
unfolding has_var
has_var-append k [] v h n = ground arith
has_var-append k (x ∷ xs) v h n = ground (arith, has_var-append k xs v)

unique-append :
    (vs : List StoreVar) (v : StoreVar)
    → has_var v.key vs ≡ false
    → HasUniqueVars vs
    → HasUniqueVars (vs ++ (v ∷ []))
unfolding has_var
unique-append [] v h u = (refl, tt)
unique-append (x ∷ xs) v h u = (
  has_var-append x.key xs v u.0 (ground (arith, text_eq_iff x.key v.key, text_eq_iff v.key x.key)),
  unique-append xs v (ground arith) u.1,
)

module _ {J : Type 0} (titled : Text → J) (duplicate : J → J) where
  pub perform : BuilderProject J → Operation J → BuilderProject J
  perform p (add_item t r) = project_add_item titled p t r
  perform p (remove_item i) = project_remove_item p i
  perform p (move_item i x y) = project_move_item p i x y
  perform p (resize_item i w h) = project_resize_item p i w h
  perform p (set_parent i q) = project_set_parent p i q
  perform p (update_item_params i v) = project_update_item_params duplicate p i v
  perform p (add_node i) = (project_add_node p i).0
  perform p (remove_node n) = project_remove_node p n
  perform p (add_store_node k i t) = project_add_store_node p k i t
  perform p (add_store_var k i t) = project_add_store_var p k i t
  perform p (add_edge a b c d) = project_add_edge p a b c d
  perform p (remove_edge e) = project_remove_edge p e
  perform p (remove_keymap k) = project_remove_keymap p k
  perform p (add_keymap s w k a) = project_add_keymap p s w k a

  pub run : BuilderProject J → List (Operation J) → BuilderProject J
  run p [] = p
  run p (o ∷ os) = run (perform p o) os

  -- Item ids below the next and in the order of the additions, each store variable declared once, and
  -- a root area that is not empty.
  pub record IsValid (p : BuilderProject J) : Type 0 where
    pub new_ids : HasNewIds p
    pub unique_vars : HasUniqueVars p.store_vars
    pub wide : pos 1 ≤ℤ p.root_width
    pub high : pos 1 ≤ℤ p.root_height

  add_var-IsValid :
      (p : BuilderProject J) (k : Text) (i t : Option Text)
      → IsValid p
      → IsValid (project_add_store_var p k i t)
  unfolding project_add_store_var
  add_var-IsValid p k i t v = elim (Bool-cases (has_var k p.store_vars)) [
    | inl e ↦ rw e v
    | inr e ↦ rw e (record {
      new_ids = v.new_ids;
      unique_vars = unique-append p.store_vars _ e v.unique_vars;
      wide = v.wide;
      high = v.high;
    })
  ]

  update-IsValid :
      (p : BuilderProject J) (id : ℕ) (f : CanvasItem J → CanvasItem J)
      → ((i : CanvasItem J) → (f i).id ≡ i.id)
      → IsValid p
      → IsValid (record p { items = update_item id f p.items })
  update-IsValid p id f keep v = record {
    new_ids = growing-update 1 p.next_item_id id f p.items keep v.new_ids;
    unique_vars = v.unique_vars;
    wide = v.wide;
    high = v.high;
  }

  same-IsValid :
      (p q : BuilderProject J)
      → q.items ≡ p.items
      → q.next_item_id ≡ p.next_item_id
      → q.store_vars ≡ p.store_vars
      → q.root_width ≡ p.root_width
      → q.root_height ≡ p.root_height
      → IsValid p
      → IsValid q
  same-IsValid p q a b c d e v = record {
    new_ids = rw (a, b) v.new_ids;
    unique_vars = rw c v.unique_vars;
    wide = rw d v.wide;
    high = rw e v.high;
  }

  perform-IsValid : (p : BuilderProject J) (o : Operation J) → IsValid p → IsValid (perform p o)
  unfolding perform project_add_item project_remove_item project_move_item project_resize_item
      project_set_parent project_update_item_params project_add_store_node project_remove_node
      project_add_edge project_remove_edge project_add_keymap project_remove_keymap
  perform-IsValid p (add_item t r) v = record {
    new_ids = growing-append 1 p.next_item_id p.items _ (unfold new_item in refl) v.new_ids;
    unique_vars = v.unique_vars;
    wide = v.wide;
    high = v.high;
  }
  perform-IsValid p (remove_item i) v = record {
    new_ids = growing-remove 1 p.next_item_id i p.items v.new_ids;
    unique_vars = v.unique_vars;
    wide = v.wide;
    high = v.high;
  }
  perform-IsValid p (move_item i x y) v = update-IsValid p i _ (λ _. refl) v
  perform-IsValid p (resize_item i w h) v = update-IsValid p i _ (λ _. refl) v
  perform-IsValid p (set_parent i q) v = update-IsValid p i _ (λ _. refl) v
  perform-IsValid p (update_item_params i j) v = update-IsValid p i _ (λ _. refl) v
  perform-IsValid p (add_node i) v =
      same-IsValid p (project_add_node p i).0 (same i).0 (same i).1 (same i).2 (same i).3 (same i).4
        v
    where
      same :
          (i : ℕ)
          → ((project_add_node p i).0.items ≡ p.items)
            × ((project_add_node p i).0.next_item_id ≡ p.next_item_id)
            × ((project_add_node p i).0.store_vars ≡ p.store_vars)
            × ((project_add_node p i).0.root_width ≡ p.root_width)
            × ((project_add_node p i).0.root_height ≡ p.root_height)
      same i = unfold project_add_node in ground arith
  perform-IsValid p (add_store_node k i t) v =
      add_var-IsValid _ k i t (same-IsValid p _ refl refl refl refl refl v)
  perform-IsValid p (add_store_var k i t) v = add_var-IsValid p k i t v
  perform-IsValid p _ v = same-IsValid p _ refl refl refl refl refl v

  run-IsValid : (p : BuilderProject J) (os : List (Operation J)) → IsValid p → IsValid (run p os)
  unfolding run
  run-IsValid p [] v = v
  run-IsValid p (o ∷ os) v = run-IsValid (perform p o) os (perform-IsValid p o v)

  -- Every run of operations on a new project leaves the ids of the items growing along the list
  -- and below the next one, each store variable declared once, and a root area that is not empty,
  -- whatever size was asked for.
  pub project_run-IsValid :
      (name : Option Text) (w h : ℤ) (os : List (Operation J))
      → IsValid (run (project_new name w h) os)
  project_run-IsValid name w h os =
      run-IsValid (project_new name w h) os (unfold project_new in ground arith)
