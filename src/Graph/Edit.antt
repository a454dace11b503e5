-- ===== src/Graph/Edit.antt =====
-- src/builder/connection_graph.c: the keys of the edge editor stay within its buffer and the project.
use filly.Prelude.{
  ℕ, zero, suc, ◌-◌, ◌≤◌, ◌<◌, ◌≡◌, refl, true, false, Option, none, some, List, [], ◌∷◌,
  if◌then◌else◌, length, length-append, length-take, length-set, get_elem?, arith, inl, inr, ◌⊎◌,
  Option-cases, Bool-cases,
}
use filly.Project.{ConnectionEdge, project_remove_edge, project_remove_node}
use filly.Project.Nodes.{project_remove_edge_nodes}
use filly.Widgets.Events.{KeyCode, esc, enter, backspace, char}
use filly.Graph.{
  ConnectionGraph, graph_key, edit_key, enter_field, not_empty, is_delete, graph_delete_selected,
}

abbrev pub IsBelow : Option ℕ → ℕ → Type 0
IsBelow none n = Unit
IsBelow (some i) n = i < n

-- The buffer has room for a NUL, an edge that is edited and a node that is selected exist, and
-- no index of an edge is left over once editing has ended.
pub record IsValid {J : Type 0} (g : ConnectionGraph J) : Type 0 where
  pub fits : length g.edit_buf ≤ 254
  pub edited : IsBelow g.editing_edge_idx (length g.project.edges)
  pub selected : IsBelow g.selected_node (length g.project.nodes)
  pub ended : (g.editing_edge ≡ true) ⊎ (g.editing_edge_idx ≡ none)

get_elem?-some {ℓ} :
    {A : Type ℓ} (xs : List A) (i : ℕ) → i < length xs → (x : A) × (get_elem? xs i ≡ some x)
get_elem?-some [] i h = absurd (omega arith)
get_elem?-some (x ∷ xs) zero h = (x, refl)
get_elem?-some (x ∷ xs) (suc i) h = get_elem?-some xs i (omega arith)

module _ {J : Type 0} where
  -- A result that is there and valid.
  abbrev pub Succeeds : Option (ConnectionGraph J) → Type 0
  Succeeds none = ⊥
  Succeeds (some g) = IsValid g

  same : {o o' : Option (ConnectionGraph J)} → o ≡ o' → Succeeds o' → Succeeds o
  same e h = rw e h

  succeeds :
      {o : Option (ConnectionGraph J)} {g : ConnectionGraph J} → o ≡ some g → IsValid g → Succeeds o
  succeeds e v = rw e v

  enter_key :
      (g : ConnectionGraph J) (idx ch : ℕ)
      → g.editing_edge_idx ≡ some idx
      → IsValid g
      → Succeeds (edit_key g idx enter ch)
  unfolding edit_key
  enter_key g idx ch e v =
      let (x, found) = get_elem?-some g.project.edges idx (ground arith) in
      succeeds (ground arith) (entered x)
    where
      entered : (x : ConnectionEdge) → IsValid (enter_field g idx x)
      entered x =
          unfold enter_field in
          ground (
            arith,
            length-set g.project.edges idx (record x { condition = not_empty g.edit_buf }),
            length-set g.project.edges idx (record x { transform = not_empty g.edit_buf }),
          )

  edit_key_lem :
      (g : ConnectionGraph J) (idx : ℕ) (code : KeyCode) (ch : ℕ)
      → g.editing_edge_idx ≡ some idx
      → IsValid g
      → Succeeds (edit_key g idx code ch)
  unfolding edit_key
  edit_key_lem g idx esc ch e v = ground arith
  edit_key_lem g idx enter ch e v = enter_key g idx ch e v
  edit_key_lem g idx backspace ch e v =
      ground (arith, length-take (length g.edit_buf - 1) g.edit_buf)
  edit_key_lem g idx char ch e v = ground (arith, length-append g.edit_buf (ch ∷ []))
  edit_key_lem g idx _ ch e v = v

  delete_edge :
      (g : ConnectionGraph J) (i : ℕ)
      → g.editing_edge_idx ≡ none
      → IsValid g
      → IsValid (record g { project = project_remove_edge g.project i; selected_edge = none })
  delete_edge g i e v = record {
    fits = v.fits;
    edited = rw e tt;
    selected = rw (project_remove_edge_nodes g.project i) v.selected;
    ended = v.ended;
  }

  delete_node :
      (g : ConnectionGraph J) (k : ℕ)
      → g.editing_edge_idx ≡ none
      → IsValid g
      → IsValid (record g { project = project_remove_node g.project k; selected_node = none })
  delete_node g k e v = record { fits = v.fits; edited = rw e tt; selected = tt; ended = v.ended }

  delete_lem :
      (g : ConnectionGraph J)
      → g.editing_edge_idx ≡ none
      → IsValid g
      → Succeeds (graph_delete_selected g)
  unfolding graph_delete_selected
  delete_lem g e v = elim (Option-cases g.selected_edge) [
    | inr (i, s) ↦ succeeds (ground arith) (delete_edge g i e v)
    | inl s ↦ elim (Option-cases g.selected_node) [
      | inl n ↦ succeeds (ground arith) v
      | inr (i, n) ↦
          let (x, found) = get_elem?-some g.project.nodes i (ground arith) in
          succeeds (ground arith) (delete_node g x.id e v)
    ]
  ]

  no_edge : (g : ConnectionGraph J) → g.editing_edge ≡ false → IsValid g → g.editing_edge_idx ≡ none
  no_edge g e v = ground arith

  deleted :
      (g : ConnectionGraph J) (code : KeyCode)
      → g.editing_edge_idx ≡ none
      → IsValid g
      → Succeeds (if is_delete code then graph_delete_selected g else some g)
  deleted g code e v = elim (Bool-cases (is_delete code)) [
    | inl d ↦ rw d (delete_lem g e v)
    | inr d ↦ rw d v
  ]

  -- From a valid state every key leads to a valid one: it writes neither past the buffer of the edited
  -- text nor past the edges, and Delete reads no node that is not there.
  pub graph_key_lem :
      (g : ConnectionGraph J) (code : KeyCode) (ch : ℕ) → IsValid g → Succeeds (graph_key g code ch)
  unfolding graph_key
  graph_key_lem g code ch v = elim (Bool-cases g.editing_edge) [
    | inr e ↦ same (ground arith) (deleted g code (no_edge g e v) v)
    | inl e ↦ elim (Option-cases g.editing_edge_idx) [
      | inl i ↦ same (ground arith) (deleted g code i v)
      | inr (idx, i) ↦ same (ground arith) (edit_key_lem g idx code ch i v)
    ]
  ]
