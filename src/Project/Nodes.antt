-- ===== src/Project/Nodes.antt =====
-- src/builder/project.c: the nodes of the graph, which are counted, indexed and removed by id.
use filly.Prelude.{
  ℕ, zero, suc, ◌+◌, ◌≤◌, ◌<◌, ◌≡◌, ◌≢◌, refl, Option, List, [], ◌∷◌, ◌++◌, ◌==◌, if◌then◌else◌,
  arith, length, get_elem?, Text,
}
use filly.Project.{
  BuilderProject, GraphNode, remove_node, project_add_store_node, project_add_store_var,
  project_remove_node, project_remove_edge,
}

-- How many nodes have an id.
abbrev pub count_id : ℕ → List GraphNode → ℕ
count_id id [] = 0
count_id id (n ∷ ns) = (if n.id == id then 1 else 0) + count_id id ns

-- The ids that additions alone give: they count up along the list, from `from`.
abbrev pub IsNumbered : ℕ → List GraphNode → Type 0
IsNumbered from [] = Unit
IsNumbered from (n ∷ ns) = (n.id ≡ from) × IsNumbered (from + 1) ns

count_id-append :
    (id : ℕ) (ns ms : List GraphNode) → count_id id (ns ++ ms) ≡ count_id id ns + count_id id ms
count_id-append id [] ms = omega arith
count_id-append id (n ∷ ns) ms = omega (arith, count_id-append id ns ms)

count_id-IsNumbered :
    (id from : ℕ) (ns : List GraphNode)
    → IsNumbered from ns
    → from ≤ id
    → id < from + length ns
    → count_id id ns ≡ 1
count_id-IsNumbered id from [] h le lt = absurd (omega arith)
count_id-IsNumbered id from (n ∷ ns) h le lt =
    ground (arith, above id (from + 1) ns h.1, count_id-IsNumbered id (from + 1) ns h.1)
  where
    above :
        (id from : ℕ) (ns : List GraphNode) → IsNumbered from ns → id < from → count_id id ns ≡ 0
    above id from [] h lt = refl
    above id from (m ∷ ms) h lt = ground (arith, above id (from + 1) ms h.1)

count_id-remove :
    (id k : ℕ) (ns : List GraphNode) → id ≢ k → count_id id (remove_node k ns) ≡ count_id id ns
unfolding remove_node
count_id-remove id k [] ne = refl
count_id-remove id k (n ∷ ns) ne = ground (arith, count_id-remove id k ns ne)

length-remove_node :
    (k from : ℕ) (ns : List GraphNode)
    → IsNumbered from ns
    → from ≤ k
    → k < from + length ns
    → length (remove_node k ns) + 1 ≡ length ns
unfolding remove_node
length-remove_node k from [] h le lt = absurd (omega arith)
length-remove_node k from (n ∷ ns) h le lt = ground (arith, length-remove_node k (from + 1) ns h.1)

get_elem?-remove_node :
    (k from j : ℕ) (ns : List GraphNode)
    → IsNumbered from ns
    → from ≤ k
    → k ≤ j + from
    → get_elem? (remove_node k ns) j ≡ get_elem? ns (suc j)
unfolding remove_node
get_elem?-remove_node k from j [] h le lt = refl
get_elem?-remove_node k from zero (n ∷ ns) h le lt = ground arith
get_elem?-remove_node k from (suc j) (n ∷ ns) h le lt =
    ground (arith, get_elem?-remove_node k (from + 1) j ns h.1)

module _ {J : Type 0} where
  store_var_nodes :
      (p : BuilderProject J) (key : Text) (initial type : Option Text)
      → (project_add_store_var p key initial type).nodes ≡ p.nodes
  unfolding project_add_store_var
  store_var_nodes p key initial type = ground arith

  -- If the nodes are numbered as additions leave them and a node other than the last is removed, the
  -- next node that is added gets the id of the last one: two nodes have that id.
  pub project_remove_node_reuses_id :
      (p : BuilderProject J) (k : ℕ) (key : Text) (initial type : Option Text)
      → IsNumbered 1 p.nodes
      → 1 ≤ k
      → k < length p.nodes
      → count_id
          (length p.nodes)
          (project_add_store_node (project_remove_node p k) key initial type).nodes
        ≡ 2
  unfolding project_remove_node project_add_store_node
  project_remove_node_reuses_id p k key initial type h le lt =
      rw
        (
          store_var_nodes,
          count_id-append,
          count_id-remove (length p.nodes) k p.nodes (λ e. omega arith),
          count_id-IsNumbered (length p.nodes) 1 p.nodes h (omega arith) (omega arith),
        )
        (ground (arith, length-remove_node k 1 p.nodes h le))

  -- The edges name their ends by index. If the nodes are numbered as additions leave them, the removal
  -- of node `k` changes no edge, but from index `k - 1` on every index names the node after the one
  -- that it named before.
  pub project_remove_node_shifts_ends :
      (p : BuilderProject J) (k j : ℕ)
      → IsNumbered 1 p.nodes
      → 1 ≤ k
      → k ≤ j + 1
      → ((project_remove_node p k).edges ≡ p.edges)
        × (get_elem? (project_remove_node p k).nodes j ≡ get_elem? p.nodes (suc j))
  unfolding project_remove_node
  project_remove_node_shifts_ends p k j h le lt =
      (refl, get_elem?-remove_node k 1 j p.nodes h le lt)

  -- The removal of an edge leaves the nodes.
  pub project_remove_edge_nodes :
      (p : BuilderProject J) (i : ℕ) → (project_remove_edge p i).nodes ≡ p.nodes
  unfolding project_remove_edge
  project_remove_edge_nodes p i = refl
