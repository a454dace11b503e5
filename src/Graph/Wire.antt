-- ===== src/Graph/Wire.antt =====
-- src/builder/connection_graph.c: the edge that the end of a wire adds.
use filly.Prelude.{
  ℕ, ◌+◌, ◌≤◌, ◌<◌, ◌≡◌, refl, ◌∙◌, Bool, true, false, not, ◌&&◌, Option, none, some, List, [], ◌∷◌,
  ◌++◌, ◌==◌, if◌then◌else◌, length, All, arith, inl, inr, Option-cases,
}
use filly.Ports.Types.{PortDef, PortDataType, port_trigger, port_string, port_bool, port_int}
use filly.Ports.Lookup.{type_eq}
use filly.Project.{GraphNode, ConnectionEdge}
use filly.Graph.{graph_ports_compatible, connect_ports, connect_nodes, edge}

-- A reference for the two loops: the port with number `target`, if the first has number `n`.
abbrev pub port_from : ℕ → List PortDef → ℕ → ℕ → Option (ℕ × PortDef)
port_from pi [] target n = none
port_from pi (p ∷ ps) target n =
    if n == target then some (pi, p) else port_from (pi + 1) ps target (n + 1)

-- The types of an output, and of an input that takes what it sends: a trigger goes everywhere, all
-- else to its own type, and Booleans and numbers to texts as well.
abbrev pub takes : PortDataType → PortDataType → Bool
takes port_trigger _ = true
takes port_string port_string = true
takes port_bool port_bool = true
takes port_bool port_string = true
takes port_int port_int = true
takes port_int port_string = true
takes _ _ = false

abbrev pub can_wire : PortDef → PortDef → Bool
can_wire src dst = (src.is_output && not dst.is_output) && takes src.type dst.type

graph_ports_compatible-can_wire :
    (src dst : PortDef) → graph_ports_compatible src dst ≡ can_wire src dst
unfolding graph_ports_compatible type_eq
graph_ports_compatible-can_wire src dst = ground arith

-- The edges with the new one, if the port is a compatible input.
abbrev pub with_edge :
    PortDef → ℕ × ℕ → ℕ → Option (ℕ × PortDef) → List ConnectionEdge → List ConnectionEdge
with_edge src wire ni none edges = edges
with_edge src wire ni (some q) edges =
    if can_wire src q.1 then edges ++ (edge wire ni q.0 ∷ []) else edges

-- With the ports numbered through all nodes, what the port `target` adds.
abbrev pub expected :
    PortDef → ℕ × ℕ → ℕ → ℕ → List GraphNode → ℕ → List ConnectionEdge → List ConnectionEdge
expected src wire target ni [] n edges = edges
expected src wire target ni (node ∷ nodes) n edges = elim (port_from 0 node.ports target n) [
  | some q ↦ with_edge src wire ni (some q) edges
  | none ↦ expected src wire target (ni + 1) nodes (n + length node.ports) edges
]

-- A node without ports, or whose first port is an output.
abbrev BeginsWithOutput : List PortDef → Type 0
BeginsWithOutput [] = Unit
BeginsWithOutput (p ∷ ps) = p.is_output ≡ true

abbrev pub StartsWithOutput : GraphNode → Type 0
StartsWithOutput n = BeginsWithOutput n.ports

module _ (src : PortDef) (wire : ℕ × ℕ) (target : ℕ) where
  ports_edges :
      (ni pi : ℕ) (ps : List PortDef) (n : ℕ) (edges : List ConnectionEdge)
      → (connect_ports src wire target ni pi ps n edges).0
        ≡ with_edge src wire ni (port_from pi ps target n) edges
  unfolding connect_ports
  ports_edges ni pi [] n edges = refl
  ports_edges ni pi (p ∷ ps) n edges = ground (
    arith,
    graph_ports_compatible-can_wire src p,
    ports_edges ni (pi + 1) ps (n + 1) edges,
    past ni (pi + 1) ps (n + 1) edges,
  )
    where
      past :
          (ni pi : ℕ) (ps : List PortDef) (n : ℕ) (edges : List ConnectionEdge)
          → target < n
          → (connect_ports src wire target ni pi ps n edges).0 ≡ edges
      past ni pi [] n edges lt = refl
      past ni pi (p ∷ ps) n edges lt = ground (arith, past ni (pi + 1) ps (n + 1) edges)

  index_past :
      (ni pi : ℕ) (ps : List PortDef) (n : ℕ) (edges : List ConnectionEdge)
      → target < n
      → ((connect_ports src wire target ni pi ps n edges).0 ≡ edges)
        × ((connect_ports src wire target ni pi ps n edges).1 ≡ n + length ps)
  unfolding connect_ports
  index_past ni pi [] n edges lt = (refl, omega arith)
  index_past ni pi (p ∷ ps) n edges lt = ground (arith, index_past ni (pi + 1) ps (n + 1) edges)

  index_missed :
      (ni pi : ℕ) (ps : List PortDef) (n : ℕ) (edges : List ConnectionEdge)
      → port_from pi ps target n ≡ none
      → (connect_ports src wire target ni pi ps n edges).1 ≡ n + length ps
  unfolding connect_ports
  index_missed ni pi [] n edges h = omega arith
  index_missed ni pi (p ∷ ps) n edges h = ground (arith, index_missed ni (pi + 1) ps (n + 1) edges)

  index_found :
      (ni pi : ℕ) (ps : List PortDef) (n : ℕ) (edges : List ConnectionEdge) {q : ℕ × PortDef}
      → port_from pi ps target n ≡ some q
      → target ≤ (connect_ports src wire target ni pi ps n edges).1
  unfolding connect_ports
  index_found ni pi [] n edges {q} h = cc
  index_found ni pi (p ∷ ps) n edges {q} h = ground (
    arith,
    index_found ni (pi + 1) ps (n + 1) edges {q = q},
    index_past ni (pi + 1) ps (n + 1) edges,
  )

  settled_ports :
      (ni : ℕ) (node : GraphNode) (n : ℕ) (edges : List ConnectionEdge)
      → StartsWithOutput node
      → target ≤ n
      → ((connect_ports src wire target ni 0 node.ports n edges).0 ≡ edges)
        × (target ≤ (connect_ports src wire target ni 0 node.ports n edges).1)
  settled_ports ni node n edges h le = on_ports node.ports h
    where
      on_ports :
          (ps : List PortDef)
          → BeginsWithOutput ps
          → ((connect_ports src wire target ni 0 ps n edges).0 ≡ edges)
            × (target ≤ (connect_ports src wire target ni 0 ps n edges).1)
      on_ports [] h = unfold connect_ports in (refl, le)
      on_ports (p ∷ ps) h = unfold connect_ports in ground (arith, index_past ni 1 ps (n + 1) edges)

  settled :
      (ni : ℕ) (nodes : List GraphNode) (n : ℕ) (edges : List ConnectionEdge)
      → All StartsWithOutput nodes
      → target ≤ n
      → connect_nodes src wire target ni nodes n edges ≡ edges
  unfolding connect_nodes
  settled ni [] n edges h le = refl
  settled ni (node ∷ nodes) n edges h le =
      let (same, le') = settled_ports ni node n edges h.0 le in
      settled (ni + 1) nodes _ _ h.1 le' ∙ same

  -- If each node has no port or begins with an output, the loops over nodes and ports, for a wire
  -- that ends on port `target`, counted through all nodes, add one edge from the start of the
  -- wire to that port if that is an input, the wire starts at an output, and the input takes its
  -- type: a trigger goes everywhere, all else to its own type, and Booleans and numbers to texts as
  -- well. They add no edge otherwise.
  pub connect_nodes-expected :
      (ni : ℕ) (nodes : List GraphNode) (n : ℕ) (edges : List ConnectionEdge)
      → All StartsWithOutput nodes
      → connect_nodes src wire target ni nodes n edges ≡ expected src wire target ni nodes n edges
  unfolding connect_nodes
  connect_nodes-expected ni [] n edges h = refl
  connect_nodes-expected ni (node ∷ nodes) n edges h =
      elim (Option-cases (port_from 0 node.ports target n)) [
        | inl e ↦ ground (
          arith,
          ports_edges ni 0 node.ports n edges,
          index_missed ni 0 node.ports n edges e,
          connect_nodes-expected (ni + 1) nodes (n + length node.ports) edges h.1,
        )
        | inr (q, e) ↦ ground (
          arith,
          ports_edges ni 0 node.ports n edges,
          settled (ni + 1) nodes _ (connect_ports src wire target ni 0 node.ports n edges).0 h.1
              (index_found ni 0 node.ports n edges e),
        )
      ]

compatible_input :
    (src dst : PortDef) → graph_ports_compatible src dst ≡ true → dst.is_output ≡ false
unfolding graph_ports_compatible
compatible_input src dst h = ground arith

first_port :
    (src : PortDef) (wire : ℕ × ℕ) (ni : ℕ) (n : GraphNode) (p : PortDef) (ps : List PortDef)
    (edges : List ConnectionEdge)
    → n.ports ≡ p ∷ ps
    → graph_ports_compatible src p ≡ true
    → connect_ports src wire 0 ni 0 n.ports 0 edges ≡ (edges ++ (edge wire ni 0 ∷ []), 0)
first_port src wire ni n p ps edges e h =
    rw e (unfold connect_ports in ground (arith, compatible_input src p h))

-- Otherwise it can add two: if two nodes both begin with a compatible input, a wire that ends on the
-- first port of the first node gets an edge to the first port of the second as well.
pub connect_nodes_twice :
    (src : PortDef) (wire : ℕ × ℕ) (a b : GraphNode) (p q : PortDef) (ps qs : List PortDef)
    → a.ports ≡ p ∷ ps
    → b.ports ≡ q ∷ qs
    → graph_ports_compatible src p ≡ true
    → graph_ports_compatible src q ≡ true
    → connect_nodes src wire 0 0 (a ∷ b ∷ []) 0 [] ≡ edge wire 0 0 ∷ edge wire 1 0 ∷ []
unfolding connect_nodes
connect_nodes_twice src wire a b p q ps qs ea eb ca cb = ground (
  arith,
  first_port src wire 0 a p ps [] ea ca,
  first_port src wire 1 b q qs (edge wire 0 0 ∷ []) eb cb,
)
