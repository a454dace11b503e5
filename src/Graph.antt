-- ===== src/Graph.antt =====
-- src/builder/connection_graph.h and connection_graph.c: the editor of the edges, without the places
-- of nodes and ports on the screen. The caller passes what `graph_find_port_at` found, which measures
-- with floating-point numbers; `graph_sync_nodes` and `graph_layout` set places alone.
pub mod Wire
pub mod Edit
use filly.Prelude.{
  ℕ, zero, suc, ◌+◌, ◌-◌, Bool, true, false, not, ◌&&◌, ◌||◌, Option, none, some, List, [], ◌∷◌,
  ◌++◌, Text, codes, ltb, leb, ◌==◌, if◌then◌else◌, length, get_elem?, set, take,
}
use filly.Ports.Types.{PortDef, PortDataType, port_trigger, port_string, port_bool, port_int}
use filly.Ports.Lookup.{type_eq}
use filly.Project.{
  BuilderProject, GraphNode, ConnectionEdge, project_remove_edge, project_remove_node,
  project_add_edge,
}
use filly.Widgets.Events.{KeyCode, esc, enter, backspace, char, delete}

-- `ConnectionGraph`; an index that is -1 is `none`. `wire` is `wire_start_node` with
-- `wire_start_port`, and `edit_len` the length of `edit_buf`.
pub record ConnectionGraph (J : Type 0) : Type 0 where
  pub project : BuilderProject J
  pub selected_node : Option ℕ
  pub selected_edge : Option ℕ
  pub wire : Option (ℕ × ℕ)
  pub dragging_node : Bool
  pub editing_edge : Bool
  pub editing_edge_idx : Option ℕ
  pub edit_buf : Text
  pub edit_field : ℕ

abbrev is_trigger : PortDataType → Bool
is_trigger port_trigger = true
is_trigger _ = false

unfoldable pub graph_ports_compatible : PortDef → PortDef → Bool
graph_ports_compatible src dst =
    if not src.is_output
    then false
    else if dst.is_output
    then false
    else is_trigger src.type
      || (type_eq src.type dst.type
          || ((type_eq src.type port_bool || type_eq src.type port_int)
              && type_eq dst.type port_string))

abbrev pub edge : ℕ × ℕ → ℕ → ℕ → ConnectionEdge
edge wire ni pi = record {
  from_node = wire.0;
  from_port = wire.1;
  to_node = ni;
  to_port = pi;
  condition = none;
  transform = none;
}

-- The inner loop of `graph_mouse_up` over the ports of node `ni`, from port `pi` on: the edges, and
-- `port_idx` where the loop ends. A `break` leaves it as it is.
pub connect_ports :
    PortDef → ℕ × ℕ → ℕ → ℕ → ℕ → List PortDef → ℕ → List ConnectionEdge → List ConnectionEdge × ℕ
connect_ports src wire target ni pi [] port_idx edges = (edges, port_idx)
connect_ports src wire target ni pi (p ∷ ps) port_idx edges =
    let rest = connect_ports src wire target ni (pi + 1) ps (port_idx + 1) edges in
    if port_idx == target && not p.is_output
    then (if graph_ports_compatible src p then edges ++ (edge wire ni pi ∷ []) else edges, port_idx)
    else rest

-- The outer loop, over the nodes from `ni` on.
pub connect_nodes :
    PortDef → ℕ × ℕ → ℕ → ℕ → List GraphNode → ℕ → List ConnectionEdge → List ConnectionEdge
connect_nodes src wire target ni [] port_idx edges = edges
connect_nodes src wire target ni (n ∷ ns) port_idx edges =
    let (es, idx) = connect_ports src wire target ni 0 n.ports port_idx edges in
    connect_nodes src wire target (ni + 1) ns idx es

source_port : List GraphNode → ℕ × ℕ → Option PortDef
source_port nodes wire = elim (get_elem? nodes wire.0) [
  | some n ↦ get_elem? n.ports wire.1
  | none ↦ none
]

-- The port with that number, counted through all nodes, is an input: the loops then read the source.
ends_on_input : ℕ → List GraphNode → Bool
ends_on_input target [] = false
ends_on_input target (n ∷ ns) = elim (get_elem? n.ports target) [
  | some p ↦ not p.is_output
  | none ↦ ends_on_input (target - length n.ports) ns
]

drop_wire : {J : Type 0} → BuilderProject J → Option ℕ → ℕ × ℕ → Option (List ConnectionEdge)
unfolding source_port ends_on_input
drop_wire p none wire = some p.edges
drop_wire p (some target) wire = elim (source_port p.nodes wire) [
  | some src ↦ some (connect_nodes src wire target 0 p.nodes 0 p.edges)
  | none ↦ if ends_on_input target p.nodes then none else some p.edges
]

-- `none` is a read past the nodes or the ports. The `node_count` of the editor is that of the project,
-- as `graph_sync_nodes` leaves it after each change of the nodes. `target_port` is the port under the pointer.
pub graph_mouse_up : {J : Type 0} → ConnectionGraph J → Option ℕ → Option (ConnectionGraph J)
unfolding drop_wire
graph_mouse_up g target_port = elim g.wire [
  | none ↦ some (record g { dragging_node = false })
  | some w ↦ elim (drop_wire g.project target_port w) [
    | none ↦ none
    | some edges ↦ some (record g { project = record g.project { edges = edges }; wire = none })
  ]
]

-- With an edge selected its removal, or with a node selected the removal of the node with that
-- node's id; `none` is a read past the nodes.
pub graph_delete_selected : {J : Type 0} → ConnectionGraph J → Option (ConnectionGraph J)
graph_delete_selected g = elim g.selected_edge [
  | some e ↦ some (record g { project = project_remove_edge g.project e; selected_edge = none })
  | none ↦ elim g.selected_node [
    | none ↦ some g
    | some i ↦ elim (get_elem? g.project.nodes i) [
      | none ↦ none
      | some n ↦
          some (record g { project = project_remove_node g.project n.id; selected_node = none })
    ]
  ]
]

abbrev pub not_empty : Text → Option Text
not_empty [] = none
not_empty (c ∷ cs) = some (c ∷ cs)

enter_field : {J : Type 0} → ConnectionGraph J → ℕ → ConnectionEdge → ConnectionGraph J
enter_field g idx e =
    if g.edit_field == 0
    then record g {
      project = record g.project {
        edges = set g.project.edges idx (record e { condition = not_empty g.edit_buf });
      };
      edit_buf = [];
      edit_field = 1;
    }
    else record g {
      project = record g.project {
        edges = set g.project.edges idx (record e { transform = not_empty g.edit_buf });
      };
      editing_edge = false;
      editing_edge_idx = none;
    }

-- The keys while edge `idx` is edited; `none` is a write past the edges.
pub edit_key : {J : Type 0} → ConnectionGraph J → ℕ → KeyCode → ℕ → Option (ConnectionGraph J)
unfolding enter_field
edit_key g idx esc ch = some (record g { editing_edge = false; editing_edge_idx = none })
edit_key g idx enter ch = elim (get_elem? g.project.edges idx) [
  | none ↦ none
  | some e ↦ some (enter_field g idx e)
]
edit_key g idx backspace ch = some (record g { edit_buf = take (length g.edit_buf - 1) g.edit_buf })
edit_key g idx char ch = some (
    if ltb (length g.edit_buf) 254 && leb 32 ch
    then record g { edit_buf = g.edit_buf ++ (ch ∷ []) }
    else g)
edit_key g idx _ ch = some g

abbrev pub is_delete : KeyCode → Bool
is_delete delete = true
is_delete _ = false

-- `ch` is a byte below 128: `char` may be signed.
pub graph_key : {J : Type 0} → ConnectionGraph J → KeyCode → ℕ → Option (ConnectionGraph J)
graph_key g code ch =
    let deleted = if is_delete code then graph_delete_selected g else some g in
    if g.editing_edge
    then elim g.editing_edge_idx [ some idx ↦ edit_key g idx code ch | none ↦ deleted ]
    else deleted
