-- ===== src/Tests/Builder.antt =====
-- src/builder/project.c, validator.c and connection_graph.c at concrete inputs.
use filly.Prelude.{
  ℕ, ◌≡◌, ◌↔◌, inl, refl, true, false, Option, none, some, List, [], ◌∷◌, Text, codes, get_elem?,
  if◌then◌else◌, ◌==◌, arith,
}
use filly.Prelude.Int.{ℤ, pos, negsuc}
use filly.Ports.Types.{PortDef, port, port_trigger, port_bool}
use filly.Ports.Lookup.{project_get_widget_ports, project_get_widget_ports_complete, is_complete}
use filly.Project.{
  BuilderProject, Rect, GraphNode, node_widget, new_item, project_new, project_find_item,
  project_add_item, project_remove_item, project_move_item, project_resize_item, project_set_parent,
  project_update_item_params, project_remove_node, project_add_store_node,
}
use filly.Project.Items.{
  project_find_item-project_add_item, project_find_item-project_remove_item,
  project_find_item-changed, changed,
}
use filly.Project.Nodes.{project_remove_node_reuses_id, project_remove_node_shifts_ends, count_id}
use filly.Project.Run.{
  Operation, add_item, remove_item, add_node, add_store_var, run, IsValid, project_run-IsValid,
}
use filly.Validator.{rects_overlap}
use filly.Validator.Overlap.{rects_overlap_iff, IsInside}
use filly.Graph.{ConnectionGraph, connect_nodes, edge, graph_key, graph_ports_compatible}
use filly.Graph.Wire.{connect_nodes-expected, connect_nodes_twice, expected}
use filly.Graph.Edit.{graph_key_lem, Succeeds}
use filly.Widgets.Events.{enter}

abbrev box : ℤ → ℤ → Rect
box x y = record { x = x; y = y; w = pos 10; h = pos 3 }

-- Parameters are texts here: the title that a new item gets.
abbrev titled : Text → Text
titled t = t

abbrev steps : List (Operation Text)
steps =
    add_item (codes "menu") (box (pos 0) (pos 0))
    ∷ add_item (codes "input") (box (pos 5) (pos 1))
    ∷ remove_item 1
    ∷ add_node 2
    ∷ add_store_var (codes "mode") none none
    ∷ []

abbrev built : BuilderProject Text
built = run titled titled (project_new none (pos 0) (pos 40)) steps

project_run-IsValid_example : IsValid titled titled built
project_run-IsValid_example = project_run-IsValid titled titled none (pos 0) (pos 40) steps

built-IsValid : IsValid titled titled built
built-IsValid = project_run-IsValid titled titled none (pos 0) (pos 40) steps

project_find_item-project_add_item_example :
    project_find_item (project_add_item titled built (codes "badge") (box (pos 1) (pos 1))) 2 ≡ (
      if 2 == built.next_item_id
      then some (new_item titled built.next_item_id (codes "badge") (box (pos 1) (pos 1)))
      else project_find_item built 2)
project_find_item-project_add_item_example =
    project_find_item-project_add_item titled built (codes "badge") (box (pos 1) (pos 1)) 2
      built-IsValid.new_ids

project_find_item-project_remove_item_example :
    project_find_item (project_remove_item built 2) 2
    ≡ (if 2 == 2 then none else project_find_item built 2)
project_find_item-project_remove_item_example =
    project_find_item-project_remove_item built 2 2 built-IsValid.new_ids

project_find_item-changed_run :
    (project_find_item (project_move_item built 2 (pos 7) (pos 8)) 2
      ≡ changed
          (λ i. record i { rect = record { x = pos 7; y = pos 8; w = i.rect.w; h = i.rect.h } })
          built
          2
          2)
    × (project_find_item (project_resize_item built 2 (pos 7) (pos 8)) 2
        ≡ changed
            (λ i. record i { rect = record { x = i.rect.x; y = i.rect.y; w = pos 7; h = pos 8 } })
            built
            2
            2)
    × (project_find_item (project_set_parent built 2 (pos 1)) 2
        ≡ changed (λ i. record i { parent_id = pos 1 }) built 2 2)
    × (project_find_item (project_update_item_params titled built 2 (codes "Name")) 2
        ≡ changed (λ i. record i { params = codes "Name" }) built 2 2)
project_find_item-changed_run =
    project_find_item-changed titled built 2 2 (pos 7) (pos 8) (pos 1) (codes "Name")

project_get_widget_ports_complete_run :
    is_complete (project_get_widget_ports (codes "slideshow")) ≡ true
project_get_widget_ports_complete_run = project_get_widget_ports_complete (codes "slideshow")

abbrev node : ℕ → List PortDef → GraphNode
node id ports = record {
  id = id;
  type = node_widget;
  label = codes "n";
  widget_id = pos id;
  store_key = none;
  fil_script = none;
  ports = ports;
}

abbrev on_click : PortDef
on_click = port 0 "on_click" port_trigger true "Emitted when the button is clicked/pressed"

abbrev set_visible : PortDef
set_visible = port 0 "set_visible" port_bool false "Show or hide this widget"

abbrev three_nodes : List GraphNode
three_nodes =
    node 1 (on_click ∷ set_visible ∷ [])
    ∷ node 2 (on_click ∷ set_visible ∷ [])
    ∷ node 3 (on_click ∷ set_visible ∷ [])
    ∷ []

abbrev with_nodes : BuilderProject Text
with_nodes = record built { nodes = three_nodes; edges = edge (0, 0) 2 1 ∷ [] }

project_remove_node_shifts_ends_example :
    ((project_remove_node with_nodes 2).edges ≡ with_nodes.edges)
    × (get_elem? (project_remove_node with_nodes 2).nodes 1 ≡ get_elem? with_nodes.nodes 2)
project_remove_node_shifts_ends_example =
    project_remove_node_shifts_ends with_nodes 2 1 (refl, (refl, (refl, tt))) (omega arith)
      (omega arith)

project_remove_node_reuses_id_run :
    count_id 3
      (project_add_store_node (project_remove_node with_nodes 2) (codes "mode") none none).nodes
    ≡ 2
project_remove_node_reuses_id_run =
    project_remove_node_reuses_id with_nodes 2 (codes "mode") none none (refl, (refl, (refl, tt)))
      (omega arith) (omega arith)

-- No script fails.
abbrev fine : Text → Option Text
fine s = none

rects_overlap_iff_run : (rects_overlap (box (pos 0) (pos 0)) (box (negsuc 4) (pos 2)) ≡ true) ↔ (
    (x : ℤ) × (y : ℤ) × IsInside x y (box (pos 0) (pos 0)) × IsInside x y (box (negsuc 4) (pos 2)))
rects_overlap_iff_run =
    rects_overlap_iff (box (pos 0) (pos 0)) (box (negsuc 4) (pos 2)) (omega arith) (omega arith)
      (omega arith) (omega arith)

connect_nodes-expected_example :
    connect_nodes on_click (0, 0) 3 0 three_nodes 0 []
    ≡ expected on_click (0, 0) 3 0 three_nodes 0 []
connect_nodes-expected_example =
    connect_nodes-expected on_click (0, 0) 3 0 three_nodes 0 [] (refl, (refl, (refl, tt)))

compatible : graph_ports_compatible on_click set_visible ≡ true
unfolding graph_ports_compatible
compatible = refl

connect_nodes_twice_run :
    connect_nodes on_click
      (2, 0)
      0
      0
      (node 1 (set_visible ∷ []) ∷ node 2 (set_visible ∷ []) ∷ [])
      0
      []
    ≡ edge (2, 0) 0 0 ∷ edge (2, 0) 1 0 ∷ []
connect_nodes_twice_run =
    connect_nodes_twice on_click (2, 0) (node 1 (set_visible ∷ [])) (node 2 (set_visible ∷ []))
      set_visible set_visible [] [] refl refl compatible compatible

-- The second field of an edge is edited.
abbrev editing : ConnectionGraph Text
editing = record {
  project = with_nodes;
  selected_node = none;
  selected_edge = some 0;
  wire = none;
  dragging_node = false;
  editing_edge = true;
  editing_edge_idx = some 0;
  edit_buf = codes "upper";
  edit_field = 1;
}

graph_key_lem_example : Succeeds (graph_key editing enter 0)
graph_key_lem_example =
    graph_key_lem editing enter 0
      (record { fits = omega arith; edited = omega arith; selected = tt; ended = inl refl })
