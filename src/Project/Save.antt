-- ===== src/Project/Save.antt =====
-- src/builder/project.c, `project_save`: a project as a JSON value, and the file that it is written to.
use filly.Prelude.{
  ℕ, Bool, true, false, Option, none, some, List, [], ◌∷◌, ◌++◌, map, Text, codes, String, text_eq,
  if◌then◌else◌,
}
use filly.Prelude.Int.{ℤ, pos}
use filly.CJson.{CJson}
use filly.Ports.Types.{PortDef, PortDataType, port_trigger, port_string, port_bool, port_int}
use filly.Document.{
  Rect, ConnectionEdge, NodeType, node_widget, node_store, node_fil_block, node_conditional,
  GraphNode, CanvasItem, KeymapScope, kb_scope_global, kb_scope_widget, KeymapEntry, StoreVar,
  TuiConfig, BuilderProject,
}

-- The enumerators as numbers, in the order of their declarations.
unfoldable pub node_type_number : NodeType → ℕ
node_type_number node_widget = 0
node_type_number node_store = 1
node_type_number node_fil_block = 2
node_type_number node_conditional = 3

unfoldable pub port_type_number : PortDataType → ℕ
port_type_number port_trigger = 0
port_type_number port_string = 1
port_type_number port_bool = 2
port_type_number port_int = 3

unfoldable pub scope_number : KeymapScope → ℕ
scope_number kb_scope_global = 0
scope_number kb_scope_widget = 1

-- `s ? s : ""`
abbrev pub or_empty : Option Text → Text
or_empty none = []
or_empty (some s) = s

module _ {J : Type 0} (C : CJson J) where
  -- `cJSON_AddNumberToObject` and its kin, by the field that they add.
  abbrev pub number : String → ℤ → Text × J
  number name n = (codes name, C.create_number n)

  abbrev pub string : String → Text → Text × J
  string name s = (codes name, C.create_string s)

  abbrev pub bool : String → Bool → Text × J
  bool name b = (codes name, C.create_bool b)

  -- The same, under a test that the string is not null.
  abbrev pub string_if : String → Option Text → List (Text × J) → List (Text × J)
  string_if name none ms = ms
  string_if name (some s) ms = string name s ∷ ms

  abbrev pub rect_members : Rect → List (Text × J)
  rect_members r = (number "x" r.x ∷ number "y" r.y ∷ number "w" r.w ∷ number "h" r.h ∷ [])

  unfoldable pub rect_json : Rect → J
  rect_json r = C.create_object (rect_members r)

  abbrev pub item_members : CanvasItem J → List (Text × J)
  item_members i =
      (number "id" (pos i.id)
        ∷ string "type" i.widget_type
        ∷ string "name" i.instance_name
        ∷ (codes "rect", rect_json i.rect)
        ∷ (codes "params", i.params)
        ∷ number "parent" i.parent_id
        ∷ number "tab_index" i.tab_index
        ∷ bool "locked" i.locked
        ∷ bool "visible" i.visible
        ∷ [])

  unfoldable pub item_json : CanvasItem J → J
  item_json i = C.create_object (item_members i)

  abbrev pub port_members : PortDef → List (Text × J)
  port_members po =
      (number "id" (pos po.id)
        ∷ string "name" po.name
        ∷ number "type" (pos (port_type_number po.type))
        ∷ bool "out" po.is_output
        ∷ string_if "desc" po.description [])

  unfoldable pub port_json : PortDef → J
  port_json po = C.create_object (port_members po)

  abbrev pub node_members : GraphNode → List (Text × J)
  node_members n =
      (number "id" (pos n.id)
        ∷ number "type" (pos (node_type_number n.type))
        ∷ string "label" n.label
        ∷ number "widget_id" n.widget_id
        ∷ string_if "store_key" n.store_key (
            string_if "fil_script" n.fil_script
              ((codes "ports", C.create_array (map port_json n.ports)) ∷ [])))

  unfoldable pub node_json : GraphNode → J
  node_json n = C.create_object (node_members n)

  abbrev pub edge_members : ConnectionEdge → List (Text × J)
  edge_members e =
      (number "from_node" (pos e.from_node)
        ∷ number "from_port" (pos e.from_port)
        ∷ number "to_node" (pos e.to_node)
        ∷ number "to_port" (pos e.to_port)
        ∷ string_if "condition" e.condition (string_if "transform" e.transform []))

  unfoldable pub edge_json : ConnectionEdge → J
  edge_json e = C.create_object (edge_members e)

  abbrev pub keymap_members : KeymapEntry → List (Text × J)
  keymap_members k =
      (number "scope" (pos (scope_number k.scope))
        ∷ number "widget_id" k.widget_id
        ∷ string "key" k.key
        ∷ string "action" k.action
        ∷ [])

  unfoldable pub keymap_json : KeymapEntry → J
  keymap_json k = C.create_object (keymap_members k)

  abbrev pub store_var_members : StoreVar → List (Text × J)
  store_var_members v =
      (string "key" v.key ∷ string "initial" v.initial_value ∷ string "type" v.type ∷ [])

  unfoldable pub store_var_json : StoreVar → J
  store_var_json v = C.create_object (store_var_members v)

  abbrev pub tui_members : TuiConfig → List (Text × J)
  tui_members t =
      (bool "show_tab_order" t.show_tui_overlay
        ∷ number "min_term_w" t.min_terminal_width
        ∷ number "min_term_h" t.min_terminal_height
        ∷ string_if "fallback_font" t.fallback_font [])

  unfoldable pub tui_json : TuiConfig → J
  tui_json t = C.create_object (tui_members t)

  abbrev pub project_members : BuilderProject J → List (Text × J)
  project_members p =
      (number "version" (pos 1)
        ∷ number "filly_version" (pos p.filly_version)
        ∷ string "name" p.project_name
        ∷ string "author" (or_empty p.author)
        ∷ string "description" (or_empty p.description)
        ∷ (codes "root", C.create_object (number "w" p.root_width ∷ number "h" p.root_height ∷ []))
        ∷ (codes "items", C.create_array (map item_json p.items))
        ∷ (codes "nodes", C.create_array (map node_json p.nodes))
        ∷ (codes "edges", C.create_array (map edge_json p.edges))
        ∷ (codes "keymaps", C.create_array (map keymap_json p.keymaps))
        ∷ (codes "store_vars", C.create_array (map store_var_json p.store_vars))
        ∷ (codes "tui", tui_json p.tui)
        ∷ [])

  unfoldable pub project_json : BuilderProject J → J
  project_json p = C.create_object (project_members p)

  -- What the file then holds: `fprintf(f, "%s\n", json)`.
  unfoldable pub project_text : BuilderProject J → Text
  project_text p = C.print_unformatted (project_json p) ++ b'\n' ∷ []

  -- The files after `project_save`, and what it returns; `can_write` says whether `fopen` succeeds.
  unfoldable pub project_save :
      (Text → Bool) → (Text → Option Text) → BuilderProject J → Text → (Text → Option Text) × Bool
  project_save can_write files p path =
      if can_write path
      then (λ q. if text_eq q path then some (project_text p) else files q, true)
      else (files, false)
