-- ===== src/Project/Parts.antt =====
-- src/builder/project.c: each part of a project, saved and loaded again.
use filly.Prelude.{
  ℕ, ◌≤◌, ◌≡◌, refl, ◌∙◌, none, some, List, [], ◌∷◌, map, Text, codes, String, arith, All,
  if◌then◌else◌,
}
use filly.Prelude.Int.{pos, negsuc}
use filly.Prelude.Options.{traverse-map}
use filly.CJson.{CJson, IsLawful, find_member}
use filly.Ports.Types.{PortDef, PortDataType}
use filly.Document.{
  Rect, ConnectionEdge, NodeType, GraphNode, CanvasItem, KeymapScope, KeymapEntry, StoreVar,
  TuiConfig,
}
use filly.Project.Save
use filly.Project.Save.{string_if}
use filly.Project.Save.{
  item_json, port_json, node_json, edge_json, keymap_json, store_var_json, tui_json, rect_json,
  project_json, project_text, project_save, node_type_number, port_type_number, scope_number,
  or_empty,
}
use filly.Project.Load.{
  int_at, text_or, natural_at, params_at, load_item, load_rect, rect_at, load_port, load_node,
  load_edge, load_keymap, load_store_var, load_tui, natural, node_type_of, port_type_of, scope_of,
}
use filly.Project.Reading.{
  IsInt, truth-bool, int_at_lem, bool_at_lem, int_or_lem, text_at_lem, items_at_lem,
  find_member-string_if, text_at_if,
}

-- The numbers of the parts are `int`s of 32 bits.
abbrev pub IsIntRect : Rect → Type 0
IsIntRect r = IsInt r.x × IsInt r.y × IsInt r.w × IsInt r.h

pub record IsIntItem {J : Type 0} (i : CanvasItem J) : Type 0 where
  pub id : IsInt (pos i.id)
  pub rect : IsIntRect i.rect
  pub parent_id : IsInt i.parent_id
  pub tab_index : IsInt i.tab_index

pub record IsIntNode (n : GraphNode) : Type 0 where
  pub id : IsInt (pos n.id)
  pub widget_id : IsInt n.widget_id
  pub ports : All (λ (po : PortDef). IsInt (pos po.id)) n.ports

abbrev pub IsIntEdge : ConnectionEdge → Type 0
IsIntEdge e =
    IsInt (pos e.from_node)
    × IsInt (pos e.from_port)
    × IsInt (pos e.to_node)
    × IsInt (pos e.to_port)

abbrev pub IsIntKeymap : KeymapEntry → Type 0
IsIntKeymap k = IsInt k.widget_id

abbrev pub IsIntTui : TuiConfig → Type 0
IsIntTui t = IsInt t.min_terminal_width × IsInt t.min_terminal_height

-- `project_load` leaves out the descriptions of the ports.
abbrev pub undescribed : PortDef → PortDef
undescribed po = record po { description = none }

abbrev pub undescribed_ports : GraphNode → GraphNode
undescribed_ports n = record n { ports = map undescribed n.ports }

module _ {J : Type 0} (C : CJson J) (law : IsLawful C) where
  natural_at_lem :
      (ms : List (Text × J)) (name : String) (n : ℕ)
      → int_at C (C.create_object ms) name ≡ some (pos n)
      → natural_at C (C.create_object ms) name ≡ some n
  unfolding natural_at
  natural_at_lem ms name n e = rw e

  load_rect_lem : (r : Rect) → IsIntRect r → load_rect C (rect_json C r) ≡ some r
  unfolding load_rect rect_json find_member
  load_rect_lem r (x, y, w, h) =
      let ms = Save.rect_members C r in
      ground (
        arith,
        int_at_lem C law ms "x" r.x refl x,
        int_at_lem C law ms "y" r.y refl y,
        int_at_lem C law ms "w" r.w refl w,
        int_at_lem C law ms "h" r.h refl h,
      )

  pub load_item_lem : (i : CanvasItem J) → IsIntItem i → load_item C (item_json C i) ≡ some i
  unfolding load_item item_json find_member rect_at params_at text_or
  load_item_lem i h =
      let ms = Save.item_members C i in
      ground (
        arith,
        natural_at_lem ms "id" i.id (int_at_lem C law ms "id" (pos i.id) refl h.id),
        text_at_lem C law ms "type" i.widget_type refl,
        text_at_lem C law ms "name" i.instance_name refl,
        law.get_object_item-create ms (codes "rect"),
        load_rect_lem i.rect h.rect,
        law.get_object_item-create ms (codes "params"),
        int_or_lem C law ms "parent" (negsuc 0) i.parent_id
            (int_at_lem C law ms "parent" i.parent_id refl h.parent_id),
        int_or_lem C law ms "tab_index" (pos 0) i.tab_index
            (int_at_lem C law ms "tab_index" i.tab_index refl h.tab_index),
        int_or_lem C law ms "locked" (pos 0) (if i.locked then pos 1 else pos 0)
            (bool_at_lem C law ms "locked" i.locked refl),
        int_or_lem C law ms "visible" (pos 1) (if i.visible then pos 1 else pos 0)
            (bool_at_lem C law ms "visible" i.visible refl),
        truth-bool i.locked,
        truth-bool i.visible,
      )

  port_type_of-number : (t : PortDataType) → port_type_of (port_type_number t) ≡ some t
  unfolding port_type_of port_type_number
  port_type_of-number t = ground arith

  node_type_of-number : (t : NodeType) → node_type_of (node_type_number t) ≡ some t
  unfolding node_type_of node_type_number
  node_type_of-number t = ground arith

  scope_of-number : (t : KeymapScope) → scope_of (scope_number t) ≡ some t
  unfolding scope_of scope_number
  scope_of-number t = ground arith

  small : (n : ℕ) → n ≤ 3 → IsInt (pos n)
  small n h = omega arith

  port_type-small : (t : PortDataType) → port_type_number t ≤ 3
  unfolding port_type_number
  port_type-small t = ground arith

  node_type-small : (t : NodeType) → node_type_number t ≤ 3
  unfolding node_type_number
  node_type-small t = ground arith

  scope-small : (t : KeymapScope) → scope_number t ≤ 3
  unfolding scope_number
  scope-small t = ground arith

  load_port_lem :
      (po : PortDef) → IsInt (pos po.id) → load_port C (port_json C po) ≡ some (undescribed po)
  unfolding load_port port_json find_member text_or
  load_port_lem po h =
      let ms = Save.port_members C po in
      let type = port_type_number po.type in
      ground (
        arith,
        natural_at_lem ms "id" po.id (int_at_lem C law ms "id" (pos po.id) refl h),
        text_at_lem C law ms "name" po.name refl,
        natural_at_lem ms "type" type
            (int_at_lem C law ms "type" (pos type) refl (small type (port_type-small po.type))),
        port_type_of-number po.type,
        bool_at_lem C law ms "out" po.is_output refl,
        truth-bool po.is_output,
      )

  pub load_node_lem :
      (n : GraphNode) → IsIntNode n → load_node C (node_json C n) ≡ some (undescribed_ports n)
  unfolding load_node node_json find_member text_or natural
  load_node_lem n h =
      let ms = Save.node_members C n in
      let type = node_type_number n.type in
      let ports : List (Text × J) =
        (codes "ports", C.create_array (map (port_json C) n.ports)) ∷ [] in
      let script = string_if C "fil_script" n.fil_script ports in
      ground (
        arith,
        natural_at_lem ms "id" n.id (int_at_lem C law ms "id" (pos n.id) refl h.id),
        text_at_lem C law ms "label" n.label refl,
        natural_at_lem ms "type" type
            (int_at_lem C law ms "type" (pos type) refl (small type (node_type-small n.type))),
        node_type_of-number n.type,
        int_or_lem C law ms "widget_id" (negsuc 0) n.widget_id
            (int_at_lem C law ms "widget_id" n.widget_id refl h.widget_id),
        text_at_if C law ms "store_key" n.store_key script refl refl
            (find_member-string_if C law "store_key" "fil_script" n.fil_script ports refl),
        text_at_if C law ms "fil_script" n.fil_script ports
            (find_member-string_if C law "fil_script" "store_key" n.store_key script refl) refl
            refl,
        items_at_lem C law ms "ports" (map (port_json C) n.ports) (
            find_member-string_if C law "ports" "store_key" n.store_key script refl
            ∙ find_member-string_if C law "ports" "fil_script" n.fil_script ports refl),
        traverse-map (load_port C) (port_json C) undescribed (λ (po : PortDef). IsInt (pos po.id))
            load_port_lem n.ports h.ports,
      )

  pub load_edge_lem : (e : ConnectionEdge) → IsIntEdge e → load_edge C (edge_json C e) ≡ some e
  unfolding load_edge edge_json find_member
  load_edge_lem e (a, b, c, d) =
      let ms = Save.edge_members C e in
      let transform = string_if C "transform" e.transform [] in
      ground (
        arith,
        natural_at_lem ms "from_node" e.from_node
            (int_at_lem C law ms "from_node" (pos e.from_node) refl a),
        natural_at_lem ms "from_port" e.from_port
            (int_at_lem C law ms "from_port" (pos e.from_port) refl b),
        natural_at_lem ms "to_node" e.to_node
            (int_at_lem C law ms "to_node" (pos e.to_node) refl c),
        natural_at_lem ms "to_port" e.to_port
            (int_at_lem C law ms "to_port" (pos e.to_port) refl d),
        text_at_if C law ms "condition" e.condition transform refl refl
            (find_member-string_if C law "condition" "transform" e.transform [] refl),
        text_at_if C law ms "transform" e.transform []
            (find_member-string_if C law "transform" "condition" e.condition transform refl) refl
            refl,
      )

  pub load_keymap_lem : (k : KeymapEntry) → IsIntKeymap k → load_keymap C (keymap_json C k) ≡ some k
  unfolding load_keymap keymap_json find_member text_or
  load_keymap_lem k h =
      let ms = Save.keymap_members C k in
      let scope = scope_number k.scope in
      ground (
        arith,
        natural_at_lem ms "scope" scope
            (int_at_lem C law ms "scope" (pos scope) refl (small scope (scope-small k.scope))),
        scope_of-number k.scope,
        int_at_lem C law ms "widget_id" k.widget_id refl h,
        text_at_lem C law ms "key" k.key refl,
        text_at_lem C law ms "action" k.action refl,
      )

  pub load_store_var_lem : (v : StoreVar) → load_store_var C (store_var_json C v) ≡ v
  unfolding load_store_var store_var_json find_member text_or
  load_store_var_lem v =
      let ms = Save.store_var_members C v in
      ground (
        arith,
        text_at_lem C law ms "key" v.key refl,
        text_at_lem C law ms "initial" v.initial_value refl,
        text_at_lem C law ms "type" v.type refl,
      )

  pub load_tui_lem : (t : TuiConfig) → IsIntTui t → load_tui C (tui_json C t) ≡ some t
  unfolding load_tui tui_json find_member
  load_tui_lem t (w, h) =
      let ms = Save.tui_members C t in
      ground (
        arith,
        bool_at_lem C law ms "show_tab_order" t.show_tui_overlay refl,
        truth-bool t.show_tui_overlay,
        int_at_lem C law ms "min_term_w" t.min_terminal_width refl w,
        int_at_lem C law ms "min_term_h" t.min_terminal_height refl h,
        text_at_if C law ms "fallback_font" t.fallback_font [] refl refl refl,
      )
