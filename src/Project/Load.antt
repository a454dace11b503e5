-- ===== src/Project/Load.antt =====
-- src/builder/project.c, `project_load`: a project from the text of a file.
use filly.Prelude.{
  ℕ, ◌+◌, Bool, true, false, not, Option, none, some, List, [], ◌∷◌, map, Text, codes, String, leb,
  ◌==◌, if◌then◌else◌,
}
use filly.Prelude.Int.{ℤ, pos, negsuc}
use filly.Prelude.Options.{◌>>=◌, traverse}
use filly.CJson.{CJson}
use filly.Ports.Types.{PortDef, PortDataType, port_trigger, port_string, port_bool, port_int}
use filly.Document.{
  Rect, ConnectionEdge, NodeType, node_widget, node_store, node_fil_block, node_conditional,
  GraphNode, CanvasItem, KeymapScope, kb_scope_global, kb_scope_widget, KeymapEntry, StoreVar,
  TuiConfig, BuilderProject,
}

-- What `project_load` comes to. `stuck` is an access through a null pointer, or a number that the
-- types here have no value for: a negative id, or one of an enumeration past its enumerators.
pub data LoadResult (J : Type 0) : Type 0 where
  loaded : BuilderProject J → LoadResult J
  no_project stuck : LoadResult J

-- The types hold numbers of `int` that the sources use as ids or as enumerators.
unfoldable pub natural : ℤ → Option ℕ
natural (pos n) = some n
natural (negsuc n) = none

unfoldable pub node_type_of : ℕ → Option NodeType
node_type_of n =
    if n == 0
    then some node_widget
    else if n == 1
    then some node_store
    else if n == 2
    then some node_fil_block
    else if n == 3
    then some node_conditional
    else none

unfoldable pub port_type_of : ℕ → Option PortDataType
port_type_of n =
    if n == 0
    then some port_trigger
    else if n == 1
    then some port_string
    else if n == 2
    then some port_bool
    else if n == 3
    then some port_int
    else none

unfoldable pub scope_of : ℕ → Option KeymapScope
scope_of n = if n == 0 then some kb_scope_global else if n == 1 then some kb_scope_widget else none

-- A number as a C `bool`.
unfoldable pub truth : ℤ → Bool
truth (pos n) = not (n == 0)
truth (negsuc n) = true

-- `if (item->id >= p->next_item_id) p->next_item_id = item->id + 1;`
unfoldable pub next_id_from : {J : Type 0} → ℕ → List (CanvasItem J) → ℕ
next_id_from next [] = next
next_id_from next (i ∷ is) = next_id_from (if leb next i.id then i.id + 1 else next) is

-- `calloc` began with 0.
abbrev pub next_id : {J : Type 0} → List (CanvasItem J) → ℕ
next_id items = next_id_from 0 items

module _ {J : Type 0} (C : CJson J) where
  -- `cJSON_GetObjectItem(o, name)->valueint`
  unfoldable pub int_at : J → String → Option ℤ
  int_at o name = elim (C.get_object_item o (codes name)) [
    | none ↦ none
    | some v ↦ some (C.valueint v)
  ]

  unfoldable pub natural_at : J → String → Option ℕ
  unfolding int_at natural
  natural_at o name = int_at o name >>= natural

  -- `v ? v->valueint : otherwise`
  unfoldable pub int_or : J → String → ℤ → ℤ
  int_or o name otherwise = elim (C.get_object_item o (codes name)) [
    | none ↦ otherwise
    | some v ↦ C.valueint v
  ]

  -- `v && v->valuestring`
  unfoldable pub text_at : J → String → Option Text
  text_at o name = elim (C.get_object_item o (codes name)) [
    | none ↦ none
    | some v ↦ C.valuestring v
  ]

  unfoldable pub text_or : J → String → Text → Text
  unfolding text_at
  text_or o name otherwise = elim (text_at o name) [ none ↦ otherwise | some s ↦ s ]

  -- `arr && cJSON_IsArray(arr)`, and its items.
  unfoldable pub items_at : J → String → List J
  items_at o name = elim (C.get_object_item o (codes name)) [
    | none ↦ []
    | some v ↦ elim (C.array_items v) [ none ↦ [] | some vs ↦ vs ]
  ]

  unfoldable pub load_rect : J → Option Rect
  load_rect r = do
    x ← int_at r "x"
    y ← int_at r "y"
    w ← int_at r "w"
    h ← int_at r "h"
    some (record { x = x; y = y; w = w; h = h })

  -- `calloc` left the rectangle at 0 where the item has none.
  unfoldable pub rect_at : J → Option Rect
  rect_at o = elim (C.get_object_item o (codes "rect")) [
    | none ↦ some (record { x = pos 0; y = pos 0; w = pos 0; h = pos 0 })
    | some r ↦ load_rect r
  ]

  unfoldable pub params_at : J → J
  params_at o = elim (C.get_object_item o (codes "params")) [
    | none ↦ C.create_object []
    | some v ↦ v
  ]

  unfoldable pub load_item : J → Option (CanvasItem J)
  load_item o = do
    id ← natural_at o "id"
    rect ← rect_at o
    some (record {
      id = id;
      widget_type = text_or o "type" [];
      instance_name = text_or o "name" [];
      rect = rect;
      params = params_at o;
      parent_id = int_or o "parent" (negsuc 0);
      tab_index = int_or o "tab_index" (pos 0);
      locked = truth (int_or o "locked" (pos 0));
      visible = truth (int_or o "visible" (pos 1));
    })

  unfoldable pub load_port : J → Option PortDef
  load_port o = do
    id ← natural_at o "id"
    type ← natural_at o "type" >>= port_type_of
    out ← int_at o "out"
    some (record {
      id = id;
      name = text_or o "name" [];
      type = type;
      is_output = truth out;
      description = none;
    })

  unfoldable pub load_node : J → Option GraphNode
  load_node o = do
    id ← natural_at o "id"
    type ← natural_at o "type" >>= node_type_of
    ports ← traverse load_port (items_at o "ports")
    some (record {
      id = id;
      type = type;
      label = text_or o "label" [];
      widget_id = int_or o "widget_id" (negsuc 0);
      store_key = text_at o "store_key";
      fil_script = text_at o "fil_script";
      ports = ports;
    })

  unfoldable pub load_edge : J → Option ConnectionEdge
  load_edge o = do
    from_node ← natural_at o "from_node"
    from_port ← natural_at o "from_port"
    to_node ← natural_at o "to_node"
    to_port ← natural_at o "to_port"
    some (record {
      from_node = from_node;
      from_port = from_port;
      to_node = to_node;
      to_port = to_port;
      condition = text_at o "condition";
      transform = text_at o "transform";
    })

  unfoldable pub load_keymap : J → Option KeymapEntry
  load_keymap o = do
    scope ← natural_at o "scope" >>= scope_of
    widget_id ← int_at o "widget_id"
    some (record {
      scope = scope;
      widget_id = widget_id;
      key = text_or o "key" [];
      action = text_or o "action" [];
    })

  unfoldable pub load_store_var : J → StoreVar
  load_store_var o = record {
    key = text_or o "key" [];
    initial_value = text_or o "initial" [];
    type = text_or o "type" (codes "string");
  }

  unfoldable pub load_tui : J → Option TuiConfig
  load_tui t = do
    shown ← int_at t "show_tab_order"
    min_w ← int_at t "min_term_w"
    min_h ← int_at t "min_term_h"
    some (record {
      show_tui_overlay = truth shown;
      min_terminal_width = min_w;
      min_terminal_height = min_h;
      fallback_font = text_at t "fallback_font";
    })

  unfoldable pub tui_at : J → Option TuiConfig
  tui_at root = elim (C.get_object_item root (codes "tui")) [
    | none ↦ some (record {
      show_tui_overlay = false;
      min_terminal_width = pos 0;
      min_terminal_height = pos 0;
      fallback_font = none;
    })
    | some t ↦ load_tui t
  ]

  -- A size of the root, of which `calloc` leaves 0 where there is no root.
  unfoldable pub root_size : J → String → ℤ → ℤ
  root_size root name otherwise = elim (C.get_object_item root (codes "root")) [
    | none ↦ pos 0
    | some r ↦ int_or r name otherwise
  ]

  unfoldable pub project_of : Text → J → Option (BuilderProject J)
  project_of path root = do
    version ← natural (int_or root "filly_version" (pos 1))
    items ← traverse load_item (items_at root "items")
    nodes ← traverse load_node (items_at root "nodes")
    edges ← traverse load_edge (items_at root "edges")
    keymaps ← traverse load_keymap (items_at root "keymaps")
    tui ← tui_at root
    some (record {
      project_name = text_or root "name" (codes "untitled");
      file_path = some path;
      items = items;
      next_item_id = next_id items;
      root_width = root_size root "w" (pos 800);
      root_height = root_size root "h" (pos 600);
      nodes = nodes;
      edges = edges;
      keymaps = keymaps;
      store_vars = map load_store_var (items_at root "store_vars");
      tui = tui;
      filly_version = version;
      author = text_at root "author";
      description = text_at root "description";
    })

  unfoldable pub project_load : (Text → Option Text) → Text → LoadResult J
  project_load files path = elim (files path) [
    | none ↦ no_project
    | some buf ↦ elim (C.parse buf) [
      | none ↦ no_project
      | some root ↦ elim (project_of path root) [ none ↦ stuck | some p ↦ loaded p ]
    ]
  ]
