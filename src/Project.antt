-- ===== src/Project.antt =====
-- src/builder/project.c: the operations on the document of the builder.
pub mod Items
pub mod Nodes
pub mod Run
pub mod Save
pub mod Load
pub mod Reading
pub mod Parts
pub mod Reload
use filly.Prelude.{
  ℕ, zero, suc, ◌+◌, Bool, true, false, Option, none, some, List, [], ◌∷◌, ◌++◌, Text, codes,
  text_eq, snprintf, decimal, ◌==◌, if◌then◌else◌, length, erase_idx,
}
use filly.Prelude.Int.{ℤ, pos, negsuc, ltb_ℤ}
use filly.Ports.Types.{port_string, port}
pub use filly.Document.{
  Rect, ConnectionEdge, NodeType, node_widget, node_store, node_fil_block, node_conditional,
  GraphNode, CanvasItem, KeymapScope, KeymapEntry, StoreVar, TuiConfig, BuilderProject,
}
use filly.Ports.Lookup.{project_get_widget_ports}

abbrev or_else : Option Text → Text → Text
or_else (some t) d = t
or_else none d = d

pub remove_node : ℕ → List GraphNode → List GraphNode
remove_node node_id [] = []
remove_node node_id (n ∷ ns) = if n.id == node_id then ns else n ∷ remove_node node_id ns

pub has_var : Text → List StoreVar → Bool
has_var key [] = false
has_var key (v ∷ vs) = if text_eq v.key key then true else has_var key vs

module _ {J : Type 0} where
  pub project_new : Option Text → ℤ → ℤ → BuilderProject J
  project_new name root_w root_h = record {
    project_name = or_else name (codes "untitled");
    file_path = none;
    items = [];
    next_item_id = 1;
    root_width = if ltb_ℤ (pos 0) root_w then root_w else pos 800;
    root_height = if ltb_ℤ (pos 0) root_h then root_h else pos 600;
    nodes = [];
    edges = [];
    keymaps = [];
    store_vars = [];
    tui = record {
      show_tui_overlay = false;
      min_terminal_width = pos 80;
      min_terminal_height = pos 24;
      fallback_font = none;
    };
    filly_version = 1;
    author = none;
    description = none;
  }

  -- The scan of `project_find_item`.
  pub find_item : ℕ → List (CanvasItem J) → Option (CanvasItem J)
  find_item item_id [] = none
  find_item item_id (i ∷ is) = if i.id == item_id then some i else find_item item_id is

  -- The pointer that it returns lets an operation overwrite the first item of that id.
  pub update_item : ℕ → (CanvasItem J → CanvasItem J) → List (CanvasItem J) → List (CanvasItem J)
  update_item item_id f [] = []
  update_item item_id f (i ∷ is) =
      if i.id == item_id then f i ∷ is else i ∷ update_item item_id f is

  pub remove_item : ℕ → List (CanvasItem J) → List (CanvasItem J)
  remove_item item_id [] = []
  remove_item item_id (i ∷ is) = if i.id == item_id then is else i ∷ remove_item item_id is

  pub project_find_item : BuilderProject J → ℕ → Option (CanvasItem J)
  project_find_item p item_id = find_item item_id p.items

  -- `titled` stands for `cJSON_CreateObject` and `cJSON_AddStringToObject(…, "title", …)`.
  pub new_item : (Text → J) → ℕ → Text → Rect → CanvasItem J
  new_item titled id widget_type rect = record {
    id = id;
    widget_type = widget_type;
    instance_name = snprintf 64 (widget_type ++ (codes "_" ++ decimal id));
    rect = rect;
    params = titled widget_type;
    parent_id = negsuc 0;
    tab_index = pos 0;
    locked = false;
    visible = true;
  }

  pub project_add_item : (Text → J) → BuilderProject J → Text → Rect → BuilderProject J
  project_add_item titled p widget_type rect = record p {
    items = p.items ++ (new_item titled p.next_item_id widget_type rect ∷ []);
    next_item_id = p.next_item_id + 1;
  }

  pub project_remove_item : BuilderProject J → ℕ → BuilderProject J
  project_remove_item p item_id = record p { items = remove_item item_id p.items }

  abbrev change_item : BuilderProject J → ℕ → (CanvasItem J → CanvasItem J) → BuilderProject J
  change_item p item_id f = record p { items = update_item item_id f p.items }

  pub project_move_item : BuilderProject J → ℕ → ℤ → ℤ → BuilderProject J
  project_move_item p item_id x y =
      change_item p item_id
        (λ i. record i { rect = record { x = x; y = y; w = i.rect.w; h = i.rect.h } })

  pub project_resize_item : BuilderProject J → ℕ → ℤ → ℤ → BuilderProject J
  project_resize_item p item_id w h =
      change_item p item_id
        (λ i. record i { rect = record { x = i.rect.x; y = i.rect.y; w = w; h = h } })

  pub project_set_parent : BuilderProject J → ℕ → ℤ → BuilderProject J
  project_set_parent p item_id parent_id =
      change_item p item_id (λ i. record i { parent_id = parent_id })

  -- `duplicate` stands for `cJSON_Duplicate(…, 1)`.
  pub project_update_item_params : (J → J) → BuilderProject J → ℕ → J → BuilderProject J
  project_update_item_params duplicate p item_id new_params =
      change_item p item_id (λ i. record i { params = duplicate new_params })

  pub project_add_store_var : BuilderProject J → Text → Option Text → Option Text → BuilderProject J
  project_add_store_var p key initial type = if has_var key p.store_vars then p else record p {
    store_vars =
        p.store_vars
        ++ (record {
          key = key;
          initial_value = or_else initial (codes "");
          type = or_else type (codes "string");
        }
            ∷ []);
  }

  -- `false` is a null `GraphNode *`: the item does not exist.
  pub project_add_node : BuilderProject J → ℕ → BuilderProject J × Bool
  project_add_node p widget_id = elim (project_find_item p widget_id) [
    | none ↦ (p, false)
    | some item ↦ (
      record p {
        nodes =
            p.nodes
            ++ (record {
              id = length p.nodes + 1;
              type = node_widget;
              label = item.instance_name;
              widget_id = pos widget_id;
              store_key = none;
              fil_script = none;
              ports = project_get_widget_ports item.widget_type;
            }
                ∷ []);
      },
      true,
    )
  ]

  pub project_add_store_node :
      BuilderProject J → Text → Option Text → Option Text → BuilderProject J
  project_add_store_node p key initial type =
      project_add_store_var
        (record p {
          nodes =
              p.nodes
              ++ (record {
                id = length p.nodes + 1;
                type = node_store;
                label = snprintf 128 (codes "store." ++ key);
                widget_id = pos 0;
                store_key = some key;
                fil_script = none;
                ports =
                    port 0 "value" port_string true "Current value"
                    ∷ port 1 "set" port_string false "Set the value"
                    ∷ [];
              }
                  ∷ []);
        })
        key initial type

  pub project_remove_node : BuilderProject J → ℕ → BuilderProject J
  project_remove_node p node_id = record p { nodes = remove_node node_id p.nodes }

  pub project_add_edge : BuilderProject J → ℕ → ℕ → ℕ → ℕ → BuilderProject J
  project_add_edge p from_node from_port to_node to_port = record p {
    edges =
        p.edges
        ++ (record {
          from_node = from_node;
          from_port = from_port;
          to_node = to_node;
          to_port = to_port;
          condition = none;
          transform = none;
        }
            ∷ []);
  }

  -- Out of range nothing is removed, which is what `erase_idx` does.
  pub project_remove_edge : BuilderProject J → ℕ → BuilderProject J
  project_remove_edge p edge_idx = record p { edges = erase_idx p.edges edge_idx }

  pub project_add_keymap : BuilderProject J → KeymapScope → ℤ → Text → Text → BuilderProject J
  project_add_keymap p scope widget_id key action = record p {
    keymaps =
        p.keymaps
        ++ (record { scope = scope; widget_id = widget_id; key = key; action = action } ∷ []);
  }

  pub project_remove_keymap : BuilderProject J → ℕ → BuilderProject J
  project_remove_keymap p idx = record p { keymaps = erase_idx p.keymaps idx }
