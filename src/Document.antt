-- ===== src/Document.antt =====
-- src/builder/project.h: the document of the builder. `int`s that count, index or identify are natural
-- numbers without a bound; coordinates are integers. The `undo` stack of a project, which project.c
-- creates and frees but never uses, is left out.
use filly.Prelude.{ℕ, Bool, Option, List, Text}
use filly.Prelude.Int.{ℤ}
use filly.Ports.Types.{PortDef}

-- `Rect` of src/core/render.h.
pub record Rect : Type 0 where
  pub x : ℤ
  pub y : ℤ
  pub w : ℤ
  pub h : ℤ

pub record ConnectionEdge : Type 0 where
  pub from_node : ℕ
  pub from_port : ℕ
  pub to_node : ℕ
  pub to_port : ℕ
  pub condition : Option Text
  pub transform : Option Text

pub data NodeType : Type 0 where
  node_widget node_store node_fil_block node_conditional : NodeType

pub record GraphNode : Type 0 where
  pub id : ℕ
  pub type : NodeType
  pub label : Text
  pub widget_id : ℤ
  pub store_key : Option Text
  pub fil_script : Option Text
  pub ports : List PortDef

-- `J` stands for `cJSON`.
pub record CanvasItem (J : Type 0) : Type 0 where
  pub id : ℕ
  pub widget_type : Text
  pub instance_name : Text
  pub rect : Rect
  pub params : J
  pub parent_id : ℤ
  pub tab_index : ℤ
  pub locked : Bool
  pub visible : Bool

pub data KeymapScope : Type 0 where
  kb_scope_global kb_scope_widget : KeymapScope

pub record KeymapEntry : Type 0 where
  pub scope : KeymapScope
  pub widget_id : ℤ
  pub key : Text
  pub action : Text

pub record StoreVar : Type 0 where
  pub key : Text
  pub initial_value : Text
  pub type : Text

pub record TuiConfig : Type 0 where
  pub show_tui_overlay : Bool
  pub min_terminal_width : ℤ
  pub min_terminal_height : ℤ
  pub fallback_font : Option Text

-- The counts are the lengths of the lists.
pub record BuilderProject (J : Type 0) : Type 0 where
  pub project_name : Text
  pub file_path : Option Text
  pub items : List (CanvasItem J)
  pub next_item_id : ℕ
  pub root_width : ℤ
  pub root_height : ℤ
  pub nodes : List GraphNode
  pub edges : List ConnectionEdge
  pub keymaps : List KeymapEntry
  pub store_vars : List StoreVar
  pub tui : TuiConfig
  pub filly_version : ℕ
  pub author : Option Text
  pub description : Option Text
