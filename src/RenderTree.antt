-- ===== src/RenderTree.antt =====
-- src/core/render.h and render.c: the tree that a widget renders to, and the walks over it in
-- src/core/session.c.
pub mod Focus
pub mod Hit
pub mod Delta
use filly.Prelude.{ℕ, ◌+◌, Bool, true, false, Option, none, some, Text, ◌==◌, ◌||◌, if◌then◌else◌}
use filly.Prelude.Int.{ℤ}
use filly.Project.{Rect}

-- What the walks read of a `RenderTree`; `type` is the number of the `RenderNodeType`.
pub record Node : Type 0 where
  pub type : ℕ
  pub rect : Rect
  pub dirty : Bool
  pub tab_index : ℤ
  pub style_class : Option Text

abbrev pub rnode_container : ℕ
rnode_container = 0

abbrev pub rnode_tabs : ℕ
rnode_tabs = 15

abbrev pub rnode_split_panes : ℕ
rnode_split_panes = 16

abbrev pub rnode_flex : ℕ
rnode_flex = 19

abbrev pub rnode_grid : ℕ
rnode_grid = 20

-- A node and what its union holds of trees: the `children` of a container, flex or grid, the `child`
-- of tabs, or `first`, `second` and `third` of split panes, each time without the null ones.
mutual
  pub data RenderTree : Type 0 where
    tree : Node → Forest → RenderTree

  pub data Forest : Type 0 where
    nil : Forest
    cons : RenderTree → Forest → Forest

-- The types whose children a hit test, a delta and a mark go into.
abbrev pub is_box : ℕ → Bool
is_box type = type == rnode_container || (type == rnode_flex || type == rnode_grid)

-- The types whose children the search for focus goes into.
abbrev pub has_trees : ℕ → Bool
has_trees type = is_box type || (type == rnode_tabs || type == rnode_split_panes)
