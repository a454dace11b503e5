-- ===== src/RenderTree/Delta.antt =====
-- src/core/session.c and src/core/render.c: what changed between two trees, and how a tree is marked
-- as changed.
use filly.Prelude.{
  ℕ, ◌≡◌, refl, Bool, true, ◌||◌, ◌&&◌, not, List, [], ◌∷◌, ◌++◌, if◌then◌else◌, arith, ◌==◌,
  ==_refl,
}
use filly.Prelude.Int.{eqb_ℤ}
use filly.Project.{Rect}
use filly.RenderTree.{Node, RenderTree, Forest, tree, nil, cons, is_box}

-- `id` is the type of the node.
pub record DirtyNode : Type 0 where
  pub id : ℕ
  pub rect : Rect

abbrev pub dirty_node : Node → DirtyNode
dirty_node n = record { id = n.type; rect = n.rect }

-- `cur` is marked, or is not where and as large as `prev`.
pub differs : Node → Node → Bool
differs cur prev =
    not (
      (eqb_ℤ cur.rect.x prev.rect.x && eqb_ℤ cur.rect.y prev.rect.y)
      && (eqb_ℤ cur.rect.w prev.rect.w && eqb_ℤ cur.rect.h prev.rect.h))
    || cur.dirty

-- The nodes of the delta in order; its array grows with them.
unfoldable mutual
  pub session_compute_delta : RenderTree → RenderTree → List DirtyNode
  session_compute_delta (tree n cs) (tree m ds) =
      let inner = delta_forest cs ds in
      if n.type == m.type
      then (if differs n m then dirty_node n ∷ [] else []) ++ (if is_box n.type then inner else [])
      else []

  pub delta_forest : Forest → Forest → List DirtyNode
  delta_forest nil ds = []
  delta_forest (cons t ts) nil = []
  delta_forest (cons t ts) (cons u us) = session_compute_delta t u ++ delta_forest ts us

unfoldable mutual
  pub render_tree_mark_dirty : RenderTree → RenderTree
  render_tree_mark_dirty (tree n cs) =
      let marked = mark_forest cs in
      tree (record n { dirty = true }) (if is_box n.type then marked else cs)

  pub mark_forest : Forest → Forest
  mark_forest nil = nil
  mark_forest (cons t ts) = cons (render_tree_mark_dirty t) (mark_forest ts)

-- The nodes that can be reached through containers, flexes and grids, in the order of the tree.
unfoldable mutual
  pub reached : RenderTree → List Node
  reached (tree n cs) = n ∷ (if is_box n.type then reached_forest cs else [])

  pub reached_forest : Forest → List Node
  reached_forest nil = []
  reached_forest (cons t ts) = reached t ++ reached_forest ts

-- Of the reached nodes, those that are marked.
abbrev pub marked_only : List Node → List DirtyNode
marked_only [] = []
marked_only (n ∷ ns) = if n.dirty then dirty_node n ∷ marked_only ns else marked_only ns

abbrev pub all_dirty : List Node → List DirtyNode
all_dirty [] = []
all_dirty (n ∷ ns) = dirty_node n ∷ all_dirty ns

marked_only-append : (xs ys : List Node) → marked_only (xs ++ ys) ≡ marked_only xs ++ marked_only ys
marked_only-append [] ys = refl
marked_only-append (x ∷ xs) ys = ground (arith, marked_only-append xs ys)

all_dirty-append : (xs ys : List Node) → all_dirty (xs ++ ys) ≡ all_dirty xs ++ all_dirty ys
all_dirty-append [] ys = refl
all_dirty-append (x ∷ xs) ys = ground (arith, all_dirty-append xs ys)

differs_same : (n : Node) → differs n n ≡ n.dirty
unfolding differs
differs_same n = ground arith

differs_marked : (n : Node) → differs (record n { dirty = true }) n ≡ true
unfolding differs
differs_marked n = ground arith

mutual
  unfolding session_compute_delta delta_forest reached reached_forest

  delta_same : (t : RenderTree) → session_compute_delta t t ≡ marked_only (reached t)
  delta_same (tree n cs) = ground (arith, differs_same n, ==_refl n.type, delta_same_forest cs)

  delta_same_forest : (ts : Forest) → delta_forest ts ts ≡ marked_only (reached_forest ts)
  delta_same_forest nil = refl
  delta_same_forest (cons t ts) = rw (marked_only-append, delta_same t, delta_same_forest ts) refl

mutual
  unfolding session_compute_delta delta_forest reached reached_forest render_tree_mark_dirty
      mark_forest

  delta_marked :
      (t : RenderTree) → session_compute_delta (render_tree_mark_dirty t) t ≡ all_dirty (reached t)
  delta_marked (tree n cs) =
      ground (arith, differs_marked n, ==_refl n.type, delta_marked_forest cs)

  delta_marked_forest :
      (ts : Forest) → delta_forest (mark_forest ts) ts ≡ all_dirty (reached_forest ts)
  delta_marked_forest nil = refl
  delta_marked_forest (cons t ts) =
      rw (all_dirty-append, delta_marked t, delta_marked_forest ts) refl

-- Between a tree and itself the delta holds the marked nodes among those that can be reached through
-- containers, flexes and grids, and no other.
pub session_compute_delta_same :
    (t : RenderTree) → session_compute_delta t t ≡ marked_only (reached t)
session_compute_delta_same t = delta_same t

-- Once a tree has been marked, the delta to the tree before holds every node that can be reached
-- through containers, flexes and grids, each once and in the order of the tree.
pub session_compute_delta-render_tree_mark_dirty :
    (t : RenderTree) → session_compute_delta (render_tree_mark_dirty t) t ≡ all_dirty (reached t)
session_compute_delta-render_tree_mark_dirty t = delta_marked t
