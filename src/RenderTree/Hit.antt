-- ===== src/RenderTree/Hit.antt =====
-- src/core/session.c: `hit_test`, which finds the node under the pointer.
use filly.Prelude.{
  ◌≡◌, ◌↔◌, inl, inr, refl, ap, sym, ◌∙◌, Bool, false, ◌||◌, ◌==◌, Option, none, some, List, [],
  ◌∷◌, ◌++◌, append_assoc, if◌then◌else◌, if_both, All, Bool-cases, arith,
}
use filly.Prelude.Int.{ℤ, pos, leb_ℤ, ltb_ℤ, ◌+ℤ◌, ◌≤ℤ◌, +ℤ_parts}
use filly.RenderTree.{Node, RenderTree, Forest, tree, nil, cons, is_box}

-- The pointer is outside the area of the node, whose parent is at (off_x, off_y).
unfoldable pub is_outside : Node → ℤ → ℤ → ℤ → ℤ → Bool
is_outside node px py off_x off_y =
    let x = off_x +ℤ node.rect.x in
    let y = off_y +ℤ node.rect.y in
    (ltb_ℤ px x || leb_ℤ (x +ℤ node.rect.w) px) || (ltb_ℤ py y || leb_ℤ (y +ℤ node.rect.h) py)

abbrev or_node : Option Node → Option Node → Option Node
or_node (some n) m = some n
or_node none m = m

-- The loop over the children runs from the last to the first.
unfoldable mutual
  pub hit_test : RenderTree → ℤ → ℤ → ℤ → ℤ → Option Node
  hit_test (tree n cs) px py off_x off_y =
      let hit = hit_forest cs px py (off_x +ℤ n.rect.x) (off_y +ℤ n.rect.y) in
      if is_outside n px py off_x off_y
      then none
      else if is_box n.type
      then or_node hit (some n)
      else some n

  pub hit_forest : Forest → ℤ → ℤ → ℤ → ℤ → Option Node
  hit_forest nil px py x y = none
  hit_forest (cons t ts) px py x y = or_node (hit_forest ts px py x y) (hit_test t px py x y)

-- The area of a node, and those of the boxes around it, in the coordinates of the pointer.
pub record Area : Type 0 where
  pub left : ℤ
  pub top : ℤ
  pub width : ℤ
  pub height : ℤ

abbrev pub IsWithin : ℤ → ℤ → Area → Type 0
IsWithin px py a =
    (a.left ≤ℤ px)
    × (px +ℤ pos 1 ≤ℤ a.left +ℤ a.width)
    × (a.top ≤ℤ py)
    × (py +ℤ pos 1 ≤ℤ a.top +ℤ a.height)

-- A node in its place: its own area and those of the nodes that it lies in.
pub record Placed : Type 0 where
  pub node : Node
  pub areas : List Area

abbrev pub IsUnder : ℤ → ℤ → Placed → Type 0
IsUnder px py p = All (IsWithin px py) p.areas

abbrev pub area_at : Node → ℤ → ℤ → Area
area_at n off_x off_y = record {
  left = off_x +ℤ n.rect.x;
  top = off_y +ℤ n.rect.y;
  width = n.rect.w;
  height = n.rect.h;
}

-- The nodes of a tree in its order, with those inside containers (0), flex boxes (19) and grids (20):
-- each stands behind its parent and its earlier siblings.
unfoldable mutual
  pub placed : RenderTree → List Area → ℤ → ℤ → List Placed
  placed (tree n cs) around off_x off_y =
      let areas = area_at n off_x off_y ∷ around in
      let inner = placed_in cs areas (off_x +ℤ n.rect.x) (off_y +ℤ n.rect.y) in
      record { node = n; areas = areas }
      ∷ (if n.type == 0 || (n.type == 19 || n.type == 20) then inner else [])

  pub placed_in : Forest → List Area → ℤ → ℤ → List Placed
  placed_in nil around x y = []
  placed_in (cons t ts) around x y = placed t around x y ++ placed_in ts around x y

-- The last of a list that the pointer is over: none after it is.
abbrev pub IsLastUnder : ℤ → ℤ → List Placed → Option Node → Type 0
IsLastUnder px py ps none = All (λ p. ¬ IsUnder px py p) ps
IsLastUnder px py ps (some n) =
    (before : List Placed) × (p : Placed) × (after : List Placed) × (ps ≡ before ++ p ∷ after)
    × (p.node ≡ n)
    × IsUnder px py p
    × All (λ q. ¬ IsUnder px py q) after

is_outside-IsWithin :
    (n : Node) (px py off_x off_y : ℤ)
    → (is_outside n px py off_x off_y ≡ false) ↔ IsWithin px py (area_at n off_x off_y)
unfolding is_outside
is_outside-IsWithin n px py off_x off_y = ground (arith, +ℤ_parts px (pos 1), +ℤ_parts py (pos 1))

All-append : {A : Type 0} (P : A → Type 0) (xs ys : List A) → All P xs → All P ys → All P (xs ++ ys)
All-append P [] ys h k = k
All-append P (x ∷ xs) ys (h, hs) k = (h, All-append P xs ys hs k)

-- Two lists, one behind the other.
IsLastUnder-append :
    (px py : ℤ) (ps qs : List Placed) (m o : Option Node)
    → IsLastUnder px py ps m
    → IsLastUnder px py qs o
    → IsLastUnder px py (ps ++ qs) (or_node o m)
IsLastUnder-append px py ps qs m (some n) h (before, p, after, e, is, over, rest) = (
  ps ++ before,
  p,
  after,
  ap (ps ++◌) e ∙ sym (append_assoc ps before (p ∷ after)),
  is,
  over,
  rest,
)
IsLastUnder-append px py ps qs none none h k =
    All-append (λ (p : Placed). ¬ IsUnder px py p) ps qs h k
IsLastUnder-append px py ps qs (some n) none (before, p, after, e, is, over, rest) k = (
  before,
  p,
  after ++ qs,
  ap (λ (xs : List Placed). xs ++ qs) e ∙ append_assoc before (p ∷ after) qs,
  is,
  over,
  All-append (λ (q : Placed). ¬ IsUnder px py q) after qs rest k,
)

abbrev AllMissed : ℤ → ℤ → List Placed → Type 0
AllMissed px py = All (λ (p : Placed). ¬ IsUnder px py p)

-- Outside one of the areas around, the pointer is over nothing.
mutual
  unfolding placed placed_in

  missed :
      (t : RenderTree) (px py off_x off_y : ℤ) (around : List Area)
      → ¬ All (IsWithin px py) around
      → AllMissed px py (placed t around off_x off_y)
  missed (tree n cs) px py off_x off_y around out =
      let areas = area_at n off_x off_y ∷ around in
      let inside : ¬ All (IsWithin px py) areas = λ h. out h.1 in
      (
        inside,
        if_both (AllMissed px py) (is_box n.type)
            {x = placed_in cs areas (off_x +ℤ n.rect.x) (off_y +ℤ n.rect.y)} {y = []}
            (missed_in cs px py (off_x +ℤ n.rect.x) (off_y +ℤ n.rect.y) areas inside) tt,
      )

  missed_in :
      (ts : Forest) (px py x y : ℤ) (around : List Area)
      → ¬ All (IsWithin px py) around
      → AllMissed px py (placed_in ts around x y)
  missed_in nil px py x y around out = tt
  missed_in (cons t ts) px py x y around out =
      All-append (λ (p : Placed). ¬ IsUnder px py p) (placed t around x y) (placed_in ts around x y)
        (missed t px py x y around out) (missed_in ts px py x y around out)

module _ (n : Node) (cs : Forest) (px py off_x off_y : ℤ) (around : List Area) where
  abbrev areas_of : List Area
  areas_of = area_at n off_x off_y ∷ around

  node_missed :
      ¬ All (IsWithin px py) areas_of → AllMissed px py (placed (tree n cs) around off_x off_y)
  unfolding placed
  node_missed out = (
    out,
    if_both (AllMissed px py) (is_box n.type)
        {x = placed_in cs areas_of (off_x +ℤ n.rect.x) (off_y +ℤ n.rect.y)} {y = []}
        (missed_in cs px py (off_x +ℤ n.rect.x) (off_y +ℤ n.rect.y) areas_of out) tt,
  )

  -- A node that the pointer is over, before what it holds.
  node_last :
      (hit : Option Node)
      → All (IsWithin px py) areas_of
      → IsLastUnder px py (placed_in cs areas_of (off_x +ℤ n.rect.x) (off_y +ℤ n.rect.y)) hit
      → IsLastUnder px py
          (placed (tree n cs) around off_x off_y)
          (if is_box n.type then or_node hit (some n) else some n)
  unfolding placed
  node_last hit within last =
      let here : Placed = record { node = n; areas = areas_of } in
      let alone : IsLastUnder px py (here ∷ []) (some n) = ([], here, [], refl, refl, within, tt) in
      elim (Bool-cases (is_box n.type)) [
        | inl e ↦ rw e (IsLastUnder-append px py (here ∷ []) _ (some n) hit alone last)
        | inr e ↦ rw e alone
      ]

mutual
  unfolding hit_test hit_forest placed_in

  hit_last :
      (t : RenderTree) (px py off_x off_y : ℤ) (around : List Area)
      → All (IsWithin px py) around
      → IsLastUnder px py (placed t around off_x off_y) (hit_test t px py off_x off_y)
  hit_last (tree n cs) px py off_x off_y around within =
      let inner =
        hit_last_in cs px py (off_x +ℤ n.rect.x) (off_y +ℤ n.rect.y)
          (area_at n off_x off_y ∷ around) in
      elim (Bool-cases (is_outside n px py off_x off_y)) [
        | inl e ↦ rw e (
            node_missed n cs px py off_x off_y around
              (λ h. let f = (is_outside-IsWithin n px py off_x off_y).1 h.0 in cc))
        | inr e ↦
            let own = (is_outside-IsWithin n px py off_x off_y).0 e in
            rw e (node_last n cs px py off_x off_y around _ (own, within) (inner (own, within)))
      ]

  hit_last_in :
      (ts : Forest) (px py x y : ℤ) (around : List Area)
      → All (IsWithin px py) around
      → IsLastUnder px py (placed_in ts around x y) (hit_forest ts px py x y)
  hit_last_in nil px py x y around within = tt
  hit_last_in (cons t ts) px py x y around within =
      IsLastUnder-append px py (placed t around x y) (placed_in ts around x y)
        (hit_test t px py x y) (hit_forest ts px py x y) (hit_last t px py x y around within)
        (hit_last_in ts px py x y around within)

-- `hit_test` finds the last node, in the order of the tree, of those whose own area and the areas of
-- all the nodes around it contain the pointer, and none only if there is no such node. It counts the
-- nodes inside containers, flex boxes and grids alone, and areas are open on the right and below.
pub hit_test-placed :
    (t : RenderTree) (px py off_x off_y : ℤ)
    → IsLastUnder px py (placed t [] off_x off_y) (hit_test t px py off_x off_y)
hit_test-placed t px py off_x off_y = hit_last t px py off_x off_y [] tt
