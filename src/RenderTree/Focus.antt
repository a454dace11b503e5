-- ===== src/RenderTree/Focus.antt =====
-- src/core/session.c: `find_focusable`, `count_focusable`, and what the Tab key does with them.
use filly.Prelude.{
  ℕ, suc, ◌+◌, ◌-◌, ◌%◌, ◌≤◌, ◌<◌, ◌≡◌, refl, Bool, Option, none, some, List, [], ◌∷◌, ◌++◌, Text,
  ◌==◌, ltb, if◌then◌else◌, arith, length, get_elem?, length-append, inl, inr, Bool-cases,
}
use filly.Prelude.Int.{pos, leb_ℤ}
use filly.RenderTree.{Node, RenderTree, Forest, tree, nil, cons, has_trees}

abbrev is_focusable : Node → Bool
is_focusable n = leb_ℤ (pos 0) n.tab_index

-- With `*found` null at the call: the new `*current_tab` and `*found`. The loops stop at a find.
unfoldable mutual
  pub find_focusable : RenderTree → ℕ → ℕ → ℕ × Option Node
  find_focusable (tree n cs) target current =
      let inner = find_forest cs target (if is_focusable n then current + 1 else current) in
      if is_focusable n
      then (if current == target
          then (current, some n)
          else if has_trees n.type
          then inner
          else (current + 1, none))
      else if has_trees n.type
      then inner
      else (current, none)

  pub find_forest : Forest → ℕ → ℕ → ℕ × Option Node
  find_forest nil target current = (current, none)
  find_forest (cons t ts) target current =
      let rest = find_forest ts target (find_focusable t target current).0 in
      elim (find_focusable t target current).1 [
        | some n ↦ ((find_focusable t target current).0, some n)
        | none ↦ rest
      ]

unfoldable mutual
  pub count_focusable : RenderTree → ℕ
  count_focusable (tree n cs) =
      (if is_focusable n then 1 else 0) + (if has_trees n.type then count_forest cs else 0)

  pub count_forest : Forest → ℕ
  count_forest nil = 0
  count_forest (cons t ts) = count_focusable t + count_forest ts

-- The nodes that can have the focus, in the order of the tree.
unfoldable mutual
  pub focusables : RenderTree → List Node
  focusables (tree n cs) =
      (if is_focusable n then n ∷ [] else [])
      ++ (if has_trees n.type then focusables_forest cs else [])

  pub focusables_forest : Forest → List Node
  focusables_forest nil = []
  focusables_forest (cons t ts) = focusables t ++ focusables_forest ts

-- What the branch for KEY_TAB does. `crash` is a read through a null pointer.
pub data TabOutcome : Type 0 where
  crash unchanged : TabOutcome
  focused : Text → TabOutcome

pub focus_on : Option Node → TabOutcome
focus_on none = unchanged
focus_on (some n) = elim n.style_class [ some c ↦ focused c | none ↦ unchanged ]

-- With `focused_widget_id` set, `find_focusable` is called with a null `found`, which it reads first.
pub tab_key : Option RenderTree → Option Text → TabOutcome
unfolding focus_on
tab_key none focused_widget_id = unchanged
tab_key (some t) focused_widget_id =
    let total = count_focusable t in
    if ltb 0 total
    then elim focused_widget_id [
      | some id ↦ crash
      | none ↦ focus_on (find_focusable t ((0 + 1) % total) 0).1
    ]
    else unchanged

mutual
  unfolding count_focusable count_forest focusables focusables_forest

  pub count_focusable-focusables : (t : RenderTree) → count_focusable t ≡ length (focusables t)
  count_focusable-focusables (tree n cs) = ground (
    arith,
    count_forest-focusables cs,
    length-append (n ∷ []) (focusables_forest cs),
    length-append (n ∷ []) [],
  )

  count_forest-focusables : (ts : Forest) → count_forest ts ≡ length (focusables_forest ts)
  count_forest-focusables nil = refl
  count_forest-focusables (cons t ts) = omega (
    arith,
    count_focusable-focusables t,
    count_forest-focusables ts,
    length-append (focusables t) (focusables_forest ts),
  )

-- The same search over a list.
seek : List Node → ℕ → ℕ → ℕ × Option Node
seek [] target current = (current, none)
seek (n ∷ ns) target current =
    if current == target then (current, some n) else seek ns target (current + 1)

seek-append :
    (xs ys : List Node) (target current : ℕ)
    → seek (xs ++ ys) target current ≡ elim (seek xs target current).1 [
      | some n ↦ ((seek xs target current).0, some n)
      | none ↦ seek ys target (seek xs target current).0
    ]
unfolding seek
seek-append [] ys target current = refl
seek-append (x ∷ xs) ys target current = ground (arith, seek-append xs ys target (current + 1))

seek-get_elem? :
    (ns : List Node) (target current : ℕ)
    → current ≤ target
    → (seek ns target current).1 ≡ get_elem? ns (target - current)
unfolding seek
seek-get_elem? [] target current le = refl
seek-get_elem? (n ∷ ns) target current le = elim (Bool-cases (current == target)) [
  | inl e ↦ ground arith
  | inr e ↦
      rw (e, sub_suc target current (ground arith))
        (seek-get_elem? ns target (current + 1) (ground arith))
]
  where
    sub_suc : (t c : ℕ) → c < t → t - c ≡ suc (t - (c + 1))
    sub_suc t c h = omega arith

mutual
  unfolding find_focusable find_forest focusables focusables_forest seek

  find_focusable-seek :
      (t : RenderTree) (target current : ℕ)
      → find_focusable t target current ≡ seek (focusables t) target current
  find_focusable-seek (tree n cs) target current =
      ground (arith, find_forest-seek cs target current, find_forest-seek cs target (current + 1))

  find_forest-seek :
      (ts : Forest) (target current : ℕ)
      → find_forest ts target current ≡ seek (focusables_forest ts) target current
  find_forest-seek nil target current = refl
  find_forest-seek (cons t ts) target current = ground (
    arith,
    seek-append (focusables t) (focusables_forest ts) target current,
    find_focusable-seek t target current,
    find_forest-seek ts target (seek (focusables t) target current).0,
  )

-- A search from the root for tab stop `target` finds the node at that place among the focusable nodes
-- in the order of the tree, and none if there are no more than `target` of them. A node is focusable if
-- its `tab_index` is 0 or more; which number that is plays no part in the order.
pub find_focusable-focusables :
    (t : RenderTree) (target : ℕ) → (find_focusable t target 0).1 ≡ get_elem? (focusables t) target
find_focusable-focusables t target =
    ground (arith, find_focusable-seek t target 0, seek-get_elem? (focusables t) target 0)

-- Tab without a focus goes to the tab stop after the first, or to the only one; with a focus it reads
-- through a null pointer, whatever the tree, if that has a tab stop.
pub tab_key_lem :
    (t : RenderTree) (id : Text)
    → 1 ≤ length (focusables t)
    → (tab_key (some t) (some id) ≡ crash)
      × (tab_key (some t) none ≡ focus_on (get_elem? (focusables t) (1 % length (focusables t))))
unfolding tab_key
tab_key_lem t id h = rw (count_focusable-focusables t, find_focusable-focusables t) (ground arith)
