-- ===== src/Layout/Grid.antt =====
-- src/core/layout.c: the children of a grid lie inside it and apart.
use native.Mathlib.Nat.{mul-div-le, div-mul-le_self, le-div_iff_mul-le}
use filly.Prelude.{
  ℕ, zero, suc, ◌+◌, ◌-◌, ◌*◌, ◌/◌, ◌%◌, ◌≤◌, ◌<◌, ◌≡◌, ◌≢◌, ◌⊎◌, inl, inr, sym, ap, subst, Bool,
  some, List, [], ◌∷◌, length, get_elem?, All, arith,
}
use filly.Prelude.Int.{ℤ, pos, negsuc, pos_part, neg_part, ◌+ℤ◌, ◌-ℤ◌, ◌≤ℤ◌, +ℤ_parts, int_laws}
use filly.Document.{Rect}
use filly.Layout.{Box, gap_of, row_height, place_cells, columns_of, layout_grid}
use filly.Layout.Division.{quot}
use filly.Layout.Cells.{IsFree, InCell, place_cells-InCell, stride, eq_of_div_mod, order}

-- One range ends at least `gap` before the other begins, on one of the axes.
abbrev pub Before : ℕ → ℤ → ℤ → ℤ → Type 0
Before gap start size other = start +ℤ size +ℤ pos gap ≤ℤ other

abbrev pub Apart : ℕ → Rect → Rect → Type 0
Apart gap a b =
    (Before gap a.x a.w b.x ⊎ Before gap b.x b.w a.x)
    ⊎ (Before gap a.y a.h b.y ⊎ Before gap b.y b.h a.y)

-- `a * (size + gap) + size` within `b` whole strides, the last of which has no gap.
mul_suc : (a b : ℕ) → (a + 1) * b ≡ a * b + b
mul_suc a b = grind arith

before :
    (gap size m n : ℕ) (off start length other : ℤ)
    → start ≡ off +ℤ pos (m * (size + gap))
    → other ≡ off +ℤ pos (n * (size + gap))
    → length ≤ℤ pos size
    → m < n
    → Before gap start length other
before gap size m n off start length other e e' short h = omega (
  int_laws,
  stride m n size gap h,
  ap pos_part e,
  ap neg_part e,
  ap pos_part e',
  ap neg_part e',
  +ℤ_parts off (pos (m * (size + gap))),
  +ℤ_parts off (pos (n * (size + gap))),
)

module _ (cols w : ℕ) (off_x off_y : ℤ) (is_pixel : Bool) where
  cells-Apart :
      (i j : ℕ) (a b : Box)
      → i ≢ j
      → InCell cols w off_x off_y is_pixel i a
      → InCell cols w off_x off_y is_pixel j b
      → Apart (gap_of is_pixel) a.rect b.rect
  cells-Apart i j a b n p q = elim (order (i % cols) (j % cols)) [
    | inl lt ↦ inl (
        inl (
          before (gap_of is_pixel) w (i % cols) (j % cols) off_x a.rect.x a.rect.w b.rect.x
            p.at_column q.at_column p.narrow lt))
    | inr (inl gt) ↦ inl (
        inr (
          before (gap_of is_pixel) w (j % cols) (i % cols) off_x b.rect.x b.rect.w a.rect.x
            q.at_column p.at_column q.narrow gt))
    | inr (inr same) ↦ elim (order (i / cols) (j / cols)) [
      | inl lt ↦ inr (
          inl (
            before (gap_of is_pixel) (row_height is_pixel) (i / cols) (j / cols) off_y a.rect.y
              a.rect.h b.rect.y p.at_line q.at_line p.low lt))
      | inr (inl gt) ↦ inr (
          inr (
            before (gap_of is_pixel) (row_height is_pixel) (j / cols) (i / cols) off_y b.rect.y
              b.rect.h a.rect.y q.at_line p.at_line q.low gt))
      | inr (inr also) ↦ absurd (n (eq_of_div_mod i j cols also same))
    ]
  ]

rows_cover : (n cols i : ℕ) → i < n → i / suc cols + 1 ≤ (n + suc cols - 1) / suc cols
rows_cover n cols i h =
    (le-div_iff_mul-le (omega arith)).1
      (omega (arith, div-mul-le_self i (suc cols), mul_suc (i / suc cols) (suc cols)))

-- A rectangle lies inside an area.
abbrev pub Inside : Rect → ℤ → ℤ → ℤ → ℤ → Type 0
Inside a x y w h = (x ≤ℤ a.x) × (a.x +ℤ a.w ≤ℤ x +ℤ w) × (y ≤ℤ a.y) × (a.y +ℤ a.h ≤ℤ y +ℤ h)

strides : (k size gap : ℕ) → suc k * (size + gap) ≡ suc k * size + gap * k + gap
strides k size gap = grind arith

-- The last column ends inside the width.
width_fits :
    (k m gap width : ℕ)
    → m < suc k
    → gap * k ≤ width
    → m * ((width - gap * k) / suc k + gap) + (width - gap * k) / suc k ≤ width
width_fits k m gap width h fits =
    let size = (width - gap * k) / suc k in
    omega
      (arith, stride m (suc k) size gap h, strides k size gap, mul-div-le (width - gap * k) (suc k))

-- A row ends inside the height.
height_fits :
    (m rows size gap : ℕ) → m + 1 ≤ rows → m * (size + gap) + size + gap ≤ rows * (size + gap)
height_fits m rows size gap h = stride m rows size gap (omega arith)

-- A range that begins at an offset, and the area around it.
within :
    (offset size room : ℕ) (off start length : ℤ)
    → start ≡ off +ℤ pos offset
    → length ≤ℤ pos size
    → offset + size ≤ room
    → (off ≤ℤ start) × (start +ℤ length ≤ℤ off +ℤ pos room)
within offset size room off start length e short h =
    (omega (int_laws, ap pos_part e, ap neg_part e), omega (int_laws, ap pos_part e, ap neg_part e))

columns_of-pos : (columns : ℤ) → 0 < columns_of columns
columns_of-pos (pos zero) = omega arith
columns_of-pos (pos (suc n)) = omega arith
columns_of-pos (negsuc n) = omega arith

sub_pos : (width m : ℕ) → m ≤ width → pos width -ℤ pos m ≡ pos (width - m)
unfolding ◌-ℤ◌
sub_pos width m h = ground arith

pred : (n : ℕ) → 0 < n → n ≡ suc (n - 1)
pred n h = omega arith

place_cells-bound :
    (cols first i : ℕ) (cell_w off_x off_y : ℤ) (is_pixel : Bool) (cs : List Box) (c : Box)
    → get_elem? (place_cells cols cell_w off_x off_y is_pixel first cs) i ≡ some c
    → i < length cs
unfolding place_cells
place_cells-bound cols first i cell_w off_x off_y is_pixel [] c e = cc
place_cells-bound cols first zero cell_w off_x off_y is_pixel (b ∷ cs) c e = omega arith
place_cells-bound cols first (suc i) cell_w off_x off_y is_pixel (b ∷ cs) c e =
    omega (arith, place_cells-bound cols (first + 1) i cell_w off_x off_y is_pixel cs c e)

module _ (k width : ℕ) (off_x off_y : ℤ) (is_pixel : Bool)
    (fits : gap_of is_pixel * k ≤ width) where
  cell_width : ℕ
  cell_width = (width - gap_of is_pixel * k) / suc k

  cell-Inside :
      (i n : ℕ) (a : Box)
      → i < n
      → InCell (suc k) cell_width off_x off_y is_pixel i a
      → Inside a.rect off_x off_y (pos width) (
          pos ((n + suc k - 1) / suc k * (row_height is_pixel + gap_of is_pixel))
          -ℤ pos (gap_of is_pixel))
  unfolding cell_width
  cell-Inside i n a h p =
      let rows = (n + suc k - 1) / suc k in
      let gap = gap_of is_pixel in
      let row = row_height is_pixel in
      let last = height_fits (i / suc k) rows row gap (rows_cover n k i h) in
      let (x, x_end) =
        within (i % suc k * (cell_width + gap)) cell_width width off_x a.rect.x a.rect.w p.at_column
          p.narrow (width_fits k (i % suc k) gap width (omega arith) fits) in
      let (y, y_end) =
        within (i / suc k * (row + gap)) row (rows * (row + gap) - gap) off_y a.rect.y a.rect.h
          p.at_line p.low (omega arith) in
      (
        x,
        x_end,
        y,
        subst (λ h. a.rect.y +ℤ a.rect.h ≤ℤ off_y +ℤ h)
            (sym (sub_pos (rows * (row + gap)) gap (omega arith))) y_end,
      )

  -- What is said of two children of a grid with `cols` columns.
  abbrev Placed : List Box → ℕ → ℕ → Box → Box → ℕ → Type 0
  Placed cs i j a b cols =
      get_elem?
          (place_cells cols (quot (pos width -ℤ pos (gap_of is_pixel * k)) cols) off_x off_y
            is_pixel 0 cs)
          i
        ≡ some a
      → get_elem?
          (place_cells cols (quot (pos width -ℤ pos (gap_of is_pixel * k)) cols) off_x off_y
            is_pixel 0 cs)
          j
        ≡ some b
      → Apart (gap_of is_pixel) a.rect b.rect
        × Inside a.rect off_x off_y (pos width) (
            pos ((length cs + cols - 1) / cols * (row_height is_pixel + gap_of is_pixel))
            -ℤ pos (gap_of is_pixel))

  cell_width_lem : quot (pos width -ℤ pos (gap_of is_pixel * k)) (suc k) ≡ pos cell_width
  unfolding quot cell_width
  cell_width_lem = rw (sub_pos width (gap_of is_pixel * k) fits)

  cell_of :
      (cs : List Box) (i : ℕ) (a : Box)
      → All IsFree cs
      → get_elem?
          (place_cells
            (suc k)
            (quot (pos width -ℤ pos (gap_of is_pixel * k)) (suc k))
            off_x
            off_y
            is_pixel
            0
            cs)
          i
        ≡ some a
      → InCell (suc k) cell_width off_x off_y is_pixel i a × (i < length cs)
  cell_of cs i a free p = (
    subst (λ n. InCell (suc k) cell_width off_x off_y is_pixel n a) (omega arith)
        (place_cells-InCell (suc k) cell_width off_x off_y is_pixel 0 i cs a free (
          subst (λ w. get_elem? (place_cells (suc k) w off_x off_y is_pixel 0 cs) i ≡ some a)
            cell_width_lem p)),
    place_cells-bound (suc k) 0 i (quot (pos width -ℤ pos (gap_of is_pixel * k)) (suc k)) off_x
        off_y is_pixel cs a p,
  )

  two_cells :
      (cs : List Box) (i j : ℕ) (a b : Box) → All IsFree cs → i ≢ j → Placed cs i j a b (suc k)
  two_cells cs i j a b free ne p q =
      let (ca, inside) = cell_of cs i a free p in
      let (cb, _) = cell_of cs j b free q in
      (
        cells-Apart (suc k) cell_width off_x off_y is_pixel i j a b ne ca cb,
        cell-Inside i (length cs) a inside ca,
      )

-- In a grid whose gaps fit into its width and whose children's styles set no least size, any two
-- children are a gap apart, and the first of the two lies inside the grid.
pub layout_grid_places :
    (columns : ℤ) (children : List Box) (off_x off_y : ℤ) (width : ℕ) (is_pixel : Bool)
    (size : ℤ × ℤ) (i j : ℕ) (a b : Box)
    → gap_of is_pixel * (columns_of columns - 1) ≤ width
    → All IsFree children
    → i ≢ j
    → get_elem? (layout_grid columns children off_x off_y (pos width) is_pixel size).0 i ≡ some a
    → get_elem? (layout_grid columns children off_x off_y (pos width) is_pixel size).0 j ≡ some b
    → Apart (gap_of is_pixel) a.rect b.rect
      × Inside a.rect off_x off_y
          (layout_grid columns children off_x off_y (pos width) is_pixel size).1
          (layout_grid columns children off_x off_y (pos width) is_pixel size).2
unfolding layout_grid
layout_grid_places columns [] off_x off_y width is_pixel size i j a b fits free ne p q = cc
layout_grid_places columns (c ∷ cs) off_x off_y width is_pixel size i j a b fits free ne p q =
    let k = columns_of columns - 1 in
    subst (Placed k width off_x off_y is_pixel fits (c ∷ cs) i j a b)
      (sym (pred (columns_of columns) (columns_of-pos columns)))
      (two_cells k width off_x off_y is_pixel fits (c ∷ cs) i j a b free ne) p q
