-- ===== src/Layout.antt =====
-- src/core/layout.c: how a node is placed on its surface, and the children of a grid and of a flex box
-- in it. A node is what these functions read and write of it.
pub mod Division
pub mod Cells
pub mod Grid
pub mod Lines
pub mod Clip
use filly.Prelude.{
  ℕ, zero, suc, ◌+◌, ◌-◌, ◌*◌, ◌/◌, ◌%◌, Bool, true, false, not, ◌&&◌, Option, none, some, List, [],
  ◌∷◌, map, Text, codes, text_eq, ltb, leb, ◌==◌, if◌then◌else◌, length,
}
use filly.Prelude.Int.{ℤ, pos, negsuc, ◌+ℤ◌, ◌-ℤ◌, ◌*ℤ◌, ltb_ℤ, leb_ℤ}
use filly.Document.{Rect}
use filly.Layout.Division.{quot}

pub data AnchorMode : Type 0 where
  anchor_top_left anchor_top_center anchor_top_right : AnchorMode
  anchor_center_left anchor_center anchor_center_right : AnchorMode
  anchor_bottom_left anchor_bottom_center anchor_bottom_right : AnchorMode
  anchor_absolute anchor_relative : AnchorMode

pub data Overflow : Type 0 where
  overflow_visible overflow_clip overflow_scroll : Overflow

-- `target_rect` is there if `has_target_rect`; `content` is that of an `RNODE_TEXT`; the four limits and
-- the size of the font are those of `resolved_style`.
pub record Box : Type 0 where
  pub rect : Rect
  pub target_rect : Option Rect
  pub anchor : AnchorMode
  pub anchor_dx : ℤ
  pub anchor_dy : ℤ
  pub overflow : Overflow
  pub content : Option Text
  pub font_size : ℤ
  pub min_width : ℤ
  pub min_height : ℤ
  pub max_width : ℤ
  pub max_height : ℤ

abbrev pub rect_new : ℤ → ℤ → ℤ → ℤ → Rect
rect_new x y w h = record { x = x; y = y; w = w; h = h }

-- One coordinate of an anchor: at the start, in the middle or at the end of the surface.
abbrev centered : ℤ → ℤ → ℤ
centered surface size = quot (surface -ℤ size) 2

pub compute_anchor : Box → ℤ → ℤ → Box
compute_anchor node surface_w surface_h =
    let right = surface_w -ℤ node.rect.w in
    let bottom = surface_h -ℤ node.rect.h in
    let middle_x = centered surface_w node.rect.w in
    let middle_y = centered surface_h node.rect.h in
    let at = λ (x : ℤ) (y : ℤ). record node {
      rect = rect_new (x +ℤ node.anchor_dx) (y +ℤ node.anchor_dy) node.rect.w node.rect.h;
    } in
    elim node.anchor [
      | anchor_top_left ↦ at (pos 0) (pos 0)
      | anchor_top_center ↦ at middle_x (pos 0)
      | anchor_top_right ↦ at right (pos 0)
      | anchor_center_left ↦ at (pos 0) middle_y
      | anchor_center ↦ at middle_x middle_y
      | anchor_center_right ↦ at right middle_y
      | anchor_bottom_left ↦ at (pos 0) bottom
      | anchor_bottom_center ↦ at middle_x bottom
      | anchor_bottom_right ↦ at right bottom
      | anchor_absolute ↦ node
      | anchor_relative ↦ node
    ]

-- One axis of `clamp_overflow`: the start, which is not before the parent's, and the size, which does
-- not go past its end.
clip_start : ℤ → ℤ → ℤ
clip_start start parent = if ltb_ℤ start parent then parent else start

clip_size : ℤ → ℤ → ℤ → ℤ → ℤ
clip_size start size parent parent_size =
    if ltb_ℤ (parent +ℤ parent_size) (start +ℤ size) then (parent +ℤ parent_size) -ℤ start else size

pub clamp_overflow : Box → Rect → Box
unfolding clip_start clip_size
clamp_overflow node parent = elim node.overflow [
  | overflow_clip ↦
      let x = clip_start node.rect.x parent.x in
      let y = clip_start node.rect.y parent.y in
      record node {
        rect =
            rect_new x y (clip_size x node.rect.w parent.x parent.w)
              (clip_size y node.rect.h parent.y parent.h);
      }
  | _ ↦ node
]

-- `if (least > 0 && size < least) size = least;`, and the same for the most.
unfoldable pub at_least : ℤ → ℤ → ℤ
at_least least size = if ltb_ℤ (pos 0) least && ltb_ℤ size least then least else size

unfoldable pub at_most : ℤ → ℤ → ℤ
at_most most size = if ltb_ℤ (pos 0) most && ltb_ℤ most size then most else size

unfoldable pub apply_min_max : Box → Box
apply_min_max node = record node {
  rect =
      rect_new node.rect.x node.rect.y
        (at_most node.max_width (at_least node.min_width node.rect.w))
        (at_most node.max_height (at_least node.min_height node.rect.h));
}

measure_text_width : Text → ℤ → Bool → ℤ
measure_text_width text font_size is_pixel =
    if is_pixel then quot (pos (length text) *ℤ font_size) 2 else pos (length text)

abbrev pub gap_of : Bool → ℕ
gap_of is_pixel = if is_pixel then 8 else 1

abbrev pub row_height : Bool → ℕ
row_height is_pixel = if is_pixel then 30 else 1

-- One round of the loop of `layout_grid`, for the child `i`.
unfoldable pub place_cell : ℕ → ℤ → ℤ → ℤ → Bool → ℕ → Box → Box
place_cell cols cell_w off_x off_y is_pixel i child = apply_min_max (record child {
  rect =
      rect_new (off_x +ℤ pos (i % cols) *ℤ (cell_w +ℤ pos (gap_of is_pixel)))
        (off_y +ℤ pos (i / cols) *ℤ pos (row_height is_pixel + gap_of is_pixel)) cell_w
        (pos (row_height is_pixel));
})

unfoldable pub place_cells : ℕ → ℤ → ℤ → ℤ → Bool → ℕ → List Box → List Box
place_cells cols cell_w off_x off_y is_pixel i [] = []
place_cells cols cell_w off_x off_y is_pixel i (child ∷ children) =
    place_cell cols cell_w off_x off_y is_pixel i child
    ∷ place_cells cols cell_w off_x off_y is_pixel (i + 1) children

abbrev pub columns_of : ℤ → ℕ
columns_of (pos zero) = 1
columns_of (pos (suc n)) = suc n
columns_of (negsuc n) = 1

-- `layout_grid`: the children, and the width and height of the node, which stay where there is no child.
unfoldable pub layout_grid : ℤ → List Box → ℤ → ℤ → ℤ → Bool → ℤ × ℤ → List Box × ℤ × ℤ
layout_grid columns [] off_x off_y max_w is_pixel size = ([], size.0, size.1)
layout_grid columns (child ∷ children) off_x off_y max_w is_pixel size =
    let cols = columns_of columns in
    let cell_w = quot (max_w -ℤ pos (gap_of is_pixel * (cols - 1))) cols in
    let rows = (length (child ∷ children) + cols - 1) / cols in
    (
      place_cells cols cell_w off_x off_y is_pixel 0 (child ∷ children),
      max_w,
      pos (rows * (row_height is_pixel + gap_of is_pixel)) -ℤ pos (gap_of is_pixel),
    )

-- What the first loop of `layout_flex` counts for a child; a child without a size grows.
pub child_size : Bool → Bool → Box → ℤ
unfolding measure_text_width
child_size is_row is_pixel child = elim child.content [
  | some text ↦ measure_text_width text child.font_size is_pixel
  | none ↦ elim child.target_rect [
    | some target ↦ if is_row then target.w else target.h
    | none ↦
        if ltb_ℤ (pos 0) child.rect.w
        then (if is_row then child.rect.w else child.rect.h)
        else pos 0
  ]
]

-- `fixed_size` and `total_grow`.
pub measure_children : Bool → Bool → ℤ → ℕ → List Box → ℤ × ℕ
measure_children is_row is_pixel fixed_size total_grow [] = (fixed_size, total_grow)
measure_children is_row is_pixel fixed_size total_grow (child ∷ children) =
    let size = child_size is_row is_pixel child in
    let counts = ltb_ℤ (pos 0) size in
    measure_children is_row is_pixel (if counts then fixed_size +ℤ size else fixed_size)
      (if counts then total_grow else total_grow + 1) children

-- What the second loop of `layout_flex` reads and does not change.
pub record Flex : Type 0 where
  pub is_row : Bool
  pub wrap : Bool
  pub is_pixel : Bool
  pub off_x : ℤ
  pub off_y : ℤ
  pub max_w : ℤ
  pub grow_unit : ℤ
  -- `avail / child_count`
  pub share : ℤ

-- The width and the height of a child, before `apply_min_max`.
pub flex_width : Flex → Box → ℤ
flex_width f child =
    let w : ℤ = elim child.target_rect [ some target ↦ target.w | none ↦ child.rect.w ] in
    at_least child.min_width
      (if ltb_ℤ (pos 0) w then w else if ltb_ℤ (pos 0) f.grow_unit then f.grow_unit else f.share)

pub flex_height : Flex → Box → ℤ
flex_height f child =
    let h : ℤ = elim child.target_rect [ some target ↦ target.h | none ↦ child.rect.h ] in
    at_least child.min_height (if ltb_ℤ (pos 0) h then h else pos (row_height f.is_pixel))

-- The test for a new line.
wraps : Flex → ℤ → ℤ → Bool
wraps f line_pos child_w =
    f.wrap
    && (f.is_row && (ltb_ℤ (f.off_x +ℤ f.max_w) (line_pos +ℤ child_w) && ltb_ℤ f.off_x line_pos))

-- The second loop, and what it leaves in `line_h`.
pub place_flex : Flex → ℤ → ℤ → ℤ → List Box → List Box × ℤ
place_flex f at line_pos line_h [] = ([], line_h)
place_flex f at line_pos line_h (child ∷ children) =
    let child_w = flex_width f child in
    let child_h = flex_height f child in
    let next_line = wraps f line_pos child_w in
    let at' = if next_line then f.off_y +ℤ line_h +ℤ pos (gap_of f.is_pixel) else at in
    let start = if next_line then f.off_x else line_pos in
    let (rest, last_h) =
      place_flex f at'
        (start +ℤ ((if f.is_row then child_w else child_h) +ℤ pos (gap_of f.is_pixel)))
        (if ltb_ℤ line_h child_h then child_h else line_h) children in
    (
      record child {
        rect =
            if f.is_row
            then rect_new start at' child_w child_h
            else rect_new f.off_x start f.max_w child_h;
      }
          ∷ rest,
      last_h,
    )

-- A row unless the direction is `column`; the lines wrap only if that is asked for.
unfoldable pub flex_is_row : Option Text → Bool
flex_is_row none = true
flex_is_row (some direction) = not (text_eq direction (codes "column"))

pub flex_wraps : Option Text → Bool
flex_wraps none = false
flex_wraps (some wrap) = text_eq wrap (codes "wrap")

-- `layout_flex` of a node whose top is `node_y`, with the width and the height that the node gets, which
-- stay as they are where there is no child.
pub layout_flex_in : Bool → Bool → List Box → ℤ → ℤ → ℤ → ℤ → Bool → ℤ → ℤ × ℤ → List Box × ℤ × ℤ
layout_flex_in is_row wrap [] off_x off_y max_w max_h is_pixel node_y size = ([], size.0, size.1)
layout_flex_in is_row wrap (child ∷ children) off_x off_y max_w max_h is_pixel node_y size =
    let all = child ∷ children in
    let avail = if is_row then max_w else max_h in
    let (fixed_size, total_grow) = measure_children is_row is_pixel (pos 0) 0 all in
    let remaining = avail -ℤ fixed_size -ℤ pos (gap_of is_pixel * (length all - 1)) in
    let f : Flex = record {
      is_row = is_row;
      wrap = wrap;
      is_pixel = is_pixel;
      off_x = off_x;
      off_y = off_y;
      max_w = max_w;
      grow_unit = if ltb 0 total_grow then quot remaining total_grow else pos 0;
      share = quot avail (length all);
    } in
    let start = if is_row then off_x else off_y in
    let (placed, line_h) = place_flex f start start (pos 0) all in
    (
      map apply_min_max placed,
      max_w,
      if is_row then off_y +ℤ line_h +ℤ pos (gap_of is_pixel) -ℤ node_y else max_h,
    )

-- With the direction and the wrapping as the node names them.
pub layout_flex :
    Option Text → Option Text → List Box → ℤ → ℤ → ℤ → ℤ → Bool → ℤ → ℤ × ℤ → List Box × ℤ × ℤ
unfolding layout_flex_in flex_is_row flex_wraps
layout_flex direction wrap = layout_flex_in (flex_is_row direction) (flex_wraps wrap)
