-- ===== src/Layout/Lines.antt =====
-- src/core/layout.c: the children of a flex box that does not wrap follow one another.
use filly.Prelude.{
  ℕ, ◌≡◌, ◌≢◌, refl, ap, inl, inr, Bool, Bool-cases, true, false, Option, none, some, Text, codes,
  text_eq, text_eq_iff, List, [], ◌∷◌, map, All, arith, if◌then◌else◌,
}
use filly.Prelude.Int.{ℤ, pos, ◌+ℤ◌, ◌≤ℤ◌, ltb_ℤ}
use filly.Layout.{
  Box, Flex, apply_min_max, at_least, at_most, gap_of, flex_width, flex_height, wraps, place_flex,
  layout_flex, layout_flex_in, flex_is_row, flex_wraps,
}

-- A child whose style sets no greatest size.
pub record IsUnlimited (c : Box) : Type 0 where
  pub no_greatest_width : c.max_width ≤ℤ pos 0
  pub no_greatest_height : c.max_height ≤ℤ pos 0

-- Each child begins a gap after the end of the one before it, the first at `start`: in a row all at the
-- height `off_x`, in a column all at `off_x`.
abbrev pub Chained : Bool → ℕ → ℤ → ℤ → List Box → Type 0
Chained is_row gap off_x start [] = Unit {0}
Chained is_row gap off_x start (c ∷ cs) =
    ((if is_row then c.rect.x else c.rect.y) ≡ start)
    × ((if is_row then c.rect.y else c.rect.x) ≡ off_x)
    × Chained is_row gap off_x (start +ℤ ((if is_row then c.rect.w else c.rect.h) +ℤ pos gap)) cs

unlimited :
    (most least size : ℤ)
    → most ≤ℤ pos 0
    → at_most most (at_least least (at_least least size)) ≡ at_least least size
unfolding at_most at_least
unlimited most least size h = ground arith

width_kept :
    (f : Flex) (c : Box)
    → IsUnlimited c
    → at_most c.max_width (at_least c.min_width (flex_width f c)) ≡ flex_width f c
unfolding flex_width
width_kept f c u = unlimited c.max_width c.min_width _ u.no_greatest_width

height_kept :
    (f : Flex) (c : Box)
    → IsUnlimited c
    → at_most c.max_height (at_least c.min_height (flex_height f c)) ≡ flex_height f c
unfolding flex_height
height_kept f c u = unlimited c.max_height c.min_height _ u.no_greatest_height

straight_on : (f : Flex) (line_pos child_w : ℤ) → f.wrap ≡ false → wraps f line_pos child_w ≡ false
unfolding wraps
straight_on f line_pos child_w h = ground arith

row_Chained :
    (f : Flex) (line_pos line_h : ℤ) (cs : List Box)
    → f.wrap ≡ false
    → f.is_row ≡ true
    → All IsUnlimited cs
    → Chained true
        (gap_of f.is_pixel)
        f.off_x
        line_pos
        (map apply_min_max (place_flex f f.off_x line_pos line_h cs).0)
unfolding place_flex apply_min_max
row_Chained f line_pos line_h [] straight row all = tt
row_Chained f line_pos line_h (c ∷ cs) straight row (u, us) = ground (
  arith,
  width_kept f c u,
  straight_on f line_pos (flex_width f c) straight,
  row_Chained f (line_pos +ℤ (flex_width f c +ℤ pos (gap_of f.is_pixel)))
      (if ltb_ℤ line_h (flex_height f c) then flex_height f c else line_h) cs straight row us,
)

column_Chained :
    (f : Flex) (at line_pos line_h : ℤ) (cs : List Box)
    → f.wrap ≡ false
    → f.is_row ≡ false
    → All IsUnlimited cs
    → Chained false
        (gap_of f.is_pixel)
        f.off_x
        line_pos
        (map apply_min_max (place_flex f at line_pos line_h cs).0)
unfolding place_flex apply_min_max
column_Chained f at line_pos line_h [] straight row all = tt
column_Chained f at line_pos line_h (c ∷ cs) straight row (u, us) = ground (
  arith,
  height_kept f c u,
  straight_on f line_pos (flex_width f c) straight,
  column_Chained f at (line_pos +ℤ (flex_height f c +ℤ pos (gap_of f.is_pixel)))
      (if ltb_ℤ line_h (flex_height f c) then flex_height f c else line_h) cs straight row us,
)

children_Chained :
    (is_row : Bool) (cs : List Box) (off_x off_y max_w max_h : ℤ) (is_pixel : Bool) (node_y : ℤ)
    (size : ℤ × ℤ)
    → All IsUnlimited cs
    → Chained is_row
        (gap_of is_pixel)
        off_x
        (if is_row then off_x else off_y)
        (layout_flex_in is_row false cs off_x off_y max_w max_h is_pixel node_y size).0
unfolding layout_flex_in
children_Chained is_row [] off_x off_y max_w max_h is_pixel node_y size all = tt
children_Chained true (c ∷ cs) off_x off_y max_w max_h is_pixel node_y size all =
    row_Chained _ off_x (pos 0) (c ∷ cs) refl refl all
children_Chained false (c ∷ cs) off_x off_y max_w max_h is_pixel node_y size all =
    column_Chained _ off_y off_y (pos 0) (c ∷ cs) refl refl all

straight : (wrap : Option Text) → wrap ≢ some (codes "wrap") → flex_wraps wrap ≡ false
unfolding flex_wraps
straight none h = refl
straight (some w) h = elim (Bool-cases (text_eq w (codes "wrap"))) [
  | inl e ↦ absurd (h (ap some ((text_eq_iff w (codes "wrap")).0 e)))
  | inr e ↦ e
]

-- The children of a flex box that does not wrap, of which no style sets a greatest size, follow one
-- another, each a gap after the one before. Those of a row, which any direction but `column` is, begin
-- at `off_x` and stand at the height `off_x`, whatever `off_y` is; those of a column begin at `off_y`,
-- at `off_x`.
pub layout_flex_follows :
    (direction wrap : Option Text) (cs : List Box) (off_x off_y max_w max_h : ℤ) (is_pixel : Bool)
    (node_y : ℤ) (size : ℤ × ℤ)
    → wrap ≢ some (codes "wrap")
    → All IsUnlimited cs
    → Chained
        (flex_is_row direction)
        (gap_of is_pixel)
        off_x
        (if flex_is_row direction then off_x else off_y)
        (layout_flex direction wrap cs off_x off_y max_w max_h is_pixel node_y size).0
unfolding layout_flex
layout_flex_follows direction wrap cs off_x off_y max_w max_h is_pixel node_y size h all =
    rw (straight wrap h)
      (children_Chained (flex_is_row direction) cs off_x off_y max_w max_h is_pixel node_y size all)
