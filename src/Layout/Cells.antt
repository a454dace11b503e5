-- ===== src/Layout/Cells.antt =====
-- src/core/layout.c: each child of a grid lies in its cell.
use native.Mathlib.Nat.{div-add-mod}
use filly.Prelude.{
  ℕ, zero, suc, ◌+◌, ◌*◌, ◌/◌, ◌%◌, ◌≤◌, ◌<◌, ◌≡◌, ◌⊎◌, sym, subst, ap₂, ◌∙◌, Bool, some, List, [],
  ◌∷◌, get_elem?, All, arith,
}
use filly.Prelude.Int.{ℤ, pos, ◌+ℤ◌, ◌*ℤ◌, ◌≤ℤ◌}
use filly.Layout.{
  Box, apply_min_max, at_least, at_most, gap_of, row_height, place_cell, place_cells,
}

-- Two numbers with the same quotient and remainder are the same.
pub eq_of_div_mod : (i j c : ℕ) → i / c ≡ j / c → i % c ≡ j % c → i ≡ j
eq_of_div_mod i j c d m =
    sym (div-add-mod i c) ∙ ap₂ (λ (q : ℕ) (r : ℕ). c * q + r) d m ∙ div-add-mod j c

-- Whole strides lie one after another.
pub stride : (a b size gap : ℕ) → a < b → a * (size + gap) + size + gap ≤ b * (size + gap)
stride a b size gap h = grind arith

pos-*ℤ : (a b : ℕ) → pos a *ℤ pos b ≡ pos (a * b)
unfolding ◌*ℤ◌
pos-*ℤ a b = ground arith

pos-+ℤ : (a b : ℕ) → pos a +ℤ pos b ≡ pos (a + b)
unfolding ◌+ℤ◌
pos-+ℤ a b = ground arith

pub order : (a b : ℕ) → (a < b) ⊎ ((b < a) ⊎ (a ≡ b))
order a b = omega arith

some_inj : {A : Type 0} {a b : A} → some a ≡ some b → a ≡ b
some_inj e = cc

-- A child whose style sets no least size.
pub record IsFree (c : Box) : Type 0 where
  pub no_least_width : c.min_width ≤ℤ pos 0
  pub no_least_height : c.min_height ≤ℤ pos 0

limited : (least most size : ℤ) → least ≤ℤ pos 0 → at_most most (at_least least size) ≤ℤ size
unfolding at_most at_least
limited least most size h = ground arith

module _ (cols w : ℕ) (off_x off_y : ℤ) (is_pixel : Bool) where
  -- Where the cell of the child `i` begins.
  abbrev pub column : ℕ → ℤ
  column i = off_x +ℤ pos (i % cols * (w + gap_of is_pixel))

  abbrev pub line : ℕ → ℤ
  line i = off_y +ℤ pos (i / cols * (row_height is_pixel + gap_of is_pixel))

  -- A child lies in its cell.
  pub record InCell (i : ℕ) (c : Box) : Type 0 where
    pub at_column : c.rect.x ≡ column i
    pub at_line : c.rect.y ≡ line i
    pub narrow : c.rect.w ≤ℤ pos w
    pub low : c.rect.h ≤ℤ pos (row_height is_pixel)

  place_cell-InCell :
      (i : ℕ) (c : Box) → IsFree c → InCell i (place_cell cols (pos w) off_x off_y is_pixel i c)
  unfolding place_cell apply_min_max
  place_cell-InCell i c free = record {
    at_column = rw (pos-+ℤ w (gap_of is_pixel)) (rw (pos-*ℤ (i % cols) (w + gap_of is_pixel)));
    at_line = rw (pos-*ℤ (i / cols) (row_height is_pixel + gap_of is_pixel));
    narrow = limited c.min_width c.max_width (pos w) free.no_least_width;
    low = limited c.min_height c.max_height (pos (row_height is_pixel)) free.no_least_height;
  }

  pub place_cells-InCell :
      (first i : ℕ) (cs : List Box) (c : Box)
      → All IsFree cs
      → get_elem? (place_cells cols (pos w) off_x off_y is_pixel first cs) i ≡ some c
      → InCell (first + i) c
  unfolding place_cells
  place_cells-InCell first i [] c free e = cc
  place_cells-InCell first zero (b ∷ cs) c (f, fs) e =
      subst (λ n. InCell n c) (omega arith)
        (subst (InCell first) (some_inj e) (place_cell-InCell first b f))
  place_cells-InCell first (suc i) (b ∷ cs) c (f, fs) e =
      subst (λ n. InCell n c) (omega arith) (place_cells-InCell (first + 1) i cs c fs e)
