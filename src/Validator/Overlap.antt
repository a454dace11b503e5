-- ===== src/Validator/Overlap.antt =====
-- src/builder/validator.c: `rects_overlap` tells whether two rectangles share a point.
use filly.Prelude.{
  ◌≡◌, ◌↔◌, Bool, true, false, not, ◌||◌, if◌then◌else◌, arith, inl, inr, Bool-cases,
}
use filly.Prelude.Int.{ℤ, pos, ◌≤ℤ◌, leb_ℤ, ◌+ℤ◌, +ℤ_parts}
use filly.Project.{Rect}
use filly.Validator.{rects_overlap}

-- The point lies in the rectangle, whose right and lower sides are open.
abbrev pub IsInside : ℤ → ℤ → Rect → Type 0
IsInside x y r = (r.x ≤ℤ x) × (x +ℤ pos 1 ≤ℤ r.x +ℤ r.w) × (r.y ≤ℤ y) × (y +ℤ pos 1 ≤ℤ r.y +ℤ r.h)

abbrev max_ℤ : ℤ → ℤ → ℤ
max_ℤ a b = if leb_ℤ a b then b else a

-- One coordinate: the later of two starts lies within both spans.
later_start :
    (a w b v : ℤ)
    → pos 1 ≤ℤ w
    → pos 1 ≤ℤ v
    → (leb_ℤ (a +ℤ w) b || leb_ℤ (b +ℤ v) a) ≡ false
    → (a ≤ℤ max_ℤ a b)
      × (max_ℤ a b +ℤ pos 1 ≤ℤ a +ℤ w)
      × (b ≤ℤ max_ℤ a b)
      × (max_ℤ a b +ℤ pos 1 ≤ℤ b +ℤ v)
later_start a w b v hw hv h = elim (Bool-cases (leb_ℤ a b)) [
  | inl e ↦ rw e (ground (arith, +ℤ_parts a w, +ℤ_parts b v, +ℤ_parts b (pos 1)))
  | inr e ↦ rw e (ground (arith, +ℤ_parts a w, +ℤ_parts b v, +ℤ_parts a (pos 1)))
]

not_either : (p q : Bool) → not (p || q) ≡ true → (p ≡ false) × (q ≡ false)
not_either p q h = ground arith

overlap-Inside :
    (a b : Rect)
    → pos 1 ≤ℤ a.w
    → pos 1 ≤ℤ a.h
    → pos 1 ≤ℤ b.w
    → pos 1 ≤ℤ b.h
    → rects_overlap a b ≡ true
    → IsInside (max_ℤ a.x b.x) (max_ℤ a.y b.y) a × IsInside (max_ℤ a.x b.x) (max_ℤ a.y b.y) b
unfolding rects_overlap
overlap-Inside a b aw ah bw bh h =
    let (both_x, both_y) = not_either _ _ h in
    let (ax, ax', bx, bx') = later_start a.x a.w b.x b.w aw bw both_x in
    let (ay, ay', by, by') = later_start a.y a.h b.y b.h ah bh both_y in
    ((ax, ax', ay, ay'), (bx, bx', by, by'))

Inside-overlap : (a b : Rect) (x y : ℤ) → IsInside x y a → IsInside x y b → rects_overlap a b ≡ true
unfolding rects_overlap
Inside-overlap a b x y ha hb = ground (
  arith,
  +ℤ_parts a.x a.w,
  +ℤ_parts a.y a.h,
  +ℤ_parts b.x b.w,
  +ℤ_parts b.y b.h,
  +ℤ_parts x (pos 1),
  +ℤ_parts y (pos 1),
)

-- Two rectangles of positive width and height overlap exactly if some point lies in both.
pub rects_overlap_iff :
    (a b : Rect)
    → pos 1 ≤ℤ a.w
    → pos 1 ≤ℤ a.h
    → pos 1 ≤ℤ b.w
    → pos 1 ≤ℤ b.h
    → (rects_overlap a b ≡ true) ↔ ((x : ℤ) × (y : ℤ) × IsInside x y a × IsInside x y b)
rects_overlap_iff a b aw ah bw bh = (
  λ h. let (i, j) = overlap-Inside a b aw ah bw bh h in (max_ℤ a.x b.x, max_ℤ a.y b.y, i, j),
  λ (x, y, i, j). Inside-overlap a b x y i j,
)
