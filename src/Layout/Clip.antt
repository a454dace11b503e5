-- ===== src/Layout/Clip.antt =====
-- src/core/layout.c: a clipped node does not leave its parent.
use filly.Prelude.{◌≡◌, arith, inl, inr, Bool-cases}
use filly.Prelude.Int.{ℤ, ◌+ℤ◌, ◌≤ℤ◌, ltb_ℤ, int_laws, +ℤ_parts, -ℤ_parts}
use filly.Document.{Rect}
use filly.Layout.{Box, overflow_clip, clip_start, clip_size, clamp_overflow}

clip_start_le : (start parent : ℤ) → parent ≤ℤ clip_start start parent
unfolding clip_start
clip_start_le start parent = ground arith

clip_size_le :
    (start size parent parent_size : ℤ)
    → start +ℤ clip_size start size parent parent_size ≤ℤ parent +ℤ parent_size
unfolding clip_size
clip_size_le start size parent parent_size =
    elim (Bool-cases (ltb_ℤ (parent +ℤ parent_size) (start +ℤ size))) [
      | inl e ↦ rw e (omega (int_laws, -ℤ_parts (parent +ℤ parent_size) start))
      | inr e ↦ rw e (ground (arith, +ℤ_parts start size))
    ]

-- A node that is clipped begins no earlier than its parent and ends no later, on both axes, wherever it
-- was and however large.
pub clamp_overflow_clips :
    (node : Box) (parent : Rect)
    → node.overflow ≡ overflow_clip
    → (parent.x ≤ℤ (clamp_overflow node parent).rect.x)
      × (parent.y ≤ℤ (clamp_overflow node parent).rect.y)
      × ((clamp_overflow node parent).rect.x +ℤ (clamp_overflow node parent).rect.w
          ≤ℤ parent.x +ℤ parent.w)
      × ((clamp_overflow node parent).rect.y +ℤ (clamp_overflow node parent).rect.h
          ≤ℤ parent.y +ℤ parent.h)
unfolding clamp_overflow
clamp_overflow_clips node parent clip =
    let x = clip_start node.rect.x parent.x in
    let y = clip_start node.rect.y parent.y in
    rw clip (
      clip_start_le node.rect.x parent.x,
      clip_start_le node.rect.y parent.y,
      clip_size_le x node.rect.w parent.x parent.w,
      clip_size_le y node.rect.h parent.y parent.h,
    )
