-- ===== src/Widgets/TextEditor/Moves.antt =====
-- src/core/widgets/text_editor.c: the keys that move the cursor, on lines divided at it.
use filly.Prelude.{
  get_elem?-append, ℕ, ◌+◌, ◌-◌, ◌≡◌, List, [], ◌∷◌, ◌++◌, append-nil, append_assoc, Text, length,
  arith, length-append,
}
use filly.Widgets.TextEditor.{TextEditorData, te_clamp_cursor, te_left, te_right, moved}
use filly.Widgets.TextEditor.Cursor.{te_clamp_cursor-Within}
use filly.Widgets.TextEditor.Buffer.{Divided, Within, Within-divided}
use filly.Widgets.TextEditor.Editing.{Is, Is-line}

pub Is-Within : {d : TextEditorData} {z : Divided} → Is d z → Within d.lines d.row d.col
Is-Within {z = z} at =
    rw at.on_lines
      (rw at.on_row (rw at.on_col (Within-divided z.above z.left_half z.right_half z.under)))

clamp-Is : {d : TextEditorData} {z : Divided} → Is d z → Is (te_clamp_cursor d) z
clamp-Is {d} at = ground (arith, te_clamp_cursor-Within d (Is-Within at))

to-Is :
    (d : TextEditorData) {z : Divided} (row col : ℕ)
    → Is (record d { row = row; col = col }) z
    → Is (moved d row col).0 z
to-Is d row col at = ground (arith, clamp-Is at)

module _ {d : TextEditorData} {z : Divided} (at : Is d z) where
  pub left-Is :
      (x : Text) (c : ℕ)
      → z.left_half ≡ x ++ c ∷ []
      → Is (te_left d).0 (record z { left_half = x; right_half = c ∷ z.right_half })
  unfolding te_left
  left-Is x c e =
      let goal : Is (record d { row = d.row; col = d.col - 1 })
          (record z { left_half = x; right_half = c ∷ z.right_half }) =
        ground (arith, append_assoc x (c ∷ []) z.right_half, length-append x (c ∷ [])) in
      ground (arith, length-append x (c ∷ []), to-Is d d.row (d.col - 1) goal)

  pub left_up-Is :
      (above : List Text) (p : Text)
      → z.left_half ≡ []
      → z.above ≡ above ++ p ∷ []
      → Is (te_left d).0 (record z {
        above = above;
        left_half = p;
        right_half = [];
        under = z.right_half ∷ z.under;
      })
  unfolding te_left
  left_up-Is above p e e' =
      let goal : Is (record d { row = d.row - 1; col = length p })
          (record z {
            above = above;
            left_half = p;
            right_half = [];
            under = z.right_half ∷ z.under;
          }) =
        ground (
          arith,
          append_assoc above (p ∷ []) (z.right_half ∷ z.under),
          append-nil p,
          length-append above (p ∷ []),
        ) in
      ground (
        arith,
        append_assoc above (p ∷ []) (z.right_half ∷ z.under),
        length-append above (p ∷ []),
        get_elem?-append above p (z.right_half ∷ z.under),
        to-Is d (d.row - 1) (length p) goal,
      )

  pub left_stop-Is : z.left_half ≡ [] → z.above ≡ [] → Is (te_left d).0 z
  unfolding te_left
  left_stop-Is e e' = ground (arith, to-Is d d.row d.col at)

  pub right-Is :
      (c : ℕ) (y : Text)
      → z.right_half ≡ c ∷ y
      → Is (te_right d).0 (record z { left_half = z.left_half ++ c ∷ []; right_half = y })
  unfolding te_right
  right-Is c y e =
      let goal : Is (record d { row = d.row; col = d.col + 1 })
          (record z { left_half = z.left_half ++ c ∷ []; right_half = y }) =
        ground (arith, append_assoc z.left_half (c ∷ []) y, length-append z.left_half (c ∷ [])) in
      ground
        (arith, Is-line at, length-append z.left_half z.right_half, to-Is d d.row (d.col + 1) goal)

  pub right_down-Is :
      (next : Text) (under : List Text)
      → z.right_half ≡ []
      → z.under ≡ next ∷ under
      → Is (te_right d).0 (record z {
        above = z.above ++ z.left_half ∷ [];
        left_half = [];
        right_half = next;
        under = under;
      })
  unfolding te_right
  right_down-Is next under e e' =
      let goal : Is (record d { row = d.row + 1; col = 0 })
          (record z {
            above = z.above ++ z.left_half ∷ [];
            left_half = [];
            right_half = next;
            under = under;
          }) =
        ground (
          arith,
          append_assoc z.above (z.left_half ∷ []) (next ∷ under),
          append-nil z.left_half,
          length-append z.above (z.left_half ∷ []),
        ) in
      ground (
        arith,
        Is-line at,
        append-nil z.left_half,
        length-append z.above (z.left_half ∷ next ∷ under),
        to-Is d (d.row + 1) 0 goal,
      )

  pub right_stop-Is : z.right_half ≡ [] → z.under ≡ [] → Is (te_right d).0 z
  unfolding te_right
  right_stop-Is e e' = ground (
    arith,
    Is-line at,
    append-nil z.left_half,
    length-append z.above (z.left_half ∷ []),
    to-Is d d.row d.col at,
  )
