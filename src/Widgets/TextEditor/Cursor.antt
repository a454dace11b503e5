-- ===== src/Widgets/TextEditor/Cursor.antt =====
-- src/core/widgets/text_editor.c: the cursor stays inside the text and, once clamped, inside the window.
use filly.Prelude.{ℕ, zero, suc, ◌+◌, ◌<◌, ◌≤◌, ◌≡◌, refl, List, [], ◌∷◌, Text, length, arith}
use filly.Widgets.TextEditor.{TextEditorData, te_clamp_cursor, some_line, line_at}
use filly.Widgets.TextEditor.Buffer.{Within}

some_line-length : (lines : List Text) → 0 < length (some_line lines)
some_line-length [] = omega arith
some_line-length (l ∷ lines) = omega arith

pub Within-of_bounds :
    (lines : List Text) (row col : ℕ)
    → row < length lines
    → col ≤ length (line_at lines row)
    → Within lines row col
Within-of_bounds [] row col h k = absurd (omega arith)
Within-of_bounds (l ∷ lines) zero col h k = k
Within-of_bounds (l ∷ lines) (suc row) col h k = Within-of_bounds lines row col (omega arith) k

pub bounds_of_Within :
    (lines : List Text) (row col : ℕ)
    → Within lines row col
    → (row < length lines) × (col ≤ length (line_at lines row)) × (some_line lines ≡ lines)
bounds_of_Within [] row col h = absurd h
bounds_of_Within (l ∷ lines) zero col h = (omega arith, h, refl)
bounds_of_Within (l ∷ lines) (suc row) col h =
    let (a, b, _) = bounds_of_Within lines row col h in (omega arith, b, refl)

-- The cursor's row is one of the rows that the window shows.
pub record InView (d : TextEditorData) : Type 0 where
  pub below_top : d.scroll ≤ d.row
  pub above_bottom : d.row < d.scroll + d.visible_h

-- Whatever the state was, `te_clamp_cursor` leaves a cursor that is inside the text and in view.
pub te_clamp_cursor_lem :
    (d : TextEditorData)
    → 0 < d.visible_h
    → Within (te_clamp_cursor d).lines (te_clamp_cursor d).row (te_clamp_cursor d).col
      × InView (te_clamp_cursor d)
unfolding te_clamp_cursor
te_clamp_cursor_lem d h = (
  Within-of_bounds (te_clamp_cursor d).lines (te_clamp_cursor d).row (te_clamp_cursor d).col
      (ground (arith, some_line-length d.lines)) (ground arith),
  record { below_top = ground arith; above_bottom = ground arith },
)

-- It moves a cursor that is inside the text nowhere.
pub te_clamp_cursor-Within :
    (d : TextEditorData)
    → Within d.lines d.row d.col
    → ((te_clamp_cursor d).lines ≡ d.lines)
      × ((te_clamp_cursor d).row ≡ d.row)
      × ((te_clamp_cursor d).col ≡ d.col)
unfolding te_clamp_cursor
te_clamp_cursor-Within d h = ground (arith, bounds_of_Within d.lines d.row d.col h)
