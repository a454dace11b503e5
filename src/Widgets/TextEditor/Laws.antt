-- ===== src/Widgets/TextEditor/Laws.antt =====
-- src/core/widgets/text_editor.c: no key reads outside the text or loses the cursor, and each does to
-- the text what `Edits` says.
use filly.Prelude.{
  ℕ, zero, suc, ◌+◌, ◌-◌, ◌<◌, ◌≤◌, ◌≡◌, ◌≢◌, ◌⊎◌, inl, inr, refl, sym, Bool, List, [], ◌∷◌, ◌++◌,
  append-nil, Text, length, arith, ltb, leb, ◌==◌, if◌then◌else◌, get_elem?, some, Bool-cases,
  erase_idx,
}
use filly.Widgets.Events.{
  KeyCode, Event, fault, up, down, left, right, home, end, pageup, pagedown, delete, enter,
  backspace, char, press,
}
use filly.Widgets.TextEditor.{
  TextEditorData, text_editor_handle_event, te_key, te_delete, te_backspace, te_left, te_right,
  te_enter, te_insert, te_char, te_save, te_delete_line, te_erase_left, te_join_above, line_at,
  te_clamp_cursor, moved, some_line,
}
use filly.Widgets.TextEditor.Buffer.{before, after, Within, divide, Divided}
use filly.Widgets.TextEditor.Cursor.{te_clamp_cursor_lem, bounds_of_Within, Within-of_bounds}
use filly.Widgets.TextEditor.Editing.{Is}
use filly.Widgets.TextEditor.Refines.{
  delete_follows, right_follows, left_follows, backspace_follows, enter_follows, insert_follows,
  rests, Step, Follows, text_before, text_after,
}

-- The cursor is inside the text, and the window shows a row at least.
pub record IsValid (d : TextEditorData) : Type 0 where
  pub inside : Within d.lines d.row d.col
  pub tall : 0 < d.visible_h

get_elem?-line_at :
    (lines : List Text) (row : ℕ)
    → row < length lines
    → get_elem? lines row ≡ some (line_at lines row)
get_elem?-line_at [] row h = absurd (omega arith)
get_elem?-line_at (l ∷ lines) zero h = refl
get_elem?-line_at (l ∷ lines) (suc row) h = get_elem?-line_at lines row (omega arith)

length-erase_idx :
    (lines : List Text) (row : ℕ)
    → row < length lines
    → length (erase_idx lines row) + 1 ≡ length lines
length-erase_idx [] row h = absurd (omega arith)
length-erase_idx (l ∷ lines) zero h = omega arith
length-erase_idx (l ∷ lines) (suc row) h = omega (arith, length-erase_idx lines row)

clamp_lines : (d : TextEditorData) → (te_clamp_cursor d).lines ≡ some_line d.lines
unfolding te_clamp_cursor
clamp_lines d = refl

clamp_height : (d : TextEditorData) → (te_clamp_cursor d).visible_h ≡ d.visible_h
unfolding te_clamp_cursor
clamp_height d = refl

-- The handlers of the single keys leave the height of the window alone.
keeps_height :
    (can_write : Text → Bool) (d : TextEditorData) (key : KeyCode) (ch : ℕ)
    → (te_key can_write d key ch).0.visible_h ≡ d.visible_h
unfolding te_key te_delete te_backspace te_left te_right te_enter te_insert te_char te_erase_left
    te_join_above te_delete_line te_save te_clamp_cursor
keeps_height can_write d key ch = ground arith

-- Every valid state is a divided text.
IsValid-Is : (d : TextEditorData) → IsValid d → (z : Divided) × Is d z
IsValid-Is d v =
    let (z, e, r, c) = divide d.lines d.row d.col v.inside in
    (z, record { on_lines = sym e; on_row = sym r; on_col = sym c })

module _ (d : TextEditorData) (v : IsValid d) where
  -- No access of the handler is out of bounds.
  safe : (can_write : Text → Bool) (key : KeyCode) (ch : ℕ) → (te_key can_write d key ch).1 ≢ fault
  unfolding te_key te_delete te_backspace te_left te_right te_enter te_insert te_char te_erase_left
      te_join_above
  safe can_write key ch = ground (
    arith,
    bounds_of_Within d.lines d.row d.col v.inside,
    get_elem?-line_at d.lines d.row,
    get_elem?-line_at d.lines (d.row - 1),
    get_elem?-line_at d.lines (d.row + 1),
  )

  -- A cursor that was moved and clamped.
  moved_step :
      (row col : ℕ)
      → Within (moved d row col).0.lines (moved d row col).0.row (moved d row col).0.col
        × (text_before (moved d row col).0 ++ text_after (moved d row col).0
            ≡ text_before d ++ text_after d)
  moved_step row col =
      let (k, _) = te_clamp_cursor_lem (record d { row = row; col = col }) v.tall in
      (
        k,
        rests d (moved d row col).0 v.inside k (
            ground (
              arith,
              clamp_lines (record d { row = row; col = col }),
              bounds_of_Within d.lines d.row d.col v.inside,
            )),
      )

  save_step :
      (can_write : Text → Bool)
      → Within (te_save can_write d).lines (te_save can_write d).row (te_save can_write d).col
        × (text_before (te_save can_write d) ≡ text_before d)
        × (text_after (te_save can_write d) ≡ text_after d)
  unfolding te_save
  save_step can_write = ground (arith, v.inside)

  delete_line_step : Within (te_delete_line d).lines (te_delete_line d).row (te_delete_line d).col
  unfolding te_delete_line
  delete_line_step =
      let (inside, _, _) = bounds_of_Within d.lines d.row d.col v.inside in
      Within-of_bounds (te_delete_line d).lines (te_delete_line d).row (te_delete_line d).col
        (ground (arith, length-erase_idx d.lines d.row))
        (ground (arith, bounds_of_Within d.lines d.row d.col v.inside))

  col_step :
      (col : ℕ)
      → col ≤ length (line_at d.lines d.row)
      → Within d.lines d.row col
        × (before d.lines d.row col ++ after d.lines d.row col ≡ text_before d ++ text_after d)
  col_step col h =
      let (inside, _, _) = bounds_of_Within d.lines d.row d.col v.inside in
      let k = Within-of_bounds d.lines d.row col inside h in
      (k, rests d (record d { col = col }) v.inside k refl)

  step :
      (can_write : Text → Bool) (key : KeyCode) (ch : ℕ)
      → (key ≢ char) ⊎ (ch ≢ 4)
      → Step key ch d (te_key can_write d key ch).0
  unfolding te_key te_char
  step can_write enter ch n = let (_, at) = IsValid-Is d v in enter_follows at
  step can_write delete ch n =
      let (z, at) = IsValid-Is d v in delete_follows at z.right_half z.under refl refl
  step can_write left ch n = let (_, at) = IsValid-Is d v in left_follows at
  step can_write right ch n =
      let (z, at) = IsValid-Is d v in right_follows at z.right_half z.under refl refl
  step can_write backspace ch n = let (_, at) = IsValid-Is d v in backspace_follows at
  step can_write char ch n =
      let (_, at) = IsValid-Is d v in
      ground (arith, insert_follows at ch, save_step can_write, append-nil (text_before d))
  step can_write up ch n = moved_step (if ltb 0 d.row then d.row - 1 else d.row) d.col
  step can_write down ch n =
      moved_step (if ltb (d.row + 1) (length d.lines) then d.row + 1 else d.row) d.col
  step can_write pageup ch n = moved_step (d.row - d.visible_h) d.col
  step can_write pagedown ch n =
      moved_step
        (if leb (length d.lines) (d.row + d.visible_h)
          then length d.lines - 1
          else d.row + d.visible_h)
        d.col
  step can_write home ch n = col_step 0 (omega arith)
  step can_write end ch n = ground (
    arith,
    col_step (length (line_at d.lines d.row)),
    get_elem?-line_at d.lines d.row,
    bounds_of_Within d.lines d.row d.col v.inside,
  )
  step can_write _ ch n = (v.inside, refl)

  stays :
      (can_write : Text → Bool) (key : KeyCode) (ch : ℕ)
      → Within
          (te_key can_write d key ch).0.lines
          (te_key can_write d key ch).0.row
          (te_key can_write d key ch).0.col
  unfolding te_key te_char
  stays can_write char ch = elim (Bool-cases (ch == 4)) [
    | inl e ↦ ground (arith, delete_line_step)
    | inr e ↦ (step can_write char ch (inr (ground arith))).0
  ]
  stays can_write key ch = (step can_write key ch (inl (λ e. cc))).0

-- Every event leaves the cursor of a valid state inside the text and the window a row high at
-- least, and reads nothing outside the text.
pub text_editor_handle_event-IsValid :
    (can_write : Text → Bool) (d : TextEditorData) (ev : Event)
    → IsValid d
    → IsValid (text_editor_handle_event can_write d ev).0
      × ((text_editor_handle_event can_write d ev).1 ≢ fault)
unfolding text_editor_handle_event
text_editor_handle_event-IsValid can_write d ev v = ground (
  arith,
  stays d v can_write ev.code ev.ch,
  safe d v can_write ev.code ev.ch,
  keeps_height can_write d ev.code ev.ch,
)

-- Every key that is pressed in a valid state, but Ctrl-D, does what `Edits` says to the text that
-- the cursor divides: Enter and characters go in before the cursor, Backspace takes the character
-- before it and Delete the one behind it, line feeds included, Left and Right move over one, and
-- the other keys keep the text.
pub text_editor_handle_event_edits :
    (can_write : Text → Bool) (d : TextEditorData) (key : KeyCode) (ch : ℕ)
    → IsValid d
    → (key ≢ char) ⊎ (ch ≢ 4)
    → Follows key ch d (text_editor_handle_event can_write d (press key ch)).0
unfolding text_editor_handle_event
text_editor_handle_event_edits can_write d key ch v n = (step d v can_write key ch n).1
