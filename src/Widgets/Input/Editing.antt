-- ===== src/Widgets/Input/Editing.antt =====
-- src/core/widgets/input.c: each key as an edit of the text that the cursor divides, and what is answered.
use filly.Prelude.{
  ℕ, ◌≤◌, ◌<◌, ◌≡◌, ◌⊎◌, inl, inr, refl, sym, Bool, true, false, [], ◌∷◌, ◌++◌, Text, length, take,
  drop, arith, append_assoc, append-nil, length-append, take-append, drop-append, take-append-drop,
}
use filly.Widgets.Events.{
  KeyCode, Event, string, answer, enter, left, right, home, end, delete, backspace, char, press,
}
use filly.Widgets.Input.{
  InputData, input_handle_event, input_key, input_enter, input_char, input_backspace,
}
use filly.Widgets.TextEditor.Refines.{but_last, but_last-append, last_cases}
use filly.Widgets.TextEditor.Buffer.{length-take_le}

abbrev pub text_before : InputData → Text
text_before d = take d.cursor d.text

abbrev pub text_after : InputData → Text
text_after d = drop d.cursor d.text

-- How a text that the cursor divides into `b` and `a` is edited.
abbrev pub Edits : KeyCode → ℕ → (b a b' a' : Text) → Type 0
Edits char ch b a b' a' = (b' ≡ b ++ ch ∷ []) × (a' ≡ a)
Edits backspace ch b a b' a' = (b' ≡ but_last b) × (a' ≡ a)
Edits delete ch b a b' a' = (b' ≡ b) × (a' ≡ drop 1 a)
Edits left ch b a b' a' = (b' ≡ but_last b) × (b' ++ a' ≡ b ++ a)
Edits right ch b a b' a' = (b' ≡ b ++ take 1 a) × (a' ≡ drop 1 a)
Edits home ch b a b' a' = (b' ≡ []) × (a' ≡ b ++ a)
Edits end ch b a b' a' = (b' ≡ b ++ a) × (a' ≡ [])
Edits _ ch b a b' a' = (b' ≡ b) × (a' ≡ a)

head_cases : (ys : Text) → (ys ≡ []) ⊎ ((c : ℕ) × (w : Text) × (ys ≡ c ∷ w))
head_cases [] = inl refl
head_cases (c ∷ w) = inr (c, w, refl)

-- The text is `x` before the cursor and `y` behind it.
record Is (d : InputData) (x y : Text) : Type 0 where
  on_text : d.text ≡ x ++ y
  on_cursor : d.cursor ≡ length x

Is-text : {d : InputData} {x y : Text} → Is d x y → (text_before d ≡ x) × (text_after d ≡ y)
Is-text {x = x} {y = y} at = ground (arith, take-append x y, drop-append x y)

divide : (d : InputData) → d.cursor ≤ length d.text → Is d (text_before d) (text_after d)
divide d h = record {
  on_text = sym (take-append-drop d.cursor d.text);
  on_cursor = sym (length-take_le d.cursor d.text h);
}

module _ (matches accepts : Text → Bool) (d : InputData) (x y : Text) (at : Is d x y) where
  char_step : (ch : ℕ) → 0 < ch → Is (input_key matches accepts d char ch).0 (x ++ ch ∷ []) y
  unfolding input_key input_char
  char_step ch h = ground (
    arith,
    take-append x y,
    drop-append x y,
    length-append x y,
    length-append x (ch ∷ []),
    append_assoc x (ch ∷ []) y,
  )

  backspace_step :
      (w : Text) (c : ℕ) → x ≡ w ++ c ∷ [] → Is (input_key matches accepts d backspace 0).0 w y
  unfolding input_key input_backspace
  backspace_step w c e = ground (
    arith,
    drop-append x y,
    length-append x y,
    length-append w (c ∷ []),
    append_assoc w (c ∷ []) y,
    take-append w (c ∷ y),
  )

  delete_step : (c : ℕ) (w : Text) → y ≡ c ∷ w → Is (input_key matches accepts d delete 0).0 x w
  unfolding input_key
  delete_step c w e = ground (
    arith,
    length-append x y,
    take-append x y,
    append_assoc x (c ∷ []) w,
    drop-append (x ++ c ∷ []) w,
    length-append x (c ∷ []),
  )

  left_step :
      (w : Text) (c : ℕ) → x ≡ w ++ c ∷ [] → Is (input_key matches accepts d left 0).0 w (c ∷ y)
  unfolding input_key
  left_step w c e = ground (arith, length-append w (c ∷ []), append_assoc w (c ∷ []) y)

  right_step :
      (c : ℕ) (w : Text) → y ≡ c ∷ w → Is (input_key matches accepts d right 0).0 (x ++ c ∷ []) w
  unfolding input_key
  right_step c w e =
      ground (arith, length-append x y, length-append x (c ∷ []), append_assoc x (c ∷ []) w)

  -- The edit, and a cursor that is still inside the text.
  abbrev Step : KeyCode → ℕ → Type 0
  Step key ch =
      ((input_key matches accepts d key ch).0.cursor
        ≤ length (input_key matches accepts d key ch).0.text)
      × Edits key ch (text_before d) (text_after d)
          (text_before (input_key matches accepts d key ch).0)
          (text_after (input_key matches accepts d key ch).0)

  step : (key : KeyCode) (ch : ℕ) → (key ≡ char → 0 < ch) → Step key ch
  unfolding input_key but_last input_enter
  step char ch nz = ground (
    arith,
    Is-text at,
    Is-text (char_step ch (nz refl)),
    char_step ch (nz refl),
    length-append (x ++ ch ∷ []) y,
  )
  step backspace ch nz = elim (last_cases x) [
    | inl e ↦ ground (arith, Is-text at, at, length-append x y)
    | inr (w, c, e) ↦ ground (
      arith,
      Is-text at,
      Is-text (backspace_step w c e),
      backspace_step w c e,
      but_last-append w c,
      length-append w y,
    )
  ]
  step delete ch nz = elim (head_cases y) [
    | inl e ↦ ground (arith, Is-text at, at, length-append x y)
    | inr (c, w, e) ↦
        ground
          (arith, Is-text at, Is-text (delete_step c w e), delete_step c w e, length-append x w)
  ]
  step left ch nz = elim (last_cases x) [
    | inl e ↦ ground (arith, Is-text at, at, length-append x y)
    | inr (w, c, e) ↦ ground (
      arith,
      Is-text at,
      Is-text (left_step w c e),
      left_step w c e,
      but_last-append w c,
      length-append w (c ∷ y),
      append_assoc w (c ∷ []) y,
    )
  ]
  step right ch nz = elim (head_cases y) [
    | inl e ↦ ground (arith, Is-text at, at, length-append x y, append-nil x)
    | inr (c, w, e) ↦ ground (
      arith,
      Is-text at,
      Is-text (right_step c w e),
      right_step c w e,
      length-append (x ++ c ∷ []) w,
    )
  ]
  step home ch nz = ground (arith, Is-text at, at, take-append-drop d.cursor d.text)
  step end ch nz =
      ground
        (arith, Is-text at, at, take-append d.text [], drop-append d.text [], append-nil d.text)
  step enter ch nz = ground (arith, at, length-append x y)
  step _ ch nz = ground (arith, at, length-append x y)

-- A key that is pressed while the cursor is inside the text keeps it there, and does what `Edits` says
-- to the text that it divides: a character, if it is not NUL, goes in before the cursor, Backspace and Delete
-- take one, Left and Right move over one, Home and End over all, and the other keys keep both parts.
pub input_handle_event-Edits :
    (matches accepts : Text → Bool) (d : InputData) (key : KeyCode) (ch : ℕ)
    → d.cursor ≤ length d.text
    → (key ≡ char → 0 < ch)
    → ((input_handle_event matches accepts d (press key ch)).0.cursor
        ≤ length (input_handle_event matches accepts d (press key ch)).0.text)
      × Edits key ch
          (text_before d)
          (text_after d)
          (text_before (input_handle_event matches accepts d (press key ch)).0)
          (text_after (input_handle_event matches accepts d (press key ch)).0)
unfolding input_handle_event
input_handle_event-Edits matches accepts d key ch h nz =
    step matches accepts d (text_before d) (text_after d) (divide d h) key ch nz

-- A field answers with its text alone, and only if the text fits the pattern and passes the script that
-- the field has.
pub input_handle_event-answer :
    (matches accepts : Text → Bool) (d : InputData) (ev : Event) (s : Text)
    → (input_handle_event matches accepts d ev).1 ≡ answer (string s)
    → (s ≡ d.text)
      × ((d.validation ≡ false) ⊎ (matches s ≡ true))
      × ((d.validation_script ≡ false) ⊎ (accepts s ≡ true))
unfolding input_handle_event input_key input_enter input_char input_backspace
input_handle_event-answer matches accepts d ev s e = ground arith
