-- ===== src/Widgets/Input.antt =====
-- src/core/widgets/input.c: a field for one line of text. `regexec` of the C library and `fil_eval` are
-- parameters: `matches` says whether the pattern of the field fits, `accepts` whether its script does.
pub mod Editing
use filly.Prelude.{
  ℕ, zero, suc, ◌+◌, ◌-◌, ◌≤◌, ◌<◌, ◌≡◌, ◌≢◌, ◌⊎◌, inl, inr, refl, Bool, true, false, not, ◌&&◌,
  ◌||◌, Option, none, some, List, [], ◌∷◌, ◌++◌, Text, ltb, if◌then◌else◌, length, take, drop,
  arith, append_assoc, length-append, take-append, drop-append, take-append-drop,
}
use filly.Widgets.Events.{
  KeyCode, Event, EventResult, string, handled, unhandled, fault, cancel, answer, on_key, esc,
  enter, left, right, home, end, delete, backspace, char, press,
}

-- `InputData`, less what only the rendering reads; whether there is a pattern and a script.
pub record InputData : Type 0 where
  pub dirty : Bool
  pub text : Text
  pub cursor : ℕ
  pub validation : Bool
  pub validation_script : Bool

module _ (matches accepts : Text → Bool) where
  input_enter : InputData → InputData × EventResult
  input_enter d =
      if d.validation && not (matches d.text)
      then (d, handled)
      else if d.validation_script && not (accepts d.text)
      then (d, handled)
      else (d, answer (string d.text))

  -- A NUL that is typed ends the text where it stands. What lies behind the end of the text is not
  -- modelled: a cursor there is a `fault` of the copies.
  input_char : InputData → ℕ → InputData × EventResult
  input_char d ch = if ltb (length d.text) d.cursor then (d, fault) else (
    record d {
      text =
          if ltb 0 ch
          then take d.cursor d.text ++ ch ∷ drop d.cursor d.text
          else take d.cursor d.text;
      cursor = d.cursor + 1;
      dirty = true;
    },
    handled,
  )

  input_backspace : InputData → InputData × EventResult
  input_backspace d =
      if ltb 0 d.cursor
      then if ltb (length d.text) d.cursor then (d, fault) else (
        record d {
          text = take (d.cursor - 1) d.text ++ drop d.cursor d.text;
          cursor = d.cursor - 1;
          dirty = true;
        },
        handled,
      )
      else (d, handled)

  input_key : InputData → KeyCode → ℕ → InputData × EventResult
  unfolding input_enter input_char input_backspace
  input_key d esc ch = (d, cancel)
  input_key d enter ch = input_enter d
  input_key d char ch = input_char d ch
  input_key d backspace ch = input_backspace d
  input_key d delete ch =
      if ltb d.cursor (length d.text)
      then (
        record d { text = take d.cursor d.text ++ drop (d.cursor + 1) d.text; dirty = true },
        handled,
      )
      else (d, handled)
  input_key d left ch =
      (record d { cursor = if ltb 0 d.cursor then d.cursor - 1 else d.cursor }, handled)
  input_key d right ch = (
    record d { cursor = if ltb d.cursor (length d.text) then d.cursor + 1 else d.cursor },
    handled,
  )
  input_key d home ch = (record d { cursor = 0 }, handled)
  input_key d end ch = (record d { cursor = length d.text }, handled)
  input_key d _ ch = (d, unhandled)

  pub input_handle_event : InputData → Event → InputData × EventResult
  unfolding input_key
  input_handle_event d ev = on_key d ev (λ code. input_key d code ev.ch)

pub input_widget_new : Option Text → Bool → InputData
input_widget_new default_text validation = record {
  dirty = true;
  text = elim default_text [ none ↦ [] | some s ↦ s ];
  cursor = elim default_text [ none ↦ 0 | some s ↦ length s ];
  validation = validation;
  validation_script = false;
}
