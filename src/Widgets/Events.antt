-- ===== src/Widgets/Events.antt =====
-- src/core/event.h, and what `handle_event` of a widget returns (src/core/widget.h and widget.c).
use filly.Prelude.{ℕ, Bool, true, false, Option, none, some, List, Text}
use filly.Prelude.Int.{ℤ}

pub data KeyCode : Type 0 where
  backspace enter left right up down : KeyCode
  home end pageup pagedown tab backtab : KeyCode
  delete insert : KeyCode
  f1 f2 f3 f4 f5 f6 f7 f8 f9 f10 f11 f12 : KeyCode
  char esc null : KeyCode

pub data EventType : Type 0 where
  event_none event_key event_resize event_mouse_motion event_mouse_button : EventType
  event_mouse_scroll event_mouse_drag_start event_mouse_drag_move event_mouse_drag_end : EventType

-- `Event`, as far as the widgets here read it.
pub record Event : Type 0 where
  pub type : EventType
  pub code : KeyCode
  pub ch : ℕ

-- The JSON values that these widgets answer with.
pub data Value : Type 0 where
  string : Text → Value
  number : ℤ → Value
  bool : Bool → Value
  array : List Text → Value

-- `WidgetResponse`
pub record Response : Type 0 where
  pub result : Option Value
  pub cancelled : Bool

-- `EventResult`; `fault` is none of C's: an access out of the bounds of an array.
pub data EventResult : Type 0 where
  handled unhandled fault : EventResult
  response : Response → EventResult

abbrev pub cancel : EventResult
cancel = response (record { result = none; cancelled = true })

abbrev pub answer : Value → EventResult
answer v = response (record { result = some v; cancelled = false })

-- Every handler begins with `if (ev->type != EVENT_KEY) return event_result_unhandled();`.
abbrev pub on_key {ℓ} : {D : Type ℓ} → D → Event → (KeyCode → D × EventResult) → D × EventResult
on_key d ev keys = elim ev.type [ event_key ↦ keys ev.code | _ ↦ (d, unhandled) ]

-- A key that was pressed.
abbrev pub press : KeyCode → ℕ → Event
press code ch = record { type = event_key; code = code; ch = ch }
