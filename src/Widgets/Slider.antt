-- ===== src/Widgets/Slider.antt =====
-- src/core/widgets/range_slider.c: an integer between two bounds.
use filly.Prelude.{ℕ, ◌≡◌, Bool, true, List, [], ◌∷◌, Text, arith, if◌then◌else◌}
use filly.Prelude.Int.{ℤ, pos, leb_ℤ, ◌≤ℤ◌, ◌+ℤ◌, ◌-ℤ◌}
use filly.Widgets.Events.{
  KeyCode, Event, EventResult, number, handled, unhandled, cancel, answer, on_key, esc, left, right,
  enter, press,
}

-- `RangeSliderData`
pub record RangeSliderData : Type 0 where
  pub dirty : Bool
  pub title : Text
  pub label : Text
  pub min : ℤ
  pub max : ℤ
  pub value : ℤ

pub range_slider_widget_new : Text → ℤ → ℤ → ℤ → Text → RangeSliderData
range_slider_widget_new title min max value label = record {
  dirty = true;
  title = title;
  label = label;
  min = min;
  max = max;
  value = value;
}

rs_key : RangeSliderData → KeyCode → RangeSliderData × EventResult
rs_key d esc = (d, cancel)
rs_key d left = (
  record d {
    value = if leb_ℤ d.min (d.value -ℤ pos 1) then d.value -ℤ pos 1 else d.min;
    dirty = true;
  },
  handled,
)
rs_key d right = (
  record d {
    value = if leb_ℤ (d.value +ℤ pos 1) d.max then d.value +ℤ pos 1 else d.max;
    dirty = true;
  },
  handled,
)
rs_key d enter = (d, answer (number d.value))
rs_key d _ = (d, unhandled)

pub rs_handle_event : RangeSliderData → Event → RangeSliderData × EventResult
unfolding rs_key
rs_handle_event d ev = on_key d ev (rs_key d)

abbrev pub IsInRange : RangeSliderData → Type 0
IsInRange d = (d.min ≤ℤ d.value) × (d.value ≤ℤ d.max)

rs_key-IsInRange : (d : RangeSliderData) (k : KeyCode) → IsInRange d → IsInRange (rs_key d k).0
unfolding rs_key ◌+ℤ◌ ◌-ℤ◌
rs_key-IsInRange d left h = ground arith
rs_key-IsInRange d right h = ground arith
rs_key-IsInRange d _ h = h

-- The events that keep the widget open, one after the other.
pub slide : RangeSliderData → List Event → RangeSliderData
slide d [] = d
slide d (ev ∷ evs) = slide (rs_handle_event d ev).0 evs

rs_handle_event-IsInRange :
    (d : RangeSliderData) (ev : Event) → IsInRange d → IsInRange (rs_handle_event d ev).0
unfolding rs_handle_event
rs_handle_event-IsInRange d ev h = ground (arith, rs_key-IsInRange d ev.code h)

-- A value that starts within the bounds stays within them, whatever the events.
pub slide-IsInRange :
    (evs : List Event) (d : RangeSliderData) → IsInRange d → IsInRange (slide d evs)
unfolding slide
slide-IsInRange [] d h = h
slide-IsInRange (ev ∷ evs) d h =
    slide-IsInRange evs (rs_handle_event d ev).0 (rs_handle_event-IsInRange d ev h)

-- Left and then right gives the value back, except at the lower bound; right and then left, except
-- at the upper one.
pub slide_back :
    (d : RangeSliderData) (ch : ℕ)
    → IsInRange d
    → (d.min +ℤ pos 1 ≤ℤ d.value → (slide d (press left ch ∷ press right ch ∷ [])).value ≡ d.value)
      × (d.value +ℤ pos 1 ≤ℤ d.max
          → (slide d (press right ch ∷ press left ch ∷ [])).value ≡ d.value)
unfolding slide rs_handle_event ◌+ℤ◌ ◌-ℤ◌
slide_back d ch h = (λ l. ground arith, λ l. ground arith)
