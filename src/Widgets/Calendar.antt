-- ===== src/Widgets/Calendar.antt =====
-- src/core/widgets/calendar.c: a day of the month in which the widget was opened.
use filly.Prelude.{
  ℕ, ◌+◌, ◌-◌, ◌%◌, ◌≤◌, ◌≡◌, Bool, true, ◌&&◌, ◌||◌, not, ◌++◌, Text, codes, ltb, leb, ◌==◌, arith,
  if◌then◌else◌, decimal, decimal_2, snprintf,
}
use filly.Widgets.Events.{
  KeyCode, Event, EventResult, string, handled, unhandled, cancel, answer, on_key, esc, up, down,
  left, right, enter,
}

-- `days_in_month`; a year after `tm_year + 1900` is not negative.
unfoldable pub days_in_month : ℕ → ℕ → ℕ
days_in_month y m =
    if m == 1 || m == 3 || m == 5 || m == 7 || m == 8 || m == 10 || m == 12
    then 31
    else if m == 4 || m == 6 || m == 9 || m == 11
    then 30
    else if m == 2
    then if y % 4 == 0 && (not (y % 100 == 0) || y % 400 == 0) then 29 else 28
    else 30

-- `CalendarData`
pub record CalendarData : Type 0 where
  pub dirty : Bool
  pub title : Text
  pub year : ℕ
  pub month : ℕ
  pub selected_day : ℕ

-- The date is what `localtime` answers.
pub calendar_widget_new : Text → ℕ → ℕ → ℕ → CalendarData
calendar_widget_new title tm_year tm_mon tm_mday = record {
  dirty = true;
  title = title;
  year = tm_year + 1900;
  month = tm_mon + 1;
  selected_day = tm_mday;
}

calendar_key : CalendarData → KeyCode → CalendarData × EventResult
calendar_key d esc = (d, cancel)
calendar_key d left = (
  record d {
    selected_day = if ltb 1 d.selected_day then d.selected_day - 1 else d.selected_day;
    dirty = true;
  },
  handled,
)
calendar_key d right = (
  record d {
    selected_day =
        if ltb d.selected_day (days_in_month d.year d.month)
        then d.selected_day + 1
        else d.selected_day;
    dirty = true;
  },
  handled,
)
calendar_key d up = (
  -- `selected_day - 7 >= 1`
  record d { selected_day = if leb 8 d.selected_day then d.selected_day - 7 else 1; dirty = true },
  handled,
)
calendar_key d down = (
  record d {
    selected_day =
        if leb (d.selected_day + 7) (days_in_month d.year d.month)
        then d.selected_day + 7
        else days_in_month d.year d.month;
    dirty = true;
  },
  handled,
)
calendar_key d enter = (
  d,
  answer (
      string (
        snprintf 16 (
          decimal d.year
          ++ (codes "-" ++ (decimal_2 d.month ++ (codes "-" ++ decimal_2 d.selected_day)))))),
)
calendar_key d _ = (d, unhandled)

pub calendar_handle_event : CalendarData → Event → CalendarData × EventResult
unfolding calendar_key
calendar_handle_event d ev = on_key d ev (calendar_key d)

-- The selected day is a day of the month.
abbrev pub IsDay : CalendarData → Type 0
IsDay d = (1 ≤ d.selected_day) × (d.selected_day ≤ days_in_month d.year d.month)

days_in_month_bounds : (y m : ℕ) → (28 ≤ days_in_month y m) × (days_in_month y m ≤ 31)
unfolding days_in_month
days_in_month_bounds y m = ground arith

-- If the selected day is a day of the month, every event keeps the year and the month, and leaves
-- a day of that month selected.
pub calendar_handle_event-IsDay :
    (d : CalendarData) (ev : Event)
    → IsDay d
    → IsDay (calendar_handle_event d ev).0
      × ((calendar_handle_event d ev).0.year ≡ d.year)
      × ((calendar_handle_event d ev).0.month ≡ d.month)
unfolding calendar_handle_event
calendar_handle_event-IsDay d ev v = ground (arith, days_in_month_bounds d.year d.month)
