-- ===== src/Tests/Controls.antt =====
-- The handlers of src/core/widgets at concrete inputs.
use filly.Prelude.{◌≤◌, ◌≡◌, ◌≢◌, inl, refl, true, false, none, [], ◌∷◌, codes, length, arith}
use filly.Prelude.Int.{pos, negsuc}
use filly.Widgets.Events.{press, down, left, right, enter, char, fault}
use filly.Widgets.Input.{InputData, input_handle_event}
use filly.Widgets.Input.Editing.{input_handle_event-Edits, Edits, text_before, text_after}
use filly.Widgets.Menu.{menu_widget_new, run, Answers, menu_run}
use filly.Widgets.Checklist.{
  ChecklistData, checklist_handle_event, checklist_handle_event-Keeps, Keeps,
}
use filly.Widgets.Slider.{RangeSliderData, slide, slide-IsInRange, IsInRange}
use filly.Widgets.Table.{TableData, table_handle_event, table_handle_event_lem, IsInside}
use filly.Widgets.Calendar.{
  CalendarData, calendar_handle_event, calendar_handle_event-IsDay, IsDay, days_in_month,
}

menu_run_example :
    Answers
      (codes "yes" ∷ codes "no" ∷ [])
      (run
        (menu_widget_new none none (codes "yes" ∷ codes "no" ∷ []) (pos 7))
        (press down 0 ∷ press enter 0 ∷ [])).1
menu_run_example =
    menu_run none none (codes "yes") (codes "no" ∷ []) (pos 7) (press down 0 ∷ press enter 0 ∷ [])

-- Two choices, the second of which is checked.
abbrev one_checked : ChecklistData
one_checked = record {
  dirty = false;
  choices = codes "a" ∷ codes "b" ∷ [];
  checked = false ∷ true ∷ [];
  selected = 1;
  min_sel = pos 1;
  max_sel = 2;
}

checklist_handle_event-Keeps_run :
    Keeps one_checked
      (checklist_handle_event one_checked (press char b' ')).0
      (checklist_handle_event one_checked (press char b' ')).1
checklist_handle_event-Keeps_run =
    checklist_handle_event-Keeps one_checked (press char b' ')
      (record { boxes = refl; inside = omega arith; limited = omega arith })

abbrev volume : RangeSliderData
volume = record {
  dirty = false;
  title = codes "Volume";
  label = codes "%";
  min = negsuc 0;
  max = pos 1;
  value = pos 0;
}

slide-IsInRange_run : IsInRange (slide volume (press left 0 ∷ press left 0 ∷ press right 0 ∷ []))
slide-IsInRange_run =
    slide-IsInRange (press left 0 ∷ press left 0 ∷ press right 0 ∷ []) volume
      (omega arith, omega arith)

abbrev two_rows : TableData
two_rows = record {
  dirty = false;
  title = codes "Users";
  headers = codes "name" ∷ codes "id" ∷ [];
  rows = (codes "ann" ∷ codes "1" ∷ []) ∷ (codes "bob" ∷ codes "2" ∷ []) ∷ [];
  selected_row = 1;
  selected_col = 0;
}

table_handle_event_lem_run :
    IsInside (table_handle_event two_rows (press right 0)).0
    × ((table_handle_event two_rows (press right 0)).0.rows ≡ two_rows.rows)
    × ((table_handle_event two_rows (press right 0)).0.headers ≡ two_rows.headers)
    × ((table_handle_event two_rows (press right 0)).1 ≢ fault)
table_handle_event_lem_run =
    table_handle_event_lem two_rows (press right 0) (refl, (refl, tt))
      (record { in_rows = inl (omega arith); in_cols = inl (omega arith) })

abbrev leap_day : CalendarData
leap_day = record { dirty = false; title = codes "Date"; year = 2024; month = 2; selected_day = 29 }

leap_day-IsDay : IsDay leap_day
unfolding days_in_month
leap_day-IsDay = (omega arith, omega arith)

calendar_handle_event-IsDay_run :
    IsDay (calendar_handle_event leap_day (press right 0)).0
    × ((calendar_handle_event leap_day (press right 0)).0.year ≡ leap_day.year)
    × ((calendar_handle_event leap_day (press right 0)).0.month ≡ leap_day.month)
calendar_handle_event-IsDay_run =
    calendar_handle_event-IsDay leap_day (press right 0) leap_day-IsDay

-- The text "ab", with the cursor between its characters.
abbrev between : InputData
between = record {
  dirty = false;
  text = codes "ab";
  cursor = 1;
  validation = false;
  validation_script = false;
}

input_handle_event-Edits_example :
    ((input_handle_event (λ _. true) (λ _. true) between (press char b'x')).0.cursor
      ≤ length (input_handle_event (λ _. true) (λ _. true) between (press char b'x')).0.text)
    × Edits char b'x'
        (text_before between)
        (text_after between)
        (text_before (input_handle_event (λ _. true) (λ _. true) between (press char b'x')).0)
        (text_after (input_handle_event (λ _. true) (λ _. true) between (press char b'x')).0)
input_handle_event-Edits_example =
    input_handle_event-Edits (λ _. true) (λ _. true) between char b'x' (omega arith)
      (λ _. omega arith)
