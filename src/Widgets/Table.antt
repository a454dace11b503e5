-- ===== src/Widgets/Table.antt =====
-- src/core/widgets/table.c: a cell of a table.
use filly.Prelude.{
  ℕ, zero, suc, ◌+◌, ◌-◌, ◌<◌, ◌≡◌, ◌≢◌, ◌⊎◌, Bool, true, ◌&&◌, none, some, List, [], ◌∷◌, Text,
  ltb, arith, length, get_elem?, if◌then◌else◌, All,
}
use filly.Widgets.Events.{
  KeyCode, Event, EventResult, string, handled, unhandled, fault, cancel, answer, on_key, esc, up,
  down, left, right, enter,
}

-- `TableData`; the two counts are the lengths of the lists.
pub record TableData : Type 0 where
  pub dirty : Bool
  pub title : Text
  pub headers : List Text
  pub rows : List (List Text)
  pub selected_row : ℕ
  pub selected_col : ℕ

pub table_widget_new : Text → List Text → List (List Text) → TableData
table_widget_new title headers rows = record {
  dirty = true;
  title = title;
  headers = headers;
  rows = rows;
  selected_row = 0;
  selected_col = 0;
}

-- `d->rows[row][col]`
cell : List (List Text) → ℕ → ℕ → EventResult
cell rows row col = elim (get_elem? rows row) [
  | none ↦ fault
  | some r ↦ elim (get_elem? r col) [ none ↦ fault | some c ↦ answer (string c) ]
]

table_key : TableData → KeyCode → TableData × EventResult
table_key d esc = (d, cancel)
table_key d up = (
  record d {
    selected_row = if ltb 0 d.selected_row then d.selected_row - 1 else d.selected_row;
    dirty = true;
  },
  handled,
)
table_key d down = (
  record d {
    selected_row =
        if ltb (d.selected_row + 1) (length d.rows) then d.selected_row + 1 else d.selected_row;
    dirty = true;
  },
  handled,
)
table_key d left = (
  record d {
    selected_col = if ltb 0 d.selected_col then d.selected_col - 1 else d.selected_col;
    dirty = true;
  },
  handled,
)
table_key d right = (
  record d {
    selected_col =
        if ltb (d.selected_col + 1) (length d.headers) then d.selected_col + 1 else d.selected_col;
    dirty = true;
  },
  handled,
)
table_key d enter = (
  d,
  if ltb d.selected_row (length d.rows) && ltb d.selected_col (length d.headers)
      then cell d.rows d.selected_row d.selected_col
      else handled,
)
table_key d _ = (d, unhandled)

pub table_handle_event : TableData → Event → TableData × EventResult
unfolding table_key cell
table_handle_event d ev = on_key d ev (table_key d)

-- Every row has a cell for each header, as the constructor of the widget copies them.
abbrev pub IsRectangle : TableData → Type 0
IsRectangle d = All (λ (r : List Text). length r ≡ length d.headers) d.rows

-- The cursor is on a cell, or at the first row or column of a table without any.
pub record IsInside (d : TableData) : Type 0 where
  pub in_rows : (d.selected_row < length d.rows) ⊎ (d.selected_row ≡ 0)
  pub in_cols : (d.selected_col < length d.headers) ⊎ (d.selected_col ≡ 0)

get_elem?-lt : (r : List Text) (i : ℕ) → i < length r → get_elem? r i ≢ none
get_elem?-lt [] i h = absurd (omega arith)
get_elem?-lt (c ∷ r) zero h = λ e. cc
get_elem?-lt (c ∷ r) (suc i) h = get_elem?-lt r i (omega arith)

cell-ne-fault :
    (rows : List (List Text)) (row col n : ℕ)
    → All (λ (r : List Text). length r ≡ n) rows
    → row < length rows
    → col < n
    → cell rows row col ≢ fault
unfolding cell
cell-ne-fault [] row col n a h k = absurd (omega arith)
cell-ne-fault (r ∷ rows) zero col n (a, _) h k = ground (arith, get_elem?-lt r col)
cell-ne-fault (r ∷ rows) (suc row) col n (_, a) h k = cell-ne-fault rows row col n a (omega arith) k

-- Every event keeps the cells and the cursor inside, and Enter never reads past a row.
pub table_handle_event_lem :
    (d : TableData) (ev : Event)
    → IsRectangle d
    → IsInside d
    → IsInside (table_handle_event d ev).0
      × ((table_handle_event d ev).0.rows ≡ d.rows)
      × ((table_handle_event d ev).0.headers ≡ d.headers)
      × ((table_handle_event d ev).1 ≢ fault)
unfolding table_handle_event
table_handle_event_lem d ev a v =
    ground (arith, cell-ne-fault d.rows d.selected_row d.selected_col (length d.headers) a)
