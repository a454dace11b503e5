-- ===== src/Widgets/Filter.antt =====
-- src/core/widgets/filter.c: the choices that contain what is typed. Bytes above 127 have no case.
pub mod Matching
pub mod Answer
use filly.Prelude.{
  ℕ, zero, suc, ◌+◌, ◌-◌, Bool, true, false, not, ◌&&◌, ◌||◌, Option, none, some, List, [], ◌∷◌,
  ◌++◌, map, Text, ltb, leb, ◌==◌, if◌then◌else◌, length, get_elem?, take,
}
use filly.CJson.{lower}
use filly.Widgets.Events.{
  KeyCode, Event, EventResult, string, handled, unhandled, fault, cancel, answer, on_key, esc, up,
  down, enter, char, backspace,
}

-- `FilterData`, less what only the rendering reads; `count` and `filtered_count` are the lengths.
pub record FilterData : Type 0 where
  pub dirty : Bool
  pub choices : List Text
  pub query : Text
  pub filtered : List ℕ
  pub selected : ℕ

pub filter_widget_new : List Text → FilterData
filter_widget_new choices = record {
  dirty = true;
  choices = choices;
  query = [];
  filtered = [];
  selected = 0;
}

-- `strstr(text, word) != NULL`
starts_with : Text → Text → Bool
starts_with text [] = true
starts_with [] (c ∷ word) = false
starts_with (t ∷ text) (c ∷ word) =
    let rest = starts_with text word in if t == c then rest else false

has_word : Text → Text → Bool
unfolding starts_with
has_word [] word = starts_with [] word
has_word (t ∷ text) word =
    let rest = has_word text word in if starts_with (t ∷ text) word then true else rest

-- `filtered[i] = i` for each choice, from `i` on.
pub all_from : ℕ → List Text → List ℕ
all_from i [] = []
all_from i (c ∷ cs) = i ∷ all_from (i + 1) cs

-- The choices from `i` on that hold the word.
pub matches_from : ℕ → Text → List Text → List ℕ
unfolding has_word
matches_from i word [] = []
matches_from i word (c ∷ cs) =
    if has_word (map lower c) word
    then i ∷ matches_from (i + 1) word cs
    else matches_from (i + 1) word cs

-- The last lines: a selection behind the end goes to the last choice that is left.
clamp_selected : FilterData → FilterData
clamp_selected d =
    if leb (length d.filtered) d.selected
    then record d { selected = if ltb 0 (length d.filtered) then length d.filtered - 1 else 0 }
    else d

-- `filter_render` calls it first.
pub filter_update : FilterData → FilterData
unfolding all_from matches_from clamp_selected
filter_update d =
    if length d.query == 0
    then clamp_selected (record d { filtered = all_from 0 d.choices })
    else clamp_selected (record d { filtered = matches_from 0 (map lower d.query) d.choices })

-- `d->choices[d->filtered[d->selected]]`
choose : FilterData → EventResult
choose d = elim (get_elem? d.filtered d.selected) [
  | none ↦ fault
  | some i ↦ elim (get_elem? d.choices i) [ none ↦ fault | some c ↦ answer (string c) ]
]

-- A NUL that is typed leaves the query as it was, with its own NUL in front.
type_char : FilterData → ℕ → FilterData
type_char d ch = record d {
  query = if ltb 0 ch then d.query ++ ch ∷ [] else d.query;
  selected = 0;
  dirty = true;
}

filter_key : FilterData → KeyCode → ℕ → FilterData × EventResult
unfolding choose type_char
filter_key d esc ch = (d, cancel)
filter_key d up ch =
    (if ltb 0 d.selected then record d { selected = d.selected - 1; dirty = true } else d, handled)
filter_key d down ch = (
  if ltb (d.selected + 1) (length d.filtered)
      then record d { selected = d.selected + 1; dirty = true }
      else d,
  handled,
)
filter_key d enter ch = (
  d,
  if ltb 0 (length d.filtered) && ltb d.selected (length d.filtered) then choose d else handled,
)
filter_key d char ch = (type_char d ch, handled)
filter_key d backspace ch = (
  if ltb 0 (length d.query)
      then record d { query = take (length d.query - 1) d.query; selected = 0; dirty = true }
      else d,
  handled,
)
filter_key d _ ch = (d, unhandled)

pub filter_handle_event : FilterData → Event → FilterData × EventResult
unfolding filter_key
filter_handle_event d ev = on_key d ev (λ code. filter_key d code ev.ch)
