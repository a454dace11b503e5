-- ===== src/Widgets/Checklist.antt =====
-- src/core/widgets/checklist.c: any choices of a list, within two limits.
use filly.Prelude.{
  ℕ, zero, suc, ◌+◌, ◌-◌, ◌≤◌, ◌<◌, ◌≡◌, ◌≢◌, ◌⊎◌, Bool, true, false, ◌||◌, ◌&&◌, none, some, List,
  [], ◌∷◌, Text, text_eq, ltb, leb, ◌==◌, arith, length, get_elem?, set, if◌then◌else◌, map,
  length-set,
}
use filly.Prelude.Int.{ℤ, pos, pos_part, leb_ℤ, ltb_ℤ, ◌≤ℤ◌}
use filly.Widgets.Events.{
  KeyCode, Event, EventResult, array, handled, unhandled, fault, response, cancel, answer, on_key,
  esc, up, down, enter, char,
}

-- `ChecklistData`; `count` is the length of `choices`.
pub record ChecklistData : Type 0 where
  pub dirty : Bool
  pub choices : List Text
  pub checked : List Bool
  pub selected : ℕ
  pub min_sel : ℤ
  pub max_sel : ℕ

is_default : List Text → Text → Bool
is_default [] c = false
is_default (x ∷ xs) c = text_eq c x || is_default xs c

-- The title and the message, which no handler reads, are left out.
pub checklist_widget_new : List Text → ℤ → ℤ → List Text → ChecklistData
checklist_widget_new choices min_sel max_sel default_choices = record {
  dirty = true;
  choices = choices;
  checked = map (is_default default_choices) choices;
  selected = 0;
  min_sel = min_sel;
  max_sel = if ltb_ℤ (pos 0) max_sel then pos_part max_sel else length choices;
}

-- `for (…) if (d->checked[i]) cc++;`
abbrev pub count_checked : List Bool → ℕ
count_checked [] = 0
count_checked (b ∷ bs) = (if b then 1 else 0) + count_checked bs

-- The choices that the loop under `KEY_ENTER` adds to the array.
abbrev pub picked : List Text → List Bool → List Text
picked [] bs = []
picked (c ∷ cs) [] = []
picked (c ∷ cs) (b ∷ bs) = if b then c ∷ picked cs bs else picked cs bs

-- The space bar: a box is unchecked above the minimum and checked below the maximum.
pub toggle : ChecklistData → ChecklistData × EventResult
toggle d =
    let cc = count_checked d.checked in
    elim (get_elem? d.checked d.selected) [
      | none ↦ (d, fault)
      | some true ↦ (
        record d {
          checked = if ltb_ℤ d.min_sel (pos cc) then set d.checked d.selected false else d.checked;
          dirty = true;
        },
        handled,
      )
      | some false ↦ (
        record d {
          checked = if ltb cc d.max_sel then set d.checked d.selected true else d.checked;
          dirty = true;
        },
        handled,
      )
    ]

checklist_key : ChecklistData → ℕ → KeyCode → ChecklistData × EventResult
checklist_key d ch esc = (d, cancel)
checklist_key d ch up =
    (if ltb 0 d.selected then record d { selected = d.selected - 1; dirty = true } else d, handled)
checklist_key d ch down = (
  if ltb (d.selected + 1) (length d.choices)
      then record d { selected = d.selected + 1; dirty = true }
      else d,
  handled,
)
checklist_key d ch char = if ch == b' ' then toggle d else (d, handled)
checklist_key d ch enter =
    let cc = count_checked d.checked in
    (
      d,
      if leb_ℤ d.min_sel (pos cc) && leb cc d.max_sel
          then answer (array (picked d.choices d.checked))
          else handled,
    )
checklist_key d ch _ = (d, unhandled)

unfoldable pub checklist_handle_event : ChecklistData → Event → ChecklistData × EventResult
unfolding checklist_key
checklist_handle_event d ev = on_key d ev (checklist_key d ev.ch)

-- A box for each choice, the cursor on one of them, and no more boxes checked than allowed.
pub record IsValid (d : ChecklistData) : Type 0 where
  pub boxes : length d.checked ≡ length d.choices
  pub inside : d.selected < length d.choices
  pub limited : count_checked d.checked ≤ d.max_sel

count_checked-set :
    (bs : List Bool) (i : ℕ) (b : Bool) {o : Bool}
    → get_elem? bs i ≡ some o
    → count_checked (set bs i b) + (if o then 1 else 0) ≡ count_checked bs + (if b then 1 else 0)
count_checked-set [] i b h = cc
count_checked-set (x ∷ bs) zero b h = ground arith
count_checked-set (x ∷ bs) (suc i) b h = omega (arith, count_checked-set bs i b h)

get_elem?-lt : (bs : List Bool) (i : ℕ) → i < length bs → get_elem? bs i ≢ none
get_elem?-lt [] i h = absurd (omega arith)
get_elem?-lt (b ∷ bs) zero h = λ e. cc
get_elem?-lt (b ∷ bs) (suc i) h = get_elem?-lt bs i (omega arith)

-- What every result keeps: the choices and the limits, and validity; no box is unchecked but above
-- the minimum; and there is no fault.
pub record Keeps (d d' : ChecklistData) (o : EventResult) : Type 0 where
  pub valid : IsValid d'
  pub choices : d'.choices ≡ d.choices
  pub min_sel : d'.min_sel ≡ d.min_sel
  pub max_sel : d'.max_sel ≡ d.max_sel
  pub reached :
      (count_checked d.checked ≤ count_checked d'.checked)
      ⊎ (d.min_sel ≤ℤ pos (count_checked d'.checked))
  pub no_fault : o ≢ fault

toggle-Keeps : (d : ChecklistData) → IsValid d → Keeps d (toggle d).0 (toggle d).1
unfolding toggle
toggle-Keeps d v = ground (
  arith,
  get_elem?-lt d.checked d.selected,
  count_checked-set d.checked d.selected true {o = false},
  count_checked-set d.checked d.selected false {o = true},
  length-set d.checked d.selected true,
  length-set d.checked d.selected false,
)

checklist_key-Keeps :
    (d : ChecklistData) (ch : ℕ) (k : KeyCode)
    → IsValid d
    → Keeps d (checklist_key d ch k).0 (checklist_key d ch k).1
unfolding checklist_key
checklist_key-Keeps d ch char v = ground (arith, toggle-Keeps d v)
checklist_key-Keeps d ch up v = ground arith
checklist_key-Keeps d ch down v = ground arith
checklist_key-Keeps d ch _ v = ground arith

-- From a valid widget every event leads to a valid one with the same choices and limits, unchecks
-- a box only if the minimum is still reached, and does not read past the boxes.
pub checklist_handle_event-Keeps :
    (d : ChecklistData) (ev : Event)
    → IsValid d
    → Keeps d (checklist_handle_event d ev).0 (checklist_handle_event d ev).1
unfolding checklist_handle_event
checklist_handle_event-Keeps d ev v = ground (arith, checklist_key-Keeps d ev.ch ev.code v)

-- The choices whose boxes are checked, in their order.
pub data Picks : List Text → List Bool → List Text → Type 0 where
  no_more : Picks [] [] []
  take_it :
      {c : Text} {cs xs : List Text} {bs : List Bool}
      → Picks cs bs xs
      → Picks (c ∷ cs) (true ∷ bs) (c ∷ xs)
  pass_by :
      {c : Text} {cs xs : List Text} {bs : List Bool}
      → Picks cs bs xs
      → Picks (c ∷ cs) (false ∷ bs) xs

abbrev pub InLimits : ChecklistData → List Text → Type 0
InLimits d cs = (d.min_sel ≤ℤ pos (length cs)) × (length cs ≤ d.max_sel)

-- A result that is no answer.
is_silent : EventResult → Bool
is_silent (response r) = r.cancelled
is_silent _ = true
