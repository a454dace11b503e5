-- ===== src/Widgets/Menu.antt =====
-- src/core/widgets/menu.c and radio_group.c: one choice of a list.
use filly.Prelude.{
  ℕ, zero, suc, ◌+◌, ◌-◌, ◌<◌, ◌≡◌, ◌⊎◌, inl, inr, refl, Bool, true, false, Option, none, some,
  List, [], ◌∷◌, Text, ltb, arith, length, get_elem?, if◌then◌else◌, ◌&&◌, subst, sym,
}
use filly.Prelude.Int.{ℤ, pos, pos_part, leb_ℤ, ltb_ℤ}
use filly.Widgets.Events.{
  KeyCode, Event, EventType, EventResult, string, handled, unhandled, fault, response, cancel,
  answer, on_key, esc, up, down, enter, event_key, press,
}

-- `MenuData`, and `RadioGroupData`, which has the same fields; `count` is the length of `choices`.
pub record MenuData : Type 0 where
  pub dirty : Bool
  pub title : Option Text
  pub message : Option Text
  pub choices : List Text
  pub selected : ℕ

-- `menu_widget_new` and `radio_group_widget_new`.
unfoldable pub menu_widget_new : Option Text → Option Text → List Text → ℤ → MenuData
menu_widget_new title message choices def = record {
  dirty = true;
  title = title;
  message = message;
  choices = choices;
  selected = if leb_ℤ (pos 0) def && ltb_ℤ def (pos (length choices)) then pos_part def else 0;
}

-- `cJSON_CreateString(d->choices[d->selected])`
choose : MenuData → EventResult
choose d = elim (get_elem? d.choices d.selected) [ some c ↦ answer (string c) | none ↦ fault ]

menu_key : MenuData → KeyCode → MenuData × EventResult
unfolding choose
menu_key d esc = (d, cancel)
menu_key d up =
    (if ltb 0 d.selected then record d { selected = d.selected - 1; dirty = true } else d, handled)
menu_key d down = (
  if ltb (d.selected + 1) (length d.choices)
      then record d { selected = d.selected + 1; dirty = true }
      else d,
  handled,
)
menu_key d enter = (d, choose d)
menu_key d _ = (d, unhandled)

unfoldable pub menu_handle_event : MenuData → Event → MenuData × EventResult
unfolding menu_key
menu_handle_event d ev = on_key d ev (menu_key d)

-- `radio_group_handle_event` is the same code over `RadioGroupData`.
pub radio_group_handle_event : MenuData → Event → MenuData × EventResult
unfolding menu_key
radio_group_handle_event d ev = on_key d ev (menu_key d)

-- One result of `handle_event` in the loop of `session_run`: a response ends it.
abbrev step : MenuData → EventResult → MenuData × EventResult → MenuData × EventResult
step d (response r) rest = (d, response r)
step d fault rest = (d, fault)
step d _ rest = rest

-- The events in turn until a response, with the last result.
pub run : MenuData → List Event → MenuData × EventResult
run d [] = (d, handled)
run d (ev ∷ evs) =
    step (menu_handle_event d ev).0 (menu_handle_event d ev).1 (run (menu_handle_event d ev).0 evs)

get_elem?-some : (cs : List Text) (i : ℕ) → i < length cs → (c : Text) × (get_elem? cs i ≡ some c)
get_elem?-some [] i h = absurd (omega arith)
get_elem?-some (c ∷ cs) zero h = (c, refl)
get_elem?-some (c ∷ cs) (suc i) h = get_elem?-some cs i (omega arith)

abbrev pub IsInRange : MenuData → Type 0
IsInRange d = d.selected < length d.choices

-- A result that the caller may get: no fault, and a response is a cancellation without a value or
-- one of the choices.
abbrev pub Answers : List Text → EventResult → Type 0
Answers cs handled = Unit {0}
Answers cs unhandled = Unit {0}
Answers cs fault = ⊥
Answers cs (response r) =
    ((r.cancelled ≡ true) × (r.result ≡ none))
    ⊎ ((r.cancelled ≡ false)
        × ((i : ℕ) × (c : Text) × (get_elem? cs i ≡ some c) × (r.result ≡ some (string c))))

choose-Answers :
    (d : MenuData) (c : Text)
    → get_elem? d.choices d.selected ≡ some c
    → Answers d.choices (choose d)
unfolding choose
choose-Answers d c e = subst (Answers d.choices) (sym chosen) (inr (refl, (d.selected, c, e, refl)))
  where
    chosen : choose d ≡ answer (string c)
    chosen = ground arith

menu_key_lem :
    (d : MenuData) (k : KeyCode)
    → IsInRange d
    → IsInRange (menu_key d k).0
      × ((menu_key d k).0.choices ≡ d.choices)
      × Answers d.choices (menu_key d k).1
unfolding menu_key
menu_key_lem d esc h = (h, refl, inl (refl, refl))
menu_key_lem d enter h =
    let (c, e) = get_elem?-some d.choices d.selected h in (h, refl, choose-Answers d c e)
menu_key_lem d up h = (ground arith, ground arith, tt)
menu_key_lem d down h = (ground arith, ground arith, tt)
menu_key_lem d _ h = (h, refl, tt)

pub menu_handle_event_lem :
    (d : MenuData) (ev : Event)
    → IsInRange d
    → IsInRange (menu_handle_event d ev).0
      × ((menu_handle_event d ev).0.choices ≡ d.choices)
      × Answers d.choices (menu_handle_event d ev).1
unfolding menu_handle_event
menu_handle_event_lem d ev h = on_type ev.type
  where
    on_type :
        (t : EventType)
        → IsInRange (menu_handle_event d (record ev { type = t })).0
          × ((menu_handle_event d (record ev { type = t })).0.choices ≡ d.choices)
          × Answers d.choices (menu_handle_event d (record ev { type = t })).1
    on_type event_key = menu_key_lem d ev.code h
    on_type _ = (h, refl, tt)

run-Answers : (evs : List Event) (d : MenuData) → IsInRange d → Answers d.choices (run d evs).1
unfolding run
run-Answers [] d h = tt
run-Answers (ev ∷ evs) d h =
    let (r, e, a) = menu_handle_event_lem d ev h in
    after (menu_handle_event d ev).1 a (rw e at (run-Answers evs (menu_handle_event d ev).0 r))
  where
    after :
        (o : EventResult)
        → Answers d.choices o
        → Answers d.choices (run (menu_handle_event d ev).0 evs).1
        → Answers d.choices
            (step (menu_handle_event d ev).0 o (run (menu_handle_event d ev).0 evs)).1
    after handled a b = b
    after unhandled a b = b
    after fault a b = a
    after (response r) a b = a

-- A menu with at least one choice, opened with any default and driven by any events, never reads
-- past its choices; if it answers, it was cancelled, or the answer is one of the choices.
pub menu_run :
    (title message : Option Text) (c : Text) (cs : List Text) (def : ℤ) (evs : List Event)
    → Answers (c ∷ cs) (run (menu_widget_new title message (c ∷ cs) def) evs).1
unfolding menu_widget_new
menu_run title message c cs def evs =
    run-Answers evs (menu_widget_new title message (c ∷ cs) def) (ground arith)

-- With no choices, Enter reads past the array.
pub menu_empty :
    (title message : Option Text) (def : ℤ) (ch : ℕ)
    → (menu_handle_event (menu_widget_new title message [] def) (press enter ch)).1 ≡ fault
unfolding menu_handle_event menu_widget_new choose
menu_empty title message def ch = ground arith

-- The radio group behaves as the menu does.
pub radio_group-menu :
    (d : MenuData) (ev : Event) → radio_group_handle_event d ev ≡ menu_handle_event d ev
unfolding radio_group_handle_event menu_handle_event
radio_group-menu d ev = refl

menu_key_tells :
    (d : MenuData) (k : KeyCode)
    → d.dirty ≡ false
    → (menu_key d k).0.dirty ≡ false
    → (menu_key d k).0 ≡ d
unfolding menu_key
menu_key_tells d esc clean still = refl
menu_key_tells d up clean still = ground arith
menu_key_tells d down clean still = ground arith
menu_key_tells d enter clean still = refl
menu_key_tells d _ clean still = refl

-- An event that leaves a clean menu clean changes nothing of it.
pub menu_handle_event_tells :
    (d : MenuData) (ev : Event)
    → d.dirty ≡ false
    → (menu_handle_event d ev).0.dirty ≡ false
    → (menu_handle_event d ev).0 ≡ d
unfolding menu_handle_event
menu_handle_event_tells d ev clean = on_type ev.type
  where
    on_type :
        (t : EventType)
        → (menu_handle_event d (record ev { type = t })).0.dirty ≡ false
        → (menu_handle_event d (record ev { type = t })).0 ≡ d
    on_type event_key = menu_key_tells d ev.code clean
    on_type _ = λ _. refl

pub menu_widget_new-IsInRange :
    (title message : Option Text) (c : Text) (cs : List Text) (def : ℤ)
    → ((menu_widget_new title message (c ∷ cs) def).choices ≡ c ∷ cs)
      × IsInRange (menu_widget_new title message (c ∷ cs) def)
unfolding menu_widget_new
menu_widget_new-IsInRange title message c cs def = (refl, ground arith)
