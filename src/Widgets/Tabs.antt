-- ===== src/Widgets/Tabs.antt =====
-- src/core/widgets/tabs.c: widgets behind tabs, of which one is active. The children are an interface, that
-- of src/core/session.c to its widget.
pub mod Stale
use filly.Prelude.{
  ℕ, suc, ◌+◌, ◌-◌, ◌≤◌, ◌<◌, ◌≡◌, ◌≢◌, ◌⊎◌, inl, inr, refl, Bool, true, false, ◌&&◌, Option, none,
  some, List, [], ◌∷◌, Text, ltb, if◌then◌else◌, length, get_elem?, set, arith, length-set,
}
use filly.Prelude.Int.{ℤ}
use filly.Widgets.Events.{
  KeyCode, Event, EventType, EventResult, event_key, handled, unhandled, left, right,
}
use filly.Session.Run.{WidgetVtable}

-- `TabsData`; `child_count` is the length of `children`.
pub record TabsData (W : Type 0) : Type 0 where
  pub dirty : Bool
  pub tab_count : ℕ
  pub active : ℕ
  pub children : List W

pub tabs_widget_new : {W : Type 0} → ℕ → List W → TabsData W
tabs_widget_new tab_count children = record {
  dirty = true;
  tab_count = tab_count;
  active = 0;
  children = children;
}

abbrev pub is_left : KeyCode → Bool
is_left left = true
is_left _ = false

abbrev pub is_right : KeyCode → Bool
is_right right = true
is_right _ = false

abbrev pub is_key : EventType → Bool
is_key event_key = true
is_key _ = false

module _ {W F : Type 0} (vtable : WidgetVtable W F) where
  -- The last lines: the event goes to the active child, if there is one.
  unfoldable pub pass_on : TabsData W → Event → TabsData W × EventResult
  pass_on d ev = elim (get_elem? d.children d.active) [
    | none ↦ (d, unhandled)
    | some child ↦ (
      record d { children = set d.children d.active (vtable.handle_event child ev).0 },
      (vtable.handle_event child ev).1,
    )
  ]

  unfoldable pub tabs_handle_event : TabsData W → Event → TabsData W × EventResult
  unfolding pass_on
  tabs_handle_event d ev =
      if is_key ev.type && (is_left ev.code && ltb 0 d.active)
      then (record d { active = d.active - 1; dirty = true }, handled)
      else if is_key ev.type && (is_right ev.code && ltb (d.active + 1) d.tab_count)
      then (record d { active = d.active + 1; dirty = true }, handled)
      else pass_on d ev

  -- The active tab, and the active child as it is drawn, if there is one.
  unfoldable pub tabs_render : TabsData W → ℤ → ℤ → TabsData W × (ℕ × Option F)
  tabs_render d a b = elim (get_elem? d.children d.active) [
    | none ↦ (d, (d.active, none))
    | some child ↦ (
      record d { children = set d.children d.active (vtable.render child a b).0 },
      (d.active, some (vtable.render child a b).1),
    )
  ]

  abbrev pub tabs_vtable : WidgetVtable (TabsData W) (ℕ × Option F)
  tabs_vtable = record {
    render = tabs_render;
    handle_event = tabs_handle_event;
    is_dirty = λ d. d.dirty;
    clear_dirty = λ d. record d { dirty = false };
    mark_dirty = λ d. record d { dirty = true };
    set_area = λ d a b. d;
    accepts_text_input = λ d. false;
  }
