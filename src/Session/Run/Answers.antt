-- ===== src/Session/Run/Answers.antt =====
-- src/core/session.c: where the response of `session_run` comes from, and when it times out.
use filly.Prelude.{
  ◌+◌, ◌≡◌, ◌⊎◌, inl, inr, Bool, true, false, Option, none, some, List, [], ◌∷◌, refl, if_both, ltb,
  if◌then◌else◌,
}
use filly.Prelude.Int.{ℤ, eqb_ℤ}
use filly.Undo.{UndoStack}
use filly.Session.{KeyOutcome, ignored, undone, redone, focus_moved, copied, pasted, delivered}
use filly.Widgets.Events.{
  Event, EventType, EventResult, event_none, event_key, event_resize, event_mouse_motion,
  event_mouse_button, event_mouse_scroll, event_mouse_drag_start, event_mouse_drag_move,
  event_mouse_drag_end, handled, unhandled, fault, response,
}
use filly.Session.Run.{
  WidgetVtable, Backend, Round, Loop, Next, continues, returns, faulted, and_then, timeout,
  session_resize, session_draw, after_store, after_event, session_deliver, paste_events,
  session_key, session_idle, session_event, session_ready, session_round, session_loop,
  session_start, session_run,
}

-- The states that a session may bring a widget to: it calls the handler, renders, and writes the
-- widget's `dirty` and `render_area`.
pub data Reaches {W F : Type 0} (vtable : WidgetVtable W F) (w₀ : W) : W → Type 0 where
  here : Reaches vtable w₀ w₀
  handles :
      {w : W} (ev : Event) → Reaches vtable w₀ w → Reaches vtable w₀ (vtable.handle_event w ev).0
  renders : {w : W} (a b : ℤ) → Reaches vtable w₀ w → Reaches vtable w₀ (vtable.render w a b).0
  cleans : {w : W} → Reaches vtable w₀ w → Reaches vtable w₀ (vtable.clear_dirty w)
  marks : {w : W} → Reaches vtable w₀ w → Reaches vtable w₀ (vtable.mark_dirty w)
  places : {w : W} (a b : ℤ) → Reaches vtable w₀ w → Reaches vtable w₀ (vtable.set_area w a b)

-- The handler gives this result, in a state that the session may reach.
abbrev pub Gives : {W F : Type 0} → WidgetVtable W F → W → EventResult → Type 0
Gives {W} vtable w₀ o =
    (w : W) × (ev : Event) × Reaches vtable w₀ w × ((vtable.handle_event w ev).1 ≡ o)

-- An end of the loop: the time is up, or it is the widget's.
abbrev pub Ends : {W F D : Type 0} → WidgetVtable W F → Backend → W → Next W F D → Type 0
Ends vtable backend w₀ (continues l) = Reaches vtable w₀ l.widget
Ends vtable backend w₀ (returns resp) =
    ((resp ≡ timeout) × (backend.is_interactive ≡ false)) ⊎ Gives vtable w₀ (response resp)
Ends vtable backend w₀ faulted = Gives vtable w₀ fault

module _ {W F : Type 0} (vtable : WidgetVtable W F) (w₀ : W) where
  abbrev Pastes : Option W → Type 0
  Pastes none = Gives vtable w₀ fault
  Pastes (some w) = Reaches vtable w₀ w

  after_key :
      (o : EventResult) (rest : Option W)
      → Gives vtable w₀ o
      → Pastes rest
      → Pastes (elim o as (λ _. Option W) [ fault ↦ none | _ ↦ rest ])
  after_key fault rest g p = g
  after_key handled rest g p = p
  after_key unhandled rest g p = p
  after_key (response r) rest g p = p

  paste_events-Pastes :
      (evs : List Event) (w : W) → Reaches vtable w₀ w → Pastes (paste_events vtable w evs)
  unfolding paste_events
  paste_events-Pastes [] w h = h
  paste_events-Pastes (ev ∷ evs) w h =
      after_key (vtable.handle_event w ev).1 (paste_events vtable (vtable.handle_event w ev).0 evs)
        (w, ev, h, refl) (paste_events-Pastes evs (vtable.handle_event w ev).0 (handles ev h))

module _ {W F D : Type 0} (vtable : WidgetVtable W F) (backend : Backend) (w₀ : W) where
  session_resize-Reaches :
      (l : Loop W F D) (a b : ℤ)
      → Reaches vtable w₀ l.widget
      → Reaches vtable w₀ (session_resize vtable backend l a b).widget
  unfolding session_resize
  session_resize-Reaches l a b h =
      if_both (λ (l' : Loop W F D). Reaches vtable w₀ l'.widget) _ (places a b (marks h)) h

  session_draw-Reaches :
      (l : Loop W F D)
      → Reaches vtable w₀ l.widget
      → Reaches vtable w₀ (session_draw vtable backend l).widget
  unfolding session_draw
  session_draw-Reaches l h =
      if_both (λ (l' : Loop W F D). Reaches vtable w₀ l'.widget) _
        (cleans (renders l.last_w l.last_h h)) h

  after_store-Reaches :
      (l : Loop W F D) (version : Option ℤ)
      → Reaches vtable w₀ l.widget
      → Reaches vtable w₀ (after_store vtable backend l version).widget
  unfolding after_store
  after_store-Reaches l none h = h
  after_store-Reaches l (some ver) h =
      if_both (λ (l' : Loop W F D). Reaches vtable w₀ l'.widget) (eqb_ℤ ver l.last_store_version) h
        (marks h)

  after_event-Ends :
      (l : Loop W F D) (version : Option ℤ) (w : W) (o : EventResult)
      → Reaches vtable w₀ w
      → Gives vtable w₀ o
      → Ends vtable backend w₀ (after_event vtable backend l version (w, o))
  unfolding after_event
  after_event-Ends l version w handled h g = after_store-Reaches (record l { widget = w }) version h
  after_event-Ends l version w unhandled h g =
      after_store-Reaches (record l { widget = w }) version h
  after_event-Ends l version w fault h g = g
  after_event-Ends l version w (response r) h g = inr g

  session_deliver-Ends :
      (l : Loop W F D) (ev : Event) (version : Option ℤ)
      → Reaches vtable w₀ l.widget
      → Ends vtable backend w₀ (session_deliver vtable backend l ev version)
  unfolding session_deliver
  session_deliver-Ends l ev version h =
      after_event-Ends (record l { idle_count = 0 }) version (vtable.handle_event l.widget ev).0
        (vtable.handle_event l.widget ev).1 (handles ev h) (l.widget, ev, h, refl)

  session_key-Ends :
      (l : Loop W F D) (version : Option ℤ) (o : KeyOutcome)
      → Reaches vtable w₀ l.widget
      → Ends vtable backend w₀ (session_key vtable backend l version o)
  unfolding session_key
  session_key-Ends l version ignored h = h
  session_key-Ends l version focus_moved h = h
  session_key-Ends l version (copied text) h = h
  session_key-Ends l version undone h = marks h
  session_key-Ends l version redone h = marks h
  session_key-Ends l version (delivered ev) h = session_deliver-Ends l ev version h
  session_key-Ends l version (pasted evs) h =
      on_paste (paste_events vtable l.widget evs) (paste_events-Pastes vtable w₀ evs l.widget h)
    where
      on_paste :
          (o : Option W)
          → Pastes vtable w₀ o
          → Ends vtable backend w₀ (elim o as (λ _. Next W F D) [
            | none ↦ faulted
            | some w ↦ continues (record l { widget = vtable.mark_dirty w })
          ])
      on_paste none p = p
      on_paste (some w) p = marks p

  session_idle-Ends :
      (l : Loop W F D)
      → Reaches vtable w₀ l.widget
      → Ends vtable backend w₀ (session_idle vtable backend l)
  unfolding session_idle
  session_idle-Ends l h = idles backend.is_interactive refl
    where
      idles :
          (interactive : Bool)
          → backend.is_interactive ≡ interactive
          → Ends vtable backend w₀ (
              if interactive
              then continues l
              else if ltb 5000 (l.idle_count + 1)
              then returns timeout
              else continues (record l { idle_count = l.idle_count + 1 }))
      idles true e = h
      idles false e =
          if_both (Ends vtable backend w₀) (ltb 5000 (l.idle_count + 1)) (inl (refl, e)) h

  session_event-Ends :
      (l : Loop W F D) (r : Round)
      → Reaches vtable w₀ l.widget
      → Ends vtable backend w₀ (session_event vtable backend l r)
  unfolding session_event
  session_event-Ends l r h = on_type r.event.type
    where
      on_type :
          (t : EventType)
          → Ends vtable backend w₀
              (session_event vtable backend l (record r { event = record r.event { type = t } }))
      on_type event_none = session_idle-Ends l h
      on_type event_resize = h
      on_type event_mouse_motion = marks h
      on_type event_mouse_button =
          if_both (Ends vtable backend w₀) r.menu_press h (session_deliver-Ends l _ r.version h)
      on_type event_mouse_scroll = session_deliver-Ends l _ r.version h
      on_type event_mouse_drag_start = marks h
      on_type event_mouse_drag_move = marks h
      on_type event_mouse_drag_end = marks h
      on_type event_key = session_key-Ends l r.version _ h

  and_then-Ends :
      (n : Next W F D) (k : Loop W F D → Next W F D)
      → Ends vtable backend w₀ n
      → ((l : Loop W F D) → Reaches vtable w₀ l.widget → Ends vtable backend w₀ (k l))
      → Ends vtable backend w₀ (and_then n k)
  and_then-Ends (continues l) k h next = next l h
  and_then-Ends (returns resp) k h next = h
  and_then-Ends faulted k h next = h

  session_loop-Ends :
      (rs : List Round) (l : Loop W F D)
      → Reaches vtable w₀ l.widget
      → Ends vtable backend w₀ (session_loop vtable backend l rs)
  unfolding session_loop session_round session_ready
  session_loop-Ends [] l h = h
  session_loop-Ends (r ∷ rs) l h =
      and_then-Ends (session_round vtable backend l r) (λ l'. session_loop vtable backend l' rs)
        (session_event-Ends _ r
          (session_draw-Reaches _ (session_resize-Reaches l r.term_w r.term_h h)))
        (λ l' h'. session_loop-Ends rs l' h')

-- However the rounds go, a session that returns gives the widget's response to an event, in a state
-- that the calls of the session bring the widget to, or has timed out on a backend that is not
-- interactive; a fault is the handler's, in such a state; and a session that goes on has its widget in
-- such a state.
pub session_run-Ends :
    {W F D : Type 0} (vtable : WidgetVtable W F) (backend : Backend) (w : W) (undo : UndoStack D)
    (document : D) (term_w term_h : ℤ) (rs : List Round)
    → Ends vtable backend w (session_run vtable backend w undo document term_w term_h rs)
unfolding session_run session_start
session_run-Ends vtable backend w undo document term_w term_h rs =
    session_loop-Ends vtable backend w rs
      (session_start vtable backend w undo document term_w term_h)
      (cleans (renders term_w term_h (places term_w term_h here)))
