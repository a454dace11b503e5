-- ===== src/Session/Run/Fresh.antt =====
-- src/core/session.c: what is on the screen when `session_run` reads an event, for a widget that marks
-- itself dirty when it changes what it shows.
use filly.Prelude.{
  if_both, ◌&&◌, ltb, ◌+◌, ◌≡◌, true, false, Option, none, some, List, [], ◌∷◌, arith, Bool-cases,
  inl, inr, ◌∙◌, sym, ap₂, subst,
}
use filly.Prelude.Int.{ℤ, eqb_ℤ}
use filly.Undo.{UndoStack, undo_stack_undo, undo_stack_redo}
use filly.Session.{KeyOutcome, ignored, undone, redone, focus_moved, copied, pasted, delivered}
use filly.Widgets.Events.{
  Event, EventType, EventResult, event_none, event_key, event_resize, event_mouse_motion,
  event_mouse_button, event_mouse_scroll, event_mouse_drag_start, event_mouse_drag_move,
  event_mouse_drag_end, handled, unhandled, fault, response,
}
use filly.Session.Run.{
  WidgetVtable, Backend, Round, Loop, Next, continues, returns, faulted, session_resize,
  session_draw, after_store, after_event, session_deliver, paste_events, session_key, session_idle,
  session_event, session_ready, session_round, session_loop, session_start, session_run, and_then,
}

-- What the loop relies on: `view` is what a widget shows, and what a rendering draws of the state that
-- it leaves; a handler that leaves the widget clean has not changed it.
pub record IsFaithful {W F : Type 0} (vtable : WidgetVtable W F) (view : W → ℤ → ℤ → F)
    : Type 0 where
  pub render_shows :
      (w : W) (a b : ℤ)
      → (vtable.render w a b).1 ≡ view (vtable.clear_dirty (vtable.render w a b).0) a b
  pub clear_cleans : (w : W) → vtable.is_dirty (vtable.clear_dirty w) ≡ false
  pub mark_dirties : (w : W) → vtable.is_dirty (vtable.mark_dirty w) ≡ true
  pub set_area_keeps :
      (w : W) (a b : ℤ) → vtable.is_dirty (vtable.set_area w a b) ≡ vtable.is_dirty w
  pub handler_tells :
      (w : W) (ev : Event)
      → vtable.is_dirty w ≡ false
      → vtable.is_dirty (vtable.handle_event w ev).0 ≡ false
      → (a b : ℤ) → view (vtable.handle_event w ev).0 a b ≡ view w a b

module _ {W F D : Type 0} (vtable : WidgetVtable W F) (backend : Backend) (view : W → ℤ → ℤ → F)
    (faithful : IsFaithful vtable view) where
  abbrev IsFresh : Loop W F D → Type 0
  IsFresh l = vtable.is_dirty l.widget ≡ false → l.drawn ≡ view l.widget l.last_w l.last_h

  -- Clean, and shown as it is.
  abbrev IsShown : Loop W F D → Type 0
  IsShown l = (vtable.is_dirty l.widget ≡ false) × (l.drawn ≡ view l.widget l.last_w l.last_h)

  abbrev Keeps : Next W F D → Type 0
  Keeps (continues l) = IsFresh l
  Keeps _ = Unit {0}

  marked : (l : Loop W F D) → IsFresh (record l { widget = vtable.mark_dirty l.widget })
  marked l clean = ground (arith, faithful.mark_dirties l.widget)

  session_resize-IsFresh :
      (l : Loop W F D) (w h : ℤ)
      → IsFresh l
      → IsFresh (session_resize vtable backend l w h)
        × ((session_resize vtable backend l w h).last_w ≡ w)
        × ((session_resize vtable backend l w h).last_h ≡ h)
  unfolding session_resize
  session_resize-IsFresh l w h fresh = elim (Bool-cases (eqb_ℤ w l.last_w && eqb_ℤ h l.last_h)) [
    | inl same ↦ ground (arith, fresh)
    | inr other ↦ ground (
      arith,
      faithful.mark_dirties l.widget,
      faithful.set_area_keeps (vtable.mark_dirty l.widget) w h,
    )
  ]

  session_draw-IsShown : (l : Loop W F D) → IsFresh l → IsShown (session_draw vtable backend l)
  unfolding session_draw
  session_draw-IsShown l fresh = elim (Bool-cases (vtable.is_dirty l.widget)) [
    | inl e ↦ rw e (
      faithful.clear_cleans (vtable.render l.widget l.last_w l.last_h).0,
      faithful.render_shows l.widget l.last_w l.last_h,
    )
    | inr e ↦ rw e (e, fresh e)
  ]

  after_store-IsFresh :
      (l : Loop W F D) (version : Option ℤ)
      → IsFresh l
      → IsFresh (after_store vtable backend l version)
  unfolding after_store
  after_store-IsFresh l none fresh = fresh
  after_store-IsFresh l (some ver) fresh =
      if_both IsFresh (eqb_ℤ ver l.last_store_version) fresh
        (marked (record l { last_store_version = ver }))

  session_deliver-Keeps :
      (l : Loop W F D) (ev : Event) (version : Option ℤ)
      → IsShown l
      → Keeps (session_deliver vtable backend l ev version)
  unfolding session_deliver
  session_deliver-Keeps l ev version (clean, shown) = on_result (vtable.handle_event l.widget ev).1
    where
      told : IsFresh (record l { widget = (vtable.handle_event l.widget ev).0; idle_count = 0 })
      told still = shown ∙ sym (faithful.handler_tells l.widget ev clean still l.last_w l.last_h)

      on_result :
          (o : EventResult)
          → Keeps (
              after_event vtable backend
                (record l { idle_count = 0 })
                version
                ((vtable.handle_event l.widget ev).0, o))
      on_result handled = after_store-IsFresh _ version told
      on_result unhandled = after_store-IsFresh _ version told
      on_result fault = tt
      on_result (response r) = tt

  session_key-Keeps :
      (l : Loop W F D) (version : Option ℤ) (o : KeyOutcome)
      → IsShown l
      → Keeps (session_key vtable backend l version o)
  unfolding session_key
  session_key-Keeps l version ignored shown = λ _. shown.1
  session_key-Keeps l version focus_moved shown = λ _. shown.1
  session_key-Keeps l version (copied text) shown = λ _. shown.1
  session_key-Keeps l version undone shown = marked (record l {
    undo = (undo_stack_undo l.undo l.document).0;
    document = (undo_stack_undo l.undo l.document).1;
  })
  session_key-Keeps l version redone shown = marked (record l {
    undo = (undo_stack_redo l.undo l.document).0;
    document = (undo_stack_redo l.undo l.document).1;
  })
  session_key-Keeps l version (delivered ev) shown = session_deliver-Keeps l ev version shown
  session_key-Keeps l version (pasted evs) shown = on_paste (paste_events vtable l.widget evs)
    where
      on_paste :
          (o : Option W)
          → Keeps (elim o as (λ _. Next W F D) [
            | none ↦ faulted
            | some w ↦ continues (record l { widget = vtable.mark_dirty w })
          ])
      on_paste none = tt
      on_paste (some w) = marked (record l { widget = w })

  session_idle-Keeps : (l : Loop W F D) → IsShown l → Keeps (session_idle vtable backend l)
  unfolding session_idle
  session_idle-Keeps l shown =
      if_both Keeps backend.is_interactive (λ _. shown.1)
        (if_both Keeps (ltb 5000 (l.idle_count + 1)) tt (λ _. shown.1))

  session_event-Keeps :
      (l : Loop W F D) (r : Round) → IsShown l → Keeps (session_event vtable backend l r)
  unfolding session_event
  session_event-Keeps l r shown = on_type r.event.type
    where
      on_type :
          (t : EventType)
          → Keeps
              (session_event vtable backend l (record r { event = record r.event { type = t } }))
      on_type event_none = session_idle-Keeps l shown
      on_type event_resize = λ clean. shown.1
      on_type event_mouse_motion = marked l
      on_type event_mouse_button =
          if_both Keeps r.menu_press (λ _. shown.1) (session_deliver-Keeps l _ r.version shown)
      on_type event_mouse_scroll = session_deliver-Keeps l _ r.version shown
      on_type event_mouse_drag_start = marked l
      on_type event_mouse_drag_move = marked l
      on_type event_mouse_drag_end = marked l
      on_type event_key = session_key-Keeps l r.version _ shown

  session_draw-size :
      (l : Loop W F D)
      → ((session_draw vtable backend l).last_w ≡ l.last_w)
        × ((session_draw vtable backend l).last_h ≡ l.last_h)
  unfolding session_draw
  session_draw-size l = ground arith

  session_ready-IsShown :
      (l : Loop W F D) (r : Round)
      → IsFresh l
      → IsShown (session_ready vtable backend l r)
        × ((session_ready vtable backend l r).last_w ≡ r.term_w)
        × ((session_ready vtable backend l r).last_h ≡ r.term_h)
  unfolding session_ready
  session_ready-IsShown l r fresh =
      let l' = session_resize vtable backend l r.term_w r.term_h in
      let (kept, w, h) = session_resize-IsFresh l r.term_w r.term_h fresh in
      (session_draw-IsShown l' kept, (session_draw-size l').0 ∙ w, (session_draw-size l').1 ∙ h)

  and_then-Keeps :
      (n : Next W F D) (k : Loop W F D → Next W F D)
      → Keeps n
      → ((l : Loop W F D) → IsFresh l → Keeps (k l))
      → Keeps (and_then n k)
  and_then-Keeps (continues l) k kept next = next l kept
  and_then-Keeps (returns resp) k kept next = tt
  and_then-Keeps faulted k kept next = tt

  session_loop-Keeps :
      (rs : List Round) (l : Loop W F D) → IsFresh l → Keeps (session_loop vtable backend l rs)
  unfolding session_loop session_round
  session_loop-Keeps [] l fresh = fresh
  session_loop-Keeps (r ∷ rs) l fresh =
      and_then-Keeps (session_event vtable backend (session_ready vtable backend l r) r)
        (λ l'. session_loop vtable backend l' rs)
        (session_event-Keeps _ r (session_ready-IsShown l r fresh).0)
        (λ l' kept. session_loop-Keeps rs l' kept)

-- A widget whose handler marks it dirty when it changes what it shows, and whose rendering draws what
-- it then shows, is up to date on the screen whenever the session reads an event: after any rounds after
-- which the session goes on, once the next round has resized and drawn, what was drawn last is what the
-- widget shows in its present state at the size that the backend reports.
pub session_run_fresh :
    {W F D : Type 0} (vtable : WidgetVtable W F) (backend : Backend) (view : W → ℤ → ℤ → F)
    → IsFaithful vtable view
    → (w : W) (undo : UndoStack D) (document : D) (term_w term_h : ℤ) (rs : List Round)
      (l : Loop W F D) (r : Round)
    → session_run vtable backend w undo document term_w term_h rs ≡ continues l
    → (session_ready vtable backend l r).drawn
      ≡ view (session_ready vtable backend l r).widget r.term_w r.term_h
unfolding session_run session_start
session_run_fresh vtable backend view faithful w undo document term_w term_h rs l r e =
    let kept =
      session_loop-Keeps vtable backend view faithful rs
        (session_start vtable backend w undo document term_w term_h)
        (λ _. faithful.render_shows (vtable.set_area w term_w term_h) term_w term_h) in
    let fresh = subst (Keeps vtable backend view faithful) e kept in
    let (shown, w', h') = session_ready-IsShown vtable backend view faithful l r fresh in
    shown.1 ∙ ap₂ (view (session_ready vtable backend l r).widget) w' h'
