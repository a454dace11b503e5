-- ===== src/Session/Run.antt =====
-- src/core/session.c: `session_run`. The widget is an interface, a round of the loop gets from outside
-- what its calls of the backend, the store and the clipboard return. As `last_render_tree` stays null,
-- no mouse event and no Tab finds a node, and no tooltip shows. Time, which waits and animations read,
-- is left out.
pub mod Fresh
pub mod Answers
pub mod Menus
pub mod Idle
use filly.Prelude.{
  ℕ, suc, ◌+◌, Bool, true, false, not, ◌&&◌, ◌||◌, Option, none, some, List, [], ◌∷◌, Text, ltb,
  ◌==◌, if◌then◌else◌,
}
use filly.Prelude.Int.{ℤ, pos, eqb_ℤ}
use filly.Undo.{UndoStack, undo_stack_undo, undo_stack_redo, undo_stack_new}
use filly.Session.{
  SessionState, KeyBinding, KeyOutcome, ignored, undone, redone, focus_moved, copied, pasted,
  delivered, key_event, load_default_keymap,
}
use filly.Widgets.Events.{
  Event, EventResult, Response, event_none, event_key, event_resize, event_mouse_motion,
  event_mouse_button, event_mouse_scroll, event_mouse_drag_start, event_mouse_drag_move,
  event_mouse_drag_end, handled, unhandled, fault, response,
}

-- What the loop calls of a widget with the state `W`. `render` builds the tree and lays it out on the
-- screen, as `F`. `mark_dirty` and `set_area` write `dirty` and `render_area` of its `WidgetBase`.
pub record WidgetVtable (W F : Type 0) : Type 0 where
  pub render : W → ℤ → ℤ → W × F
  pub handle_event : W → Event → W × EventResult
  pub is_dirty : W → Bool
  pub clear_dirty : W → W
  pub mark_dirty : W → W
  pub set_area : W → ℤ → ℤ → W
  pub accepts_text_input : W → Bool

-- What stays the same: whether the backend can copy and is interactive.
pub record Backend : Type 0 where
  pub can_copy : Bool
  pub is_interactive : Bool

-- What a round gets: `get_size`, `next_event`, whether that is a press of the third button, the
-- version of the active store, if there is one, and the text of `session_clipboard`.
pub record Round : Type 0 where
  pub term_w : ℤ
  pub term_h : ℤ
  pub event : Event
  pub menu_press : Bool
  pub version : Option ℤ
  pub clipboard : Option Text

-- The variables of the loop, with what was drawn and what was copied last. `D` is the document that
-- the undo stack changes.
pub record Loop (W F D : Type 0) : Type 0 where
  pub widget : W
  pub last_w : ℤ
  pub last_h : ℤ
  pub drawn : F
  pub idle_count : ℕ
  pub last_store_version : ℤ
  pub keymap : List KeyBinding
  pub undo : UndoStack D
  pub document : D
  pub sent_to_clipboard : Option Text

-- A round goes on, or `session_run` returns; `faulted` is none of C's: a handler's fault.
pub data Next (W F D : Type 0) : Type 0 where
  continues : Loop W F D → Next W F D
  returns : Response → Next W F D
  faulted : Next W F D

-- A round, and the next ones if the loop goes on.
abbrev pub and_then : {W F D : Type 0} → Next W F D → (Loop W F D → Next W F D) → Next W F D
and_then (continues l) k = k l
and_then (returns resp) k = returns resp
and_then faulted k = faulted

abbrev pub timeout : Response
timeout = record { result = none; cancelled = false }

-- The keys of a paste, whose results are not looked at.
unfoldable pub paste_events : {W F : Type 0} → WidgetVtable W F → W → List Event → Option W
paste_events vtable w [] = some w
paste_events vtable w (ev ∷ evs) =
    let (w', result) = vtable.handle_event w ev in
    elim result [ fault ↦ none | _ ↦ paste_events vtable w' evs ]

module _ {W F D : Type 0} (vtable : WidgetVtable W F) (backend : Backend) where
  abbrev pub mark : Loop W F D → Loop W F D
  mark l = record l { widget = vtable.mark_dirty l.widget }

  unfoldable pub session_resize : Loop W F D → ℤ → ℤ → Loop W F D
  session_resize l w h =
      if not (eqb_ℤ w l.last_w) || not (eqb_ℤ h l.last_h)
      then record l {
        widget = vtable.set_area (vtable.mark_dirty l.widget) w h;
        last_w = w;
        last_h = h;
      }
      else l

  unfoldable pub session_draw : Loop W F D → Loop W F D
  session_draw l =
      if vtable.is_dirty l.widget
      then record l {
        widget = vtable.clear_dirty (vtable.render l.widget l.last_w l.last_h).0;
        drawn = (vtable.render l.widget l.last_w l.last_h).1;
      }
      else l

  -- What comes after the handler's call.
  unfoldable pub after_store : Loop W F D → Option ℤ → Loop W F D
  after_store l version = elim version [
    | none ↦ l
    | some ver ↦
        if eqb_ℤ ver l.last_store_version
        then l
        else record l { widget = vtable.mark_dirty l.widget; last_store_version = ver }
  ]

  -- `event_result_response` ends the loop.
  unfoldable pub after_event : Loop W F D → Option ℤ → W × EventResult → Next W F D
  after_event l version (w, response r) = returns r
  after_event l version (w, fault) = faulted
  after_event l version (w, _) = continues (after_store (record l { widget = w }) version)

  unfoldable pub session_deliver : Loop W F D → Event → Option ℤ → Next W F D
  unfolding after_event
  session_deliver l ev version =
      after_event (record l { idle_count = 0 }) version (vtable.handle_event l.widget ev)

  unfoldable pub session_undo : Loop W F D → UndoStack D × D × Bool → Loop W F D
  session_undo l (undo, document, _) = mark (record l { undo = undo; document = document })

  unfoldable pub session_key : Loop W F D → Option ℤ → KeyOutcome → Next W F D
  unfolding session_deliver paste_events session_undo
  session_key l version ignored = continues l
  session_key l version focus_moved = continues l
  session_key l version (copied text) = continues (record l { sent_to_clipboard = some text })
  session_key l version (pasted evs) = elim (paste_events vtable l.widget evs) [
    | none ↦ faulted
    | some w ↦ continues (mark (record l { widget = w }))
  ]
  session_key l version undone = continues (session_undo l (undo_stack_undo l.undo l.document))
  session_key l version redone = continues (session_undo l (undo_stack_redo l.undo l.document))
  session_key l version (delivered ev) = session_deliver l ev version

  unfoldable pub session_state : Loop W F D → Option Text → SessionState
  session_state l clipboard = record {
    keymap = l.keymap;
    accepts_text_input = vtable.accepts_text_input l.widget;
    clipboard = clipboard;
    can_copy = backend.can_copy;
    can_undo = (undo_stack_undo l.undo l.document).2;
    can_redo = (undo_stack_redo l.undo l.document).2;
  }

  unfoldable pub session_idle : Loop W F D → Next W F D
  session_idle l =
      if backend.is_interactive
      then continues l
      else if ltb 5000 (l.idle_count + 1)
      then returns timeout
      else continues (record l { idle_count = l.idle_count + 1 })

  unfoldable pub session_event : Loop W F D → Round → Next W F D
  unfolding session_deliver session_key session_state session_idle
  session_event l r = elim r.event.type [
    | event_none ↦ session_idle l
    | event_resize ↦ continues l
    | event_mouse_motion ↦ continues (mark l)
    | event_mouse_button ↦ if r.menu_press then continues l else session_deliver l r.event r.version
    | event_mouse_scroll ↦ session_deliver l r.event r.version
    | event_mouse_drag_start ↦ continues (mark l)
    | event_mouse_drag_move ↦ continues (mark l)
    | event_mouse_drag_end ↦ continues (mark l)
    | event_key ↦ session_key l r.version (key_event (session_state l r.clipboard) r.event)
  ]

  unfoldable pub session_ready : Loop W F D → Round → Loop W F D
  unfolding session_resize session_draw
  session_ready l r = session_draw (session_resize l r.term_w r.term_h)

  unfoldable pub session_round : Loop W F D → Round → Next W F D
  unfolding session_ready session_event
  session_round l r = session_event (session_ready l r) r

  unfoldable pub session_loop : Loop W F D → List Round → Next W F D
  session_loop l [] = continues l
  session_loop l (r ∷ rs) = and_then (session_round l r) (λ l'. session_loop l' rs)

  -- Up to the loop: the first frame is drawn whether or not the widget is dirty.
  unfoldable pub session_start : W → UndoStack D → D → ℤ → ℤ → Loop W F D
  session_start w undo document term_w term_h =
      let rendered = vtable.render (vtable.set_area w term_w term_h) term_w term_h in
      record {
        widget = vtable.clear_dirty rendered.0;
        last_w = term_w;
        last_h = term_h;
        drawn = rendered.1;
        idle_count = 0;
        last_store_version = pos 0;
        keymap = load_default_keymap;
        undo = undo;
        document = document;
        sent_to_clipboard = none;
      }

  unfoldable pub session_run : W → UndoStack D → D → ℤ → ℤ → List Round → Next W F D
  unfolding session_loop session_start
  session_run w undo document term_w term_h rounds =
      session_loop (session_start w undo document term_w term_h) rounds
