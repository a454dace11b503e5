-- ===== src/Session/Run/Menus.antt =====
-- src/core/session.c with src/core/widgets/menu.c: a session that runs a menu.
use filly.Prelude.{
  ℕ, ◌≡◌, ◌⊎◌, inl, inr, true, false, Option, List, ◌∷◌, Text, refl, subst, ap, ◌∙◌,
}
use filly.Prelude.Int.{ℤ}
use filly.Undo.{UndoStack}
use filly.Widgets.Events.{EventResult, response}
use filly.Widgets.Menu.{
  MenuData, menu_widget_new, menu_handle_event, menu_handle_event_lem, menu_handle_event_tells,
  menu_widget_new-IsInRange, IsInRange, Answers,
}
use filly.Session.Run.{
  WidgetVtable, Backend, Round, Next, continues, returns, faulted, timeout, session_run,
}
use filly.Session.Run.Fresh.{IsFaithful}
use filly.Session.Run.Answers.{
  Reaches, here, handles, renders, cleans, marks, places, Gives, Ends, session_run-Ends,
}

-- What a rendering of a menu reads: `menu_render` and the layout are a parameter.
abbrev pub MenuView : Type 0 → Type 0
MenuView F = Option Text → Option Text → List Text → ℕ → ℤ → ℤ → F

module _ {F : Type 0} (view : MenuView F) where
  abbrev pub show_menu : MenuData → ℤ → ℤ → F
  show_menu d = view d.title d.message d.choices d.selected

  abbrev pub menu_vtable : WidgetVtable MenuData F
  menu_vtable = record {
    render = λ d a b. (d, show_menu d a b);
    handle_event = menu_handle_event;
    is_dirty = λ d. d.dirty;
    clear_dirty = λ d. record d { dirty = false };
    mark_dirty = λ d. record d { dirty = true };
    set_area = λ d a b. d;
    accepts_text_input = λ d. false;
  }

  pub menu_vtable-IsFaithful : IsFaithful menu_vtable show_menu
  menu_vtable-IsFaithful = record {
    render_shows = λ d a b. refl;
    clear_cleans = λ d. refl;
    mark_dirties = λ d. refl;
    set_area_keeps = λ d a b. refl;
    handler_tells = λ d ev clean still a b.
        ap (λ e. show_menu e a b) (menu_handle_event_tells d ev clean still);
  }

  Reaches-IsInRange :
      {d : MenuData} (cs : List Text) {w : MenuData}
      → (d.choices ≡ cs) × IsInRange d
      → Reaches menu_vtable d w
      → (w.choices ≡ cs) × IsInRange w
  Reaches-IsInRange cs h here = h
  Reaches-IsInRange cs h (handles {w} ev r) =
      let (e, range) = Reaches-IsInRange cs h r in
      let (range', e', _) = menu_handle_event_lem w ev range in (e' ∙ e, range')
  Reaches-IsInRange cs h (renders a b r) = Reaches-IsInRange cs h r
  Reaches-IsInRange cs h (cleans r) = Reaches-IsInRange cs h r
  Reaches-IsInRange cs h (marks r) = Reaches-IsInRange cs h r
  Reaches-IsInRange cs h (places a b r) = Reaches-IsInRange cs h r

  Gives-Answers :
      {d : MenuData} (cs : List Text) {o : EventResult}
      → (d.choices ≡ cs) × IsInRange d
      → Gives menu_vtable d o
      → Answers cs o
  Gives-Answers cs h (w, ev, r, e) =
      let (same, range) = Reaches-IsInRange cs h r in
      let (_, _, a) = menu_handle_event_lem w ev range in
      subst (Answers cs) e (subst (λ xs. Answers xs (menu_handle_event w ev).1) same a)

  -- How a session over these choices may end.
  abbrev pub MenuEnds : {D : Type 0} → Backend → List Text → Next MenuData F D → Type 0
  MenuEnds backend cs (continues l) = IsInRange l.widget
  MenuEnds backend cs (returns resp) =
      ((resp ≡ timeout) × (backend.is_interactive ≡ false)) ⊎ Answers cs (response resp)
  MenuEnds backend cs faulted = ⊥

  Ends-MenuEnds :
      {D : Type 0} (backend : Backend) (d : MenuData) (cs : List Text)
      → (d.choices ≡ cs) × IsInRange d
      → (n : Next MenuData F D) → Ends menu_vtable backend d n
      → MenuEnds backend cs n
  Ends-MenuEnds backend d cs h (continues l) r = (Reaches-IsInRange cs h r).1
  Ends-MenuEnds backend d cs h (returns resp) (inl t) = inl t
  Ends-MenuEnds backend d cs h (returns resp) (inr g) = inr (Gives-Answers cs h g)
  Ends-MenuEnds backend d cs h faulted g = Gives-Answers cs h g

  -- A session that runs a menu with at least one choice never faults, keeps the selection among the
  -- choices, and returns a cancellation, one of the choices, or, on a backend that is not interactive,
  -- the timeout.
  pub session_run-menu_widget_new :
      {D : Type 0} (backend : Backend) (title message : Option Text) (c : Text) (cs : List Text)
      (def : ℤ) (undo : UndoStack D) (document : D) (term_w term_h : ℤ) (rs : List Round)
      → MenuEnds backend (c ∷ cs) (
          session_run menu_vtable backend
            (menu_widget_new title message (c ∷ cs) def)
            undo
            document
            term_w
            term_h
            rs)
  session_run-menu_widget_new backend title message c cs def undo document term_w term_h rs =
      Ends-MenuEnds backend _ (c ∷ cs) (menu_widget_new-IsInRange title message c cs def) _ (
        session_run-Ends menu_vtable backend (menu_widget_new title message (c ∷ cs) def) undo
          document term_w term_h rs)
