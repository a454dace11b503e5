-- ===== src/Tests/Sessions.antt =====
-- A session of src/core/session.c that runs a menu of src/core/widgets/menu.c.
use filly.Prelude.{ℕ, ◌≡◌, refl, true, false, none, [], ◌∷◌, codes}
use filly.Prelude.Int.{pos}
use filly.Undo.{UndoStack, undo_stack_new}
use filly.Session.{load_default_keymap, key_event, deliver, remap}
use filly.Widgets.Events.{press, down}
use filly.Widgets.Menu.{MenuData, menu_widget_new, menu_handle_event}
use filly.Session.Run.{
  Backend, Round, Loop, continues, session_ready, session_round, after_store, session_run,
}
use filly.Session.Run.Fresh.{session_run_fresh}
use filly.Session.Run.Menus.{
  MenuView, MenuEnds, menu_vtable, show_menu, menu_vtable-IsFaithful, session_run-menu_widget_new,
}

-- What is drawn of a menu is here the number of its selection.
abbrev by_number : MenuView ℕ
by_number title message choices selected a b = selected

abbrev menu : MenuData
menu = menu_widget_new none none (codes "yes" ∷ codes "no" ∷ []) (pos 0)

abbrev screen : Backend
screen = record { can_copy = false; is_interactive = true }

abbrev no_undo : UndoStack ℕ
no_undo = undo_stack_new (pos 8)

abbrev down_round : Round
down_round = record {
  term_w = pos 80;
  term_h = pos 24;
  event = press down 0;
  menu_press = false;
  version = none;
  clipboard = none;
}

-- After the round: the selection has moved, and what was drawn has not.
abbrev moved : Loop MenuData ℕ ℕ
moved = record {
  widget = record menu { dirty = true; selected = 1 };
  last_w = pos 80;
  last_h = pos 24;
  drawn = 0;
  idle_count = 0;
  last_store_version = pos 0;
  keymap = load_default_keymap;
  undo = no_undo;
  document = 5;
  sent_to_clipboard = none;
}

moved_reached :
    session_run (menu_vtable by_number) screen menu no_undo 5 (pos 80) (pos 24) (down_round ∷ [])
    ≡ continues moved
unfolding session_run menu_widget_new menu_handle_event key_event deliver remap session_round
    load_default_keymap after_store
moved_reached = refl

session_run_fresh_example :
    (session_ready (menu_vtable by_number) screen moved down_round).drawn
    ≡ show_menu by_number
        (session_ready (menu_vtable by_number) screen moved down_round).widget
        (pos 80)
        (pos 24)
session_run_fresh_example =
    session_run_fresh (menu_vtable by_number) screen (show_menu by_number)
      (menu_vtable-IsFaithful by_number) menu no_undo 5 (pos 80) (pos 24) (down_round ∷ []) moved
      down_round moved_reached

session_run-menu_widget_new_run : MenuEnds by_number screen (codes "yes" ∷ codes "no" ∷ []) (
    session_run
      (menu_vtable by_number)
      screen
      (menu_widget_new none none (codes "yes" ∷ codes "no" ∷ []) (pos 0))
      no_undo
      5
      (pos 80)
      (pos 24)
      (down_round ∷ []))
session_run-menu_widget_new_run =
    session_run-menu_widget_new by_number screen none none (codes "yes") (codes "no" ∷ []) (pos 0)
      no_undo 5 (pos 80) (pos 24) (down_round ∷ [])
