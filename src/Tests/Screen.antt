-- ===== src/Tests/Screen.antt =====
-- src/core/session.c, render.c and widget.c at concrete inputs.
use filly.Prelude.{
  ℕ, suc, ◌%◌, ◌≤◌, ◌≡◌, ◌⊎◌, refl, true, false, none, some, List, [], ◌∷◌, map, Text, codes,
  length, get_elem?, All, arith,
}
use filly.Prelude.Int.{ℤ, pos, negsuc, ◌+ℤ◌}
use filly.RenderTree.{Node, RenderTree, tree, nil, cons}
use filly.RenderTree.Focus.{
  find_focusable, focusables, find_focusable-focusables, tab_key, tab_key_lem, crash, focus_on,
}
use mathlib.Core.Option
use filly.RenderTree.Hit.{hit_test, is_outside, placed, IsLastUnder, hit_test-placed}
use filly.RenderTree.Delta.{
  session_compute_delta, render_tree_mark_dirty, reached, marked_only, all_dirty,
  session_compute_delta_same, session_compute_delta-render_tree_mark_dirty,
}
use filly.Session.{
  KeyBinding, SessionState, load_default_keymap, session_load_keymap_from_fil, load_entry,
  load_action, keymap_entry, key_event, pasted, remap,
}
use filly.Session.Keymap.{load_entry-keymap_entry, session_load_keymap_from_fil_keeps}
use filly.Session.Keys.{key_event_paste, IsPrintable}
use filly.Registry.{RegistryEntry, widget_registry_clear_plugins, widget_registry_count}
use filly.Registry.Laws.{
  register_all, built_in, enumerate, listed, widget_registry_clear_plugins_restores,
  widget_registry_enum_all,
}
use filly.Widgets.Events.{press, char, down}

abbrev node : ℕ → ℕ → ℤ → ℕ → Node
node type x tab_index w = record {
  type = type;
  rect = record { x = pos x; y = pos 0; w = pos w; h = pos 2 };
  dirty = false;
  tab_index = tab_index;
  style_class = some (codes "field");
}

-- A container with two fields side by side, the second with a text on it.
abbrev form : RenderTree
form = tree (node 0 0 (negsuc 0) 20) (
    cons (tree (node 3 0 (pos 0) 10) nil)
      (cons (tree (node 0 10 (pos 1) 10) (cons (tree (node 1 2 (negsuc 0) 4) nil) nil)) nil))

find_focusable-focusables_example : (find_focusable form 1 0).1 ≡ get_elem? (focusables form) 1
find_focusable-focusables_example = find_focusable-focusables form 1

two_stops : 1 ≤ length (focusables form)
unfolding focusables
two_stops = omega arith

tab_key_lem_run :
    (tab_key (some form) (some (codes "field")) ≡ crash)
    × (tab_key (some form) none
        ≡ focus_on (get_elem? (focusables form) (1 % length (focusables form))))
tab_key_lem_run = tab_key_lem form (codes "field") two_stops

hit_test-placed_example :
    IsLastUnder
      (pos 13)
      (pos 1)
      (placed form [] (pos 0) (pos 0))
      (hit_test form (pos 13) (pos 1) (pos 0) (pos 0))
hit_test-placed_example = hit_test-placed form (pos 13) (pos 1) (pos 0) (pos 0)

-- The text on the second field.
hit_text :
    Option.map (λ (n : Node). n.rect.w) (hit_test form (pos 13) (pos 1) (pos 0) (pos 0))
    ≡ some (pos 4)
unfolding hit_test is_outside ◌+ℤ◌
hit_text = refl

session_compute_delta_same_run : session_compute_delta form form ≡ marked_only (reached form)
session_compute_delta_same_run = session_compute_delta_same form

session_compute_delta-render_tree_mark_dirty_run :
    session_compute_delta (render_tree_mark_dirty form) form ≡ all_dirty (reached form)
session_compute_delta-render_tree_mark_dirty_run = session_compute_delta-render_tree_mark_dirty form

abbrev copied_text : SessionState
copied_text = record {
  keymap = load_default_keymap;
  accepts_text_input = false;
  clipboard = some (codes "a\nb");
  can_copy = true;
  can_undo = false;
  can_redo = true;
}

key_event_paste_run :
    (key_event copied_text (press char 22) ≡ pasted [])
    ⊎ ((key_event copied_text (press char 22) ≡ pasted (map (press char) (codes "a\nb")))
        × All IsPrintable (codes "a\nb"))
key_event_paste_run = key_event_paste copied_text (codes "a\nb") refl

load_entry-keymap_entry_run :
    load_entry [] (keymap_entry (codes "global") (codes "x") (codes "back|cancel"))
    ≡ load_action [] (codes "x") (codes "back|cancel")
load_entry-keymap_entry_run =
    load_entry-keymap_entry [] (codes "global") (codes "x") (codes "back|cancel") (ground arith)
      (ground arith)

abbrev down_key : List KeyBinding
down_key = record { key = codes "j"; code = down; ch = 0 } ∷ []

abbrev two_entries : List Text
two_entries = codes "global|j|back" ∷ codes "global|x|select" ∷ []

session_load_keymap_from_fil_keeps_example :
    remap (session_load_keymap_from_fil down_key two_entries) (press char 106)
    ≡ remap down_key (press char 106)
session_load_keymap_from_fil_keeps_example =
    session_load_keymap_from_fil_keeps two_entries down_key (press char 106) refl

-- Factories are numbers here; the plugin's hides the menu.
abbrev menu_and_plugin : List (RegistryEntry ℕ)
menu_and_plugin =
    record { name = codes "menu"; factory = some 1; is_plugin = false }
    ∷ record { name = codes "menu"; factory = some 2; is_plugin = true }
    ∷ []

widget_registry_clear_plugins_restores_example :
    widget_registry_clear_plugins (register_all [] menu_and_plugin)
    ≡ register_all [] (built_in menu_and_plugin)
widget_registry_clear_plugins_restores_example =
    widget_registry_clear_plugins_restores menu_and_plugin

widget_registry_enum_all_run :
    enumerate (suc (widget_registry_count menu_and_plugin)) menu_and_plugin 0
    ≡ listed menu_and_plugin
widget_registry_enum_all_run = widget_registry_enum_all menu_and_plugin
