-- ===== src/Tests/Documents.antt =====
-- Files that are written and read again: the text editor and the projects of the builder.
use filly.Prelude.{
  ◌≡◌, ◌≢◌, inr, refl, true, false, Option, none, some, [], ◌∷◌, ◌++◌, Text, codes, arith, text_eq,
  if◌then◌else◌,
}
use filly.Prelude.Int.{pos, negsuc}
use filly.Widgets.Events.{press, esc, backspace, delete, char, answer, string, fault}
use filly.Widgets.TextEditor.{
  TextEditorData, text_editor_handle_event, text_editor_widget_new, unlines, te_clamp_cursor,
}
use filly.Widgets.TextEditor.Buffer.{Within}
use filly.Widgets.TextEditor.Cursor.{te_clamp_cursor_lem, InView}
use filly.Widgets.TextEditor.Refines.{Follows}
use filly.Widgets.TextEditor.Laws.{
  IsValid, text_editor_handle_event-IsValid, text_editor_handle_event_edits,
}
use filly.Widgets.TextEditor.Files.{escape_reopens, save_reopens}
use filly.CJson.{CJson}
use filly.CJson.Tree.{Json, trees}
use filly.Ports.Types.{port, port_string}
use filly.Document.{BuilderProject, node_widget, kb_scope_global}
use filly.Project.Save.{project_json, project_save}

-- Two lines, and the cursor at the start of the second.
abbrev notes : TextEditorData
notes = record {
  dirty = false;
  title = codes "Notes";
  file_path = some (codes "n");
  lines = codes "ab" ∷ codes "c" ∷ [];
  row = 1;
  col = 0;
  scroll = 5;
  visible_h = 20;
  files = λ _. none;
}

notes-IsValid : IsValid notes
notes-IsValid = record { inside = omega arith; tall = omega arith }

text_editor_handle_event-IsValid_example :
    IsValid (text_editor_handle_event (λ _. true) notes (press delete 0)).0
    × ((text_editor_handle_event (λ _. true) notes (press delete 0)).1 ≢ fault)
text_editor_handle_event-IsValid_example =
    text_editor_handle_event-IsValid (λ _. true) notes (press delete 0) notes-IsValid

text_editor_handle_event_edits_example :
    Follows backspace 0 notes (text_editor_handle_event (λ _. true) notes (press backspace 0)).0
text_editor_handle_event_edits_example =
    text_editor_handle_event_edits (λ _. true) notes backspace 0 notes-IsValid (inr (λ e. cc))

te_clamp_cursor_lem_run :
    Within (te_clamp_cursor notes).lines (te_clamp_cursor notes).row (te_clamp_cursor notes).col
    × InView (te_clamp_cursor notes)
te_clamp_cursor_lem_run = te_clamp_cursor_lem notes (omega arith)

escape_reopens_example :
    ((text_editor_handle_event (λ _. true) notes (press esc 0)).1
      ≡ answer (string (unlines notes.lines)))
    × ((text_editor_widget_new (λ _. none) notes.title none (some (unlines notes.lines))).lines
        ≡ notes.lines)
escape_reopens_example = escape_reopens (λ _. true) (λ _. none) notes 0 (omega arith) (omega arith)

save_reopens_example :
    (text_editor_widget_new
      (text_editor_handle_event (λ _. true) notes (press char 19)).0.files
      notes.title
      (some (codes "n"))
      none).lines
    ≡ notes.lines
save_reopens_example =
    save_reopens (λ _. true) notes (codes "n") none refl refl (omega arith) (omega arith)
      (omega arith)

abbrev one_widget : BuilderProject Json
one_widget = record {
  project_name = codes "demo";
  file_path = none;
  items =
      record {
        id = 4;
        widget_type = codes "toggle";
        instance_name = codes "toggle_4";
        rect = record { x = negsuc 1; y = pos 2; w = pos 20; h = pos 3 };
        params = Json.string (codes "On?");
        parent_id = negsuc 0;
        tab_index = pos 0;
        locked = false;
        visible = true;
      }
      ∷ [];
  next_item_id = 9;
  root_width = pos 800;
  root_height = pos 600;
  nodes =
      record {
        id = 0;
        type = node_widget;
        label = codes "toggle";
        widget_id = pos 4;
        store_key = none;
        fil_script = some (codes "exit");
        ports = port 0 "value" port_string true "Current value" ∷ [];
      }
      ∷ [];
  edges =
      record {
        from_node = 0;
        from_port = 0;
        to_node = 0;
        to_port = 0;
        condition = some (codes "x");
        transform = none;
      }
      ∷ [];
  keymaps =
      record {
        scope = kb_scope_global;
        widget_id = negsuc 0;
        key = codes "ctrl+q";
        action = codes "quit";
      }
      ∷ [];
  store_vars = record { key = codes "count"; initial_value = codes "0"; type = codes "int" } ∷ [];
  tui = record {
    show_tui_overlay = true;
    min_terminal_width = pos 80;
    min_terminal_height = pos 24;
    fallback_font = none;
  };
  filly_version = 1;
  author = none;
  description = some (codes "A demo");
}

-- A reader that knows the text of one document.
abbrev read : Text → Option Json
read s =
    if text_eq s (codes "{}" ++ b'\n' ∷ [])
    then some (project_json (trees (λ _. []) (λ _. none)) one_widget)
    else none

abbrev reader : CJson Json
reader = trees (λ _. codes "{}") read

abbrev saved : Text → Option Text
saved = (project_save reader (λ _. true) (λ _. none) one_widget (codes "p")).0
