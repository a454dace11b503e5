-- ===== src/Ports/Hosting.antt =====
-- src/builder/project.c, `port_registry`: its entries from "tooltip" to "list".
use filly.Prelude.{true, false, List, [], ◌∷◌}
use filly.Ports.Types.{port_trigger, port_string, port_bool, port_int, WidgetPortInfo, port, entry}

abbrev pub hosting_ports : List WidgetPortInfo
hosting_ports =
    entry "tooltip"
      (port 0 "animation_end" port_trigger true "Fires when an animation completes" ∷ []) 1
      (port 0 "set_text" port_string false "Set tooltip text"
        ∷ port 1 "set_visible" port_bool false "Show or hide this widget"
        ∷ port 2 "play_animation" port_string false "Play a named animation"
        ∷ [])
      3
    ∷ entry "rich_text"
        (port 0 "animation_end" port_trigger true "Fires when an animation completes" ∷ []) 1
        (port 0 "set_content" port_string false "Set the rich text content"
          ∷ port 1 "set_visible" port_bool false "Show or hide this widget"
          ∷ port 2 "play_animation" port_string false "Play a named animation"
          ∷ [])
        3
    ∷ entry "context_menu"
        (port 0 "on_select" port_trigger true "Emitted when an item is selected"
          ∷ port 1 "value" port_string true "Label of selected item"
          ∷ port 2 "animation_end" port_trigger true "Fires when an animation completes"
          ∷ [])
        3
        (port 0 "set_visible" port_bool false "Show or hide this widget"
          ∷ port 1 "play_animation" port_string false "Play a named animation"
          ∷ [])
        2
    ∷ entry "disk"
        (port 0 "on_change" port_trigger true "Emitted when partitions change"
          ∷ port 1 "partitions" port_string true "JSON string of partition data"
          ∷ port 2 "animation_end" port_trigger true "Fires when an animation completes"
          ∷ [])
        3
        (port 0 "set_visible" port_bool false "Show or hide this widget"
          ∷ port 1 "play_animation" port_string false "Play a named animation"
          ∷ [])
        2
    ∷ entry "hub"
        (port 0 "on_navigate" port_trigger true "Emitted when section changes"
          ∷ port 1 "active_section" port_string true "Name of active section"
          ∷ port 2 "animation_end" port_trigger true "Fires when an animation completes"
          ∷ [])
        3
        (port 0 "set_visible" port_bool false "Show or hide this widget"
          ∷ port 1 "play_animation" port_string false "Play a named animation"
          ∷ [])
        2
    ∷ entry "terminal_emulator"
        (port 0 "on_exit" port_trigger true "Emitted when the child process exits"
          ∷ port 1 "exit_code" port_int true "Exit code of the child process"
          ∷ port 2 "animation_end" port_trigger true "Fires when an animation completes"
          ∷ [])
        3
        (port 0 "set_visible" port_bool false "Show or hide this widget"
          ∷ port 1 "play_animation" port_string false "Play a named animation"
          ∷ [])
        2
    ∷ entry "widget_builder"
        (port 0 "on_export" port_trigger true "Emitted when layout is exported"
          ∷ port 1 "layout_json" port_string true "JSON string of the composed layout"
          ∷ port 2 "animation_end" port_trigger true "Fires when an animation completes"
          ∷ [])
        3
        (port 0 "set_visible" port_bool false "Show or hide this widget"
          ∷ port 1 "play_animation" port_string false "Play a named animation"
          ∷ [])
        2
    ∷ entry "macro_recorder"
        (port 0 "on_save" port_trigger true "Emitted when a recording is saved"
          ∷ port 1 "recording_path" port_string true "Path to the saved recording"
          ∷ port 2 "animation_end" port_trigger true "Fires when an animation completes"
          ∷ [])
        3
        (port 0 "set_visible" port_bool false "Show or hide this widget"
          ∷ port 1 "play_animation" port_string false "Play a named animation"
          ∷ [])
        2
    ∷ entry "yesno"
        (port 0 "on_yes" port_trigger true "Emitted when Yes is selected"
          ∷ port 1 "on_no" port_trigger true "Emitted when No is selected"
          ∷ port 2 "choice" port_bool true "True if Yes was chosen"
          ∷ port 3 "animation_end" port_trigger true "Fires when an animation completes"
          ∷ [])
        4
        (port 0 "set_visible" port_bool false "Show or hide this widget"
          ∷ port 1 "play_animation" port_string false "Play a named animation"
          ∷ [])
        2
    ∷ entry "button"
        (port 0 "on_click" port_trigger true "Emitted when the button is clicked/pressed"
          ∷ port 1 "animation_end" port_trigger true "Fires when an animation completes"
          ∷ [])
        2
        (port 0 "set_visible" port_bool false "Show or hide this widget"
          ∷ port 1 "play_animation" port_string false "Play a named animation"
          ∷ [])
        2
    ∷ entry "list"
        (port 0 "on_select" port_trigger true "Emitted on item selection"
          ∷ port 1 "value" port_string true "Label of selected item"
          ∷ port 2 "index" port_int true "Index of selected item"
          ∷ port 3 "animation_end" port_trigger true "Fires when an animation completes"
          ∷ [])
        4
        (port 0 "set_visible" port_bool false "Show or hide this widget"
          ∷ port 1 "play_animation" port_string false "Play a named animation"
          ∷ [])
        2
    ∷ []
