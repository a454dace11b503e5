-- ===== src/Ports/Choosing.antt =====
-- src/builder/project.c, `port_registry`: its entries from "input" to "radio_group".
use filly.Prelude.{true, false, List, [], ◌∷◌}
use filly.Ports.Types.{port_trigger, port_string, port_bool, port_int, WidgetPortInfo, port, entry}

abbrev pub choosing_ports : List WidgetPortInfo
choosing_ports =
    entry "input"
      (port 0 "on_submit" port_trigger true "Emitted when Enter is pressed"
        ∷ port 1 "on_change" port_trigger true "Emitted on each keystroke"
        ∷ port 2 "value" port_string true "Current text value"
        ∷ port 3 "animation_end" port_trigger true "Fires when an animation completes"
        ∷ [])
      4
      (port 0 "set_value" port_string false "Set the input text"
        ∷ port 1 "set_visible" port_bool false "Show or hide this widget"
        ∷ port 2 "play_animation" port_string false "Play a named animation"
        ∷ [])
      3
    ∷ entry "password"
        (port 0 "on_submit" port_trigger true "Emitted when Enter is pressed"
          ∷ port 1 "value" port_string true "Current password value"
          ∷ port 2 "animation_end" port_trigger true "Fires when an animation completes"
          ∷ [])
        3
        (port 0 "set_visible" port_bool false "Show or hide this widget"
          ∷ port 1 "play_animation" port_string false "Play a named animation"
          ∷ [])
        2
    ∷ entry "toggle"
        (port 0 "on_toggle" port_trigger true "Emitted when toggled"
          ∷ port 1 "value" port_bool true "Current on/off state"
          ∷ port 2 "animation_end" port_trigger true "Fires when an animation completes"
          ∷ [])
        3
        (port 0 "set_value" port_bool false "Set toggle state"
          ∷ port 1 "set_visible" port_bool false "Show or hide this widget"
          ∷ port 2 "play_animation" port_string false "Play a named animation"
          ∷ [])
        3
    ∷ entry "checkbox"
        (port 0 "on_check" port_trigger true "Emitted when checked/unchecked"
          ∷ port 1 "checked" port_bool true "Current check state"
          ∷ port 2 "animation_end" port_trigger true "Fires when an animation completes"
          ∷ [])
        3
        (port 0 "set_checked" port_bool false "Set check state"
          ∷ port 1 "set_visible" port_bool false "Show or hide this widget"
          ∷ port 2 "play_animation" port_string false "Play a named animation"
          ∷ [])
        3
    ∷ entry "menu"
        (port 0 "on_select" port_trigger true "Emitted on item selection"
          ∷ port 1 "value" port_string true "Label of selected item"
          ∷ port 2 "index" port_int true "Index of selected item"
          ∷ port 3 "animation_end" port_trigger true "Fires when an animation completes"
          ∷ [])
        4
        (port 0 "set_visible" port_bool false "Show or hide this widget"
          ∷ port 1 "play_animation" port_string false "Play a named animation"
          ∷ [])
        2
    ∷ entry "checklist"
        (port 0 "on_change" port_trigger true "Emitted when selection changes"
          ∷ port 1 "selected" port_string true "Comma-separated selected items"
          ∷ port 2 "animation_end" port_trigger true "Fires when an animation completes"
          ∷ [])
        3
        (port 0 "set_visible" port_bool false "Show or hide this widget"
          ∷ port 1 "play_animation" port_string false "Play a named animation"
          ∷ [])
        2
    ∷ entry "multiselect"
        (port 0 "on_change" port_trigger true "Emitted when selection changes"
          ∷ port 1 "selected" port_string true "Comma-separated selected items"
          ∷ port 2 "animation_end" port_trigger true "Fires when an animation completes"
          ∷ [])
        3
        (port 0 "set_visible" port_bool false "Show or hide this widget"
          ∷ port 1 "play_animation" port_string false "Play a named animation"
          ∷ [])
        2
    ∷ entry "filter"
        (port 0 "on_select" port_trigger true "Emitted on item selection"
          ∷ port 1 "value" port_string true "Label of selected item"
          ∷ port 2 "animation_end" port_trigger true "Fires when an animation completes"
          ∷ [])
        3
        (port 0 "set_visible" port_bool false "Show or hide this widget"
          ∷ port 1 "play_animation" port_string false "Play a named animation"
          ∷ [])
        2
    ∷ entry "radio_group"
        (port 0 "on_select" port_trigger true "Emitted on item selection"
          ∷ port 1 "value" port_string true "Label of selected item"
          ∷ port 2 "index" port_int true "Index of selected item"
          ∷ port 3 "animation_end" port_trigger true "Fires when an animation completes"
          ∷ [])
        4
        (port 0 "set_visible" port_bool false "Show or hide this widget"
          ∷ port 1 "play_animation" port_string false "Play a named animation"
          ∷ [])
        2
    ∷ []
