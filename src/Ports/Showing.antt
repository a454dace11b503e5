-- ===== src/Ports/Showing.antt =====
-- src/builder/project.c, `port_registry`: its entries from "table" to "notification".
use filly.Prelude.{true, false, List, [], ◌∷◌}
use filly.Ports.Types.{port_trigger, port_string, port_bool, port_int, WidgetPortInfo, port, entry}

abbrev pub showing_ports : List WidgetPortInfo
showing_ports =
    entry "table"
      (port 0 "on_select" port_trigger true "Emitted when a cell is selected"
        ∷ port 1 "value" port_string true "Selected cell value"
        ∷ port 2 "row" port_int true "Selected row index"
        ∷ port 3 "col" port_int true "Selected column index"
        ∷ port 4 "animation_end" port_trigger true "Fires when an animation completes"
        ∷ [])
      5
      (port 0 "set_visible" port_bool false "Show or hide this widget"
        ∷ port 1 "play_animation" port_string false "Play a named animation"
        ∷ [])
      2
    ∷ entry "tree"
        (port 0 "on_select" port_trigger true "Emitted when a node is selected"
          ∷ port 1 "path" port_string true "Selected node path"
          ∷ port 2 "animation_end" port_trigger true "Fires when an animation completes"
          ∷ [])
        3
        (port 0 "set_visible" port_bool false "Show or hide this widget"
          ∷ port 1 "play_animation" port_string false "Play a named animation"
          ∷ [])
        2
    ∷ entry "gauge"
        (port 0 "percent" port_int true "Current gauge percentage"
          ∷ port 1 "animation_end" port_trigger true "Fires when an animation completes"
          ∷ [])
        2
        (port 0 "set_value" port_int false "Set gauge percentage"
          ∷ port 1 "set_visible" port_bool false "Show or hide this widget"
          ∷ port 2 "play_animation" port_string false "Play a named animation"
          ∷ [])
        3
    ∷ entry "spinner"
        (port 0 "animation_end" port_trigger true "Fires when an animation completes" ∷ []) 1
        (port 0 "set_visible" port_bool false "Show or hide this widget"
          ∷ port 1 "play_animation" port_string false "Play a named animation"
          ∷ [])
        2
    ∷ entry "separator"
        (port 0 "animation_end" port_trigger true "Fires when an animation completes" ∷ []) 1
        (port 0 "set_visible" port_bool false "Show or hide this widget"
          ∷ port 1 "play_animation" port_string false "Play a named animation"
          ∷ [])
        2
    ∷ entry "badge"
        (port 0 "animation_end" port_trigger true "Fires when an animation completes" ∷ []) 1
        (port 0 "set_text" port_string false "Set badge text"
          ∷ port 1 "set_visible" port_bool false "Show or hide this widget"
          ∷ port 2 "play_animation" port_string false "Play a named animation"
          ∷ [])
        3
    ∷ entry "msg"
        (port 0 "animation_end" port_trigger true "Fires when an animation completes" ∷ []) 1
        (port 0 "set_visible" port_bool false "Show or hide this widget"
          ∷ port 1 "play_animation" port_string false "Play a named animation"
          ∷ [])
        2
    ∷ entry "summary"
        (port 0 "animation_end" port_trigger true "Fires when an animation completes" ∷ []) 1
        (port 0 "set_visible" port_bool false "Show or hide this widget"
          ∷ port 1 "play_animation" port_string false "Play a named animation"
          ∷ [])
        2
    ∷ entry "notification"
        (port 0 "on_dismiss" port_trigger true "Emitted when notification is dismissed"
          ∷ port 1 "animation_end" port_trigger true "Fires when an animation completes"
          ∷ [])
        2
        (port 0 "set_visible" port_bool false "Show or hide this widget"
          ∷ port 1 "play_animation" port_string false "Play a named animation"
          ∷ [])
        2
    ∷ []
