-- ===== src/Ports/Editing.antt =====
-- src/builder/project.c, `port_registry`: its entries from "calendar" to "split_panes".
use filly.Prelude.{true, false, List, [], ◌∷◌}
use filly.Ports.Types.{port_trigger, port_string, port_bool, port_int, WidgetPortInfo, port, entry}

abbrev pub editing_ports : List WidgetPortInfo
editing_ports =
    entry "calendar"
      (port 0 "on_select" port_trigger true "Emitted when a day is selected"
        ∷ port 1 "date" port_string true "Selected date as YYYY-MM-DD"
        ∷ port 2 "animation_end" port_trigger true "Fires when an animation completes"
        ∷ [])
      3
      (port 0 "set_visible" port_bool false "Show or hide this widget"
        ∷ port 1 "play_animation" port_string false "Play a named animation"
        ∷ [])
      2
    ∷ entry "color_picker"
        (port 0 "on_select" port_trigger true "Emitted when a color is picked"
          ∷ port 1 "color" port_string true "Selected color as hex #RRGGBB"
          ∷ port 2 "animation_end" port_trigger true "Fires when an animation completes"
          ∷ [])
        3
        (port 0 "set_visible" port_bool false "Show or hide this widget"
          ∷ port 1 "play_animation" port_string false "Play a named animation"
          ∷ [])
        2
    ∷ entry "range_slider"
        (port 0 "on_change" port_trigger true "Emitted when slider moves"
          ∷ port 1 "value" port_int true "Current slider value"
          ∷ port 2 "animation_end" port_trigger true "Fires when an animation completes"
          ∷ [])
        3
        (port 0 "set_value" port_int false "Set slider value"
          ∷ port 1 "set_visible" port_bool false "Show or hide this widget"
          ∷ port 2 "play_animation" port_string false "Play a named animation"
          ∷ [])
        3
    ∷ entry "file_picker"
        (port 0 "on_select" port_trigger true "Emitted when a file is picked"
          ∷ port 1 "path" port_string true "Selected file path"
          ∷ port 2 "animation_end" port_trigger true "Fires when an animation completes"
          ∷ [])
        3
        (port 0 "set_visible" port_bool false "Show or hide this widget"
          ∷ port 1 "play_animation" port_string false "Play a named animation"
          ∷ [])
        2
    ∷ entry "text_editor"
        (port 0 "on_save" port_trigger true "Emitted when Ctrl+S is pressed"
          ∷ port 1 "content" port_string true "Current text content"
          ∷ port 2 "animation_end" port_trigger true "Fires when an animation completes"
          ∷ [])
        3
        (port 0 "set_content" port_string false "Set the editor content"
          ∷ port 1 "set_visible" port_bool false "Show or hide this widget"
          ∷ port 2 "play_animation" port_string false "Play a named animation"
          ∷ [])
        3
    ∷ entry "form"
        (port 0 "on_submit" port_trigger true "Emitted when form is submitted"
          ∷ port 1 "values" port_string true "JSON string of form values"
          ∷ port 2 "animation_end" port_trigger true "Fires when an animation completes"
          ∷ [])
        3
        (port 0 "set_visible" port_bool false "Show or hide this widget"
          ∷ port 1 "play_animation" port_string false "Play a named animation"
          ∷ [])
        2
    ∷ entry "progress"
        (port 0 "on_complete" port_trigger true "Emitted when progress reaches 100%"
          ∷ port 1 "percent" port_int true "Current progress percentage"
          ∷ port 2 "animation_end" port_trigger true "Fires when an animation completes"
          ∷ [])
        3
        (port 0 "set_visible" port_bool false "Show or hide this widget"
          ∷ port 1 "play_animation" port_string false "Play a named animation"
          ∷ [])
        2
    ∷ entry "tabs"
        (port 0 "on_tab_change" port_trigger true "Emitted when active tab changes"
          ∷ port 1 "active_tab" port_int true "Index of active tab"
          ∷ port 2 "animation_end" port_trigger true "Fires when an animation completes"
          ∷ [])
        3
        (port 0 "set_active_tab" port_int false "Switch to a tab by index"
          ∷ port 1 "set_visible" port_bool false "Show or hide this widget"
          ∷ port 2 "play_animation" port_string false "Play a named animation"
          ∷ [])
        3
    ∷ entry "split_panes"
        (port 0 "on_resize" port_trigger true "Emitted when split position changes"
          ∷ port 1 "split_pos" port_int true "Current split position in pixels"
          ∷ port 2 "animation_end" port_trigger true "Fires when an animation completes"
          ∷ [])
        3
        (port 0 "set_visible" port_bool false "Show or hide this widget"
          ∷ port 1 "play_animation" port_string false "Play a named animation"
          ∷ [])
        2
    ∷ []
