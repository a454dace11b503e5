-- ===== src/Tests/Messages.antt =====
-- src/protocol/schema.c and the recordings of src/core/recorder.c at concrete inputs.
use filly.Prelude.{
  ◌≡◌, ◌↔◌, true, false, Option, none, some, [], ◌∷◌, ◌++◌, Text, codes, text_eq, if◌then◌else◌,
}
use filly.Prelude.Int.{pos}
use filly.CJson.{CJson}
use filly.CJson.Tree.{Json, trees, number, string, object, none_left, member}
use filly.Schema.{schema_validate, valid}
use filly.Schema.Spec.{RootConforms}
use filly.Schema.Sound.{schema_validate-RootConforms}
use filly.Schema.Trees.{tree_values, tree_values-IsFinite}
use filly.Recorder.{Recorder}
use filly.Recorder.File.{RecordedEvent, RecordedFrame, recording_json}

abbrev message : Json
message = object (member (codes "id") (number (pos 7)) none_left)

abbrev numeric : Json
numeric = object (member (codes "type") (string (codes "number")) none_left)

abbrev id_schema : Json
id_schema =
    object (member (codes "properties") (object (member (codes "id") numeric none_left)) none_left)

-- A reader that knows the text `m` of the message, and takes all else for the schema.
abbrev read_two : Text → Option Json
read_two s = some (if text_eq s (codes "m") then message else id_schema)

schema_validate-RootConforms_example :
    (schema_validate tree_values read_two (codes "m") (codes "s") ≡ valid) ↔ (
      (v : Json) × (s : Json) × (read_two (codes "m") ≡ some v)
      × (read_two (codes "s") ≡ some s)
      × RootConforms tree_values v s)
schema_validate-RootConforms_example =
    schema_validate-RootConforms tree_values tree_values-IsFinite read_two (codes "m") (codes "s")

-- A recording of a menu and two keys.
abbrev two_keys : Recorder RecordedEvent (RecordedFrame Json)
two_keys = record {
  frames =
      record {
        widget_type = some (codes "menu");
        json_params = none;
        result = none;
        cancelled = true;
        timestamp_ms = pos 40;
        ansi_buffer = none;
      }
      ∷ [];
  frame_count = 1;
  events =
      record { type = pos 1; code = pos 4; ch = pos 0 }
      ∷ record { type = pos 1; code = pos 20; ch = pos 106 }
      ∷ [];
  event_count = 2;
  recording = false;
  replaying = false;
  replay_pos = 0;
  start_time = 0;
}

-- A reader that knows the text of that recording.
abbrev read_recording : Text → Option Json
read_recording s =
    if text_eq s (codes "{}" ++ b'\n' ∷ [])
    then some (recording_json (trees (λ _. []) (λ _. none)) two_keys)
    else none

abbrev recordings : CJson Json
recordings = trees (λ _. codes "{}") read_recording
