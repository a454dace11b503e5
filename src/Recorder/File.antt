-- ===== src/Recorder/File.antt =====
-- src/core/recorder.c: the file of a recording, through cJSON.
pub mod Reload
use filly.Prelude.{
  ℕ, suc, ◌+◌, ◌-◌, ◌%◌, Bool, true, false, Option, none, some, List, [], ◌∷◌, ◌++◌, map, Text,
  codes, text_eq, ltb, ◌==◌, if◌then◌else◌, length, take,
}
use filly.Prelude.Int.{ℤ, pos, negsuc}
use filly.Prelude.Options.{◌>>=◌, traverse}
use filly.CJson.{CJson}
use filly.Project.Save.{number, string, bool, string_if}
use filly.Project.Load.{int_at, int_or, text_at, items_at, truth}
use filly.Recorder.{Recorder, max_snapshots, max_events, recorder_reset}

-- `Event`, as far as a file holds it.
pub record RecordedEvent : Type 0 where
  pub type : ℤ
  pub code : ℤ
  pub ch : ℤ

-- `RecordedFrame`; of the response the value and the flag.
pub record RecordedFrame (J : Type 0) : Type 0 where
  pub widget_type : Option Text
  pub json_params : Option Text
  pub result : Option J
  pub cancelled : Bool
  pub timestamp_ms : ℤ
  pub ansi_buffer : Option Text

-- A number as a `char`, which is signed and has 8 bits.
signed_byte : ℕ → ℤ
signed_byte m = if ltb m 128 then pos m else negsuc (255 - m)

unfoldable pub as_char : ℤ → ℤ
unfolding signed_byte
as_char (pos n) = signed_byte (n % 256)
as_char (negsuc n) = signed_byte (255 - n % 256)

-- What a saving comes to; `fault` is none of C's: a read behind the frames or the events.
pub data Saving : Type 0 where
  saved : (Text → Option Text) → Saving
  unsaved fault : Saving

-- What a loading comes to; `stuck` is none of C's: an event without one of its numbers.
pub data Loading (J : Type 0) : Type 0 where
  loaded : Recorder RecordedEvent (RecordedFrame J) → Loading J
  not_loaded stuck : Loading J

module _ {J : Type 0} (C : CJson J) where
  abbrev pub frame_members : RecordedFrame J → List (Text × J)
  frame_members f = string_if C "widget_type" f.widget_type (
      string_if C "params" f.json_params (
        number C "timestamp" f.timestamp_ms
        ∷ string_if C "response"
            (elim f.result [ none ↦ none | some v ↦ some (C.print_unformatted v) ])
            (bool C "cancelled" f.cancelled ∷ [])))

  unfoldable pub frame_json : RecordedFrame J → J
  frame_json f = C.create_object (frame_members f)

  abbrev pub event_members : RecordedEvent → List (Text × J)
  event_members e = number C "type" e.type ∷ number C "code" e.code ∷ number C "ch" e.ch ∷ []

  unfoldable pub event_json : RecordedEvent → J
  event_json e = C.create_object (event_members e)

  abbrev pub recording_members : Recorder RecordedEvent (RecordedFrame J) → List (Text × J)
  recording_members r =
      number C "version" (pos 1)
      ∷ number C "frame_count" (pos r.frame_count)
      ∷ number C "event_count" (pos r.event_count)
      ∷ (codes "frames", C.create_array (map frame_json r.frames))
      ∷ (codes "events", C.create_array (map event_json r.events))
      ∷ []

  unfoldable pub recording_json : Recorder RecordedEvent (RecordedFrame J) → J
  recording_json r = C.create_object (recording_members r)

  unfoldable pub recording_text : Recorder RecordedEvent (RecordedFrame J) → Text
  recording_text r = C.print_unformatted (recording_json r) ++ b'\n' ∷ []

  -- `can_write` says whether `fopen` succeeds.
  unfoldable pub recorder_save :
      (Text → Bool)
      → (Text → Option Text)
      → Recorder RecordedEvent (RecordedFrame J)
      → Text
      → Saving
  recorder_save can_write files r path =
      if r.frame_count == 0
      then unsaved
      else if ltb (length r.frames) r.frame_count
      then fault
      else if ltb (length r.events) r.event_count
      then fault
      else if can_write path
      then saved (λ q. if text_eq q path then some (recording_text r) else files q)
      else unsaved

  -- One round of each loop of `recorder_load`.
  unfoldable pub load_frame : J → Option (RecordedFrame J)
  load_frame f = some (record {
    widget_type = text_at C f "widget_type";
    json_params = text_at C f "params";
    result = text_at C f "response" >>= C.parse;
    cancelled = truth (int_or C f "cancelled" (pos 0));
    timestamp_ms = pos 0;
    ansi_buffer = none;
  })

  unfoldable pub load_event : J → Option RecordedEvent
  load_event e = do
    type ← int_at C e "type"
    code ← int_at C e "code"
    ch ← int_at C e "ch"
    some (record { type = type; code = code; ch = as_char ch })

  -- The counts are those of the file, of which the arrays take what they have room for. A member that is
  -- no array is taken as an empty one.
  unfoldable pub loaded_from : J → Option (Recorder RecordedEvent (RecordedFrame J))
  unfolding recorder_reset
  loaded_from root = do
    frames ← traverse load_frame (take max_snapshots (items_at C root "frames"))
    events ← traverse load_event (take max_events (items_at C root "events"))
    some (record recorder_reset {
      frames = frames;
      frame_count = length (items_at C root "frames");
      events = events;
      event_count = length (items_at C root "events");
      replaying = true;
      replay_pos = 0;
    })

  unfoldable pub recorder_load_file : (Text → Option Text) → Text → Loading J
  recorder_load_file files path = elim (files path >>= C.parse) [
    | none ↦ not_loaded
    | some root ↦ elim (loaded_from root) [ none ↦ stuck | some r ↦ loaded r ]
  ]
