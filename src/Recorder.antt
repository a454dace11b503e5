-- ===== src/Recorder.antt =====
-- src/core/recorder.c: recording and replay, in memory. `E` stands for `Event`, `F` for a
-- `RecordedFrame` with its copies; the file of `recorder_save`, which goes through cJSON, is left out,
-- and `recorder_load` starts from what has been read of it.
pub mod Replay
pub mod File
use filly.Prelude.{
  ℕ, suc, ◌+◌, Bool, true, false, not, ◌&&◌, Option, none, some, List, [], ◌∷◌, ◌++◌, ltb, leb,
  if◌then◌else◌, length, take, get_elem?,
}

abbrev pub max_snapshots : ℕ
max_snapshots = 1024

abbrev pub max_events : ℕ
max_events = 65536

-- `Recorder`. The arrays are what has been written of them; the counts stand beside them since
-- `recorder_load` may set them higher.
pub record Recorder (E F : Type 0) : Type 0 where
  pub frames : List F
  pub frame_count : ℕ
  pub events : List E
  pub event_count : ℕ
  pub recording : Bool
  pub replaying : Bool
  pub replay_pos : ℕ
  pub start_time : ℕ

-- What `recorder_next_event` gives: `event_none`, an event, or a read past the events written.
pub data NextEvent (E : Type 0) : Type 0 where
  event_none fault : NextEvent E
  event : E → NextEvent E

module _ {E F : Type 0} where
  pub recorder_reset : Recorder E F
  recorder_reset = record {
    frames = [];
    frame_count = 0;
    events = [];
    event_count = 0;
    recording = false;
    replaying = false;
    replay_pos = 0;
    start_time = 0;
  }

  pub recorder_start : ℕ → Recorder E F
  unfolding recorder_reset
  recorder_start now = record recorder_reset { recording = true; start_time = now }

  pub recorder_stop : Recorder E F → Recorder E F
  recorder_stop r = record r { recording = false }

  pub recorder_record_frame : Recorder E F → F → Recorder E F
  recorder_record_frame r f =
      if not r.recording
      then r
      else if leb max_snapshots r.frame_count
      then r
      else record r { frames = r.frames ++ (f ∷ []); frame_count = r.frame_count + 1 }

  pub recorder_record_event : Recorder E F → E → Recorder E F
  recorder_record_event r ev =
      if not r.recording
      then r
      else if leb max_events r.event_count
      then r
      else record r { events = r.events ++ (ev ∷ []); event_count = r.event_count + 1 }

  -- From the frames and the events of the file, of which the arrays take what they have room for.
  pub recorder_load : List F → List E → Recorder E F
  unfolding recorder_reset
  recorder_load frames events = record recorder_reset {
    frames = take max_snapshots frames;
    frame_count = length frames;
    events = take max_events events;
    event_count = length events;
    replaying = true;
    replay_pos = 0;
  }

  pub recorder_next_event : Recorder E F → NextEvent E × Recorder E F
  recorder_next_event r =
      if not r.replaying
      then (event_none, r)
      else if leb r.event_count r.replay_pos
      then (event_none, r)
      else (
        elim (get_elem? r.events r.replay_pos) [ some ev ↦ event ev | none ↦ fault ],
        record r { replay_pos = r.replay_pos + 1 },
      )

  pub recorder_has_events : Recorder E F → Bool
  recorder_has_events r = r.replaying && ltb r.replay_pos r.event_count
