-- ===== src/Recorder/File/Reload.antt =====
-- src/core/recorder.c: a recording that was saved, loaded again and replayed.
use filly.Prelude.{ℕ, ◌≤◌, ◌<◌, ◌≡◌, true, false, none, some, List, length}
use filly.Prelude.Int.{pos, pos_part, neg_part}
use filly.CJson.{CJson, IsLawful}
use filly.Project.Reading.{IsInt}
use filly.Recorder.{Recorder, max_snapshots, max_events}
use filly.Recorder.File
use filly.Recorder.File.{RecordedEvent, RecordedFrame, Saving, Loading}

-- The numbers of an event are an `int`, and a `char`.
abbrev pub IsIntEvent : RecordedEvent → Type 0
IsIntEvent e = IsInt e.type × IsInt e.code × ((pos_part e.ch ≤ 127) × (neg_part e.ch ≤ 128))

-- What a file keeps of a frame.
abbrev pub kept : {J : Type 0} → RecordedFrame J → RecordedFrame J
kept f = record f { timestamp_ms = pos 0; ansi_buffer = none }

-- A response can be read back.
abbrev pub IsReadable : {J : Type 0} → CJson J → RecordedFrame J → Type 0
IsReadable C f = elim f.result [
  | none ↦ Unit {0}
  | some v ↦ C.parse (C.print_unformatted v) ≡ some v
]

module _ {J : Type 0} (C : CJson J) (law : IsLawful C) where
  -- A recording with at least one frame and no more frames and events than there is room for.
  pub record IsWhole (r : Recorder RecordedEvent (RecordedFrame J)) : Type 0 where
    pub frames_counted : r.frame_count ≡ length r.frames
    pub events_counted : r.event_count ≡ length r.events
    pub some_frames : 0 < length r.frames
    pub frames_fit : length r.frames ≤ max_snapshots
    pub events_fit : length r.events ≤ max_events

  -- The recorder that a loading makes of what it has read.
  abbrev replaying :
      List (RecordedFrame J) → ℕ → List RecordedEvent → ℕ → Recorder RecordedEvent (RecordedFrame J)
  replaying frames frame_count events event_count = record {
    frames = frames;
    frame_count = frame_count;
    events = events;
    event_count = event_count;
    recording = false;
    replaying = true;
    replay_pos = 0;
    start_time = 0;
  }
