-- ===== src/Tests/Wire.antt =====
-- src/protocol/msgpack.c and src/core/recorder.c at concrete inputs.
use filly.Prelude.{
  ℕ, ◌≡◌, refl, true, false, List, [], ◌∷◌, ◌++◌, map, Text, codes, take, ◌-◌, arith,
}
use filly.Prelude.Int.{negsuc}
use filly.MsgPack.{
  Writer, Reader, writer_init, msgpack_write_int, msgpack_write_str, msgpack_read_int,
  msgpack_read_str, msgpack_write_array_header, msgpack_write_map_header, msgpack_read_array,
  msgpack_read_map,
}
use filly.MsgPack.RoundTrip.{msgpack_read_int-write_int}
use filly.MsgPack.Strings.{msgpack_read_str-write_str, read_headers-write_headers}
use filly.Recorder.{Recorder, event, event_none, max_events, recorder_load}
use filly.Recorder.Replay.{record_events, record_events_kept, replay, replay-recorder_load}

abbrev room : Writer
room = writer_init 64

msgpack_read_int-write_int_example :
    (bs : List ℕ) × ((msgpack_write_int room (negsuc 299)).buf ≡ room.buf ++ bs)
    × ((r : Reader) → msgpack_read_int (bs ++ r) ≡ (negsuc 299, r))
msgpack_read_int-write_int_example =
    msgpack_read_int-write_int room (negsuc 299) (omega arith) (omega arith)

msgpack_read_str-write_str_example :
    (bs : List ℕ) × ((msgpack_write_str room (codes "theme")).buf ≡ room.buf ++ bs)
    × ((r : Reader) → msgpack_read_str (bs ++ r) ≡ (codes "theme", r))
msgpack_read_str-write_str_example =
    msgpack_read_str-write_str room (codes "theme") (omega arith) (omega arith)

read_headers-write_headers_run :
    (arrays maps : List ℕ) × ((msgpack_write_array_header room 70000).buf ≡ room.buf ++ arrays)
    × ((msgpack_write_map_header room 70000).buf ≡ room.buf ++ maps)
    × ((r : Reader) → msgpack_read_array (arrays ++ r) ≡ (70000, r))
    × ((r : Reader) → msgpack_read_map (maps ++ r) ≡ (70000, r))
read_headers-write_headers_run = read_headers-write_headers room 70000 (omega arith) (omega arith)

-- A recording of keys, with one key in it.
abbrev one_key : Recorder ℕ Text
one_key = record {
  frames = [];
  frame_count = 0;
  events = 106 ∷ [];
  event_count = 1;
  recording = true;
  replaying = false;
  replay_pos = 0;
  start_time = 0;
}

record_events_kept_run :
    (record_events one_key (107 ∷ 113 ∷ [])).events
    ≡ one_key.events ++ take (max_events - one_key.event_count) (107 ∷ 113 ∷ [])
record_events_kept_run = record_events_kept one_key (107 ∷ 113 ∷ []) refl (omega arith)

abbrev two_events : List ℕ
two_events = 106 ∷ 113 ∷ []

replay-recorder_load_example :
    replay 3 (recorder_load (codes "menu" ∷ []) two_events)
    ≡ map event two_events ++ (event_none ∷ [])
replay-recorder_load_example = replay-recorder_load (codes "menu" ∷ []) two_events (omega arith)
