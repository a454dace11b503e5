-- ===== src/Widgets/Terminal.antt =====
-- src/core/widgets/terminal_emulator.c: a program in a pseudo-terminal. What `select`, `read` and
-- `waitpid` return is a parameter. An `int` that overflows, after 2 GB of output, is not modelled.
pub mod Output
pub mod Keys
use filly.Prelude.{
  ℕ, zero, suc, ◌+◌, ◌-◌, ◌*◌, ◌≤◌, Bool, true, false, not, ◌&&◌, ◌||◌, Option, none, some, List,
  [], ◌∷◌, ◌++◌, Text, codes, ltb, leb, ◌==◌, if◌then◌else◌, length, take,
}
use filly.Widgets.Events.{
  KeyCode, Event, EventType, EventResult, Response, event_key, handled, unhandled, response, esc,
  enter, tab, backspace, up, down, left, right, home, end, char,
}
use filly.Widgets.TextEditor.{printable}

abbrev pub scrollback_size : ℕ
scrollback_size = 65536

-- `TerminalEmulatorData`, less what only the rendering reads. `sb_len` is the length of `scrollback`, and
-- `search_len` that of `search_buf`, neither with its closing NUL. `is_open` says that `pty_fd` is not
-- -1, and `sent` is what was written there.
pub record TerminalEmulatorData : Type 0 where
  pub dirty : Bool
  pub is_open : Bool
  pub sent : Text
  pub scrollback : Text
  pub sb_cap : ℕ
  pub running : Bool
  pub search_buf : Text
  pub search_active : Bool

pub terminal_emulator_widget_new : Bool → TerminalEmulatorData
terminal_emulator_widget_new forked = record {
  dirty = true;
  is_open = forked;
  sent = [];
  scrollback = [];
  sb_cap = scrollback_size;
  running = forked;
  search_buf = [];
  search_active = false;
}

-- One round of the loop of `te_read_output`; `none` is a write behind the buffer.
store_output : TerminalEmulatorData → Text → Option TerminalEmulatorData
store_output d buf =
    let cap =
      if leb d.sb_cap (length d.scrollback + length buf + 1) then d.sb_cap * 2 else d.sb_cap in
    if ltb cap (length d.scrollback + length buf + 1)
    then none
    else some (record d { scrollback = d.scrollback ++ buf; sb_cap = cap })

-- The loop: what each `read` returns, `none` for an end or an error, until `select` has nothing more.
read_loop : Bool → TerminalEmulatorData → List (Option Text) → Option TerminalEmulatorData
read_loop exited d [] = some (if exited then record d { running = false } else d)
read_loop exited d (none ∷ reads) = some (record d { running = false })
read_loop exited d (some buf ∷ reads) = elim (store_output d buf) [
  | none ↦ none
  | some d' ↦ read_loop exited d' reads
]

-- `FD_SET(-1, &fds)` is out of bounds too.
pub te_read_output : Bool → TerminalEmulatorData → List (Option Text) → Option TerminalEmulatorData
unfolding read_loop store_output
te_read_output exited d reads = if d.is_open then read_loop exited d reads else none

-- `write(d->pty_fd, …)`, which fails without an effect on -1, and what follows.
abbrev pub send : TerminalEmulatorData → Text → TerminalEmulatorData × EventResult
send d bytes =
    (record d { sent = if d.is_open then d.sent ++ bytes else d.sent; dirty = true }, handled)

search_char : TerminalEmulatorData → ℕ → TerminalEmulatorData
search_char d ch =
    if ch == b'/'
    then record d { search_active = false; search_buf = []; dirty = true }
    else if ltb (length d.search_buf) 254 && printable ch
    then record d { search_buf = d.search_buf ++ ch ∷ []; dirty = true }
    else record d { dirty = true }

-- The keys of an active search.
search_key : TerminalEmulatorData → KeyCode → ℕ → TerminalEmulatorData × EventResult
unfolding search_char
search_key d esc ch = (record d { search_active = false; search_buf = []; dirty = true }, handled)
search_key d enter ch = (record d { search_active = false; dirty = true }, handled)
search_key d backspace ch =
    (record d { search_buf = take (length d.search_buf - 1) d.search_buf; dirty = true }, handled)
search_key d char ch = (search_char d ch, handled)
search_key d _ ch = (d, unhandled)

program_char : TerminalEmulatorData → ℕ → TerminalEmulatorData × EventResult
program_char d ch =
    if ch == 4 && d.running
    then (record d { is_open = false; running = false; dirty = true }, handled)
    else if ch == b'/'
    then (record d { search_active = true; search_buf = []; dirty = true }, handled)
    else if printable ch
    then send d (ch ∷ [])
    else (record d { dirty = true }, handled)

-- The keys for the program; 27 is the escape character.
program_key : TerminalEmulatorData → KeyCode → ℕ → TerminalEmulatorData × EventResult
unfolding program_char
program_key d esc ch = send d (27 ∷ [])
program_key d enter ch = send d (13 ∷ [])
program_key d tab ch = send d (9 ∷ [])
program_key d backspace ch = send d (127 ∷ [])
program_key d up ch = send d (27 ∷ codes "[A")
program_key d down ch = send d (27 ∷ codes "[B")
program_key d left ch = send d (27 ∷ codes "[D")
program_key d right ch = send d (27 ∷ codes "[C")
program_key d home ch = send d (27 ∷ codes "[H")
program_key d end ch = send d (27 ∷ codes "[F")
program_key d char ch = program_char d ch
program_key d _ ch = (d, unhandled)

abbrev pub closed : EventResult
closed = response (record { result = none; cancelled = false })

terminal_key : TerminalEmulatorData → KeyCode → ℕ → TerminalEmulatorData × EventResult
unfolding search_key program_key
terminal_key d code ch =
    if not d.running && not d.search_active
    then (d, closed)
    else if d.search_active
    then search_key d code ch
    else program_key d code ch

pub terminal_emulator_handle_event :
    TerminalEmulatorData → Event → TerminalEmulatorData × EventResult
unfolding terminal_key
terminal_emulator_handle_event d ev = elim ev.type [
  | event_key ↦ terminal_key d ev.code ev.ch
  | _ ↦ (d, unhandled)
]
