-- ===== src/Widgets/Terminal/Keys.antt =====
-- src/core/widgets/terminal_emulator.c: which keys the program gets, and the buffer of a search.
use filly.Prelude.{
  ℕ, ◌-◌, ◌≤◌, ◌≡◌, ◌⊎◌, inl, inr, refl, Bool, true, false, not, ◌&&◌, [], ◌∷◌, ◌++◌, Text, ◌==◌,
  if◌then◌else◌, length, length-take, length-append, arith, ◌∙◌, sym, append-nil, if_both,
}
use filly.Widgets.Events.{
  KeyCode, EventResult, press, esc, enter, tab, backspace, up, down, left, right, home, end, char,
}
use filly.Widgets.TextEditor.{printable}
use filly.Widgets.Terminal.{
  TerminalEmulatorData, closed, send, search_key, program_char, program_key,
  terminal_emulator_handle_event,
}

-- The text of a search and its closing NUL stay inside the 256 bytes of `search_buf`, and the terminal
-- of a program that runs is open.
pub record IsSound (d : TerminalEmulatorData) : Type 0 where
  pub search_fits : length d.search_buf ≤ 254
  pub runs_open : d.running ≡ true → d.is_open ≡ true

module _ (d : TerminalEmulatorData) (v : IsSound d) where
  search_key-IsSound :
      (key : KeyCode) (ch : ℕ)
      → IsSound (search_key d key ch).0 × ((search_key d key ch).0.sent ≡ d.sent)
  unfolding search_key
  search_key-IsSound esc ch = ground (arith, v.runs_open)
  search_key-IsSound enter ch = ground (arith, v.runs_open)
  search_key-IsSound backspace ch =
      ground (arith, v.runs_open, length-take (length d.search_buf - 1) d.search_buf)
  search_key-IsSound char ch = ground (arith, v.runs_open, length-append d.search_buf (ch ∷ []))
  search_key-IsSound _ ch = (v, refl)

  abbrev Grows : TerminalEmulatorData → Type 0
  Grows d' = IsSound d' × ((bytes : Text) × (d'.sent ≡ d.sent ++ bytes))

  send-Grows : (bytes : Text) → d.is_open ≡ true → Grows (send d bytes).0
  send-Grows bytes opened = (ground (arith, v.runs_open), (bytes, ground arith))

  keeps : (d' : TerminalEmulatorData) → IsSound d' → d'.sent ≡ d.sent → Grows d'
  keeps d' sound same = (sound, ([], same ∙ sym (append-nil d.sent)))

  program_char-Grows : (ch : ℕ) → d.running ≡ true → Grows (program_char d ch).0
  unfolding program_char
  program_char-Grows ch running =
      if_both (λ (r : TerminalEmulatorData × EventResult). Grows r.0) _
        (keeps _ (ground arith) refl)
        (if_both (λ (r : TerminalEmulatorData × EventResult). Grows r.0) (ch == b'/')
          (keeps _ (ground (arith, v.runs_open)) refl)
          (if_both (λ (r : TerminalEmulatorData × EventResult). Grows r.0) (printable ch)
            (send-Grows (ch ∷ []) (v.runs_open running))
            (keeps _ (ground (arith, v.runs_open)) refl)))

  program_key-Grows : (key : KeyCode) (ch : ℕ) → d.running ≡ true → Grows (program_key d key ch).0
  unfolding program_key
  program_key-Grows esc ch running = send-Grows _ (v.runs_open running)
  program_key-Grows enter ch running = send-Grows _ (v.runs_open running)
  program_key-Grows tab ch running = send-Grows _ (v.runs_open running)
  program_key-Grows backspace ch running = send-Grows _ (v.runs_open running)
  program_key-Grows up ch running = send-Grows _ (v.runs_open running)
  program_key-Grows down ch running = send-Grows _ (v.runs_open running)
  program_key-Grows left ch running = send-Grows _ (v.runs_open running)
  program_key-Grows right ch running = send-Grows _ (v.runs_open running)
  program_key-Grows home ch running = send-Grows _ (v.runs_open running)
  program_key-Grows end ch running = send-Grows _ (v.runs_open running)
  program_key-Grows char ch running = program_char-Grows ch running
  program_key-Grows _ ch running = keeps d v refl

-- What a key does to a terminal: it ends the widget, which changes nothing, if the program has ended and
-- no search is active; otherwise, if a search is active, the program gets nothing; and otherwise it runs,
-- and what it got before is kept, with some bytes behind it.
abbrev pub Serves : TerminalEmulatorData → TerminalEmulatorData × EventResult → Type 0
Serves d (d', o) =
    ((d.running ≡ false) × (d.search_active ≡ false) × (d' ≡ d) × (o ≡ closed))
    ⊎ (((d.search_active ≡ true) × (d'.sent ≡ d.sent))
        ⊎ ((d.running ≡ true)
            × (d.search_active ≡ false)
            × ((bytes : Text) × (d'.sent ≡ d.sent ++ bytes))))

-- Each key keeps the text of a search inside its buffer and the terminal of a running program open, and
-- serves the program: none of the keys typed in a search reach it, nor any after its end.
pub terminal_emulator_handle_event-Serves :
    (d : TerminalEmulatorData) (key : KeyCode) (ch : ℕ)
    → IsSound d
    → IsSound (terminal_emulator_handle_event d (press key ch)).0
      × Serves d (terminal_emulator_handle_event d (press key ch))
unfolding terminal_emulator_handle_event
terminal_emulator_handle_event-Serves d key ch v = by_state d.running d.search_active refl refl
  where
    Fine : TerminalEmulatorData × EventResult → Type 0
    Fine r = IsSound r.0 × Serves d r

    by_state :
        (running searching : Bool)
        → d.running ≡ running
        → d.search_active ≡ searching
        → Fine (
            if not running && not searching
            then (d, closed)
            else if searching
            then search_key d key ch
            else program_key d key ch)
    by_state false false r e = (v, inl (r, e, refl, refl))
    by_state true true r e =
        let (sound, same) = search_key-IsSound d v key ch in (sound, inr (inl (e, same)))
    by_state false true r e =
        let (sound, same) = search_key-IsSound d v key ch in (sound, inr (inl (e, same)))
    by_state true false r e =
        let (sound, more) = program_key-Grows d v key ch r in (sound, inr (inr (r, e, more)))
