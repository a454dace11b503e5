-- ===== src/Widgets/Terminal/Output.antt =====
-- src/core/widgets/terminal_emulator.c: the buffer of the program's output.
use filly.Prelude.{
  ◌+◌, ◌*◌, ◌≤◌, ◌≡◌, refl, Bool, true, false, Option, none, some, List, [], ◌∷◌, ◌++◌, Text, leb,
  if◌then◌else◌, length, All, arith, length-append, append_assoc, append-nil, ◌∙◌, ap, sym,
}
use filly.Widgets.Events.{press, char}
use filly.Widgets.Terminal.{
  TerminalEmulatorData, scrollback_size, store_output, read_loop, te_read_output,
  terminal_emulator_handle_event,
}

-- The buffer has its first size at least, and room for what it holds and the closing NUL.
pub record IsValid (d : TerminalEmulatorData) : Type 0 where
  pub room : length d.scrollback + 1 ≤ d.sb_cap
  pub large : scrollback_size ≤ d.sb_cap

-- A read returns 4095 bytes at most.
abbrev pub Fits : Option Text → Type 0
Fits none = Unit {0}
Fits (some buf) = length buf ≤ 4095

-- What the reads return, up to an end or an error.
pub output : List (Option Text) → Text
output [] = []
output (none ∷ reads) = []
output (some buf ∷ reads) = buf ++ output reads

store_output_lem :
    (d : TerminalEmulatorData) (buf : Text)
    → IsValid d
    → length buf ≤ 4095
    → (d' : TerminalEmulatorData) × (store_output d buf ≡ some d')
      × IsValid d'
      × (d'.scrollback ≡ d.scrollback ++ buf)
unfolding store_output
store_output_lem d buf v h =
    let cap =
      if leb d.sb_cap (length d.scrollback + length buf + 1) then d.sb_cap * 2 else d.sb_cap in
    (
      record d { scrollback = d.scrollback ++ buf; sb_cap = cap },
      ground arith,
      ground (arith, length-append d.scrollback buf),
      refl,
    )

read_loop_lem :
    (exited : Bool) (reads : List (Option Text)) (d : TerminalEmulatorData)
    → IsValid d
    → All Fits reads
    → (d' : TerminalEmulatorData) × (read_loop exited d reads ≡ some d')
      × IsValid d'
      × (d'.scrollback ≡ d.scrollback ++ output reads)
unfolding read_loop output
read_loop_lem true [] d v h =
    (record d { running = false }, refl, ground arith, sym (append-nil d.scrollback))
read_loop_lem false [] d v h = (d, refl, v, sym (append-nil d.scrollback))
read_loop_lem exited (none ∷ reads) d v h =
    (record d { running = false }, refl, ground arith, sym (append-nil d.scrollback))
read_loop_lem exited (some buf ∷ reads) d v h =
    let (d₁, e, v₁, s₁) = store_output_lem d buf v h.0 in
    let (d₂, f, v₂, s₂) = read_loop_lem exited reads d₁ v₁ h.1 in
    (
      d₂,
      rw (e, read_loop) f,
      v₂,
      s₂ ∙ (ap (λ (t : Text). t ++ output reads) s₁ ∙ append_assoc d.scrollback buf (output reads)),
    )

-- While the terminal is open, reading never writes behind the buffer, whatever the reads return: the
-- text so far is kept, and all that they return, up to an end or an error, is added behind it.
pub te_read_output_appends :
    (exited : Bool) (reads : List (Option Text)) (d : TerminalEmulatorData)
    → d.is_open ≡ true
    → IsValid d
    → All Fits reads
    → (d' : TerminalEmulatorData) × (te_read_output exited d reads ≡ some d')
      × IsValid d'
      × (d'.scrollback ≡ d.scrollback ++ output reads)
unfolding te_read_output
te_read_output_appends exited reads d opened v h =
    let (d', e, v', s) = read_loop_lem exited reads d v h in (d', ground (arith, e), v', s)

-- After ^D has closed the terminal, the next rendering reads from the descriptor -1.
pub te_read_output_closed :
    (exited : Bool) (reads : List (Option Text)) (d : TerminalEmulatorData)
    → d.running ≡ true
    → d.search_active ≡ false
    → te_read_output exited (terminal_emulator_handle_event d (press char 4)).0 reads ≡ none
unfolding te_read_output terminal_emulator_handle_event
te_read_output_closed exited reads d running no_search = rw (running, no_search) refl
