-- ===== src/Session/Keys.antt =====
-- src/core/session.c: which key events reach the widget, and as what.
use filly.Prelude.{ℕ, ◌≤◌, ◌≡◌, ◌≢◌, ◌⊎◌, true, some, [], ◌∷◌, Text, map, All, arith}
use filly.Widgets.Events.{press, char}
use filly.Session.{SessionState, pasted, key_event, is_printable_paste}

-- A byte that a paste may have.
abbrev pub IsPrintable : ℕ → Type 0
IsPrintable c = (c ≢ 127) × ((32 ≤ c) ⊎ ((c ≡ b'\n') ⊎ ((c ≡ b'\t') ⊎ (c ≡ b'\r'))))

is_printable_paste-IsPrintable : (cs : Text) → is_printable_paste cs ≡ true → All IsPrintable cs
unfolding is_printable_paste
is_printable_paste-IsPrintable [] h = tt
is_printable_paste-IsPrintable (c ∷ cs) h = ground (arith, is_printable_paste-IsPrintable cs)

-- With a text on the clipboard, ^V hands the widget either nothing or the whole text, a key for
-- each byte, and then no byte is a control character other than newline, tab and carriage return.
pub key_event_paste :
    (s : SessionState) (text : Text)
    → s.clipboard ≡ some text
    → (key_event s (press char 22) ≡ pasted [])
      ⊎ ((key_event s (press char 22) ≡ pasted (map (press char) text)) × All IsPrintable text)
unfolding key_event
key_event_paste s text h = ground (arith, is_printable_paste-IsPrintable text)
