-- ===== src/Session.antt =====
-- src/core/session.c: the keymap of a session and what its loop does with a key event. Text is bytes;
-- the sign of a `char` above 127 plays no part here.
pub mod Keymap
pub mod Keys
pub mod Run
use filly.Prelude.{
  ℕ, zero, suc, ◌+◌, Bool, true, false, not, ◌&&◌, ◌||◌, Option, none, some, List, [], ◌∷◌, ◌++◌,
  Text, codes, text_eq, ltb, ◌==◌, if◌then◌else◌, length, map,
}
use filly.Widgets.Events.{
  KeyCode, Event, EventType, event_key, press, char, esc, up, down, left, right, enter, tab, null,
}

pub record KeyBinding : Type 0 where
  pub key : Text
  pub code : KeyCode
  pub ch : ℕ

unfoldable pub session_load_keymap : List KeyBinding → Text → KeyCode → ℕ → List KeyBinding
session_load_keymap keymap key code ch = keymap ++ (record { key = key; code = code; ch = ch } ∷ [])

abbrev pub session_clear_keymap : List KeyBinding
session_clear_keymap = []

-- It clears the keymap first, so what was there before plays no part.
unfoldable pub load_default_keymap : List KeyBinding
unfolding session_load_keymap
load_default_keymap =
    let k1 = session_load_keymap session_clear_keymap (codes "j") down 0 in
    let k2 = session_load_keymap k1 (codes "k") up 0 in
    let k3 = session_load_keymap k2 (codes "q") esc 0 in
    let k4 = session_load_keymap k3 (codes "h") left 0 in
    let k5 = session_load_keymap k4 (codes "l") right 0 in
    let k6 = session_load_keymap k5 (codes "i") enter 0 in session_load_keymap k6 (codes "\t") tab 0

pub is_printable_paste : Text → Bool
is_printable_paste [] = true
is_printable_paste (c ∷ cs) =
    if ltb c 32 && not (c == b'\n' || (c == b'\t' || c == b'\r'))
    then false
    else if c == 127
    then false
    else is_printable_paste cs

-- `strchr(s, '|')`, with the text before and after the bar.
pub split_bar : Text → Option (Text × Text)
split_bar [] = none
split_bar (c ∷ cs) =
    let rest = split_bar cs in
    if c == b'|' then some ([], cs) else elim rest [ some r ↦ some (c ∷ r.0, r.1) | none ↦ none ]

-- The chain of `strcmp(key, …)`.
unfoldable pub key_code : Text → KeyCode
key_code key =
    if text_eq key (codes "Escape")
    then esc
    else if text_eq key (codes "Enter")
    then enter
    else if text_eq key (codes "Up")
    then up
    else if text_eq key (codes "Down")
    then down
    else if text_eq key (codes "Left")
    then left
    else if text_eq key (codes "Right")
    then right
    else if text_eq key (codes "Tab")
    then tab
    else if length key == 1
    then char
    else null

abbrev pub first_char : Text → ℕ
first_char [] = 0
first_char (c ∷ cs) = c

-- `(code == KEY_CHAR) ? key[0] : 0`
abbrev pub key_char : KeyCode → Text → ℕ
key_char char key = first_char key
key_char _ key = 0

-- The chain of `strcmp(action, …)`; only "back" sets `ch`.
unfoldable pub action_code : Text → KeyCode → ℕ → KeyCode × ℕ
action_code action code ch =
    if text_eq action (codes "back")
    then (esc, 0)
    else if text_eq action (codes "select")
    then (enter, ch)
    else if text_eq action (codes "move-up")
    then (up, ch)
    else if text_eq action (codes "move-down")
    then (down, ch)
    else if text_eq action (codes "move-left")
    then (left, ch)
    else if text_eq action (codes "move-right")
    then (right, ch)
    else if text_eq action (codes "confirm")
    then (enter, ch)
    else if text_eq action (codes "cancel")
    then (esc, ch)
    else (code, ch)

abbrev pub is_null : KeyCode → Bool
is_null null = true
is_null _ = false

unfoldable pub load_action : List KeyBinding → Text → Text → List KeyBinding
load_action keymap key action =
    let code = key_code key in
    let (c, ch) = action_code action code (key_char code key) in
    if is_null code then keymap else session_load_keymap keymap key c ch

-- One entry of `keymap_bindings`; an entry without two bars is skipped.
pub load_entry : List KeyBinding → Text → List KeyBinding
load_entry keymap entry = elim (split_bar entry) [
  | none ↦ keymap
  | some r ↦ elim (split_bar r.1) [ none ↦ keymap | some q ↦ load_action keymap q.0 q.1 ]
]

unfoldable pub session_load_keymap_from_fil : List KeyBinding → List Text → List KeyBinding
session_load_keymap_from_fil keymap [] = keymap
session_load_keymap_from_fil keymap (e ∷ es) = session_load_keymap_from_fil (load_entry keymap e) es

-- src/script/fil.c, `eval_keymap_block`: `sprintf(entry, "%s|%s|%s", scope, key, action)`.
pub keymap_entry : Text → Text → Text → Text
keymap_entry scope key action = scope ++ (b'|' ∷ (key ++ (b'|' ∷ action)))

abbrev pub is_char : KeyCode → Bool
is_char char = true
is_char _ = false

abbrev is_tab : KeyCode → Bool
is_tab tab = true
is_tab _ = false

-- The loop over the keymap, which the first binding of the character ends.
unfoldable pub remap : List KeyBinding → Event → Event
remap [] ev = ev
remap (b ∷ bs) ev =
    if length b.key == 1 && (is_char ev.code && ev.ch == first_char b.key)
    then record { type = ev.type; code = b.code; ch = b.ch }
    else remap bs ev

-- What the loop has at hand: `accepts_text_input` of the widget, the text on the clipboard if there is
-- one, whether the backend can copy, and whether `undo_stack_undo` and `undo_stack_redo` succeed.
pub record SessionState : Type 0 where
  pub keymap : List KeyBinding
  pub accepts_text_input : Bool
  pub clipboard : Option Text
  pub can_copy : Bool
  pub can_undo : Bool
  pub can_redo : Bool

-- What becomes of a key event: events for the widget's handler (a paste ends without a response of
-- it), a text for the backend's clipboard, an undo, a redo, or Tab. `focus_moved` is what `tab_key` of
-- RenderTree.Focus says, on `last_render_tree`, which is never assigned and so has no tab stop.
pub data KeyOutcome : Type 0 where
  ignored undone redone focus_moved : KeyOutcome
  copied : Text → KeyOutcome
  pasted : List Event → KeyOutcome
  delivered : Event → KeyOutcome

paste : Option Text → KeyOutcome
paste none = pasted []
paste (some text) = if is_printable_paste text then pasted (map (press char) text) else pasted []

unfoldable pub deliver : SessionState → Event → KeyOutcome
deliver s ev = delivered (if s.accepts_text_input then ev else remap s.keymap ev)

abbrev is_key_event : EventType → Bool
is_key_event event_key = true
is_key_event _ = false

-- The branches of `session_run` from that for ^C on, in its order; only the events of keys that none
-- of them takes go through the keymap.
unfoldable pub key_event : SessionState → Event → KeyOutcome
unfolding paste
key_event s ev =
    if not (is_key_event ev.type)
    then delivered ev
    else if is_char ev.code && ev.ch == 3
    then elim s.clipboard [
      | some text ↦ if s.can_copy then copied text else ignored
      | none ↦ ignored
    ]
    else if is_char ev.code && ev.ch == 22
    then paste s.clipboard
    else if is_char ev.code && (ev.ch == 26 && s.can_undo)
    then undone
    else if is_char ev.code && (ev.ch == 25 && s.can_redo)
    then redone
    else if is_tab ev.code
    then focus_moved
    else deliver s ev
