-- ===== src/Fil/Blocks/Bindings.antt =====
-- src/script/fil.c and src/core/session.c: from a keymap block of a script to the keymap of a session.
use filly.Prelude.{
  ℕ, ◌≡◌, ap, sym, ◌∙◌, inl, inr, Option, none, some, List, [], ◌∷◌, ◌++◌, append-nil, append_assoc,
  Text, codes, text_eq, length, ◌==◌, if◌then◌else◌, Bool-cases, arith,
}
use filly.Widgets.Events.{KeyCode, esc, up, down, left, right, enter, tab, char}
use filly.Session.{
  KeyBinding, session_load_keymap_from_fil, session_load_keymap, load_action, key_code, action_code,
  key_char, first_char, is_null,
}
use filly.Session.Keymap.{HasNoBar, load_entry-keymap_entry}
use filly.Fil.Lexer.{word_type, tok_ident}
use filly.Fil.Lexemes.{Lexeme, word, opening, IsLexeme, reading}
use filly.Fil.Blocks.{EvalState, eval_keymap_block}
use filly.Fil.Blocks.Keymaps.{
  keymap_word, bindings_lexemes, AreQuotable, state_of, entries, eval_keymap_block-printed,
}

-- The keys with a name, and the actions, each with the key that it stands for.
abbrev named_keys : List (Text × KeyCode)
named_keys =
    (codes "Escape", esc)
    ∷ (codes "Enter", enter)
    ∷ (codes "Up", up)
    ∷ (codes "Down", down)
    ∷ (codes "Left", left)
    ∷ (codes "Right", right)
    ∷ (codes "Tab", tab)
    ∷ []

abbrev actions : List (Text × KeyCode)
actions =
    (codes "back", esc)
    ∷ (codes "select", enter)
    ∷ (codes "move-up", up)
    ∷ (codes "move-down", down)
    ∷ (codes "move-left", left)
    ∷ (codes "move-right", right)
    ∷ (codes "confirm", enter)
    ∷ (codes "cancel", esc)
    ∷ []

abbrev find : Text → List (Text × KeyCode) → Option KeyCode
find name [] = none
find name ((n, code) ∷ ns) = if text_eq name n then some code else find name ns

-- A key by its name or as a single character, with that character.
abbrev pressed : Text → Option (KeyCode × ℕ)
pressed key = elim (find key named_keys) [
  | some code ↦ some (code, 0)
  | none ↦ if length key == 1 then some (char, first_char key) else none
]

-- A key does what its action says, and what it did where there is no such action; `back` clears the
-- character. A binding of no key is dropped.
abbrev pub binding_of : Text → Text → Option KeyBinding
binding_of key action = elim (pressed key) [
  | none ↦ none
  | some (code, ch) ↦ some (record {
    key = key;
    code = elim (find action actions) [ some a ↦ a | none ↦ code ];
    ch = if text_eq action (codes "back") then 0 else ch;
  })
]

abbrev pub bindings_of : List (Text × Text) → List KeyBinding
bindings_of [] = []
bindings_of ((key, action) ∷ bs) = elim (binding_of key action) [
  | none ↦ bindings_of bs
  | some b ↦ b ∷ bindings_of bs
]

key_code-pressed :
    (key : Text)
    → pressed key
      ≡ (if is_null (key_code key) then none else some (key_code key, key_char (key_code key) key))
unfolding key_code
key_code-pressed key = ground arith

action_code-actions :
    (action : Text) (code : KeyCode) (ch : ℕ)
    → action_code action code ch ≡ (
      elim (find action actions) [ some a ↦ a | none ↦ code ],
      if text_eq action (codes "back") then 0 else ch,
    )
unfolding action_code
action_code-actions action code ch = ground arith

load_action-binding_of :
    (keymap : List KeyBinding) (key action : Text) (rest : List (Text × Text))
    → load_action keymap key action ++ bindings_of rest
      ≡ keymap ++ bindings_of ((key, action) ∷ rest)
unfolding load_action session_load_keymap
load_action-binding_of keymap key action rest = elim (Bool-cases (is_null (key_code key))) [
  | inl e ↦ ground (arith, key_code-pressed key)
  | inr e ↦ ground (
    arith,
    key_code-pressed key,
    action_code-actions action (key_code key) (key_char (key_code key) key),
    append_assoc keymap
        (record {
          key = key;
          code = elim (find action actions) [ some a ↦ a | none ↦ key_code key ];
          ch = if text_eq action (codes "back") then 0 else key_char (key_code key) key;
        }
          ∷ [])
        (bindings_of rest),
  )
]

abbrev pub HaveNoBar : List (Text × Text) → Type 0
HaveNoBar [] = Unit {0}
HaveNoBar ((key, action) ∷ bs) = HasNoBar key × HaveNoBar bs

-- What the session makes of the state that a block leaves.
abbrev pub session_keymap : List KeyBinding → Option EvalState → Option (List KeyBinding)
session_keymap keymap none = none
session_keymap keymap (some s) = some (session_load_keymap_from_fil keymap s.keymap_bindings)

session_load_keymap_from_fil-entries :
    (keymap : List KeyBinding) (scope : Text) (bs : List (Text × Text))
    → HasNoBar scope
    → HaveNoBar bs
    → session_load_keymap_from_fil keymap (entries scope bs) ≡ keymap ++ bindings_of bs
unfolding session_load_keymap_from_fil
session_load_keymap_from_fil-entries keymap scope [] h hs = sym (append-nil keymap)
session_load_keymap_from_fil-entries keymap scope ((key, action) ∷ bs) h (hk, hs) =
    ap (λ (k : List KeyBinding). session_load_keymap_from_fil k (entries scope bs))
      (load_entry-keymap_entry keymap scope key action h hk)
    ∙ session_load_keymap_from_fil-entries (load_action keymap key action) scope bs h hs
    ∙ load_action-binding_of keymap key action bs

-- A keymap block that is printed, with a scope that is no keyword, keys and actions that hold no quote,
-- and no bar in the scope and the keys, and that is read into a state without bindings, adds to the
-- session's keymap, behind what is there, the binding of each key that has a name or is one character:
-- to the key that its action stands for, or to itself if there is no such action. Others are dropped.
pub session_keymap-printed :
    (keymap : List KeyBinding) (passed : Text) (c : ℕ) (w : Text) (bs : List (Text × Text))
    (ls : List Lexeme) (s : EvalState)
    → IsLexeme (word c w)
    → word_type (c ∷ w) ≡ tok_ident
    → AreQuotable bs
    → HasNoBar (c ∷ w)
    → HaveNoBar bs
    → s.keymap_bindings ≡ []
    → session_keymap keymap (
        state_of (
          eval_keymap_block
            (reading passed keymap_word (word c w ∷ opening ∷ bindings_lexemes bs ls))
            s))
      ≡ some (keymap ++ bindings_of bs)
session_keymap-printed keymap passed c w bs ls s h i q bar bars empty =
    ap (session_keymap keymap) (eval_keymap_block-printed passed c w bs ls s h i q)
    ∙ ap (λ (es : List Text). some (session_load_keymap_from_fil keymap (es ++ entries (c ∷ w) bs)))
        empty
    ∙ ap some (session_load_keymap_from_fil-entries keymap (c ∷ w) bs bar bars)
