-- ===== src/Tests/Scripts.antt =====
-- The keymap blocks of src/script/fil.c at concrete inputs.
use filly.Prelude.{◌≡◌, refl, some, List, [], ◌∷◌, ◌++◌, Text, codes, arith}
use filly.Fil.Lexer.{word_type, tok_ident, starts_word, in_word, not_quote}
use filly.Fil.Lexemes.{IsLexeme, word, opening, reading}
use filly.Fil.Blocks.{EvalState, failed, eval_keymap_block, eval_block_statement}
use filly.Fil.Blocks.Keymaps.{
  keymap_word, bindings_lexemes, state_of, entries, AreQuotable, eval_keymap_block-printed,
}
use filly.Fil.Blocks.Bindings.{session_keymap, bindings_of, session_keymap-printed}
use filly.Fil.Blocks.Rereading.{eval_block_statement-keymap}

abbrev no_state : EvalState
no_state = record { keymap_bindings = []; animation_names = []; animation_targets = [] }

abbrev quit_binding : List (Text × Text)
quit_binding = (codes "q", codes "cancel") ∷ []

global-IsLexeme : IsLexeme (word b'g' (codes "lobal"))
unfolding starts_word in_word
global-IsLexeme = (refl, (refl, (refl, (refl, (refl, (refl, tt))))))

global-type : word_type (b'g' ∷ codes "lobal") ≡ tok_ident
unfolding word_type
global-type = refl

quit_binding-AreQuotable : AreQuotable quit_binding
unfolding not_quote
quit_binding-AreQuotable = ((refl, tt), (refl, (refl, (refl, (refl, (refl, (refl, tt)))))), tt)

eval_keymap_block-printed_example :
    state_of (
      eval_keymap_block
        (reading
          (codes "keymap")
          keymap_word
          (word b'g' (codes "lobal") ∷ opening ∷ bindings_lexemes quit_binding []))
        no_state)
    ≡ some (record no_state { keymap_bindings = [] ++ entries (codes "global") quit_binding })
eval_keymap_block-printed_example =
    eval_keymap_block-printed (codes "keymap") b'g' (codes "lobal") quit_binding [] no_state
      global-IsLexeme global-type quit_binding-AreQuotable

eval_block_statement-keymap_example :
    eval_block_statement
      (reading
        (codes "keymap")
        keymap_word
        (word b'g' (codes "lobal") ∷ opening ∷ bindings_lexemes quit_binding []))
      no_state
    ≡ some (failed no_state)
eval_block_statement-keymap_example =
    eval_block_statement-keymap (codes "keymap") b'g' (codes "lobal")
      (opening ∷ bindings_lexemes quit_binding []) no_state global-IsLexeme global-type refl

session_keymap-printed_example :
    session_keymap [] (
      state_of (
        eval_keymap_block
          (reading
            (codes "keymap")
            keymap_word
            (word b'g' (codes "lobal") ∷ opening ∷ bindings_lexemes quit_binding []))
          no_state))
    ≡ some ([] ++ bindings_of quit_binding)
session_keymap-printed_example =
    session_keymap-printed [] (codes "keymap") b'g' (codes "lobal") quit_binding [] no_state
      global-IsLexeme global-type quit_binding-AreQuotable (ground arith) (ground arith) refl
