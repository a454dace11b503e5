-- ===== src/Fil/Blocks/Rereading.antt =====
-- src/script/fil.c: how `eval_statement` hands a keymap statement over.
use filly.Prelude.{
  ℕ, ◌-◌, ◌≡◌, refl, ap, ap₂, ◌∙◌, some, List, [], ◌∷◌, ◌++◌, append_assoc, Text, length, arith,
  length-append,
}
use filly.Fil.Lexer.{
  next_token, word_type, tok_keymap, tok_ident, tok_animate, tok_stop, tok_pause, tok_resume,
}
use filly.Fil.Lexemes.{
  Lexeme, word, meant, IsLexeme, script, reading, next_token-script, next_token-reading,
}
use filly.Fil.Blocks.{
  EvalState, failed, token_number, read_again, eval_keymap_block, eval_block_statement,
}
use filly.Fil.Blocks.Keymaps.{keymap_word, keymap_word-type, Reading, Reading-is_at}

-- Six characters back from the end of a word of six characters, the word is read once more.
read_again-word :
    (before : Text) (c : ℕ) (w : Text) (ls : List Lexeme)
    → IsLexeme (word c w)
    → length (c ∷ w) ≡ 6
    → read_again 6 (reading (before ++ b' ' ∷ c ∷ w) (word c w) ls)
      ≡ reading (before ++ b' ' ∷ c ∷ w) (word c w) ls
unfolding read_again script
read_again-word before c w ls h six =
    let start = before ++ b' ' ∷ [] in
    let source : (before ++ b' ' ∷ c ∷ w) ++ b' ' ∷ script ls
        ≡ start ++ ((c ∷ w) ++ b' ' ∷ script ls) =
      simp append_assoc in
    let place : length (before ++ b' ' ∷ c ∷ w) - 6 ≡ length start =
      omega (arith, length-append before (b' ' ∷ c ∷ w), length-append before (b' ' ∷ [])) in
    ap₂
      (λ (src : Text) (pos : ℕ).
        next_token (record { src = src; pos = pos; current = meant (word c w) }))
      source place
    ∙ next_token-script (word c w) ls start [] (meant (word c w)) h tt
    ∙ ap (λ (q : Text). reading q (word c w) ls) (append_assoc before (b' ' ∷ []) (c ∷ w))

-- A keymap statement with a scope of six letters that is no keyword, such as `global`, is never read:
-- the statement fails whatever its block holds, and leaves the state as it was.
pub eval_block_statement-keymap :
    (passed : Text) (c : ℕ) (w : Text) (ls : List Lexeme) (s : EvalState)
    → IsLexeme (word c w)
    → word_type (c ∷ w) ≡ tok_ident
    → length (c ∷ w) ≡ 6
    → eval_block_statement (reading passed keymap_word (word c w ∷ ls)) s ≡ some (failed s)
unfolding eval_block_statement eval_keymap_block token_number
eval_block_statement-keymap passed c w ls s h i six =
    let p = reading passed keymap_word (word c w ∷ ls) in
    let r0 : Reading p keymap_word (word c w ∷ ls) = record { passed = passed; is = refl } in
    let r : Reading (read_again 6 (next_token p)) (word c w) ls = record {
      passed = passed ++ b' ' ∷ c ∷ w;
      is =
          ap (read_again 6) (next_token-reading passed keymap_word (word c w) ls h)
          ∙ read_again-word passed c w ls h six;
    } in
    ground (
      arith,
      keymap_word-type,
      Reading-is_at tok_animate r0,
      Reading-is_at tok_stop r0,
      Reading-is_at tok_pause r0,
      Reading-is_at tok_resume r0,
      Reading-is_at tok_keymap r0,
      Reading-is_at tok_keymap r,
      i,
    )
