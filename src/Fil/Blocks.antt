-- ===== src/Fil/Blocks.antt =====
-- src/script/fil.c: the statements of a script that read no expression: keymap blocks and animations.
pub mod Keymaps
pub mod Rereading
pub mod Bindings
use filly.Prelude.{
  ℕ, zero, suc, ◌+◌, ◌-◌, Bool, true, false, ◌||◌, Option, none, some, List, [], ◌∷◌, ◌++◌, Text,
  codes, ◌==◌, if◌then◌else◌, length,
}
use filly.Session.{keymap_entry}
use filly.Fil.Lexer.{
  TokenType, Token, Parser, next_token, tok_when, tok_then, tok_end, tok_is, tok_with, tok_on,
  tok_key, tok_animate, tok_stop, tok_pause, tok_resume, tok_animation, tok_keymap, tok_style,
  tok_lbrace, tok_rbrace, tok_ident, tok_string, tok_number, tok_eof, tok_else, tok_let, tok_set,
  tok_to, tok_reject, tok_accept, tok_show, tok_for, tok_each, tok_in, tok_do, tok_not, tok_matches,
  tok_and, tok_or, tok_empty, tok_of, tok_less, tok_greater, tok_than,
}

-- The place of an enumerator in `TokenType`, by which two of them are compared.
unfoldable pub token_number : TokenType → ℕ
token_number tok_when = 0
token_number tok_then = 1
token_number tok_else = 2
token_number tok_end = 3
token_number tok_let = 4
token_number tok_set = 5
token_number tok_to = 6
token_number tok_reject = 7
token_number tok_with = 8
token_number tok_accept = 9
token_number tok_show = 10
token_number tok_for = 11
token_number tok_each = 12
token_number tok_in = 13
token_number tok_do = 14
token_number tok_is = 15
token_number tok_not = 16
token_number tok_matches = 17
token_number tok_and = 18
token_number tok_or = 19
token_number tok_empty = 20
token_number tok_of = 21
token_number tok_less = 22
token_number tok_greater = 23
token_number tok_than = 24
token_number tok_style = 25
token_number tok_animate = 26
token_number tok_stop = 27
token_number tok_pause = 28
token_number tok_resume = 29
token_number tok_animation = 30
token_number tok_on = 31
token_number tok_keymap = 32
token_number tok_key = 33
token_number tok_lbrace = 34
token_number tok_rbrace = 35
token_number tok_ident = 36
token_number tok_string = 37
token_number tok_number = 38
token_number tok_eof = 39

unfoldable pub is_at : TokenType → Parser → Bool
unfolding token_number
is_at t p = token_number p.current.type == token_number t

-- `EvalState`, as far as these statements write it.
pub record EvalState : Type 0 where
  pub keymap_bindings : List Text
  pub animation_names : List Text
  pub animation_targets : List Text

-- What a statement comes to: it is read, or it returns false, and the loop of `fil_eval` ends with the
-- state that it has left. `null_text` is none of C's: `strdup` of a token without a text.
pub data Outcome : Type 0 where
  read : Parser → EvalState → Outcome
  failed : EvalState → Outcome
  null_text out_of_fuel : Outcome

-- `if (!match(p, t)) return false;`
abbrev pub expect : TokenType → Parser → EvalState → (Parser → Outcome) → Outcome
expect t p s k = if is_at t p then k (next_token p) else failed s

-- `if (p->current.type != t) return false;`, a copy of the token's text, and `next_token(p)`.
abbrev pub take_text : TokenType → Parser → EvalState → (Text → Parser → Outcome) → Outcome
take_text t p s k =
    if is_at t p
    then (elim p.current.text [ none ↦ null_text | some text ↦ k text (next_token p) ])
    else failed s

-- The loop of `eval_keymap_block`; a round takes a token at least.
unfoldable pub keymap_loop : ℕ → Text → Parser → EvalState → Outcome
keymap_loop zero scope p s = out_of_fuel
keymap_loop (suc fuel) scope p s =
    let again = keymap_loop fuel scope in
    if is_at tok_rbrace p || is_at tok_eof p
    then read (if is_at tok_rbrace p then next_token p else p) s
    else expect tok_when p s λ p1. expect tok_key p1 s λ p2. expect tok_is p2 s λ p3.
      take_text tok_string p3 s λ key p4. expect tok_then p4 s λ p5.
        take_text tok_string p5 s λ action p6. expect tok_end p6 s λ p7.
          again p7
            (record s { keymap_bindings = s.keymap_bindings ++ keymap_entry scope key action ∷ [] })

unfoldable pub eval_keymap_block : Parser → EvalState → Outcome
eval_keymap_block p s = expect tok_keymap p s λ p1.
    take_text tok_ident p1 s
      λ scope p2. expect tok_lbrace p2 s λ p3. keymap_loop (length p.src + 1) scope p3 s

unfoldable pub eval_animate_statement : Parser → EvalState → Outcome
eval_animate_statement p s = expect tok_animate p s λ p1. take_text tok_string p1 s λ target p2.
    expect tok_with p2 s λ p3. take_text tok_string p3 s λ name p4. read p4 (record s {
      animation_names = s.animation_names ++ name ∷ [];
      animation_targets = s.animation_targets ++ target ∷ [];
    })

-- `animation on "target"`, after the word that says what is done.
animation_on : Text → Parser → EvalState → Outcome
animation_on action p s = expect tok_animation p s λ p1. expect tok_on p1 s λ p2.
    take_text tok_string p2 s λ target p3. read p3 (record s {
      animation_names = s.animation_names ++ action ∷ [];
      animation_targets = s.animation_targets ++ target ∷ [];
    })

pub eval_animation_control : Parser → EvalState → Outcome
unfolding animation_on
eval_animation_control p s =
    if is_at tok_stop p
    then animation_on (codes "stop") (next_token p) s
    else if is_at tok_pause p
    then animation_on (codes "pause") (next_token p) s
    else if is_at tok_resume p
    then animation_on (codes "resume") (next_token p) s
    else failed s

-- `p->pos -= k; next_token(p);`, behind a `match` of the keyword: where `eval_statement` hands over to
-- one of these.
unfoldable pub read_again : ℕ → Parser → Parser
read_again k p = next_token (record p { pos = p.pos - k })

-- The first six branches of `eval_statement` but that of a style block; `none` where none is taken.
pub eval_block_statement : Parser → EvalState → Option Outcome
unfolding read_again
eval_block_statement p s =
    if is_at tok_animate p
    then some (eval_animate_statement (read_again 7 (next_token p)) s)
    else if is_at tok_stop p
    then some (eval_animation_control (read_again 4 (next_token p)) s)
    else if is_at tok_pause p
    then some (eval_animation_control (read_again 5 (next_token p)) s)
    else if is_at tok_resume p
    then some (eval_animation_control (read_again 6 (next_token p)) s)
    else if is_at tok_keymap p
    then some (eval_keymap_block (read_again 6 (next_token p)) s)
    else none
