-- ===== src/Fil/Blocks/Keymaps.antt =====
-- src/script/fil.c: a keymap block that was printed is read as its bindings.
use filly.Prelude.{
  ℕ, zero, suc, ◌+◌, ◌<◌, ◌≤◌, ◌≡◌, refl, ap, ◌∙◌, Option, none, some, List, [], ◌∷◌, ◌++◌,
  append-nil, append_assoc, Text, codes, length, arith, ◌==◌, length-append,
}
use filly.Session.{keymap_entry}
use filly.Fil.Lexer.{
  TokenType, Parser, next_token, word_type, tok_when, tok_then, tok_end, tok_is, tok_key,
  tok_keymap, tok_lbrace, tok_rbrace, tok_ident, tok_string, tok_eof, starts_word, in_word,
}
use filly.Fil.Lexemes.{
  Lexeme, opening, closing, quoted, word, shown, meant, IsLexeme, script, reading,
  next_token-reading,
}
use filly.Fil.Blocks.{EvalState, Outcome, read, is_at, token_number, keymap_loop, eval_keymap_block}

-- The parser has just read `l`, and `ls` is left.
pub record Reading (p : Parser) (l : Lexeme) (ls : List Lexeme) : Type 0 where
  pub passed : Text
  pub is : p ≡ reading passed l ls

module _ {p : Parser} {l : Lexeme} {ls : List Lexeme} where
  pub Reading-is_at :
      (t : TokenType) → Reading p l ls → is_at t p ≡ (token_number (meant l).type == token_number t)
  unfolding is_at
  Reading-is_at t r = ap (λ (q : Parser). token_number q.current.type == token_number t) r.is

  Reading-text : Reading p l ls → p.current.text ≡ (meant l).text
  Reading-text r = ap (λ (q : Parser). q.current.text) r.is

pub Reading-next_token :
    {p : Parser} (l m : Lexeme) (ls : List Lexeme)
    → IsLexeme m
    → Reading p l (m ∷ ls)
    → Reading (next_token p) m ls
Reading-next_token l m ls h r = record {
  passed = r.passed ++ b' ' ∷ shown m;
  is = ap next_token r.is ∙ next_token-reading r.passed l m ls h;
}

abbrev when_word : Lexeme
when_word = word b'w' (codes "hen")

abbrev key_word : Lexeme
key_word = word b'k' (codes "ey")

abbrev is_word : Lexeme
is_word = word b'i' (codes "s")

abbrev then_word : Lexeme
then_word = word b't' (codes "hen")

abbrev end_word : Lexeme
end_word = word b'e' (codes "nd")

abbrev pub keymap_word : Lexeme
keymap_word = word b'k' (codes "eymap")

-- `when key is "…" then "…" end`
abbrev pub binding_lexemes : Text → Text → List Lexeme → List Lexeme
binding_lexemes key action ls =
    when_word ∷ key_word ∷ is_word ∷ quoted key ∷ then_word ∷ quoted action ∷ end_word ∷ ls

abbrev pub bindings_lexemes : List (Text × Text) → List Lexeme → List Lexeme
bindings_lexemes [] ls = closing ∷ ls
bindings_lexemes ((key, action) ∷ bs) ls = binding_lexemes key action (bindings_lexemes bs ls)

words :
    IsLexeme when_word
    × IsLexeme key_word
    × IsLexeme is_word
    × IsLexeme then_word
    × IsLexeme end_word
unfolding starts_word in_word
words = (
  (refl, (refl, (refl, (refl, tt)))),
  (refl, (refl, (refl, tt))),
  (refl, (refl, tt)),
  (refl, (refl, (refl, (refl, tt)))),
  (refl, (refl, (refl, tt))),
)

-- One round of the loop.
keymap_round :
    (fuel : ℕ) (scope key action : Text) (p : Parser) (s : EvalState) (l : Lexeme)
    (ls : List Lexeme)
    → IsLexeme (quoted key)
    → IsLexeme (quoted action)
    → Reading p l (binding_lexemes key action ls)
    → (q : Parser) × Reading q end_word ls
      × (keymap_loop (suc fuel) scope (next_token p) s
          ≡ keymap_loop fuel scope (next_token q) (record s {
            keymap_bindings = s.keymap_bindings ++ keymap_entry scope key action ∷ [];
          }))
unfolding keymap_loop token_number word_type
keymap_round fuel scope key action p s l ls hk ha r =
    let (wh, wk, wi, wt, we) = words in
    let r1 = Reading-next_token l when_word _ wh r in
    let r2 = Reading-next_token when_word key_word _ wk r1 in
    let r3 = Reading-next_token key_word is_word _ wi r2 in
    let r4 = Reading-next_token is_word (quoted key) _ hk r3 in
    let r5 = Reading-next_token (quoted key) then_word _ wt r4 in
    let r6 = Reading-next_token then_word (quoted action) _ ha r5 in
    let r7 = Reading-next_token (quoted action) end_word ls we r6 in
    (
      next_token (next_token (next_token (next_token (next_token (next_token (next_token p)))))),
      r7,
      ground (
        arith,
        Reading-is_at tok_rbrace r1,
        Reading-is_at tok_eof r1,
        Reading-is_at tok_when r1,
        Reading-is_at tok_key r2,
        Reading-is_at tok_is r3,
        Reading-is_at tok_string r4,
        Reading-text r4,
        Reading-is_at tok_then r5,
        Reading-is_at tok_string r6,
        Reading-text r6,
        Reading-is_at tok_end r7,
      ),
    )

-- The state that a statement that was read leaves.
abbrev pub state_of : Outcome → Option EvalState
state_of (read p s) = some s
state_of _ = none

abbrev pub entries : Text → List (Text × Text) → List Text
entries scope [] = []
entries scope ((key, action) ∷ bs) = keymap_entry scope key action ∷ entries scope bs

-- Keys and actions without a quote.
abbrev pub AreQuotable : List (Text × Text) → Type 0
AreQuotable [] = Unit {0}
AreQuotable ((key, action) ∷ bs) = IsLexeme (quoted key) × IsLexeme (quoted action) × AreQuotable bs

with_bindings : EvalState → List Text → EvalState
with_bindings s es = record s { keymap_bindings = s.keymap_bindings ++ es }

keymap_loop_lem :
    (fuel : ℕ) (scope : Text) (bs : List (Text × Text)) (p : Parser) (s : EvalState) (l : Lexeme)
    (ls : List Lexeme)
    → length bs < fuel
    → AreQuotable bs
    → Reading p l (bindings_lexemes bs ls)
    → state_of (keymap_loop fuel scope (next_token p) s) ≡ some (with_bindings s (entries scope bs))
unfolding keymap_loop with_bindings token_number word_type
keymap_loop_lem zero scope bs p s l ls k h r = absurd (omega arith)
keymap_loop_lem (suc fuel) scope [] p s l ls k h r =
    let r1 = Reading-next_token l closing ls tt r in
    ground (arith, Reading-is_at tok_rbrace r1, append-nil s.keymap_bindings)
keymap_loop_lem (suc fuel) scope ((key, action) ∷ bs) p s l ls k (hk, ha, hs) r =
    let (q, rq, e) = keymap_round fuel scope key action p s l (bindings_lexemes bs ls) hk ha r in
    let s' = with_bindings s (keymap_entry scope key action ∷ []) in
    ap state_of e
    ∙ keymap_loop_lem fuel scope bs q s' end_word ls (omega arith) hs rq
    ∙ ap (λ (es : List Text). some (record s { keymap_bindings = es }))
        (append_assoc s.keymap_bindings (keymap_entry scope key action ∷ []) (entries scope bs))

bindings-le :
    (bs : List (Text × Text)) (ls : List Lexeme)
    → length bs ≤ length (script (bindings_lexemes bs ls))
unfolding script
bindings-le [] ls = omega arith
bindings-le ((key, action) ∷ bs) ls =
    let rest = b' ' ∷ (shown end_word ++ b' ' ∷ script (bindings_lexemes bs ls)) in
    let middle = b' ' ∷ (shown then_word ++ b' ' ∷ (shown (quoted action) ++ rest)) in
    omega (
      arith,
      bindings-le bs ls,
      length-append (action ++ b'"' ∷ []) rest,
      length-append (key ++ b'"' ∷ []) middle,
    )

fuel_enough :
    (passed : Text) (c : ℕ) (w : Text) (bs : List (Text × Text)) (ls : List Lexeme)
    → length bs
      < length (reading passed keymap_word (word c w ∷ opening ∷ bindings_lexemes bs ls)).src + 1
unfolding script
fuel_enough passed c w bs ls =
    let inner = b' ' ∷ b'{' ∷ b' ' ∷ script (bindings_lexemes bs ls) in
    omega (
      arith,
      bindings-le bs ls,
      length-append (c ∷ w) inner,
      length-append passed (b' ' ∷ ((c ∷ w) ++ inner)),
    )

pub keymap_word-type : word_type (codes "keymap") ≡ tok_keymap
unfolding word_type
keymap_word-type = refl

-- A keymap block that is printed with a scope that is no keyword and with keys and actions that hold no
-- quote, read from its first word on, leaves the entry of each binding behind those that were there,
-- in their order.
pub eval_keymap_block-printed :
    (passed : Text) (c : ℕ) (w : Text) (bs : List (Text × Text)) (ls : List Lexeme) (s : EvalState)
    → IsLexeme (word c w)
    → word_type (c ∷ w) ≡ tok_ident
    → AreQuotable bs
    → state_of (
        eval_keymap_block
          (reading passed keymap_word (word c w ∷ opening ∷ bindings_lexemes bs ls))
          s)
      ≡ some (record s { keymap_bindings = s.keymap_bindings ++ entries (c ∷ w) bs })
unfolding eval_keymap_block with_bindings token_number
eval_keymap_block-printed passed c w bs ls s h i q =
    let p = reading passed keymap_word (word c w ∷ opening ∷ bindings_lexemes bs ls) in
    let r0 : Reading p keymap_word (word c w ∷ opening ∷ bindings_lexemes bs ls) = record {
      passed = passed;
      is = refl;
    } in
    let r1 = Reading-next_token keymap_word (word c w) (opening ∷ bindings_lexemes bs ls) h r0 in
    let r2 = Reading-next_token (word c w) opening (bindings_lexemes bs ls) tt r1 in
    let enough = fuel_enough passed c w bs ls in
    let loop =
      keymap_loop_lem (length p.src + 1) (c ∷ w) bs (next_token (next_token p)) s opening ls enough
        q r2 in
    ground (
      arith,
      keymap_word-type,
      Reading-is_at tok_keymap r0,
      Reading-is_at tok_ident r1,
      Reading-text r1,
      Reading-is_at tok_lbrace r2,
      loop,
    )
