-- ===== src/Fil/Lexer.antt =====
-- src/script/fil.c: the lexer. A script is the bytes of a C string, which end where its NUL stands; the
-- classes of characters are those of the C locale.
use filly.Prelude.{
  ℕ, suc, ◌+◌, ◌-◌, ◌*◌, Bool, not, ◌&&◌, ◌||◌, Option, none, some, List, [], ◌∷◌, Text, String,
  codes, text_eq, leb, ltb, ◌==◌, if◌then◌else◌, take, drop,
}

pub data TokenType : Type 0 where
  tok_when tok_then tok_else tok_end tok_let tok_set tok_to : TokenType
  tok_reject tok_with tok_accept tok_show tok_for tok_each : TokenType
  tok_in tok_do tok_is tok_not tok_matches tok_and tok_or : TokenType
  tok_empty tok_of tok_less tok_greater tok_than : TokenType
  tok_style tok_animate tok_stop tok_pause tok_resume : TokenType
  tok_animation tok_on tok_keymap tok_key tok_lbrace tok_rbrace : TokenType
  tok_ident tok_string tok_number tok_eof : TokenType

-- `num` is `none` where `atoi` has no defined result.
pub record Token : Type 0 where
  pub type : TokenType
  pub text : Option Text
  pub num : Option ℕ

-- `Parser`, less the callbacks that the lexer does not use.
pub record Parser : Type 0 where
  pub src : Text
  pub pos : ℕ
  pub current : Token

abbrev pub make_token : TokenType → Option Text → Option ℕ → Token
make_token type text num = record { type = type; text = text; num = num }

unfoldable pub is_space : ℕ → Bool
is_space c = c == b' ' || (c == b'\t' || (c == b'\n' || c == 13))

unfoldable pub is_digit : ℕ → Bool
is_digit c = leb b'0' c && leb c b'9'

unfoldable pub is_alpha : ℕ → Bool
is_alpha c = (leb b'a' c && leb c b'z') || (leb b'A' c && leb c b'Z')

-- The first character of a word, and the others.
unfoldable pub starts_word : ℕ → Bool
unfolding is_alpha
starts_word c = is_alpha c || c == b'_'

unfoldable pub in_word : ℕ → Bool
unfolding is_alpha is_digit
in_word c = is_alpha c || is_digit c || c == b'_'

unfoldable pub not_quote : ℕ → Bool
not_quote c = not (c == b'"')

-- `while (test(src[pos])) pos++`: how many characters it passes over; no test holds of the NUL.
unfoldable pub run : (ℕ → Bool) → Text → ℕ
run test [] = 0
run test (c ∷ s) = let rest = run test s in if test c then suc rest else 0

unfoldable pub atoi_from : ℕ → Text → ℕ
atoi_from n [] = n
atoi_from n (d ∷ ds) = atoi_from (n * 10 + (d - b'0')) ds

-- `atoi` of digits. C defines no result for a number that its 32-bit `int` does not hold.
unfoldable pub atoi : Text → Option ℕ
unfolding atoi_from
atoi ds = if ltb (atoi_from 0 ds) 2147483648 then some (atoi_from 0 ds) else none

-- The chain of `strcmp`s.
abbrev keywords : List (String × TokenType)
keywords =
    ("when", tok_when)
    ∷ ("then", tok_then)
    ∷ ("else", tok_else)
    ∷ ("end", tok_end)
    ∷ ("let", tok_let)
    ∷ ("set", tok_set)
    ∷ ("to", tok_to)
    ∷ ("reject", tok_reject)
    ∷ ("with", tok_with)
    ∷ ("accept", tok_accept)
    ∷ ("show", tok_show)
    ∷ ("for", tok_for)
    ∷ ("each", tok_each)
    ∷ ("in", tok_in)
    ∷ ("do", tok_do)
    ∷ ("is", tok_is)
    ∷ ("not", tok_not)
    ∷ ("matches", tok_matches)
    ∷ ("and", tok_and)
    ∷ ("or", tok_or)
    ∷ ("empty", tok_empty)
    ∷ ("of", tok_of)
    ∷ ("less", tok_less)
    ∷ ("greater", tok_greater)
    ∷ ("than", tok_than)
    ∷ ("style", tok_style)
    ∷ ("animate", tok_animate)
    ∷ ("stop", tok_stop)
    ∷ ("pause", tok_pause)
    ∷ ("resume", tok_resume)
    ∷ ("animation", tok_animation)
    ∷ ("on", tok_on)
    ∷ ("keymap", tok_keymap)
    ∷ ("key", tok_key)
    ∷ []

unfoldable pub find_keyword : List (String × TokenType) → Text → TokenType
find_keyword [] word = tok_ident
find_keyword ((k, t) ∷ ks) word =
    let rest = find_keyword ks word in if text_eq word (codes k) then t else rest

unfoldable pub word_type : Text → TokenType
unfolding find_keyword text_eq
word_type word = find_keyword keywords word

-- The token that begins with the character `c`, with `s` after it, and how many characters it takes.
unfoldable pub token_at : ℕ → Text → Token × ℕ
token_at c s =
    if c == b'{'
    then (make_token tok_lbrace none (some 0), 1)
    else if c == b'}'
    then (make_token tok_rbrace none (some 0), 1)
    else if c == b'"'
    then (
      make_token tok_string (some (take (run not_quote s) s)) (some 0),
      elim (drop (run not_quote s) s) [
        | [] ↦ 1 + run not_quote s
        | _ ∷ _ ↦ 1 + run not_quote s + 1
      ],
    )
    else if is_digit c
    then (
      make_token tok_number none (atoi (take (run is_digit (c ∷ s)) (c ∷ s))),
      run is_digit (c ∷ s),
    )
    else if starts_word c
    then (
      make_token (word_type (take (run in_word (c ∷ s)) (c ∷ s)))
          (some (take (run in_word (c ∷ s)) (c ∷ s))) (some 0),
      run in_word (c ∷ s),
    )
    else (make_token tok_eof none (some 0), 1)

-- The token at a place that is no space.
unfoldable pub read_token : Text → Token × ℕ
read_token [] = (make_token tok_eof none (some 0), 0)
read_token (c ∷ s) = token_at c s

unfoldable pub next_token : Parser → Parser
next_token p =
    let pos = p.pos + run is_space (drop p.pos p.src) in
    let (token, taken) = read_token (drop pos p.src) in
    record p { pos = pos + taken; current = token }
