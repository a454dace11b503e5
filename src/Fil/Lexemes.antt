-- ===== src/Fil/Lexemes.antt =====
-- src/script/fil.c: the lexer reads back tokens that were printed.
use filly.Prelude.{
  ℕ, zero, suc, ◌+◌, ◌-◌, ◌*◌, ◌/◌, ◌%◌, ◌≤◌, ◌<◌, ◌≡◌, inl, inr, refl, ap, ap₂, ◌∙◌, Bool, true,
  false, Option, none, some, List, [], ◌∷◌, ◌++◌, append_assoc, Text, ltb, ◌==◌, length, arith, All,
  Bool-cases, length-append, take-append, drop-append, drop-append_add, decimal, decimal_digits,
}
use filly.Fil.Lexer.{
  Token, Parser, make_token, tok_lbrace, tok_rbrace, tok_string, tok_number, is_space, is_digit,
  starts_word, in_word, not_quote, run, atoi_from, atoi, word_type, token_at, read_token,
  next_token,
}

-- The texts that are tokens, each with the token that it is.
pub data Lexeme : Type 0 where
  opening closing : Lexeme
  quoted : Text → Lexeme
  numeral : ℕ → Lexeme
  word : ℕ → Text → Lexeme

abbrev pub shown : Lexeme → Text
shown opening = b'{' ∷ []
shown closing = b'}' ∷ []
shown (quoted t) = b'"' ∷ (t ++ b'"' ∷ [])
shown (numeral n) = decimal n
shown (word c w) = c ∷ w

abbrev pub meant : Lexeme → Token
meant opening = make_token tok_lbrace none (some 0)
meant closing = make_token tok_rbrace none (some 0)
meant (quoted t) = make_token tok_string (some t) (some 0)
meant (numeral n) = make_token tok_number none (some n)
meant (word c w) = make_token (word_type (c ∷ w)) (some (c ∷ w)) (some 0)

-- A quoted text has no quote in it, a word no character that ends it, and an `int` holds a numeral.
abbrev pub IsLexeme : Lexeme → Type 0
IsLexeme (quoted t) = All (λ (c : ℕ). not_quote c ≡ true) t
IsLexeme (word c w) = (starts_word c ≡ true) × All (λ (e : ℕ). in_word e ≡ true) w
IsLexeme (numeral n) = n < 2147483648
IsLexeme _ = Unit {0}

run-append :
    (test : ℕ → Bool) (w : Text) (c : ℕ) (s : Text)
    → All (λ (e : ℕ). test e ≡ true) w
    → test c ≡ false
    → run test (w ++ c ∷ s) ≡ length w
unfolding run
run-append test [] c s h k = ground arith
run-append test (e ∷ w) c s (h, hs) k = ground (arith, run-append test w c s hs k)

atoi_from-append :
    (n : ℕ) (ds : Text) (d : ℕ) → atoi_from n (ds ++ d ∷ []) ≡ atoi_from n ds * 10 + (d - b'0')
unfolding atoi_from
atoi_from-append n [] d = refl
atoi_from-append n (e ∷ ds) d = atoi_from-append (n * 10 + (e - b'0')) ds d

All-append {ℓ κ} :
    {A : Type ℓ} (P : A → Type κ) (xs ys : List A) → All P xs → All P ys → All P (xs ++ ys)
All-append P [] ys h k = k
All-append P (x ∷ xs) ys (h, hs) k = (h, All-append P xs ys hs k)

digit : (n : ℕ) → n < 10 → is_digit (b'0' + n) ≡ true
unfolding is_digit
digit n h = ground arith

digits_lem :
    (fuel n : ℕ)
    → n ≤ fuel
    → (atoi_from 0 (decimal_digits fuel n) ≡ n)
      × All (λ (c : ℕ). is_digit c ≡ true) (decimal_digits fuel n)
      × (0 < length (decimal_digits fuel n))
unfolding decimal_digits atoi_from
digits_lem zero n h = (omega arith, (digit (n % 10) (omega arith), tt), omega arith)
digits_lem (suc fuel) n h =
    let (value, all, some_digits) = digits_lem fuel (n / 10) (omega arith) in
    elim (Bool-cases (ltb n 10)) [
      | inl e ↦ rw e ((omega arith, (digit n (ground arith), tt), omega arith))
      | inr e ↦ rw e (
        ground (arith, atoi_from-append 0 (decimal_digits fuel (n / 10)) (b'0' + n % 10)),
        All-append (λ (c : ℕ). is_digit c ≡ true) (decimal_digits fuel (n / 10))
            ((b'0' + n % 10) ∷ []) all (digit (n % 10) (omega arith), tt),
        omega (arith, length-append (decimal_digits fuel (n / 10)) ((b'0' + n % 10) ∷ [])),
      )
    ]

atoi_lem : (ds : Text) (n : ℕ) → atoi_from 0 ds ≡ n → n < 2147483648 → atoi ds ≡ some n
unfolding atoi
atoi_lem ds n value h = ground arith

space-stops : (c : ℕ) → is_space c ≡ true → (is_digit c ≡ false) × (in_word c ≡ false)
unfolding is_space is_digit in_word
space-stops c h = ground arith

digit-plain :
    (c : ℕ)
    → is_digit c ≡ true
    → ((c == b'{') ≡ false) × ((c == b'}') ≡ false) × ((c == b'"') ≡ false)
unfolding is_digit
digit-plain c h = ground arith

word-plain :
    (c : ℕ)
    → starts_word c ≡ true
    → ((c == b'{') ≡ false)
      × ((c == b'}') ≡ false)
      × ((c == b'"') ≡ false)
      × (is_digit c ≡ false)
      × (in_word c ≡ true)
unfolding starts_word is_digit in_word
word-plain c h = ground arith

module _ (c : ℕ) (s : Text) (space : is_space c ≡ true) where
  read_digits :
      (ds : Text)
      → 0 < length ds
      → All (λ (e : ℕ). is_digit e ≡ true) ds
      → read_token (ds ++ c ∷ s) ≡ (make_token tok_number none (atoi ds), length ds)
  unfolding read_token token_at
  read_digits [] h all = absurd (omega arith)
  read_digits (d ∷ ds) h (is, all) = ground (
    arith,
    digit-plain d,
    run-append is_digit (d ∷ ds) c s (is, all),
    space-stops c space,
    take-append (d ∷ ds) (c ∷ s),
  )

  read_word :
      (e : ℕ) (w : Text)
      → IsLexeme (word e w)
      → read_token ((e ∷ w) ++ c ∷ s) ≡ (meant (word e w), length (e ∷ w))
  unfolding read_token token_at
  read_word e w (h, all) =
      let (_, _, _, _, inside) = word-plain e h in
      ground (
        arith,
        word-plain e,
        run-append in_word (e ∷ w) c s (inside, all),
        space-stops c space,
        take-append (e ∷ w) (c ∷ s),
      )

  read_quoted :
      (t : Text)
      → IsLexeme (quoted t)
      → read_token (shown (quoted t) ++ c ∷ s) ≡ (meant (quoted t), length (shown (quoted t)))
  unfolding read_token token_at not_quote
  read_quoted t all = ground (
    arith,
    append_assoc t (b'"' ∷ []) (c ∷ s),
    run-append not_quote t b'"' (c ∷ s) all refl,
    take-append t (b'"' ∷ c ∷ s),
    drop-append t (b'"' ∷ c ∷ s),
    length-append t (b'"' ∷ []),
  )

  read_lexeme :
      (l : Lexeme) → IsLexeme l → read_token (shown l ++ c ∷ s) ≡ (meant l, length (shown l))
  unfolding read_token token_at
  read_lexeme opening h = refl
  read_lexeme closing h = refl
  read_lexeme (quoted t) h = read_quoted t h
  read_lexeme (numeral n) h =
      let (value, all, some_digits) = digits_lem n n (omega arith) in
      read_digits (decimal n) some_digits all
      ∙ ap (λ (v : Option ℕ). (make_token tok_number none v, length (decimal n)))
          (atoi_lem (decimal n) n value h)
  read_lexeme (word e w) h = read_word e w h

first_digit :
    (ds : Text)
    → 0 < length ds
    → All (λ (e : ℕ). is_digit e ≡ true) ds
    → (e : ℕ) × (w : Text) × (ds ≡ e ∷ w) × (is_space e ≡ false)
unfolding is_digit is_space
first_digit [] h all = absurd (omega arith)
first_digit (e ∷ w) h (is, all) = (e, w, refl, ground arith)

starts-not_space : (c : ℕ) → starts_word c ≡ true → is_space c ≡ false
unfolding starts_word is_space
starts-not_space c h = ground arith

-- No token begins with a space.
first_plain :
    (l : Lexeme) → IsLexeme l → (e : ℕ) × (w : Text) × (shown l ≡ e ∷ w) × (is_space e ≡ false)
unfolding is_space
first_plain opening h = (b'{', [], refl, refl)
first_plain closing h = (b'}', [], refl, refl)
first_plain (quoted t) h = (b'"', t ++ b'"' ∷ [], refl, refl)
first_plain (numeral n) h =
    let (_, all, some_digits) = digits_lem n n (omega arith) in
    first_digit (decimal n) some_digits all
first_plain (word c w) (h, _) = (c, w, refl, starts-not_space c h)

skip_spaces :
    (l : Lexeme) (spaces rest : Text)
    → IsLexeme l
    → All (λ (e : ℕ). is_space e ≡ true) spaces
    → run is_space (spaces ++ (shown l ++ rest)) ≡ length spaces
skip_spaces l spaces rest h k =
    let (e, w, shows, plain) = first_plain l h in
    ap (λ (t : Text). run is_space (spaces ++ (t ++ rest))) shows
    ∙ run-append is_space spaces e (w ++ rest) k plain

-- The token that stands at the lexer's place, behind spaces and before one more, is read for what it
-- means, whatever precedes it and follows.
next_token-shown :
    (l : Lexeme) (before spaces : Text) (c : ℕ) (s : Text) (current : Token)
    → IsLexeme l
    → All (λ (e : ℕ). is_space e ≡ true) spaces
    → is_space c ≡ true
    → next_token (record {
      src = before ++ (spaces ++ (shown l ++ c ∷ s));
      pos = length before;
      current = current;
    })
      ≡ record {
        src = before ++ (spaces ++ (shown l ++ c ∷ s));
        pos = length before + length spaces + length (shown l);
        current = meant l;
      }
unfolding next_token
next_token-shown l before spaces c s current h k space = ground (
  arith,
  drop-append before (spaces ++ (shown l ++ c ∷ s)),
  skip_spaces l spaces (c ∷ s) h k,
  drop-append_add (length spaces) before (spaces ++ (shown l ++ c ∷ s)),
  drop-append spaces (shown l ++ c ∷ s),
  read_lexeme c s space l h,
)

-- A script of tokens, with a space behind each.
unfoldable pub script : List Lexeme → Text
script [] = []
script (l ∷ ls) = shown l ++ b' ' ∷ script ls

-- A parser that has read the text `passed`, the last token of which is `l`, before the tokens `ls`.
abbrev pub reading : Text → Lexeme → List Lexeme → Parser
reading passed l ls = record {
  src = passed ++ b' ' ∷ script ls;
  pos = length passed;
  current = meant l;
}

pub next_token-script :
    (l : Lexeme) (ls : List Lexeme) (before spaces : Text) (current : Token)
    → IsLexeme l
    → All (λ (e : ℕ). is_space e ≡ true) spaces
    → next_token (record {
      src = before ++ (spaces ++ script (l ∷ ls));
      pos = length before;
      current = current;
    })
      ≡ reading (before ++ (spaces ++ shown l)) l ls
unfolding script is_space
next_token-script l ls before spaces current h k =
    let passed = before ++ (spaces ++ shown l) in
    let source : before ++ (spaces ++ (shown l ++ b' ' ∷ script ls)) ≡ passed ++ b' ' ∷ script ls =
      simp append_assoc in
    let place : length before + length spaces + length (shown l) ≡ length passed =
      omega (arith, length-append before (spaces ++ shown l), length-append spaces (shown l)) in
    next_token-shown l before spaces b' ' (script ls) current h k refl
    ∙ ap₂ (λ (src : Text) (pos : ℕ). record { src = src; pos = pos; current = meant l }) source
        place

-- The next token of a parser in the midst of a script.
pub next_token-reading :
    (passed : Text) (l m : Lexeme) (ls : List Lexeme)
    → IsLexeme m
    → next_token (reading passed l (m ∷ ls)) ≡ reading (passed ++ b' ' ∷ shown m) m ls
unfolding is_space
next_token-reading passed l m ls h =
    next_token-script m ls passed (b' ' ∷ []) (meant l) h (refl, tt)
