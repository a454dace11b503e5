-- ===== src/Fil/Tokens.antt =====
-- src/script/fil.c: the lexer stays inside the script and comes to its end.
use filly.Prelude.{
  ℕ, zero, suc, ◌+◌, ◌≤◌, ◌<◌, ◌≡◌, ◌⊎◌, inl, inr, refl, Bool, true, false, List, [], ◌∷◌, Text,
  if◌then◌else◌, length, drop, arith, Bool-cases,
}
use filly.Fil.Lexer.{
  TokenType, Token, Parser, tok_eof, is_space, is_digit, starts_word, in_word, not_quote, run,
  token_at, read_token, next_token,
}

run-le : (test : ℕ → Bool) (s : Text) → run test s ≤ length s
unfolding run
run-le test [] = omega arith
run-le test (c ∷ s) = ground (arith, run-le test s)

length-drop : (n : ℕ) (s : Text) → (length (drop n s) + n ≡ length s) ⊎ (length s < n)
length-drop zero s = inl (omega arith)
length-drop (suc n) [] = inr (omega arith)
length-drop (suc n) (c ∷ s) = elim (length-drop n s) [
  | inl e ↦ inl (omega arith)
  | inr h ↦ inr (omega arith)
]

run-pos : (test : ℕ → Bool) (c : ℕ) (s : Text) → test c ≡ true → 0 < run test (c ∷ s)
unfolding run
run-pos test c s h = ground arith

in_word-starts : (c : ℕ) → starts_word c ≡ true → in_word c ≡ true
unfolding starts_word in_word
in_word-starts c h = ground arith

drop-run : (s : Text) → (drop (run not_quote s) s ≡ []) ⊎ (run not_quote s < length s)
unfolding run
drop-run [] = inl refl
drop-run (c ∷ s) = elim (Bool-cases (not_quote c)) [
  | inl e ↦ ground (arith, drop-run s)
  | inr e ↦ ground arith
]

token_at-taken : (c : ℕ) (s : Text) → (0 < (token_at c s).1) × ((token_at c s).1 ≤ 1 + length s)
unfolding token_at
token_at-taken c s = ground (
  arith,
  run-le is_digit (c ∷ s),
  run-le in_word (c ∷ s),
  run-le not_quote s,
  drop-run s,
  run-pos is_digit c s,
  run-pos in_word c s,
  in_word-starts c,
)

read_token-taken :
    (s : Text)
    → ((read_token s).1 ≤ length s)
      × ((0 < (read_token s).1) ⊎ ((length s ≡ 0) × ((read_token s).0.type ≡ tok_eof)))
unfolding read_token
read_token-taken [] = (omega arith, inr (refl, refl))
read_token-taken (c ∷ s) =
    let (some_taken, in_script) = token_at-taken c s in (omega arith, inl some_taken)

-- The lexer stays inside the script, and each call gets on, but at the end of the script, where it
-- gives the end token.
pub next_token_advances :
    (p : Parser)
    → p.pos ≤ length p.src
    → ((next_token p).src ≡ p.src)
      × ((next_token p).pos ≤ length p.src)
      × ((p.pos < (next_token p).pos)
          ⊎ ((p.pos ≡ length p.src) × ((next_token p).current.type ≡ tok_eof)))
unfolding next_token
next_token_advances p h =
    let skipped = run is_space (drop p.pos p.src) in
    ground (
      arith,
      run-le is_space (drop p.pos p.src),
      length-drop p.pos p.src,
      length-drop (p.pos + skipped) p.src,
      read_token-taken (drop (p.pos + skipped) p.src),
    )

-- The tokens of as many calls of the lexer.
unfoldable pub tokens : ℕ → Parser → List Token
tokens zero p = []
tokens (suc n) p = (next_token p).current ∷ tokens n (next_token p)

is_end : TokenType → Bool
is_end tok_eof = true
is_end _ = false

pub has_end : List Token → Bool
unfolding is_end
has_end [] = false
has_end (t ∷ ts) = let rest = has_end ts in if is_end t.type then true else rest

tokens_end :
    (calls : ℕ) (p : Parser)
    → p.pos ≤ length p.src
    → length p.src < p.pos + calls
    → has_end (tokens calls p) ≡ true
unfolding has_end tokens
tokens_end zero p h k = absurd (omega arith)
tokens_end (suc calls) p h k =
    ground (arith, next_token_advances p h, tokens_end calls (next_token p))

-- From the start of any script, one call of the lexer more than the script has characters is enough to
-- come to the end token.
pub tokens_reach_end :
    (src : Text) (current : Token)
    → has_end (tokens (length src + 1) (record { src = src; pos = 0; current = current })) ≡ true
tokens_reach_end src current =
    tokens_end (length src + 1) (record { src = src; pos = 0; current = current }) (omega arith)
      (omega arith)
