-- ===== src/Widgets/TextEditor/Buffer.antt =====
-- src/core/widgets/text_editor.c: the lines and the cursor as one text that the cursor divides, and
-- what its `memmove`s do to lines that are divided at the cursor.
use filly.Prelude.{
  take-append, drop-append, take-append-drop, ℕ, zero, suc, ◌≤◌, ◌≡◌, refl, sym, ap, ◌∙◌, List, [],
  ◌∷◌, ◌++◌, append-nil, append_assoc, Text, length, take, drop, arith, length-append,
}
use filly.Widgets.TextEditor.{TextEditorData, insert_idx, unlines}

-- The text from the start to the cursor, lines joined by line feeds.
unfoldable pub before : List Text → ℕ → ℕ → Text
before [] row col = []
before (l ∷ lines) zero col = take col l
before (l ∷ lines) (suc row) col = l ++ b'\n' ∷ before lines row col

-- The lines below one, each with the line feed in front of it.
unfoldable pub below : List Text → Text
below [] = []
below (l ∷ lines) = b'\n' ∷ (l ++ below lines)

-- The text from the cursor to the end.
unfoldable pub after : List Text → ℕ → ℕ → Text
unfolding below
after [] row col = []
after (l ∷ lines) zero col = drop col l ++ below lines
after (l ∷ lines) (suc row) col = after lines row col

-- The line `row` exists, and the column is in it or at its end.
abbrev pub Within : List Text → ℕ → ℕ → Type 0
Within [] row col = ⊥
Within (l ∷ lines) zero col = col ≤ length l
Within (l ∷ lines) (suc row) col = Within lines row col

-- Lines that the cursor divides: those above, the halves of its own, and those under it.
pub record Divided : Type 0 where
  pub above : List Text
  pub left_half : Text
  pub right_half : Text
  pub under : List Text

abbrev pub all_lines : Divided → List Text
all_lines z = z.above ++ (z.left_half ++ z.right_half) ∷ z.under

abbrev pub place : Divided → TextEditorData → TextEditorData
place z d = record d { lines = all_lines z; row = length z.above; col = length z.left_half }

pub insert_idx-append :
    (xs : List Text) (x : Text) (ys : List Text)
    → insert_idx (xs ++ ys) (length xs) x ≡ xs ++ x ∷ ys
insert_idx-append [] x ys = refl
insert_idx-append (z ∷ xs) x ys = ap (z ∷◌) (insert_idx-append xs x ys)

pub length-take_le : (n : ℕ) (l : Text) → n ≤ length l → length (take n l) ≡ n
length-take_le zero l h = refl
length-take_le (suc n) [] h = absurd (omega arith)
length-take_le (suc n) (c ∷ l) h = ap suc (length-take_le n l (omega arith))

-- Whatever the cursor is within can be divided at it.
pub divide :
    (lines : List Text) (row col : ℕ)
    → Within lines row col
    → (z : Divided) × (all_lines z ≡ lines) × (length z.above ≡ row) × (length z.left_half ≡ col)
divide [] row col h = absurd h
divide (l ∷ lines) zero col h = (
  record { above = []; left_half = take col l; right_half = drop col l; under = lines },
  ap (◌∷ lines) (take-append-drop col l),
  refl,
  length-take_le col l h,
)
divide (l ∷ lines) (suc row) col h =
    let (z, e, r, c) = divide lines row col h in
    (record z { above = l ∷ z.above }, ap (l ∷◌) e, ap suc r, c)

pub before-divided :
    (above : List Text) (x y : Text) (under : List Text)
    → before (above ++ (x ++ y) ∷ under) (length above) (length x) ≡ unlines above ++ x
unfolding before unlines
before-divided [] x y under = take-append x y
before-divided (l ∷ above) x y under = simp (before-divided above x y under, append_assoc)

pub after-divided :
    (above : List Text) (x y : Text) (under : List Text)
    → after (above ++ (x ++ y) ∷ under) (length above) (length x) ≡ y ++ below under
unfolding after
after-divided [] x y under = rw (drop-append x y)
after-divided (l ∷ above) x y under = after-divided above x y under

-- A divided text is within its lines.
pub Within-divided :
    (above : List Text) (x y : Text) (under : List Text)
    → Within (above ++ (x ++ y) ∷ under) (length above) (length x)
Within-divided [] x y under = omega (arith, length-append x y)
Within-divided (l ∷ above) x y under = Within-divided above x y under

-- Lines that end in line feeds, and lines that line feeds precede, are the same text.
pub unlines-below :
    (l : Text) (lines : List Text) → l ++ below lines ++ b'\n' ∷ [] ≡ unlines (l ∷ lines)
unfolding unlines below
unlines-below l [] = ap (◌++ b'\n' ∷ []) (append-nil l)
unlines-below l (m ∷ lines) = simp (sym (unlines-below m lines), append_assoc)

pub unlines-append : (xs ys : List Text) → unlines (xs ++ ys) ≡ unlines xs ++ unlines ys
unfolding unlines
unlines-append [] ys = refl
unlines-append (l ∷ xs) ys = simp (unlines-append xs ys, append_assoc)

-- The whole text, with a line feed after each line, is what stands before and after the cursor.
pub before-append-after :
    (lines : List Text) (row col : ℕ)
    → Within lines row col
    → (before lines row col ++ after lines row col) ++ b'\n' ∷ [] ≡ unlines lines
unfolding before after unlines
before-append-after [] row col h = absurd h
before-append-after (l ∷ lines) zero col h =
    ap (◌++ b'\n' ∷ []) (
      sym (append_assoc (take col l) (drop col l) (below lines))
      ∙ ap (◌++ below lines) (take-append-drop col l))
    ∙ unlines-below l lines
before-append-after (l ∷ lines) (suc row) col h =
    simp (before-append-after lines row col h, append_assoc)
