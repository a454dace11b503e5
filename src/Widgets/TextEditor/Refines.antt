-- ===== src/Widgets/TextEditor/Refines.antt =====
-- src/core/widgets/text_editor.c: what each key does to the one text that the cursor divides.
use filly.Prelude.{
  ℕ, ◌≡◌, ◌⊎◌, inl, inr, refl, sym, ap, List, [], ◌∷◌, ◌++◌, append-nil, append_assoc, Text, take,
  drop, arith, ◌==◌, if◌then◌else◌, ◌||◌, ◌∙◌, subst, length-append,
}
use filly.Widgets.Events.{KeyCode, left, right, delete, enter, backspace, char}
use filly.Widgets.TextEditor.{
  printable, TextEditorData, te_delete, te_backspace, te_left, te_right, te_enter, te_insert,
  unlines,
}
use filly.Widgets.TextEditor.Buffer.{
  Divided, before, after, below, Within, before-divided, after-divided, unlines-append,
  before-append-after,
}
use filly.Widgets.TextEditor.Editing.{
  Is, insert-Is, enter-Is, erase-Is, join-Is, delete-Is, delete_join-Is, delete_end-Is,
}
use filly.Widgets.TextEditor.Moves.{
  Is-Within, left-Is, left_up-Is, left_stop-Is, right-Is, right_down-Is, right_stop-Is,
}

unfoldable pub but_last : Text → Text
but_last [] = []
but_last (c ∷ []) = []
but_last (c ∷ (e ∷ s)) = c ∷ but_last (e ∷ s)

pub but_last-append : (s : Text) (c : ℕ) → but_last (s ++ c ∷ []) ≡ s
unfolding but_last
but_last-append [] c = refl
but_last-append (x ∷ []) c = refl
but_last-append (x ∷ (y ∷ s)) c = ap (x ∷◌) (but_last-append (y ∷ s) c)

-- A list is empty, or has a last element.
pub last_cases {ℓ} :
    {A : Type ℓ} (xs : List A) → (xs ≡ []) ⊎ ((ys : List A) × (y : A) × (xs ≡ ys ++ y ∷ []))
last_cases [] = inl refl
last_cases (x ∷ xs) = elim (last_cases xs) [
  | inl e ↦ inr ([], x, ap (x ∷◌) e)
  | inr (ys, y, e) ↦ inr (x ∷ ys, y, ap (x ∷◌) e)
]

abbrev pub text_before : TextEditorData → Text
text_before d = before d.lines d.row d.col

abbrev pub text_after : TextEditorData → Text
text_after d = after d.lines d.row d.col

module _ {d : TextEditorData} {z : Divided} (at : Is d z) where
  Is-before : text_before d ≡ unlines z.above ++ z.left_half
  Is-before = ground (arith, before-divided z.above z.left_half z.right_half z.under)

  Is-after : text_after d ≡ z.right_half ++ below z.under
  Is-after = ground (arith, after-divided z.above z.left_half z.right_half z.under)

-- How a text that the cursor divides into `b` and `a` is edited.
abbrev pub Edits : KeyCode → ℕ → (b a b' a' : Text) → Type 0
Edits enter ch b a b' a' = (b' ≡ b ++ b'\n' ∷ []) × (a' ≡ a)
Edits backspace ch b a b' a' = (b' ≡ but_last b) × (a' ≡ a)
Edits delete ch b a b' a' = (b' ≡ b) × (a' ≡ drop 1 a)
Edits left ch b a b' a' = (b' ≡ but_last b) × (b' ++ a' ≡ b ++ a)
Edits right ch b a b' a' = (b' ≡ b ++ take 1 a) × (a' ≡ drop 1 a)
Edits char ch b a b' a' =
    (b' ≡ b ++ (if printable ch || ch == b'\t' then ch ∷ [] else [])) × (a' ≡ a)
Edits _ ch b a b' a' = b' ++ a' ≡ b ++ a

-- `Edits`, from one state of the editor to another.
abbrev pub Follows : KeyCode → ℕ → TextEditorData → TextEditorData → Type 0
Follows key ch d d' = Edits key ch (text_before d) (text_after d) (text_before d') (text_after d')

-- The edit, and a cursor that is still inside the text.
abbrev pub Step : KeyCode → ℕ → TextEditorData → TextEditorData → Type 0
Step key ch d d' = Within d'.lines d'.row d'.col × Follows key ch d d'

module _ {d : TextEditorData} {z : Divided} (at : Is d z) where
  pub delete_follows :
      (right_half : Text) (under : List Text)
      → z.right_half ≡ right_half
      → z.under ≡ under
      → Step delete 0 d (te_delete d).0
  unfolding below
  delete_follows [] [] e e' =
      let new = delete_end-Is at e e' in
      (Is-Within new, ground (arith, Is-before at, Is-after at, Is-before new, Is-after new))
  delete_follows [] (next ∷ under) e e' =
      let new = delete_join-Is at next under e e' in
      (Is-Within new, ground (arith, Is-before at, Is-after at, Is-before new, Is-after new))
  delete_follows (c ∷ y) under e e' =
      let new = delete-Is at c y e in
      (Is-Within new, ground (arith, Is-before at, Is-after at, Is-before new, Is-after new))

  pub right_follows :
      (right_half : Text) (under : List Text)
      → z.right_half ≡ right_half
      → z.under ≡ under
      → Step right 0 d (te_right d).0
  unfolding below unlines
  right_follows [] [] e e' =
      let new = right_stop-Is at e e' in
      (
        Is-Within new,
        ground (
          arith,
          Is-before at,
          Is-after at,
          Is-before new,
          Is-after new,
          append-nil (text_before d),
        ),
      )
  right_follows [] (next ∷ under) e e' =
      let new = right_down-Is at next under e e' in
      (
        Is-Within new,
        ground (
          arith,
          Is-before at,
          Is-after at,
          Is-before new,
          Is-after new,
          unlines-append z.above (z.left_half ∷ []),
          append-nil (unlines (z.above ++ z.left_half ∷ [])),
          append_assoc (unlines z.above) z.left_half (b'\n' ∷ []),
        ),
      )
  right_follows (c ∷ y) under e e' =
      let new = right-Is at c y e in
      (
        Is-Within new,
        ground (
          arith,
          Is-before at,
          Is-after at,
          Is-before new,
          Is-after new,
          append_assoc (unlines z.above) z.left_half (c ∷ []),
        ),
      )

  pub left_follows : Step left 0 d (te_left d).0
  unfolding below unlines but_last
  left_follows = elim (last_cases z.left_half) [
    | inr (x, c, e) ↦
        let new = left-Is at x c e in
        (
          Is-Within new,
          ground (
            arith,
            Is-before at,
            Is-after at,
            Is-before new,
            Is-after new,
            append_assoc (unlines z.above) x (c ∷ []),
            but_last-append (unlines z.above ++ x) c,
            append_assoc (unlines z.above ++ x) (c ∷ []) (z.right_half ++ below z.under),
          ),
        )
    | inl e ↦ elim (last_cases z.above) [
      | inl e' ↦
          let new = left_stop-Is at e e' in
          (Is-Within new, ground (arith, Is-before at, Is-after at, Is-before new, Is-after new))
      | inr (above, p, e') ↦
          let new = left_up-Is at above p e e' in
          (
            Is-Within new,
            ground (
              arith,
              Is-before at,
              Is-after at,
              Is-before new,
              Is-after new,
              unlines-append above (p ∷ []),
              append_assoc (unlines above) p (b'\n' ∷ []),
              append-nil (unlines (above ++ p ∷ [])),
              but_last-append (unlines above ++ p) b'\n',
              append_assoc (unlines above ++ p) (b'\n' ∷ []) (z.right_half ++ below z.under),
            ),
          )
    ]
  ]

  pub backspace_follows : Step backspace 0 d (te_backspace d).0
  unfolding te_backspace below unlines but_last
  backspace_follows = elim (last_cases z.left_half) [
    | inr (x, c, e) ↦
        let new = erase-Is at x c e in
        (
          ground (arith, Is-Within new, length-append x (c ∷ [])),
          ground (
            arith,
            Is-before at,
            Is-after at,
            Is-before new,
            Is-after new,
            length-append x (c ∷ []),
            append_assoc (unlines z.above) x (c ∷ []),
            but_last-append (unlines z.above ++ x) c,
          ),
        )
    | inl e ↦ elim (last_cases z.above) [
      | inl e' ↦ (ground (arith, Is-Within at), ground (arith, Is-before at, Is-after at))
      | inr (above, p, e') ↦
          let new = join-Is at above p e e' in
          (
            ground (arith, Is-Within new, length-append above (p ∷ [])),
            ground (
              arith,
              Is-before at,
              Is-after at,
              Is-before new,
              Is-after new,
              length-append above (p ∷ []),
              unlines-append above (p ∷ []),
              append_assoc (unlines above) p (b'\n' ∷ []),
              append-nil (unlines (above ++ p ∷ [])),
              but_last-append (unlines above ++ p) b'\n',
            ),
          )
    ]
  ]

  pub enter_follows : Step enter 0 d (te_enter d).0
  unfolding unlines
  enter_follows =
      let new = enter-Is at in
      (
        Is-Within new,
        ground (
          arith,
          Is-before at,
          Is-after at,
          Is-before new,
          Is-after new,
          unlines-append z.above (z.left_half ∷ []),
          append-nil (unlines (z.above ++ z.left_half ∷ [])),
          append_assoc (unlines z.above) z.left_half (b'\n' ∷ []),
        ),
      )

  pub insert_follows :
      (ch : ℕ)
      → Within (te_insert d ch).0.lines (te_insert d ch).0.row (te_insert d ch).0.col
        × (text_before (te_insert d ch).0 ≡ text_before d ++ ch ∷ [])
        × (text_after (te_insert d ch).0 ≡ text_after d)
  insert_follows ch =
      let new = insert-Is at ch in
      (
        Is-Within new,
        ground (
          arith,
          Is-before at,
          Is-before new,
          append_assoc (unlines z.above) z.left_half (ch ∷ []),
        ),
        ground (arith, Is-after at, Is-after new),
      )

-- A state that keeps its lines keeps its text, wherever the cursor is put.
same_text :
    (lines : List Text) (row col row' col' : ℕ)
    → Within lines row col
    → Within lines row' col'
    → before lines row' col' ++ after lines row' col' ≡ before lines row col ++ after lines row col
same_text lines row col row' col' h k =
    sym (but_last-append (before lines row' col' ++ after lines row' col') b'\n')
    ∙ ap but_last
        (before-append-after lines row' col' k ∙ sym (before-append-after lines row col h))
    ∙ but_last-append (before lines row col ++ after lines row col) b'\n'

pub rests :
    (d d' : TextEditorData)
    → Within d.lines d.row d.col
    → Within d'.lines d'.row d'.col
    → d'.lines ≡ d.lines
    → text_before d' ++ text_after d' ≡ text_before d ++ text_after d
rests d d' h k e = ground (
  arith,
  same_text d.lines d.row d.col d'.row d'.col h (subst (λ lines. Within lines d'.row d'.col) e k),
)
