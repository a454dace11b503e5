-- ===== src/Widgets/TextEditor/Editing.antt =====
-- src/core/widgets/text_editor.c: the keys that change the lines, on lines divided at the cursor.
use filly.Prelude.{
  take-append, drop-append, get_elem?-append, set-append, erase_idx-append, ℕ, ◌≡◌, some, List, [],
  ◌∷◌, ◌++◌, append-nil, append_assoc, Text, length, get_elem?, arith, length-append,
}
use filly.Widgets.TextEditor.{
  TextEditorData, te_insert, te_enter, te_delete, te_erase_left, te_join_above,
}
use filly.Widgets.TextEditor.Buffer.{Divided, all_lines, insert_idx-append}

-- The lines and the cursor of a state are those of a divided text.
pub record Is (d : TextEditorData) (z : Divided) : Type 0 where
  pub on_lines : d.lines ≡ all_lines z
  pub on_row : d.row ≡ length z.above
  pub on_col : d.col ≡ length z.left_half

module _ {d : TextEditorData} {z : Divided} (at : Is d z) where
  pub Is-line : get_elem? d.lines d.row ≡ some (z.left_half ++ z.right_half)
  Is-line = ground (arith, get_elem?-append z.above (z.left_half ++ z.right_half) z.under)

  pub insert-Is : (ch : ℕ) → Is (te_insert d ch).0 (record z { left_half = z.left_half ++ ch ∷ [] })
  unfolding te_insert
  insert-Is ch = ground (
    arith,
    Is-line,
    take-append z.left_half z.right_half,
    drop-append z.left_half z.right_half,
    set-append z.above (z.left_half ++ z.right_half) (z.left_half ++ ch ∷ z.right_half) z.under,
    append_assoc z.left_half (ch ∷ []) z.right_half,
    length-append z.left_half (ch ∷ []),
    length-append z.left_half z.right_half,
  )

  pub enter-Is :
      Is (te_enter d).0 (record z { above = z.above ++ z.left_half ∷ []; left_half = [] })
  unfolding te_enter
  enter-Is = ground (
    arith,
    Is-line,
    take-append z.left_half z.right_half,
    drop-append z.left_half z.right_half,
    set-append z.above (z.left_half ++ z.right_half) z.left_half z.under,
    append_assoc z.above (z.left_half ∷ []) (z.right_half ∷ z.under),
    insert_idx-append (z.above ++ z.left_half ∷ []) z.right_half z.under,
    append_assoc z.above (z.left_half ∷ []) z.under,
    length-append z.above (z.left_half ∷ []),
    length-append z.left_half z.right_half,
  )

  pub erase-Is :
      (x : Text) (c : ℕ)
      → z.left_half ≡ x ++ c ∷ []
      → Is (te_erase_left d).0 (record z { left_half = x })
  unfolding te_erase_left
  erase-Is x c e = ground (
    arith,
    Is-line,
    drop-append z.left_half z.right_half,
    append_assoc x (c ∷ []) z.right_half,
    take-append x (c ∷ z.right_half),
    length-append x (c ∷ []),
    length-append z.left_half z.right_half,
    set-append z.above (z.left_half ++ z.right_half) (x ++ z.right_half) z.under,
  )

  pub join-Is :
      (above : List Text) (p : Text)
      → z.left_half ≡ []
      → z.above ≡ above ++ p ∷ []
      → Is (te_join_above d).0 (record z { above = above; left_half = p })
  unfolding te_join_above
  join-Is above p e e' = ground (
    arith,
    Is-line,
    length-append above (p ∷ []),
    append_assoc above (p ∷ []) (z.right_half ∷ z.under),
    get_elem?-append above p (z.right_half ∷ z.under),
    set-append above p (p ++ z.right_half) (z.right_half ∷ z.under),
    append_assoc above ((p ++ z.right_half) ∷ []) (z.right_half ∷ z.under),
    length-append above ((p ++ z.right_half) ∷ []),
    erase_idx-append (above ++ (p ++ z.right_half) ∷ []) z.right_half z.under,
    append_assoc above ((p ++ z.right_half) ∷ []) z.under,
  )

  pub delete-Is :
      (c : ℕ) (y : Text) → z.right_half ≡ c ∷ y → Is (te_delete d).0 (record z { right_half = y })
  unfolding te_delete
  delete-Is c y e = ground (
    arith,
    Is-line,
    take-append z.left_half z.right_half,
    append_assoc z.left_half (c ∷ []) y,
    drop-append (z.left_half ++ c ∷ []) y,
    length-append z.left_half (c ∷ []),
    length-append z.left_half z.right_half,
    set-append z.above (z.left_half ++ z.right_half) (z.left_half ++ y) z.under,
  )

  pub delete_join-Is :
      (next : Text) (under : List Text)
      → z.right_half ≡ []
      → z.under ≡ next ∷ under
      → Is (te_delete d).0 (record z { right_half = next; under = under })
  unfolding te_delete
  delete_join-Is next under e e' = ground (
    arith,
    Is-line,
    append-nil z.left_half,
    append_assoc z.above (z.left_half ∷ []) (next ∷ under),
    get_elem?-append (z.above ++ z.left_half ∷ []) next under,
    length-append z.above (z.left_half ∷ []),
    length-append z.above (z.left_half ∷ next ∷ under),
    set-append z.above z.left_half (z.left_half ++ next) (next ∷ under),
    append_assoc z.above ((z.left_half ++ next) ∷ []) (next ∷ under),
    length-append z.above ((z.left_half ++ next) ∷ []),
    erase_idx-append (z.above ++ (z.left_half ++ next) ∷ []) next under,
    append_assoc z.above ((z.left_half ++ next) ∷ []) under,
  )

  pub delete_end-Is : z.right_half ≡ [] → z.under ≡ [] → Is (te_delete d).0 z
  unfolding te_delete
  delete_end-Is e e' =
      ground (arith, Is-line, append-nil z.left_half, length-append z.above (z.left_half ∷ []))
