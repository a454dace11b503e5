-- ===== src/Undo/RoundTrip.antt =====
-- Undo and redo against the document.
use filly.Prelude.{
  ℕ, zero, suc, ◌≤◌, ◌≡◌, refl, ap, ◌∙◌, false, some, List, [], ◌∷◌, arith, length, All,
}
use filly.Undo.{Action, UndoStack, undo_stack_undo, undo_stack_redo}
use filly.Undo.Valid.{IsValid}

module _ {D : Type 0} where
  -- Both callbacks are there, and `redo` takes back what `undo` did.
  pub record IsReversible (c : Action D) : Type 0 where
    pub back : D → D
    pub forth : D → D
    pub undoes : c.undo ≡ some back
    pub redoes : c.redo ≡ some forth
    pub forth-back : (d : D) → forth (back d) ≡ d

  -- The stack and the document, as the session holds them.
  abbrev pub undo : UndoStack D × D → UndoStack D × D
  undo (s, d) = ((undo_stack_undo s d).0, (undo_stack_undo s d).1)

  abbrev pub redo : UndoStack D × D → UndoStack D × D
  redo (s, d) = ((undo_stack_redo s d).0, (undo_stack_redo s d).1)

  pub undos : ℕ → UndoStack D × D → UndoStack D × D
  undos zero x = x
  undos (suc n) x = undos n (undo x)

  pub redos : ℕ → UndoStack D × D → UndoStack D × D
  redos zero x = x
  redos (suc n) x = redo (redos n x)

  -- With nothing done, or nothing undone, the call answers false and changes nothing; so it does at
  -- a null callback.
  pub undo_stack_refused :
      (s : UndoStack D) (d : D)
      → (((undo_stack_undo s d).2 ≡ false) → undo (s, d) ≡ (s, d))
        × (((undo_stack_redo s d).2 ≡ false) → redo (s, d) ≡ (s, d))
  unfolding undo_stack_undo undo_stack_redo
  undo_stack_refused s d = ground arith

  abbrev stack : UndoStack D → List (Action D) → List (Action D) → UndoStack D
  stack s ds us = record s { done = ds; undone = us }

  undo_step :
      (s : UndoStack D) (c : Action D) (ds us : List (Action D)) (d : D) (r : IsReversible c)
      → undo (stack s (c ∷ ds) us, d) ≡ (stack s ds (c ∷ us), r.back d)
  unfolding undo_stack_undo
  undo_step s c ds us d r = simp (r.undoes)

  redo_step :
      (s : UndoStack D) (c : Action D) (ds us : List (Action D)) (d : D) (r : IsReversible c)
      → redo (stack s ds (c ∷ us), d) ≡ (stack s (c ∷ ds) us, r.forth d)
  unfolding undo_stack_redo
  redo_step s c ds us d r = simp (r.redoes)

  redos-undos-stack :
      (n : ℕ) (ds us : List (Action D)) (s : UndoStack D) (d : D)
      → All IsReversible ds
      → n ≤ length ds
      → redos n (undos n (stack s ds us, d)) ≡ (stack s ds us, d)
  unfolding redos undos
  redos-undos-stack zero ds us s d r h = refl
  redos-undos-stack (suc n) [] us s d r h = absurd (omega arith)
  redos-undos-stack (suc n) (c ∷ ds) us s d (r, rs) h =
      ap (λ x. redo (redos n (undos n x))) (undo_step s c ds us d r)
      ∙ ap redo (redos-undos-stack n ds (c ∷ us) s (r.back d) rs (omega arith))
      ∙ redo_step s c ds us (r.back d) r
      ∙ rw (r.forth-back d)

  -- Undoing any number of done actions and redoing as many gives back the stack and the document,
  -- if each of them is reversible.
  pub redos-undos :
      (n : ℕ) (s : UndoStack D) (d : D)
      → All IsReversible s.done
      → n ≤ length s.done
      → redos n (undos n (s, d)) ≡ (s, d)
  redos-undos n s d r h = redos-undos-stack n s.done s.undone s d r h

  -- Undo and redo keep a valid stack valid.
  pub undo_redo-IsValid :
      (s : UndoStack D) (d : D) → IsValid s → IsValid (undo (s, d)).0 × IsValid (redo (s, d)).0
  unfolding undo_stack_undo undo_stack_redo
  undo_redo-IsValid s d v = ground arith
