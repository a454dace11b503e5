-- ===== src/Undo.antt =====
-- src/core/undo.c and undo.h: the undo stack, over an abstract document that the actions change.
pub mod Valid
pub mod RoundTrip
use filly.Prelude.{
  ℕ, zero, suc, ◌+◌, ◌-◌, Bool, true, false, Option, none, some, List, [], ◌∷◌, Text, if◌then◌else◌,
}
use filly.Prelude.Int.{ℤ, pos, negsuc, ltb_ℤ, pos_part}

-- `WidgetAction`: the callbacks, which may be null, change the document behind `data`.
pub record Action (D : Type 0) : Type 0 where
  pub description : Text
  pub undo : Option (D → D)
  pub redo : Option (D → D)

-- `UndoStack`. `done` is `current` and what its `prev` links reach; `undone` is what follows
-- `current`, or all from `head` on if `current` is null. So `head` is the last of `done`, if any.
-- No function reads `tail`.
pub record UndoStack (D : Type 0) : Type 0 where
  pub done : List (Action D)
  pub undone : List (Action D)
  pub depth : ℕ
  pub max_depth : ℕ

module _ {D : Type 0} where
  pub undo_stack_new : ℤ → UndoStack D
  undo_stack_new max_depth = record {
    done = [];
    undone = [];
    depth = 0;
    max_depth = if ltb_ℤ (pos 0) max_depth then pos_part max_depth else 100;
  }

  -- Unlinks the oldest action, the last of `done`; `none` if that is `current` itself, which would
  -- then point to freed memory, or if there is none.
  pub drop_oldest : List (Action D) → Option (List (Action D))
  drop_oldest [] = none
  drop_oldest (x ∷ []) = none
  drop_oldest (x ∷ y ∷ xs) = elim (drop_oldest (y ∷ xs)) [
    | some ys ↦ some (x ∷ ys)
    | none ↦ some (x ∷ [])
  ]

  -- The loop `while (s->depth > s->max_depth)`, which runs `depth - max_depth` rounds.
  pub evict : ℕ → UndoStack D → Option (UndoStack D)
  evict zero s = some s
  evict (suc k) s = elim (drop_oldest s.done) [
    | none ↦ none
    | some kept ↦ evict k (record s { done = kept; depth = s.depth - 1 })
  ]

  -- The first part of `push`: an action becomes `current` and the last one. What followed the old
  -- `current` is cut off. `none` is `s->current->next = action` at a null `current`.
  link_at : UndoStack D → Action D → List (Action D) → List (Action D) → Option (UndoStack D)
  link_at s action [] [] = some (record s { done = action ∷ []; depth = s.depth + 1 })
  link_at s action [] (x ∷ xs) = none
  link_at s action (c ∷ cs) xs =
      some (record s { done = action ∷ c ∷ cs; undone = []; depth = s.depth + 1 })

  pub link : UndoStack D → Action D → Option (UndoStack D)
  unfolding link_at
  link s action = link_at s action s.done s.undone

  pub undo_stack_push : UndoStack D → Action D → Option (UndoStack D)
  undo_stack_push s action = elim (link s action) [
    | none ↦ none
    | some t ↦ evict (t.depth - t.max_depth) t
  ]

  -- The stack, the document and the returned flag.
  pub undo_stack_undo : UndoStack D → D → UndoStack D × D × Bool
  undo_stack_undo s d = elim s.done [
    | [] ↦ (s, d, false)
    | c ∷ cs ↦ elim c.undo [
      | none ↦ (s, d, false)
      | some f ↦ (record s { done = cs; undone = c ∷ s.undone }, f d, true)
    ]
  ]

  pub undo_stack_redo : UndoStack D → D → UndoStack D × D × Bool
  undo_stack_redo s d = elim s.undone [
    | [] ↦ (s, d, false)
    | c ∷ cs ↦ elim c.redo [
      | none ↦ (s, d, false)
      | some f ↦ (record s { done = c ∷ s.done; undone = cs }, f d, true)
    ]
  ]

  pub undo_stack_clear : UndoStack D → UndoStack D
  undo_stack_clear s = record s { done = []; undone = []; depth = 0 }

  pub undo_stack_peek_undo : UndoStack D → Option Text
  undo_stack_peek_undo s = elim s.done [ [] ↦ none | c ∷ _ ↦ some c.description ]

  pub undo_stack_peek_redo : UndoStack D → Option Text
  undo_stack_peek_redo s = elim s.undone [ [] ↦ none | c ∷ _ ↦ some c.description ]
