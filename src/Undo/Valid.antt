-- ===== src/Undo/Valid.antt =====
-- The counts of the undo stack, and when a push is safe.
use filly.Prelude.{
  ℕ, ◌+◌, ◌-◌, ◌≤◌, ◌<◌, ◌≡◌, ◌≢◌, ◌⊎◌, inl, inr, refl, ap, none, some, List, [], ◌∷◌, ◌++◌, arith,
  length,
}
use filly.Prelude.Int.{ℤ}
use native.Mathlib.Decide.{dec_lt}
use filly.Undo.{
  Action, UndoStack, undo_stack_new, drop_oldest, evict, link, undo_stack_push,
  undo_stack_peek_undo,
}

module _ {D : Type 0} where
  -- The depth covers the actions that are linked, and is 0 if there is none.
  pub record IsValid (s : UndoStack D) : Type 0 where
    pub counted : length s.done + length s.undone ≤ s.depth
    pub bounded : s.depth ≤ s.max_depth
    pub room : 1 ≤ s.max_depth
    pub empty : (1 ≤ length s.done + length s.undone) ⊎ (s.depth ≡ 0)

  -- Not everything has been undone, or there was nothing.
  abbrev pub CanPush : UndoStack D → Type 0
  CanPush s = (s.done ≢ []) ⊎ (s.undone ≡ [])

  pub undo_stack_new-IsValid : (n : ℤ) → IsValid (undo_stack_new {D = D} n)
  unfolding undo_stack_new
  undo_stack_new-IsValid n = ground arith

  drop_oldest-some :
      (x y : Action D) (xs : List (Action D))
      → (ys : List (Action D)) × (oldest : Action D) × (drop_oldest (x ∷ y ∷ xs) ≡ some (x ∷ ys))
        × (length ys ≡ length xs)
        × (y ∷ xs ≡ ys ++ oldest ∷ [])
  unfolding drop_oldest
  drop_oldest-some x y [] = ([], y, refl, refl, refl)
  drop_oldest-some x y (z ∷ xs) =
      let (ys, oldest, e, l, same) = drop_oldest-some y z xs in
      (y ∷ ys, oldest, ground arith, ground arith, ap (y ∷◌) same)

  -- All that was done but the oldest action stays, below the new one.
  abbrev pub ReplacesOldest : UndoStack D → Action D → UndoStack D → Type 0
  ReplacesOldest s action t =
      (kept : List (Action D)) × (oldest : Action D) × (s.done ≡ kept ++ oldest ∷ [])
      × (t.done ≡ action ∷ kept)

  -- The result of a push: the new action is current, nothing is left to redo, and what was done
  -- before stays below it, less the oldest action where the depth was at its limit.
  pub record Pushed (s : UndoStack D) (action : Action D) (t : UndoStack D) : Type 0 where
    pub valid : IsValid t
    pub limit : t.max_depth ≡ s.max_depth
    pub top : undo_stack_peek_undo t ≡ some action.description
    pub no_redo : t.undone ≡ []
    pub kept :
        ((s.depth < s.max_depth) × (t.done ≡ action ∷ s.done) × (t.depth ≡ s.depth + 1))
        ⊎ ((s.depth ≡ s.max_depth) × (t.depth ≡ s.max_depth) × ReplacesOldest s action t)

  abbrev pub Pushes : UndoStack D → Action D → Type 0
  Pushes s action = (t : UndoStack D) × (undo_stack_push s action ≡ some t) × Pushed s action t

  -- One round of `evict` at most, since the depth was within its limit.
  evict-room : (t : UndoStack D) → t.depth ≤ t.max_depth → evict (t.depth - t.max_depth) t ≡ some t
  unfolding evict
  evict-room t h = let e : t.depth - t.max_depth ≡ 0 = omega arith in rw e

  evict-one :
      (t : UndoStack D) (kept : List (Action D))
      → t.depth ≡ t.max_depth + 1
      → drop_oldest t.done ≡ some kept
      → evict (t.depth - t.max_depth) t ≡ some (record t { done = kept; depth = t.depth - 1 })
  unfolding evict
  evict-one t kept h e = let e' : t.depth - t.max_depth ≡ 1 = omega arith in rw e' (ground arith)

  abbrev stack : List (Action D) → List (Action D) → ℕ → ℕ → UndoStack D
  stack ds us n m = record { done = ds; undone = us; depth = n; max_depth = m }

  push-room :
      (ds us : List (Action D)) (n m : ℕ) (action : Action D)
      → (ds ≢ []) ⊎ (us ≡ [])
      → n < m
      → undo_stack_push (stack ds us n m) action ≡ some (stack (action ∷ ds) [] (n + 1) m)
  unfolding undo_stack_push link
  push-room [] [] n m action c h = evict-room _ (omega arith)
  push-room [] (x ∷ us) n m action c h = ground arith
  push-room (d ∷ ds) us n m action c h = evict-room _ (omega arith)

  push-full :
      (d : Action D) (ds us kept : List (Action D)) (n m : ℕ) (action : Action D)
      → n ≡ m
      → drop_oldest (action ∷ d ∷ ds) ≡ some kept
      → undo_stack_push (stack (d ∷ ds) us n m) action ≡ some (stack kept [] (n + 1 - 1) m)
  unfolding undo_stack_push link
  push-full d ds us kept n m action h e = evict-one _ kept (omega arith) e

  push_on :
      (d : Action D) (ds us : List (Action D)) (n m : ℕ) (action : Action D)
      → IsValid (stack (d ∷ ds) us n m)
      → Pushes (stack (d ∷ ds) us n m) action
  unfolding undo_stack_peek_undo
  push_on d ds us n m action v = elim (dec_lt n m) [
    | yes h ↦ (
      stack (action ∷ d ∷ ds) [] (n + 1) m,
      push-room (d ∷ ds) us n m action (inl (λ e. cc)) h,
      ground arith,
    )
    | no h ↦
        let (kept, oldest, e, l, same) = drop_oldest-some action d ds in
        (
          stack (action ∷ kept) [] (n + 1 - 1) m,
          push-full d ds us (action ∷ kept) n m action (omega arith) e,
          record {
            valid = ground arith;
            limit = refl;
            top = refl;
            no_redo = refl;
            kept = inr (omega arith, omega arith, (kept, oldest, same, refl));
          },
        )
  ]

  push_first :
      (n m : ℕ) (action : Action D) → IsValid (stack [] [] n m) → Pushes (stack [] [] n m) action
  unfolding undo_stack_peek_undo
  push_first n m action v = (
    stack (action ∷ []) [] (n + 1) m,
    push-room [] [] n m action (inr refl) (omega (arith, v.empty)),
    ground (arith, v.empty),
  )

  -- On a valid stack of which not everything has been undone, a push succeeds: the stack stays valid
  -- with its limit, the new action is the next to undo and nothing is left to redo; and either the
  -- depth was below the limit, what was done stays below the new action and the depth grows by one,
  -- or the depth was at the limit and stays there, and what was done, less the oldest action, stays
  -- below the new one.
  pub undo_stack_push-Pushed :
      (s : UndoStack D) (action : Action D) → IsValid s → CanPush s → Pushes s action
  undo_stack_push-Pushed s action v c = on_stack s.done s.undone v c
    where
      on_stack :
          (ds us : List (Action D))
          → IsValid (stack ds us s.depth s.max_depth)
          → CanPush (stack ds us s.depth s.max_depth)
          → Pushes (stack ds us s.depth s.max_depth) action
      on_stack [] us v (inl h) = absurd (h refl)
      on_stack [] [] v (inr h) = push_first s.depth s.max_depth action v
      on_stack [] (x ∷ us) v (inr h) = cc
      on_stack (d ∷ ds) us v c = push_on d ds us s.depth s.max_depth action v

  -- A push after everything was undone follows the null `current`: the program faults.
  pub undo_stack_push_fault :
      (s : UndoStack D) (action : Action D)
      → s.done ≡ []
      → s.undone ≢ []
      → undo_stack_push s action ≡ none
  unfolding undo_stack_push link
  undo_stack_push_fault s action e h = ground arith
