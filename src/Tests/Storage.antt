-- ===== src/Tests/Storage.antt =====
-- src/core/store.c, undo.c and arena.c at concrete inputs.
use filly.Prelude.{
  suc, ◌≤◌, ◌≡◌, ◌≢◌, ◌⊎◌, inl, inr, refl, Bool, true, false, none, some, List, [], ◌∷◌, ◌++◌,
  codes, text_eq, if◌then◌else◌, length, All, arith,
}
use filly.Store.{Entry, Store, Write, store_new, store_get, store_set, store_unsubscribe}
use filly.Store.Lookup.{store_get-store_set}
use filly.Store.Notify.{store_set-store_unsubscribe}
use filly.Store.Unique.{Operation, set_value, subscribe, run, run_unique, HasUniqueKeys}
use filly.Store.Enumerate.{enumerate, enumerate_all, pairs}
use filly.Undo.{Action, UndoStack, undo_stack_push}
use filly.Undo.Valid.{undo_stack_push-Pushed, undo_stack_push_fault, Pushes}
use filly.Undo.RoundTrip.{undos, redos, redos-undos, IsReversible}
use filly.Arena.{
  Arena, Memory, Pointer, arena_alloc, arena_strdup, aligned, clear, copy, grow, double_until, null,
  done,
}
use filly.Arena.Alloc.{
  arena_alloc_keeps, arena_alloc_clears, arena_alloc_ends, arena_strdup_lem, read_at,
}

abbrev mode : Entry
mode = record { key = codes "mode"; value = codes "dark"; subs = 5 ∷ 4 ∷ [] }

abbrev two_keys : Store
two_keys = record {
  entries = mode ∷ record { key = codes "lang"; value = codes "en"; subs = [] } ∷ [];
  version = 2;
}

store_get-store_set_example :
    store_get (store_set two_keys (codes "lang") (codes "fr")).0 (codes "mode") ≡ (
      if text_eq (codes "lang") (codes "mode")
      then some (codes "fr")
      else store_get two_keys (codes "mode"))
store_get-store_set_example =
    store_get-store_set two_keys (codes "lang") (codes "mode") (codes "fr")

-- The descriptor 4 subscribes, and 5 subscribes to another key.
abbrev later_operations : List Operation
later_operations =
    set_value (codes "mode") (codes "grey")
    ∷ subscribe (codes "mode") 4
    ∷ subscribe (codes "lang") 5
    ∷ []

store_set-store_unsubscribe_example :
    All
      (λ (w : Write). w.fd ≢ 5)
      (store_set
        (run (store_unsubscribe two_keys (codes "mode") 5) later_operations)
        (codes "mode")
        (codes "light")).1
store_set-store_unsubscribe_example =
    store_set-store_unsubscribe two_keys (codes "mode") (codes "light") 5 later_operations
      (tt, (inl (omega arith), (inr (λ e. ground arith), tt)))

abbrev three_operations : List Operation
three_operations =
    set_value (codes "mode") (codes "dark")
    ∷ subscribe (codes "mode") 4
    ∷ set_value (codes "mode") (codes "light")
    ∷ []

run_unique_example : HasUniqueKeys (run store_new three_operations).entries
run_unique_example = run_unique three_operations

enumerate_all_run :
    enumerate (suc (length two_keys.entries)) (some two_keys) 0 ≡ some (pairs two_keys.entries)
enumerate_all_run = enumerate_all two_keys

abbrev negate : Bool → Bool
negate true = false
negate false = true

negate_twice : (b : Bool) → negate (negate b) ≡ b
negate_twice true = refl
negate_twice false = refl

-- An action that switches a toggle.
abbrev switch : Action Bool
switch = record { description = codes "switch"; undo = some negate; redo = some negate }

switch-IsReversible : IsReversible switch
switch-IsReversible = record {
  back = negate;
  forth = negate;
  undoes = refl;
  redoes = refl;
  forth-back = negate_twice;
}

abbrev two_done : UndoStack Bool
two_done = record { done = switch ∷ switch ∷ []; undone = []; depth = 2; max_depth = 2 }

abbrev all_undone : UndoStack Bool
all_undone = record { done = []; undone = switch ∷ []; depth = 1; max_depth = 2 }

redos-undos_example : redos 2 (undos 2 (two_done, true)) ≡ (two_done, true)
redos-undos_example =
    redos-undos 2 two_done true (switch-IsReversible, (switch-IsReversible, tt)) (omega arith)

undo_stack_push-Pushed_example : Pushes two_done switch
undo_stack_push-Pushed_example =
    undo_stack_push-Pushed two_done switch
      (record {
        counted = omega arith;
        bounded = omega arith;
        room = omega arith;
        empty = inl (omega arith);
      })
      (inl (λ e. cc))

undo_stack_push_fault_run : undo_stack_push all_undone switch ≡ none
undo_stack_push_fault_run = undo_stack_push_fault all_undone switch refl (λ e. cc)

-- An allocator whose `realloc` moves every block to 4096.
abbrev moving : Memory
moving = record { fresh = λ n. some 1024; moves = λ a n. some 4096 }

abbrev small : Arena
small = record { buffer = 1024; bytes = λ i. 7; capacity = 16; offset = 8 }

arena_alloc_ends_example :
    (arena_alloc moving 63 small 20 ≡ null)
    ⊎ ((b : Arena) × (p : Pointer) × (arena_alloc moving 63 small 20 ≡ done b p)
        × (b.offset ≤ b.capacity))
arena_alloc_ends_example =
    arena_alloc_ends moving small 20 (omega arith, omega arith, omega arith, omega arith)
      (omega arith)

-- After an allocation of 20 bytes, which takes 24.
abbrev grown : Arena
grown = record { buffer = 4096; bytes = clear 8 24 (λ i. 7); capacity = 32; offset = 32 }

abbrev at_8 : Pointer
at_8 = record { block = 4096; at = 8 }

alloc_20 : arena_alloc moving 63 small 20 ≡ done grown at_8
unfolding arena_alloc grow aligned double_until
alloc_20 = refl

arena_alloc_keeps_example : grown.bytes 3 ≡ small.bytes 3
arena_alloc_keeps_example =
    arena_alloc_keeps moving small 63 20 3 grown at_8
      (omega arith, omega arith, omega arith, omega arith) (omega arith) (omega arith) alloc_20

arena_alloc_clears_run : grown.bytes 9 ≡ 0
arena_alloc_clears_run =
    arena_alloc_clears moving small 63 20 9 grown at_8
      (omega arith, omega arith, omega arith, omega arith) (omega arith) (omega arith)
      (unfold aligned in omega arith) alloc_20

copied_hi :
    arena_strdup moving 63 small (codes "hi")
    ≡ done
        (record {
          buffer = 1024;
          bytes = copy 8 (codes "hi" ++ (0 ∷ [])) (clear 8 8 (λ i. 7));
          capacity = 16;
          offset = 16;
        })
        (record { block = 1024; at = 8 })
unfolding arena_strdup arena_alloc grow aligned double_until
copied_hi = refl

arena_strdup_lem_run :
    (read_at 8 3 (copy 8 (codes "hi" ++ (0 ∷ [])) (clear 8 8 (λ i. 7))) ≡ codes "hi" ++ (0 ∷ []))
    × (8 ≡ small.offset)
arena_strdup_lem_run =
    arena_strdup_lem moving small
      (record {
        buffer = 1024;
        bytes = copy 8 (codes "hi" ++ (0 ∷ [])) (clear 8 8 (λ i. 7));
        capacity = 16;
        offset = 16;
      })
      63 (codes "hi") (record { block = 1024; at = 8 })
      (omega arith, omega arith, omega arith, omega arith) (omega arith) copied_hi
