-- ===== src/Arena.antt =====
-- src/core/arena.c: the bump allocator that holds a frame's render tree.
pub mod Grow
pub mod Alloc
use filly.Prelude.{
  ℕ, zero, suc, ◌+◌, ◌-◌, ◌*◌, ◌/◌, ◌%◌, ◌^◌, Bool, true, false, Option, none, some, List, [], ◌∷◌,
  ltb, leb, ◌==◌, if◌then◌else◌, length, Text, ◌&&◌, ◌++◌,
}

-- `size_t`
abbrev pub size_mod : ℕ
size_mod = 2 ^ 64

-- What `malloc` and `realloc` do: the address of a block of that many bytes, or null. `moves a n` is
-- the answer of `realloc` to a block at `a`; the bytes that fit are kept.
pub record Memory : Type 0 where
  pub fresh : ℕ → Option ℕ
  pub moves : ℕ → ℕ → Option ℕ

-- `Arena`: the address of the buffer, its bytes by offset, and the two counts.
pub record Arena : Type 0 where
  pub buffer : ℕ
  pub bytes : ℕ → ℕ
  pub capacity : ℕ
  pub offset : ℕ

-- A pointer into the buffer: the address of the block that it was computed from, and the offset.
pub record Pointer : Type 0 where
  pub block : ℕ
  pub at : ℕ

-- `(size + 7) & ~7`
unfoldable pub aligned : ℕ → ℕ
aligned size = (size + 7) % size_mod / 8 * 8

-- `memset(ptr, 0, n)` and `memcpy(ptr, src, …)`
abbrev pub clear : ℕ → ℕ → (ℕ → ℕ) → ℕ → ℕ
clear from n bytes i = if leb from i && ltb i (from + n) then 0 else bytes i

abbrev pub copy : ℕ → Text → (ℕ → ℕ) → ℕ → ℕ
copy from [] bytes i = bytes i
copy from (c ∷ cs) bytes i = if i == from then c else copy (from + 1) cs bytes i

-- `while (new_cap < need) new_cap *= 2`, on fuel; `none` means that the fuel ran out.
unfoldable pub double_until : ℕ → ℕ → ℕ → Option ℕ
double_until zero need cap = none
double_until (suc fuel) need cap =
    let rest = double_until fuel need (cap * 2 % size_mod) in
    if ltb cap need then rest else some cap

-- How a call ends: by a null pointer, with a new state and a value, or never (`hang`).
pub data Outcome (A : Type 0) : Type 0 where
  hang : Outcome A
  null : Outcome A
  done : Arena → A → Outcome A

module _ (m : Memory) where
  -- Any content that `malloc` may leave.
  pub arena_new : (ℕ → ℕ) → ℕ → Option Arena
  arena_new junk initial_capacity = elim (m.fresh initial_capacity) [
    | none ↦ none
    | some a ↦ some (record { buffer = a; bytes = junk; capacity = initial_capacity; offset = 0 })
  ]

  pub arena_reset : Arena → Arena
  arena_reset a = record a { offset = 0 }

  -- The part under `if (a->offset + aligned > a->capacity)`. The loop has `fuel` rounds.
  unfoldable pub grow : ℕ → ℕ → Arena → Outcome (Unit {0})
  grow fuel need a =
      if ltb a.capacity need
      then elim (double_until fuel need (a.capacity * 2 % size_mod)) [
        | none ↦ hang
        | some new_cap ↦ elim (m.moves a.buffer new_cap) [
          | none ↦ null
          | some b ↦ done (record a { buffer = b; capacity = new_cap }) tt
        ]
      ]
      else done a tt

  unfoldable pub arena_alloc : ℕ → Arena → ℕ → Outcome Pointer
  arena_alloc fuel a size = elim (grow fuel ((a.offset + aligned size) % size_mod) a) [
    | hang ↦ hang
    | null ↦ null
    | done b _ ↦
        done
          (record b {
            offset = (b.offset + aligned size) % size_mod;
            bytes = clear b.offset (aligned size) b.bytes;
          })
          (record { block = b.buffer; at = b.offset })
  ]

  -- `src` without its NUL; the copy includes it.
  unfoldable pub arena_strdup : ℕ → Arena → Text → Outcome Pointer
  arena_strdup fuel a src = elim (arena_alloc fuel a (length src + 1)) [
    | hang ↦ hang
    | null ↦ null
    | done b p ↦ done (record b { bytes = copy p.at (src ++ (0 ∷ [])) b.bytes }) p
  ]

  pub arena_maybe_shrink : Arena → Arena
  arena_maybe_shrink a =
      let used = a.offset in
      let cap = a.capacity in
      let twice = used * 2 % size_mod in
      let new_cap = if ltb twice (1024 * 1024) then 1024 * 1024 else twice in
      if ltb (4 * 1024 * 1024) cap && ltb used (cap / 4)
      then elim (m.moves a.buffer new_cap) [
        | some b ↦ record a { buffer = b; capacity = new_cap }
        | none ↦ a
      ]
      else a

-- A pointer is live while the block that it points into is still the buffer.
abbrev pub is_live : Arena → Pointer → Bool
is_live a p = p.block == a.buffer
