-- ===== src/Arena/Alloc.antt =====
-- What `arena_alloc` and `arena_strdup` return, and what they leave alone.
use filly.Prelude.{
  ℕ, zero, suc, ◌+◌, ◌*◌, ◌%◌, ◌^◌, ◌≤◌, ◌<◌, ◌≡◌, ◌≢◌, refl, true, some, [], ◌∷◌, ◌++◌, arith, ap,
  ◌∙◌, length, Text, length-append, ==_refl, ◌⊎◌, inl, inr,
}
use filly.Arena.{
  Arena, Memory, Pointer, Outcome, hang, null, done, aligned, double_until, grow, clear, copy,
  size_mod, arena_alloc, arena_strdup, is_live,
}
use filly.Arena.Grow.{double_until_reaches, aligned_lem}

abbrev pub IsValid : Arena → Type 0
IsValid a = (1 ≤ a.capacity) × (a.offset ≤ a.capacity) × (a.capacity ≤ 2 ^ 61) × (a.offset % 8 ≡ 0)

module _ (m : Memory) (a : Arena) (fuel : ℕ) where
  -- A call returns a pointer at the old offset, into the buffer as it is now.
  pub arena_alloc_done :
      (size : ℕ) (b : Arena) (p : Pointer)
      → IsValid a
      → size ≤ 2 ^ 60
      → arena_alloc m fuel a size ≡ done b p
      → (p.at ≡ a.offset)
        × (p.block ≡ b.buffer)
        × (b.offset ≡ a.offset + aligned size)
        × (b.bytes ≡ clear a.offset (aligned size) a.bytes)
  unfolding arena_alloc grow
  arena_alloc_done size b p v h e = ground (arith, aligned_lem size)

  -- If a valid arena allocates at most 2 ^ 60 bytes, the bytes below the old offset stay as they
  -- were.
  pub arena_alloc_keeps :
      (size i : ℕ) (b : Arena) (p : Pointer)
      → IsValid a
      → size ≤ 2 ^ 60
      → i < a.offset
      → arena_alloc m fuel a size ≡ done b p
      → b.bytes i ≡ a.bytes i
  unfolding arena_alloc grow
  arena_alloc_keeps size i b p v h l e = ground (arith, aligned_lem size)

  -- If a valid arena allocates at most 2 ^ 60 bytes, every byte of the new block is 0.
  pub arena_alloc_clears :
      (size i : ℕ) (b : Arena) (p : Pointer)
      → IsValid a
      → size ≤ 2 ^ 60
      → p.at ≤ i
      → i < p.at + aligned size
      → arena_alloc m fuel a size ≡ done b p
      → b.bytes i ≡ 0
  unfolding arena_alloc grow
  arena_alloc_clears size i b p v h l l' e = ground (arith, aligned_lem size)

  -- Where the block fits, the call succeeds, and the buffer stays where it is, so that every pointer
  -- into it stays live.
  pub arena_alloc_fits :
      (size : ℕ)
      → IsValid a
      → size ≤ 2 ^ 60
      → a.offset + aligned size ≤ a.capacity
      → (arena_alloc m fuel a size ≢ null)
        × (arena_alloc m fuel a size ≢ hang)
        × ((b : Arena) (p : Pointer)
            → arena_alloc m fuel a size ≡ done b p
            → (b.buffer ≡ a.buffer) × (b.capacity ≡ a.capacity))
  unfolding arena_alloc grow
  arena_alloc_fits size v h fits = (
    ground (arith, aligned_lem size),
    ground (arith, aligned_lem size),
    λ b p e. ground (arith, aligned_lem size),
  )

  -- Where it does not fit, the buffer is what `realloc` answered: a pointer from before the call is
  -- live afterwards only if that is the old address.
  pub arena_alloc_moves :
      (size : ℕ) (b : Arena) (p q : Pointer)
      → IsValid a
      → size ≤ 2 ^ 60
      → a.capacity < a.offset + aligned size
      → arena_alloc m fuel a size ≡ done b p
      → is_live a q ≡ true
      → is_live b q ≡ true
      → m.moves a.buffer b.capacity ≡ some a.buffer
  unfolding arena_alloc grow
  arena_alloc_moves size b p q v h big e k l = ground (arith, aligned_lem size)

Outcome-cases :
    {A : Type 0} (o : Outcome A) → o ≢ hang → (o ≡ null) ⊎ ((b : Arena) × (x : A) × (o ≡ done b x))
Outcome-cases hang h = absurd (h refl)
Outcome-cases null h = inl refl
Outcome-cases (done b x) h = inr (b, x, refl)

module _ (m : Memory) (a : Arena) where
  grow_ends :
      (need : ℕ)
      → 1 ≤ a.capacity
      → a.capacity ≤ 2 ^ 61
      → need ≤ 2 ^ 62
      → (grow m 63 need a ≢ hang)
        × ((b : Arena) (u : Unit {0})
            → grow m 63 need a ≡ done b u
            → (need ≤ b.capacity) × (b.offset ≡ a.offset))
  unfolding grow
  grow_ends need h1 h2 h3 =
      let (c, e, b, l, u) =
        double_until_reaches 62 need (a.capacity * 2) (omega arith) h3 (omega arith) in
      let e' : double_until 63 need (a.capacity * 2 % size_mod) ≡ some c =
        ap (double_until 63 need) (omega arith) ∙ e in
      (ground arith, λ b u k. ground arith)

  -- From a valid arena a call for at most 2 ^ 60 bytes ends, within 63 rounds of its loop: in a
  -- null pointer, or with all blocks within the capacity.
  pub arena_alloc_ends :
      (size : ℕ)
      → IsValid a
      → size ≤ 2 ^ 60
      → (arena_alloc m 63 a size ≡ null)
        ⊎ ((b : Arena) × (p : Pointer) × (arena_alloc m 63 a size ≡ done b p)
            × (b.offset ≤ b.capacity))
  unfolding arena_alloc
  arena_alloc_ends size v h =
      let need : ℕ = (a.offset + aligned size) % size_mod in
      let (ends, ready) = grow_ends need v.0 v.2 (omega (arith, aligned_lem size)) in
      elim (Outcome-cases (grow m 63 need a) ends) [
        | inl e ↦ inl (rw (e, arena_alloc))
        | inr (b, u, e) ↦ inr (
          record b {
            offset = (b.offset + aligned size) % size_mod;
            bytes = clear b.offset (aligned size) b.bytes;
          },
          record { block = b.buffer; at = b.offset },
          rw (e, arena_alloc),
          omega (arith, ready b u e, aligned_lem size),
        )
      ]

-- The bytes from an offset on.
abbrev pub read_at : ℕ → ℕ → (ℕ → ℕ) → Text
read_at from zero bytes = []
read_at from (suc n) bytes = bytes from ∷ read_at (from + 1) n bytes

read_at-ext :
    (from n : ℕ) (f g : ℕ → ℕ)
    → ((i : ℕ) → from ≤ i → f i ≡ g i)
    → read_at from n f ≡ read_at from n g
read_at-ext from zero f g h = refl
read_at-ext from (suc n) f g h =
    rw (h from (omega arith), read_at-ext (from + 1) n f g (λ i l. h i (omega arith)))

read_at-copy :
    (from : ℕ) (cs : Text) (bytes : ℕ → ℕ) → read_at from (length cs) (copy from cs bytes) ≡ cs
read_at-copy from [] bytes = refl
read_at-copy from (c ∷ cs) bytes = rw (==_refl from) (
    ap (c ∷◌) (
      read_at-ext (from + 1) (length cs) _ (copy (from + 1) cs bytes) (λ i l. ground arith)
      ∙ read_at-copy (from + 1) cs bytes))

copy_below : (from i : ℕ) (cs : Text) (bytes : ℕ → ℕ) → i < from → copy from cs bytes i ≡ bytes i
copy_below from i [] bytes h = refl
copy_below from i (c ∷ cs) bytes h = ground (arith, copy_below (from + 1) i cs bytes)

strdup_alloc :
    (m : Memory) (a b : Arena) (fuel : ℕ) (src : Text) (p : Pointer)
    → arena_strdup m fuel a src ≡ done b p
    → (b' : Arena) × (arena_alloc m fuel a (length src + 1) ≡ done b' p)
      × (b.bytes ≡ copy p.at (src ++ (0 ∷ [])) b'.bytes)
unfolding arena_strdup
strdup_alloc m a b fuel src p e = go (arena_alloc m fuel a (length src + 1)) refl
  where
    go :
        (o : Outcome Pointer)
        → arena_alloc m fuel a (length src + 1) ≡ o
        → (b' : Arena) × (arena_alloc m fuel a (length src + 1) ≡ done b' p)
          × (b.bytes ≡ copy p.at (src ++ (0 ∷ [])) b'.bytes)
    go hang k = ground arith
    go null k = ground arith
    go (done b' q) k = (b', ground arith, ground arith)

-- If a valid arena copies a string of less than 2 ^ 60 bytes, the copy lies at the old offset and
-- reads back as the string and its NUL.
pub arena_strdup_lem :
    (m : Memory) (a b : Arena) (fuel : ℕ) (src : Text) (p : Pointer)
    → IsValid a
    → length src < 2 ^ 60
    → arena_strdup m fuel a src ≡ done b p
    → (read_at p.at (length src + 1) b.bytes ≡ src ++ (0 ∷ [])) × (p.at ≡ a.offset)
arena_strdup_lem m a b fuel src p v h e =
    let (b', k, c) = strdup_alloc m a b fuel src p e in
    let (at, _, _, _) = arena_alloc_done m a fuel (length src + 1) b' p v (omega arith) k in
    let n : length src + 1 ≡ length (src ++ (0 ∷ [])) = omega (arith, length-append src (0 ∷ [])) in
    (rw (c, n) (read_at-copy p.at (src ++ (0 ∷ [])) b'.bytes), at)
