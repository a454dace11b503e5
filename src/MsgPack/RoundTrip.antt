-- ===== src/MsgPack/RoundTrip.antt =====
-- Reading back what was written, for every kind of value whose encoding has a length.
use Prim.Native.Nat.{bit_and, bit_or}
use filly.Prelude.{
  ℕ, ◌+◌, ◌-◌, ◌^◌, ◌≤◌, ◌<◌, ◌≡◌, refl, List, [], ◌∷◌, ◌++◌, leb, ◌==◌, if◌then◌else◌, arith,
  length, ==_iff, ltb, all_below, all_below_sound,
}
use filly.Prelude.Int.{ℤ, pos, negsuc}
use filly.MsgPack.{
  Writer, Reader, pattern64, signed, msgpack_write_int, read_byte, read_be, msgpack_read_int,
}
use filly.MsgPack.Bytes.{
  Wrote, be, write_byte-Wrote, header-Wrote, read_be-be_1, read_be-be_2, read_be-be_4, read_be-be_8,
}

abbrev pub IsInt64 : ℤ → Type 0
IsInt64 (pos n) = n < 2 ^ 63
IsInt64 (negsuc n) = n < 2 ^ 63

-- The bytes of an `int64_t`.
unfoldable pub int_bytes : ℤ → List ℕ
int_bytes (pos n) =
    if leb n 127
    then n ∷ []
    else if leb n 255
    then 0xcc ∷ be 1 n
    else if leb n 65535
    then 0xcd ∷ be 2 n
    else if leb n 0xffffffff
    then 0xce ∷ be 4 n
    else 0xcf ∷ be 8 n
int_bytes (negsuc n) =
    let u = pattern64 (negsuc n) in
    if ltb n 32
    then bit_or 0xe0 (bit_and u 0x1f) ∷ []
    else if ltb n 128
    then 0xd0 ∷ be 1 u
    else if ltb n 32768
    then 0xd1 ∷ be 2 u
    else if ltb n 0x80000000
    then 0xd2 ∷ be 4 u
    else 0xd3 ∷ be 8 u

-- `msgpack_write_int` writes those bytes, where they fit.
pub msgpack_write_int-Wrote :
    (w : Writer) (v : ℤ) → length w.buf + 9 ≤ w.size → Wrote w (int_bytes v) (msgpack_write_int w v)
unfolding msgpack_write_int int_bytes
msgpack_write_int-Wrote w (pos n) h = ground (
  arith,
  write_byte-Wrote w n,
  header-Wrote w 0xcc 1 n,
  header-Wrote w 0xcd 2 n,
  header-Wrote w 0xce 4 n,
  header-Wrote w 0xcf 8 n,
)
msgpack_write_int-Wrote w (negsuc n) h =
    let u : ℕ = pattern64 (negsuc n) in
    ground (
      arith,
      write_byte-Wrote w (bit_or 0xe0 (bit_and u 0x1f)),
      header-Wrote w 0xd0 1 u,
      header-Wrote w 0xd1 2 u,
      header-Wrote w 0xd2 4 u,
      header-Wrote w 0xd3 8 u,
    )

-- The byte 0b111xxxxx of -1 down to -32, from tables of all 32.
fixint_byte : (n : ℕ) → n < 32 → bit_or 0xe0 (bit_and (pattern64 (negsuc n)) 0x1f) ≡ 255 - n
unfolding all_below
fixint_byte n h = (==_iff _ _).0 (
    all_below_sound 32 (λ k. bit_or 0xe0 (bit_and (pattern64 (negsuc k)) 0x1f) == 255 - k) n refl h)

fixint_mask : (n : ℕ) → n < 32 → bit_and (255 - n) 0xe0 ≡ 0xe0
unfolding all_below
fixint_mask n h = (==_iff _ _).0 (all_below_sound 32 (λ k. bit_and (255 - k) 0xe0 == 0xe0) n refl h)

-- What the reader makes of each header.
module _ (r : Reader) where
  fixint : (n : ℕ) → n ≤ 127 → msgpack_read_int (n ∷ r) ≡ (pos n, r)
  unfolding msgpack_read_int read_byte
  fixint n h = ground arith

  negative_fixint :
      (n : ℕ)
      → n < 32
      → msgpack_read_int (bit_or 0xe0 (bit_and (pattern64 (negsuc n)) 0x1f) ∷ r) ≡ (negsuc n, r)
  unfolding msgpack_read_int read_byte
  negative_fixint n h =
      rw (fixint_byte n h)
        (ground (arith, fixint_mask n h, (==_iff (bit_and (255 - n) 0xe0) 0xe0).1))

  tag_cc : msgpack_read_int (0xcc ∷ r) ≡ (pos (read_be 1 0 r).0, (read_be 1 0 r).1)
  unfolding msgpack_read_int read_byte
  tag_cc = refl

  tag_cd : msgpack_read_int (0xcd ∷ r) ≡ (pos (read_be 2 0 r).0, (read_be 2 0 r).1)
  unfolding msgpack_read_int read_byte
  tag_cd = refl

  tag_ce : msgpack_read_int (0xce ∷ r) ≡ (pos (read_be 4 0 r).0, (read_be 4 0 r).1)
  unfolding msgpack_read_int read_byte
  tag_ce = refl

  tag_cf : msgpack_read_int (0xcf ∷ r) ≡ (signed (2 ^ 63) (read_be 8 0 r).0, (read_be 8 0 r).1)
  unfolding msgpack_read_int read_byte
  tag_cf = refl

  tag_d0 : msgpack_read_int (0xd0 ∷ r) ≡ (signed (2 ^ 7) (read_be 1 0 r).0, (read_be 1 0 r).1)
  unfolding msgpack_read_int read_byte
  tag_d0 = refl

  tag_d1 : msgpack_read_int (0xd1 ∷ r) ≡ (signed (2 ^ 15) (read_be 2 0 r).0, (read_be 2 0 r).1)
  unfolding msgpack_read_int read_byte
  tag_d1 = refl

  tag_d2 : msgpack_read_int (0xd2 ∷ r) ≡ (signed (2 ^ 31) (read_be 4 0 r).0, (read_be 4 0 r).1)
  unfolding msgpack_read_int read_byte
  tag_d2 = refl

  tag_d3 : msgpack_read_int (0xd3 ∷ r) ≡ (signed (2 ^ 63) (read_be 8 0 r).0, (read_be 8 0 r).1)
  unfolding msgpack_read_int read_byte
  tag_d3 = refl

read_int_pos :
    (n : ℕ) (r : Reader) → n < 2 ^ 63 → msgpack_read_int (int_bytes (pos n) ++ r) ≡ (pos n, r)
unfolding int_bytes
read_int_pos n r h = ground (
  arith,
  fixint r n,
  tag_cc (be 1 n ++ r),
  tag_cd (be 2 n ++ r),
  tag_ce (be 4 n ++ r),
  tag_cf (be 8 n ++ r),
  read_be-be_1 n r,
  read_be-be_2 n r,
  read_be-be_4 n r,
  read_be-be_8 n r,
)

read_int_negsuc :
    (n : ℕ) (r : Reader) → n < 2 ^ 63 → msgpack_read_int (int_bytes (negsuc n) ++ r) ≡ (negsuc n, r)
unfolding int_bytes
read_int_negsuc n r h =
    let u : ℕ = pattern64 (negsuc n) in
    ground (
      arith,
      negative_fixint r n,
      tag_d0 (be 1 u ++ r),
      tag_d1 (be 2 u ++ r),
      tag_d2 (be 4 u ++ r),
      tag_d3 (be 8 u ++ r),
      read_be-be_1 u r,
      read_be-be_2 u r,
      read_be-be_4 u r,
      read_be-be_8 u r,
    )

pub read_int-int_bytes :
    (v : ℤ) (r : Reader) → IsInt64 v → msgpack_read_int (int_bytes v ++ r) ≡ (v, r)
read_int-int_bytes (pos n) r h = read_int_pos n r h
read_int-int_bytes (negsuc n) r h = read_int_negsuc n r h

-- Where 9 bytes are free, `msgpack_write_int` appends some bytes, and from them, whatever follows,
-- `msgpack_read_int` reads the same `int64_t` and leaves what follows.
pub msgpack_read_int-write_int :
    (w : Writer) (v : ℤ)
    → length w.buf + 9 ≤ w.size
    → IsInt64 v
    → (bs : List ℕ) × ((msgpack_write_int w v).buf ≡ w.buf ++ bs)
      × ((r : Reader) → msgpack_read_int (bs ++ r) ≡ (v, r))
msgpack_read_int-write_int w v h i =
    (int_bytes v, (msgpack_write_int-Wrote w v h).1, λ r. read_int-int_bytes v r i)
