-- ===== src/MsgPack.antt =====
-- src/protocol/msgpack.c: the MessagePack writer and reader of the daemon's second wire format.
pub mod Bytes
pub mod RoundTrip
pub mod Strings
use Prim.Native.Nat.{bit_and, bit_or}
use filly.Prelude.{
  ℕ, zero, suc, ◌+◌, ◌-◌, ◌*◌, ◌/◌, ◌%◌, ◌^◌, Bool, true, false, Option, none, some, List, [], ◌∷◌,
  ◌++◌, ltb, leb, ◌==◌, if◌then◌else◌, length, Text,
}
use filly.Prelude.Int.{ℤ, pos, negsuc}

-- `MsgPackWriter`: the bytes written so far, so that `pos` is their number.
pub record Writer : Type 0 where
  pub size : ℕ
  pub buf : List ℕ

abbrev pub writer_init : ℕ → Writer
writer_init size = record { size = size; buf = [] }

-- A byte that does not fit is dropped.
unfoldable pub write_byte : Writer → ℕ → Writer
write_byte w b = if ltb (length w.buf) w.size then record w { buf = w.buf ++ (b ∷ []) } else w

unfoldable pub write_bytes : Writer → List ℕ → Writer
unfolding write_byte
write_bytes w [] = w
write_bytes w (b ∷ bs) = write_bytes (write_byte w b) bs

-- `for (int i = n-1; i >= 0; i--) write_byte(w, (uint8_t)(u >> (8*i)))`
unfoldable pub write_be : ℕ → ℕ → Writer → Writer
write_be zero u w = w
write_be (suc i) u w = write_be i u (write_byte w (u / 256 ^ i % 256))

-- The 64 bits of an `int64_t`. `>>` on them, cut to a byte, is that on the number.
abbrev pub pattern64 : ℤ → ℕ
pattern64 (pos n) = n
pattern64 (negsuc n) = 2 ^ 64 - 1 - n

-- The number that the lower bits of `x`, `half` being the weight of the top one, stand for.
abbrev pub signed : ℕ → ℕ → ℤ
signed half x = if ltb x half then pos x else negsuc (2 * half - 1 - x)

pub msgpack_write_nil : Writer → Writer
msgpack_write_nil w = write_byte w 0xc0

pub msgpack_write_bool : Writer → Bool → Writer
msgpack_write_bool w val = write_byte w (if val then 0xc3 else 0xc2)

pub msgpack_write_int : Writer → ℤ → Writer
msgpack_write_int w (pos n) =
    if leb n 127
    then write_byte w n
    else if leb n 255
    then write_be 1 n (write_byte w 0xcc)
    else if leb n 65535
    then write_be 2 n (write_byte w 0xcd)
    else if leb n 0xffffffff
    then write_be 4 n (write_byte w 0xce)
    else write_be 8 n (write_byte w 0xcf)
msgpack_write_int w (negsuc n) =
    let u = pattern64 (negsuc n) in
    if ltb n 32
    then write_byte w (bit_or 0xe0 (bit_and u 0x1f))
    else if ltb n 128
    then write_be 1 u (write_byte w 0xd0)
    else if ltb n 32768
    then write_be 2 u (write_byte w 0xd1)
    else if ltb n 0x80000000
    then write_be 4 u (write_byte w 0xd2)
    else write_be 8 u (write_byte w 0xd3)

-- `bits` are the 64 bits of the `double`.
pub msgpack_write_float : Writer → ℕ → Writer
msgpack_write_float w bits = write_be 8 bits (write_byte w 0xcb)

pub msgpack_write_str : Writer → Text → Writer
msgpack_write_str w str =
    let len = length str in
    write_bytes
      (if leb len 31
        then write_byte w (bit_or 0xa0 len)
        else if leb len 255
        then write_be 1 len (write_byte w 0xd9)
        else if leb len 65535
        then write_be 2 len (write_byte w 0xda)
        else write_be 4 len (write_byte w 0xdb))
      str

pub msgpack_write_array_header : Writer → ℕ → Writer
msgpack_write_array_header w count =
    if leb count 15
    then write_byte w (bit_or 0x90 count)
    else if leb count 65535
    then write_be 2 count (write_byte w 0xdc)
    else write_be 4 count (write_byte w 0xdd)

pub msgpack_write_map_header : Writer → ℕ → Writer
msgpack_write_map_header w count =
    if leb count 15
    then write_byte w (bit_or 0x80 count)
    else if leb count 65535
    then write_be 2 count (write_byte w 0xde)
    else write_be 4 count (write_byte w 0xdf)

-- `MsgPackReader`: the bytes from `pos` up to `size`.
abbrev pub Reader : Type 0
Reader = List ℕ

-- Past the end a byte reads as 0.
unfoldable pub read_byte : Reader → ℕ × Reader
read_byte [] = (0, [])
read_byte (b ∷ r) = (b, r)

-- `for (…) v = (v << 8) | read_byte(r)`; the low byte of `v << 8` is 0, so `|` adds.
unfoldable pub read_be : ℕ → ℕ → Reader → ℕ × Reader
read_be zero v r = (v, r)
read_be (suc n) v r = let (b, r') = read_byte r in read_be n (v * 256 + b) r'

pub msgpack_read_type : Reader → Option ℕ
msgpack_read_type [] = none
msgpack_read_type (b ∷ r) = some b

pub msgpack_read_bool : Reader → Bool × Reader
msgpack_read_bool r = let (b, r') = read_byte r in (b == 0xc3, r')

-- The multi-byte operands are read from the left, as the compilers at hand do for `0xcd` and `0xd1`.
pub msgpack_read_int : Reader → ℤ × Reader
msgpack_read_int r =
    let (b, r') = read_byte r in
    let (v1, r1) = read_be 1 0 r' in
    let (v2, r2) = read_be 2 0 r' in
    let (v4, r4) = read_be 4 0 r' in
    let (v8, r8) = read_be 8 0 r' in
    if leb b 0x7f
    then (pos b, r')
    else if bit_and b 0xe0 == 0xe0
    then (signed (2 ^ 7) b, r')
    else if b == 0xcc
    then (pos v1, r1)
    else if b == 0xcd
    then (pos v2, r2)
    else if b == 0xce
    then (pos v4, r4)
    else if b == 0xcf
    then (signed (2 ^ 63) v8, r8)
    else if b == 0xd0
    then (signed (2 ^ 7) v1, r1)
    else if b == 0xd1
    then (signed (2 ^ 15) v2, r2)
    else if b == 0xd2
    then (signed (2 ^ 31) v4, r4)
    else if b == 0xd3
    then (signed (2 ^ 63) v8, r8)
    else (pos 0, r')

pub msgpack_read_float : Reader → ℕ × Reader
msgpack_read_float r = let (b, r') = read_byte r in if b == 0xcb then read_be 8 0 r' else (0, r')

-- `for (i < l) s[i] = read_byte(r)`
unfoldable pub read_bytes : ℕ → Reader → Text × Reader
read_bytes zero r = ([], r)
read_bytes (suc n) r = let (b, r') = read_byte r in let (s, r'') = read_bytes n r' in (b ∷ s, r'')

pub read_str_len : Reader → ℕ × Reader
read_str_len r =
    let (b, r') = read_byte r in
    if bit_and b 0xe0 == 0xa0
    then (bit_and b 0x1f, r')
    else if b == 0xd9
    then read_be 1 0 r'
    else if b == 0xda
    then read_be 2 0 r'
    else if b == 0xdb
    then read_be 4 0 r'
    else (0, r')

pub msgpack_read_str : Reader → Text × Reader
msgpack_read_str r = let (l, r') = read_str_len r in read_bytes l r'

pub msgpack_read_array : Reader → ℕ × Reader
msgpack_read_array r =
    let (b, r') = read_byte r in
    if bit_and b 0xf0 == 0x90
    then (bit_and b 0xf, r')
    else if b == 0xdc
    then read_be 2 0 r'
    else if b == 0xdd
    then read_be 4 0 r'
    else (0, r')

pub msgpack_read_map : Reader → ℕ × Reader
msgpack_read_map r =
    let (b, r') = read_byte r in
    if bit_and b 0xf0 == 0x80
    then (bit_and b 0xf, r')
    else if b == 0xde
    then read_be 2 0 r'
    else if b == 0xdf
    then read_be 4 0 r'
    else (0, r')
