-- ===== src/MsgPack/Strings.antt =====
-- The round trips of strings and of the headers of arrays and maps.
use Prim.Native.Nat.{bit_and, bit_or}
use filly.Prelude.{
  ℕ, ◌+◌, ◌^◌, ◌≤◌, ◌<◌, ◌≡◌, refl, List, [], ◌∷◌, ◌++◌, leb, ◌==◌, if◌then◌else◌, arith, length,
  all_below, all_below_sound, length-append, append_assoc, ap, ◌&&◌, Text,
}
use filly.MsgPack.{
  Writer, Reader, write_byte, write_bytes, write_be, msgpack_write_str, msgpack_write_array_header,
  msgpack_write_map_header, read_byte, read_str_len, msgpack_read_str, msgpack_read_array,
  msgpack_read_map,
}
use filly.MsgPack.Bytes.{
  Wrote, Wrote-trans, be, write_byte-Wrote, write_bytes-Wrote, header-Wrote, read_be-be_1,
  read_be-be_2, read_be-be_4, read_bytes-append,
}

-- The one-byte headers, from tables.
fixstr :
    (n : ℕ) → n < 32 → (bit_and (bit_or 0xa0 n) 0xe0 ≡ 0xa0) × (bit_and (bit_or 0xa0 n) 0x1f ≡ n)
unfolding all_below
fixstr n h = ground (
  arith,
  all_below_sound 32
      (λ k. (bit_and (bit_or 0xa0 k) 0xe0 == 0xa0) && (bit_and (bit_or 0xa0 k) 0x1f == k)) n refl h,
)

fixarray :
    (n : ℕ) → n < 16 → (bit_and (bit_or 0x90 n) 0xf0 ≡ 0x90) × (bit_and (bit_or 0x90 n) 0xf ≡ n)
unfolding all_below
fixarray n h = ground (
  arith,
  all_below_sound 16
      (λ k. (bit_and (bit_or 0x90 k) 0xf0 == 0x90) && (bit_and (bit_or 0x90 k) 0xf == k)) n refl h,
)

fixmap :
    (n : ℕ) → n < 16 → (bit_and (bit_or 0x80 n) 0xf0 ≡ 0x80) × (bit_and (bit_or 0x80 n) 0xf ≡ n)
unfolding all_below
fixmap n h = ground (
  arith,
  all_below_sound 16
      (λ k. (bit_and (bit_or 0x80 k) 0xf0 == 0x80) && (bit_and (bit_or 0x80 k) 0xf == k)) n refl h,
)

-- The header that `msgpack_write_str` writes for a length.
str_header : ℕ → List ℕ
str_header len =
    if leb len 31
    then bit_or 0xa0 len ∷ []
    else if leb len 255
    then 0xd9 ∷ be 1 len
    else if leb len 65535
    then 0xda ∷ be 2 len
    else 0xdb ∷ be 4 len

array_header : ℕ → List ℕ
array_header count =
    if leb count 15
    then bit_or 0x90 count ∷ []
    else if leb count 65535
    then 0xdc ∷ be 2 count
    else 0xdd ∷ be 4 count

map_header : ℕ → List ℕ
map_header count =
    if leb count 15
    then bit_or 0x80 count ∷ []
    else if leb count 65535
    then 0xde ∷ be 2 count
    else 0xdf ∷ be 4 count

module _ (n : ℕ) (r : Reader) (h : n < 2 ^ 32) where
  read_str_len-str_header : read_str_len (str_header n ++ r) ≡ (n, r)
  unfolding read_str_len str_header read_byte
  read_str_len-str_header =
      ground (arith, fixstr n, read_be-be_1 n r, read_be-be_2 n r, read_be-be_4 n r)

  read_array-array_header : msgpack_read_array (array_header n ++ r) ≡ (n, r)
  unfolding msgpack_read_array array_header read_byte
  read_array-array_header = ground (arith, fixarray n, read_be-be_2 n r, read_be-be_4 n r)

  read_map-map_header : msgpack_read_map (map_header n ++ r) ≡ (n, r)
  unfolding msgpack_read_map map_header read_byte
  read_map-map_header = ground (arith, fixmap n, read_be-be_2 n r, read_be-be_4 n r)

write_bytes-size :
    (w : Writer) (h bs : List ℕ) (v : Writer)
    → Wrote w h v
    → length w.buf + length h + length bs ≤ w.size
    → Wrote w (h ++ bs) (write_bytes v bs)
write_bytes-size w h bs v p f =
    Wrote-trans w v (write_bytes v bs) h bs p
      (write_bytes-Wrote v bs (omega (arith, p, ap length p.1, length-append w.buf h)))

module _ (w : Writer) where
  -- `msgpack_write_str` writes the header and the bytes, where they fit.
  msgpack_write_str-Wrote :
      (s : Text)
      → length w.buf + 5 + length s ≤ w.size
      → Wrote w (str_header (length s) ++ s) (msgpack_write_str w s)
  unfolding msgpack_write_str str_header
  msgpack_write_str-Wrote s h =
      let n = length s in
      ground (
        arith,
        write_bytes-size w (bit_or 0xa0 n ∷ []) s (write_byte w (bit_or 0xa0 n))
            (write_byte-Wrote w _ (omega arith)),
        write_bytes-size w (0xd9 ∷ be 1 n) s (write_be 1 n (write_byte w 0xd9))
            (header-Wrote w 0xd9 1 n (omega arith)),
        write_bytes-size w (0xda ∷ be 2 n) s (write_be 2 n (write_byte w 0xda))
            (header-Wrote w 0xda 2 n (omega arith)),
        write_bytes-size w (0xdb ∷ be 4 n) s (write_be 4 n (write_byte w 0xdb))
            (header-Wrote w 0xdb 4 n (omega arith)),
      )

  write_array_header-Wrote :
      (n : ℕ)
      → length w.buf + 5 ≤ w.size
      → Wrote w (array_header n) (msgpack_write_array_header w n)
  unfolding msgpack_write_array_header array_header
  write_array_header-Wrote n h =
      ground (
        arith,
        write_byte-Wrote w (bit_or 0x90 n),
        header-Wrote w 0xdc 2 n,
        header-Wrote w 0xdd 4 n,
      )

  write_map_header-Wrote :
      (n : ℕ) → length w.buf + 5 ≤ w.size → Wrote w (map_header n) (msgpack_write_map_header w n)
  unfolding msgpack_write_map_header map_header
  write_map_header-Wrote n h =
      ground (
        arith,
        write_byte-Wrote w (bit_or 0x80 n),
        header-Wrote w 0xde 2 n,
        header-Wrote w 0xdf 4 n,
      )

-- Where a string of less than 2 ^ 32 bytes and 5 bytes more fit, `msgpack_write_str` appends some
-- bytes, and from them, whatever follows, `msgpack_read_str` reads the string and leaves what
-- follows.
pub msgpack_read_str-write_str :
    (w : Writer) (s : Text)
    → length w.buf + 5 + length s ≤ w.size
    → length s < 2 ^ 32
    → (bs : List ℕ) × ((msgpack_write_str w s).buf ≡ w.buf ++ bs)
      × ((r : Reader) → msgpack_read_str (bs ++ r) ≡ (s, r))
unfolding msgpack_read_str
msgpack_read_str-write_str w s h l = (
  str_header (length s) ++ s,
  (msgpack_write_str-Wrote w s h).1,
  λ r.
      rw (append_assoc (str_header (length s)) s r, read_str_len-str_header (length s) (s ++ r) l)
        (read_bytes-append s r),
)

-- The same for the headers of arrays and maps, with any count of 32 bits: each is read back, and
-- leaves what follows it.
pub read_headers-write_headers :
    (w : Writer) (n : ℕ)
    → length w.buf + 5 ≤ w.size
    → n < 2 ^ 32
    → (arrays maps : List ℕ) × ((msgpack_write_array_header w n).buf ≡ w.buf ++ arrays)
      × ((msgpack_write_map_header w n).buf ≡ w.buf ++ maps)
      × ((r : Reader) → msgpack_read_array (arrays ++ r) ≡ (n, r))
      × ((r : Reader) → msgpack_read_map (maps ++ r) ≡ (n, r))
read_headers-write_headers w n h l = (
  array_header n,
  map_header n,
  (write_array_header-Wrote w n h).1,
  (write_map_header-Wrote w n h).1,
  λ r. read_array-array_header n r l,
  λ r. read_map-map_header n r l,
)
