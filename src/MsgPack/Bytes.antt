-- ===== src/MsgPack/Bytes.antt =====
-- The loops over bytes: `write_be` appends the big-endian bytes of a number, `read_be` reads them.
use filly.Prelude.{
  ℕ, zero, suc, ◌+◌, ◌/◌, ◌%◌, ◌^◌, ◌≤◌, ◌<◌, ◌≡◌, refl, ap, sym, ◌∙◌, List, [], ◌∷◌, ◌++◌, arith,
  length, length-append, append_assoc, append-nil,
}
use filly.MsgPack.{
  Writer, Reader, write_byte, write_bytes, write_be, read_byte, read_be, read_bytes,
}

-- `w'` is `w` after `bs` was written whole.
abbrev pub Wrote : Writer → List ℕ → Writer → Type 0
Wrote w bs w' = (w'.size ≡ w.size) × (w'.buf ≡ w.buf ++ bs)

pub Wrote-trans :
    (u v w : Writer) (xs ys : List ℕ) → Wrote u xs v → Wrote v ys w → Wrote u (xs ++ ys) w
Wrote-trans u v w xs ys (p, e) (q, f) = (q ∙ p, f ∙ rw e (append_assoc u.buf xs ys))

pub write_byte-Wrote :
    (w : Writer) (b : ℕ) → length w.buf < w.size → Wrote w (b ∷ []) (write_byte w b)
unfolding write_byte
write_byte-Wrote w b h = ground arith

pub write_bytes-Wrote :
    (w : Writer) (bs : List ℕ) → length w.buf + length bs ≤ w.size → Wrote w bs (write_bytes w bs)
unfolding write_bytes
write_bytes-Wrote w [] h = (refl, sym (append-nil w.buf))
write_bytes-Wrote w (b ∷ bs) h =
    let first = write_byte-Wrote w b (omega arith) in
    Wrote-trans w (write_byte w b) (write_bytes (write_byte w b) bs) (b ∷ []) bs first (
      write_bytes-Wrote (write_byte w b) bs
        (omega (arith, first, ap length first.1, length-append w.buf (b ∷ []))))

-- The `n` bytes that `write_be` writes.
abbrev pub be : ℕ → ℕ → List ℕ
be zero u = []
be (suc i) u = (u / 256 ^ i % 256) ∷ be i u

pub write_be-Wrote :
    (n u : ℕ) (w : Writer) → length w.buf + n ≤ w.size → Wrote w (be n u) (write_be n u w)
unfolding write_be
write_be-Wrote zero u w h = (refl, sym (append-nil w.buf))
write_be-Wrote (suc i) u w h =
    let first = write_byte-Wrote w (u / 256 ^ i % 256) (omega arith) in
    Wrote-trans w (write_byte w (u / 256 ^ i % 256))
      (write_be i u (write_byte w (u / 256 ^ i % 256))) ((u / 256 ^ i % 256) ∷ []) (be i u) first
      (write_be-Wrote i u (write_byte w (u / 256 ^ i % 256))
        (omega (arith, first, ap length first.1, length-append w.buf ((u / 256 ^ i % 256) ∷ []))))

-- A header byte and the `n` bytes of a number.
pub header-Wrote :
    (w : Writer) (h n u : ℕ)
    → length w.buf + n < w.size
    → Wrote w (h ∷ be n u) (write_be n u (write_byte w h))
header-Wrote w h n u fits =
    let first = write_byte-Wrote w h (omega arith) in
    Wrote-trans w (write_byte w h) (write_be n u (write_byte w h)) (h ∷ []) (be n u) first (
      write_be-Wrote n u (write_byte w h)
        (omega (arith, first, ap length first.1, length-append w.buf (h ∷ []))))

module _ (u : ℕ) (r : Reader) where
  pub read_be-be_1 : read_be 1 0 (be 1 u ++ r) ≡ (u % 256, r)
  unfolding read_be read_byte
  read_be-be_1 = ground arith

  pub read_be-be_2 : read_be 2 0 (be 2 u ++ r) ≡ (u % 65536, r)
  unfolding read_be read_byte
  read_be-be_2 = ground arith

  pub read_be-be_4 : read_be 4 0 (be 4 u ++ r) ≡ (u % 2 ^ 32, r)
  unfolding read_be read_byte
  read_be-be_4 = ground arith

  pub read_be-be_8 : read_be 8 0 (be 8 u ++ r) ≡ (u % 2 ^ 64, r)
  unfolding read_be read_byte
  read_be-be_8 = ground arith

pub read_bytes-append : (s r : List ℕ) → read_bytes (length s) (s ++ r) ≡ (s, r)
unfolding read_bytes read_byte
read_bytes-append [] r = refl
read_bytes-append (b ∷ s) r = ground (arith, read_bytes-append s r)
