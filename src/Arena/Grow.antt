-- ===== src/Arena/Grow.antt =====
-- The doubling loop of `arena_alloc`: when it ends, and with what.
use filly.Prelude.{
  ℕ, zero, suc, ◌+◌, ◌*◌, ◌%◌, ◌^◌, ◌≤◌, ◌<◌, ◌≡◌, refl, none, some, arith, ◌⊎◌, inl, inr, ap, ◌∙◌,
}
use native.Mathlib.Decide.{dec_lt}
use native.Mathlib.Nat.{pow-suc}
use filly.Arena.{aligned, double_until, size_mod}

-- A size is rounded up to a multiple of 8, by less than 8 bytes.
pub aligned_lem :
    (size : ℕ)
    → size + 7 < 2 ^ 64
    → (size ≤ aligned size) × (aligned size < size + 8) × (aligned size % 8 ≡ 0)
unfolding aligned
aligned_lem size h = omega arith

twice_pow : (cap n : ℕ) → cap * 2 ^ suc n ≡ cap * 2 * 2 ^ n
twice_pow cap n = rw pow-suc (omega arith)

-- One round of the loop does not wrap around while the capacity is below `need`.
double_step :
    (fuel need cap : ℕ)
    → cap < need
    → need ≤ 2 ^ 62
    → double_until (suc fuel) need cap ≡ double_until fuel need (cap * 2)
unfolding double_until
double_step fuel need cap h k =
    let e : cap * 2 % size_mod ≡ cap * 2 = omega arith in
    ground (arith, ap (double_until fuel need) e)

-- From a capacity of at least 1 the loop ends, after as many rounds as it takes to reach `need` by
-- doubling, and does not wrap: the result is at least `need` and at least what it began with, and is
-- what it began with or less than twice `need`.
pub double_until_reaches :
    (fuel need cap : ℕ)
    → 1 ≤ cap
    → need ≤ 2 ^ 62
    → need ≤ cap * 2 ^ fuel
    → (c : ℕ) × (double_until (suc fuel) need cap ≡ some c)
      × (need ≤ c)
      × (cap ≤ c)
      × ((c ≡ cap) ⊎ (c < 2 * need))
unfolding double_until
double_until_reaches zero need cap h1 h2 h4 =
    (cap, ground arith, omega arith, omega arith, inl refl)
double_until_reaches (suc fuel) need cap h1 h2 h4 = elim (dec_lt cap need) [
  | yes h ↦
      let (c, e, b, l, u) =
        double_until_reaches fuel need (cap * 2) (omega arith) h2
          (omega (arith, twice_pow cap fuel)) in
      (c, double_step (suc fuel) need cap h h2 ∙ e, b, omega arith, inr (omega (arith, u)))
  | no h ↦ (cap, ground arith, omega arith, omega arith, inl refl)
]

-- A capacity of 0 stays 0: the loop has no end.
pub double_until_zero : (fuel need : ℕ) → 0 < need → double_until fuel need 0 ≡ none
unfolding double_until
double_until_zero zero need h = refl
double_until_zero (suc fuel) need h = ground (arith, double_until_zero fuel need h)
