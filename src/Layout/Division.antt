-- ===== src/Layout/Division.antt =====
-- The division of C, which rounds toward zero.
use filly.Prelude.{ℕ, suc, ◌/◌}
use filly.Prelude.Int.{ℤ, pos, negsuc, ◌-ℤ◌}

unfoldable pub quot : ℤ → ℕ → ℤ
quot (pos n) d = pos (n / d)
quot (negsuc n) d = pos 0 -ℤ pos (suc n / d)
