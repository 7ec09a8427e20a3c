-- ===== src/Prelude/Division.antt =====
-- Floor division: the bounds that the fixed-point arithmetic rests on.
use native.Mathlib.Nat.{
  div-mul-le_self, lt-div-mul-add, le-div_iff_mul-le, mul-le-mul_left, le_trans,
}
use Prim.Native.Nat.{ℕ, ◌+◌, ◌*◌, ◌/◌, ◌≤◌, ◌<◌}

pub div_mul_le : (n d : ℕ) → n / d * d ≤ n
div_mul_le n d = div-mul-le_self n d

pub lt_div_mul : (n d : ℕ) → 0 < d → n < n / d * d + d
lt_div_mul n d h = lt-div-mul-add h

pub div_antitone : (x b c : ℕ) → 0 < c → c ≤ b → x / b ≤ x / c
div_antitone x b c pos le =
    (le-div_iff_mul-le pos).1 (le_trans (mul-le-mul_left (x / b) le) (div_mul_le x b))
