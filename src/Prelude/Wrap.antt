-- ===== src/Prelude/Wrap.antt =====
-- Sums at int64 in two's complement.
use mathlib.Core.Path.{◌≡◌}
use native.Mathlib.Omega.{arith}
use gamifykit.Prelude.Int.{ℤ, pos, ◌+ℤ◌, wrap64, add64, int_laws}

wrap64_absorb : (a b : ℤ) → wrap64 (wrap64 a +ℤ b) ≡ wrap64 (a +ℤ b)
unfolding wrap64 ◌+ℤ◌
wrap64_absorb a b = ground arith

plus_comm : (a b : ℤ) → a +ℤ b ≡ b +ℤ a
plus_comm a b = omega int_laws

plus_right_comm : (a b c : ℤ) → (a +ℤ b) +ℤ c ≡ (a +ℤ c) +ℤ b
plus_right_comm a b c = omega int_laws

plus_assoc : (a b c : ℤ) → (a +ℤ b) +ℤ c ≡ (b +ℤ c) +ℤ a
plus_assoc a b c = omega int_laws

zero_plus : (b : ℤ) → pos 0 +ℤ b ≡ b
zero_plus b = omega int_laws

pub add64_right_comm : (a b c : ℤ) → add64 (add64 a b) c ≡ add64 (add64 a c) b
unfolding add64
add64_right_comm a b c =
    ground (arith, wrap64_absorb (a +ℤ b) c, wrap64_absorb (a +ℤ c) b, plus_right_comm a b c)

pub add64_assoc : (a b c : ℤ) → add64 (add64 a b) c ≡ add64 a (add64 b c)
unfolding add64
add64_assoc a b c = ground (
  arith,
  wrap64_absorb (a +ℤ b) c,
  wrap64_absorb (b +ℤ c) a,
  plus_assoc a b c,
  plus_comm a (wrap64 (b +ℤ c)),
)

pub add64_zero_left : (a b : ℤ) → add64 a (add64 (pos 0) b) ≡ add64 a b
unfolding add64
add64_zero_left a b = ground (
  arith,
  wrap64_absorb (pos 0 +ℤ b) a,
  plus_comm a (wrap64 (pos 0 +ℤ b)),
  plus_assoc (pos 0) b a,
  plus_comm a b,
  zero_plus b,
)
