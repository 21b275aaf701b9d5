-- ===== src/Core/Arith.antt =====
-- AddSafe of core/types.go.
use gamifykit.Prelude.{◌≡◌, ◌⊎◌, ◌&&◌, ◌||◌, arith, Result, ok, err, if◌then◌else◌}
use gamifykit.Prelude.Int.{
  ℤ, pos, ◌+ℤ◌, ltb_ℤ, IsInt64, max_int64, min_int64, add64, sub64, ◌-ℤ◌, +ℤ_parts, -ℤ_parts,
  wrap64_of_IsInt64, wrap64-IsInt64,
}
use gamifykit.Core.Types.{Error, integer_overflow}

unfoldable pub add_safe : ℤ → ℤ → Result Error ℤ
add_safe base delta =
    if (ltb_ℤ (pos 0) delta && ltb_ℤ (sub64 max_int64 delta) base)
      || (ltb_ℤ delta (pos 0) && ltb_ℤ base (sub64 min_int64 delta))
    then err integer_overflow
    else ok (add64 base delta)

-- On int64 operands the result is the exact sum when the sum is an int64, and the overflow error
-- when it is not.
pub add_safe_exact :
    (base delta : ℤ)
    → IsInt64 base
    → IsInt64 delta
    → (IsInt64 (base +ℤ delta) × (add_safe base delta ≡ ok (base +ℤ delta)))
      ⊎ ((¬ IsInt64 (base +ℤ delta)) × (add_safe base delta ≡ err integer_overflow))
unfolding add_safe add64 sub64
add_safe_exact base delta hb hd = ground (
  arith,
  wrap64_of_IsInt64 (base +ℤ delta),
  wrap64_of_IsInt64 (max_int64 -ℤ delta),
  wrap64_of_IsInt64 (min_int64 -ℤ delta),
  +ℤ_parts base delta,
  -ℤ_parts max_int64 delta,
  -ℤ_parts min_int64 delta,
)

-- What AddSafe returns without an error is an int64.
pub add_safe-IsInt64 : (base delta : ℤ) {n : ℤ} → add_safe base delta ≡ ok n → IsInt64 n
unfolding add_safe add64
add_safe-IsInt64 base delta h = ground (arith, wrap64-IsInt64 (base +ℤ delta))
