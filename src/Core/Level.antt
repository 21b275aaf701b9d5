-- ===== src/Core/Level.antt =====
-- DefaultLevel of core/types.go, over the float64 operations it calls. They are a parameter with
-- the facts of IEEE 754 that hold of correctly rounded operations: each is monotone, and gives
-- the exact result where that is a float64.
use gamifykit.Prelude.{ℕ, ◌+◌, ◌*◌, ◌≤◌, ◌≡◌, arith, if◌then◌else◌, ◌∙◌, ap}
use gamifykit.Prelude.Int.{
  ℤ, pos, negsuc, ◌+ℤ◌, ltb_ℤ, leb_ℤ, ◌≤ℤ◌, add64, wrap64_of_IsInt64, +ℤ_parts, int_laws,
}

-- Up to here the squares are float64 values: 94906265 ^ 2 is below 2 ^ 53.
abbrev pub exact_limit : ℕ
exact_limit = 94906265

pub record Floats : Type 1 where
  pub Float : Type 0
  pub LessEq : Float → Float → Type 0
  pub of_int64 : ℤ → Float
  pub sqrt : Float → Float
  -- x / 10.0
  pub tenth : Float → Float
  pub floor : Float → Float
  pub to_int64 : Float → ℤ
  pub of_int64_mono : (m n : ℕ) → m ≤ n → LessEq (of_int64 (pos m)) (of_int64 (pos n))
  pub sqrt_mono : (x y : Float) → LessEq x y → LessEq (sqrt x) (sqrt y)
  pub tenth_mono : (x y : Float) → LessEq x y → LessEq (tenth x) (tenth y)
  pub floor_mono : (x y : Float) → LessEq x y → LessEq (floor x) (floor y)
  -- the conversion truncates between 0 and `exact_limit`
  pub to_int64_mono :
      (x y : Float) (k : ℕ)
      → k ≤ exact_limit
      → LessEq (of_int64 (pos 0)) x
      → LessEq x y
      → LessEq y (of_int64 (pos k))
      → to_int64 x ≤ℤ to_int64 y
  pub sqrt_square : (k : ℕ) → k ≤ exact_limit → sqrt (of_int64 (pos (k * k))) ≡ of_int64 (pos k)
  pub tenth_exact :
      (k : ℕ) → 10 * k ≤ exact_limit → tenth (of_int64 (pos (10 * k))) ≡ of_int64 (pos k)
  pub floor_exact : (k : ℕ) → k ≤ exact_limit → floor (of_int64 (pos k)) ≡ of_int64 (pos k)
  pub to_int64_exact : (k : ℕ) → k ≤ exact_limit → to_int64 (of_int64 (pos k)) ≡ pos k

-- The last level whose threshold is below 2 ^ 53.
abbrev pub top_level : ℕ
top_level = 9490626

-- The XP at which level k + 1 begins.
abbrev pub threshold : ℕ → ℕ
threshold k = 10 * k * (10 * k)

threshold_mono : (j k : ℕ) → j ≤ k → threshold j ≤ threshold k
threshold_mono j k h = grind arith

pos-+ℤ-pos : (k : ℕ) → pos k +ℤ pos 1 ≡ pos (k + 1)
pos-+ℤ-pos k = omega int_laws

module _ (floats : Floats) where
  open floats use {Float, LessEq, of_int64, sqrt, tenth, floor, to_int64}

  unfoldable pub curve : ℤ → Float
  curve total = floor (tenth (sqrt (of_int64 total)))

  unfoldable pub default_level : ℤ → ℤ
  default_level total =
      if leb_ℤ total (pos 0)
      then pos 1
      else let lvl = add64 (to_int64 (curve total)) (pos 1) in
        if ltb_ℤ lvl (pos 1) then pos 1 else lvl

  curve_mono : (m n : ℕ) → m ≤ n → LessEq (curve (pos m)) (curve (pos n))
  unfolding curve
  curve_mono m n h =
      floats.floor_mono _ _
        (floats.tenth_mono _ _ (floats.sqrt_mono _ _ (floats.of_int64_mono m n h)))

  curve_square : (k : ℕ) → k ≤ top_level → curve (pos (threshold k)) ≡ of_int64 (pos k)
  unfolding curve
  curve_square k h =
      ap (λ x. floor (tenth x)) (floats.sqrt_square (10 * k) (omega arith))
      ∙ ap floor (floats.tenth_exact k (omega arith))
      ∙ floats.floor_exact k (omega arith)

  level_mono :
      (m n : ℕ)
      → m ≤ n
      → n ≤ threshold top_level
      → to_int64 (curve (pos m)) ≤ℤ to_int64 (curve (pos n))
  level_mono m n h b =
      floats.to_int64_mono _ _ top_level (omega arith)
        (rw (curve_square 0 (omega arith)) at (curve_mono 0 m (omega arith))) (curve_mono m n h)
        (rw (curve_square top_level (omega arith)) at (curve_mono n (threshold top_level) b))

  level_exact : (k : ℕ) → k ≤ top_level → to_int64 (curve (pos (threshold k))) ≡ pos k
  level_exact k h = rw (curve_square k h) (floats.to_int64_exact k (omega arith))

  -- Between 0 and the last threshold the curve stays there, so that the sum does not wrap.
  level_lem :
      (n : ℕ) → n ≤ threshold top_level → default_level (pos n) ≡ to_int64 (curve (pos n)) +ℤ pos 1
  unfolding default_level add64
  level_lem n h = ground (
    arith,
    level_exact 0 (omega arith),
    level_exact top_level (omega arith),
    level_mono 0 n (omega arith) h,
    level_mono n (threshold top_level) h (omega arith),
    wrap64_of_IsInt64 (to_int64 (curve (pos n)) +ℤ pos 1),
    +ℤ_parts (to_int64 (curve (pos n))) (pos 1),
  )

  level_ge_one : (n : ℕ) → n ≤ threshold top_level → pos 1 ≤ℤ default_level (pos n)
  level_ge_one n h = rw (level_lem n h) (
      ground (
        arith,
        level_exact 0 (omega arith),
        level_mono 0 n (omega arith) h,
        +ℤ_parts (to_int64 (curve (pos n))) (pos 1),
      ))

  level_pos_mono :
      (a b : ℕ)
      → a ≤ b
      → b ≤ threshold top_level
      → (pos 1 ≤ℤ default_level (pos a)) × (default_level (pos a) ≤ℤ default_level (pos b))
  level_pos_mono a b h l = (
    level_ge_one a (omega arith),
    rw (level_lem a (omega arith), level_lem b l) (omega (int_laws, level_mono a b h l)),
  )

  -- The level is 1 at no XP or less, never below 1, and never falls as the XP grows (to 2^53).
  pub default_level_mono :
      (a b : ℤ)
      → a ≤ℤ b
      → b ≤ℤ pos (threshold top_level)
      → (pos 1 ≤ℤ default_level a) × (default_level a ≤ℤ default_level b)
  unfolding default_level
  default_level_mono (negsuc a) (negsuc b) h l = ground arith
  default_level_mono (negsuc a) (pos b) h l =
      let above = level_ge_one b (omega arith) in (ground arith, ground (arith, above))
  default_level_mono (pos a) (negsuc b) h l = absurd (omega arith)
  default_level_mono (pos a) (pos b) h l = level_pos_mono a b (omega arith) (omega arith)

  -- Level k + 1 is reached with (10 k) ^ 2 XP exactly.
  pub default_level-threshold :
      (k : ℕ) → k ≤ top_level → default_level (pos (threshold k)) ≡ pos (k + 1)
  default_level-threshold k h =
      level_lem (threshold k) (threshold_mono k top_level h)
      ∙ ap (λ l. l +ℤ pos 1) (level_exact k h)
      ∙ pos-+ℤ-pos k
