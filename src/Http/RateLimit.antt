-- ===== src/Http/RateLimit.antt =====
-- The token buckets of api/httpapi/httpapi.go. The float64 operations are a parameter; the laws
-- are those of IEEE 754 on the integers up to 2^53.
pub mod Burst
use gamifykit.Prelude.{
  ℕ, zero, suc, ◌+◌, ◌<◌, ◌≤◌, ◌≡◌, refl, arith, Bool, true, false, List, [], ◌∷◌, Option, none,
  some, ltb, leb, if◌then◌else◌,
}
use gamifykit.Prelude.Int.{ℤ, pos, ◌-ℤ◌, int_laws}
use gamifykit.Prelude.GoMap.{GoMap, get, put, get-put}
use gamifykit.Prelude.Text.{Text, text_key}
use gamifykit.Core.{Time}

-- 2^53
abbrev pub exact_tokens : ℕ
exact_tokens = 9007199254740992

pub record Rates : Type 1 where
  pub Float : Type 0
  pub of_int : ℤ → Float
  pub plus : Float → Float → Float
  pub minus : Float → Float → Float
  pub times : Float → Float → Float
  pub less : Float → Float → Bool
  -- `Duration.Minutes`
  pub minutes : ℤ → Float
  pub minus_one :
      (n : ℕ) → n < exact_tokens → minus (of_int (pos (n + 1))) (of_int (pos 1)) ≡ of_int (pos n)
  pub less_exact :
      (m n : ℕ)
      → m ≤ exact_tokens
      → n ≤ exact_tokens
      → less (of_int (pos m)) (of_int (pos n)) ≡ ltb m n
  pub no_time :
      (n : ℕ) (rpm : ℤ)
      → n ≤ exact_tokens
      → plus (of_int (pos n)) (times (minutes (pos 0)) (of_int rpm)) ≡ of_int (pos n)

module _ (rates : Rates) where
  open rates use {Float, of_int, plus, minus, times, less, minutes}

  pub record Bucket : Type 0 where
    pub tokens : Float
    pub last : Time

  pub record RateLimiter : Type 0 where
    pub rpm : Float
    pub burst : Float
    pub buckets : GoMap Text Bucket

  unfoldable pub new_rate_limiter : ℤ → ℤ → RateLimiter
  new_rate_limiter rpm burst = record { rpm = of_int rpm; burst = of_int burst; buckets = [] }

  -- The tokens of a bucket after the refill.
  unfoldable pub refill : RateLimiter → Bucket → Time → Float
  refill l b now =
      let tokens = plus b.tokens (times (minutes (pos now -ℤ pos b.last)) l.rpm) in
      if less l.burst tokens then l.burst else tokens

  unfoldable pub allow : RateLimiter → Time → Text → Bool × RateLimiter
  allow l now key = elim (get l.buckets key) [
    | none ↦ (
      true,
      record l {
        buckets =
            put l.buckets key (record { tokens = minus l.burst (of_int (pos 1)); last = now });
      },
    )
    | some b ↦
        let tokens = refill l b now in
        if less tokens (of_int (pos 1))
        then (
          false,
          record l { buckets = put l.buckets key (record { tokens = tokens; last = now }) },
        )
        else (
          true,
          record l {
            buckets =
                put l.buckets key (record { tokens = minus tokens (of_int (pos 1)); last = now });
          },
        )
  ]
