-- ===== src/Http/RateLimit/Burst.antt =====
-- What the rate limiter lets through.
use gamifykit.Prelude.{
  ℕ, zero, suc, ◌+◌, ◌-◌, ◌<◌, ◌≤◌, ◌≡◌, ◌≢◌, arith, true, false, none, some, leb, if◌then◌else◌,
}
use gamifykit.Prelude.Int.{ℤ, pos, ◌-ℤ◌, int_laws}
use gamifykit.Prelude.GoMap.{get, get-put}
use gamifykit.Prelude.Text.{Text, text_key}
use gamifykit.Core.{Time}
use gamifykit.Http.RateLimit.{exact_tokens, Rates, RateLimiter, refill, allow}

same_time : (t : ℕ) → pos t -ℤ pos t ≡ pos 0
same_time t = omega int_laws

module _ (rates : Rates) where
  open rates use {Float, of_int, minus}

  -- How many of `n` requests of one client at one instant are let through.
  unfoldable pub allowed_of : ℕ → RateLimiter rates → Time → Text → ℕ
  allowed_of zero l now key = 0
  allowed_of (suc n) l now key =
      let (through, l') = allow rates l now key in
      let rest = allowed_of n l' now key in if through then suc rest else rest

  abbrev pub smaller : ℕ → ℕ → ℕ
  smaller m n = if leb m n then m else n

  module _ (rpm : ℤ) (burst : ℕ) (fits : burst ≤ exact_tokens) where
    abbrev HasTokens : RateLimiter rates → Time → Text → ℕ → Type 0
    HasTokens l now key t =
        (l.rpm ≡ of_int rpm)
        × (l.burst ≡ of_int (pos burst))
        × (get l.buckets key ≡ some (record { tokens = of_int (pos t); last = now }))

    refill_at_once :
        (l : RateLimiter rates) (now : Time) (key : Text) (t : ℕ)
        → t ≤ burst
        → HasTokens l now key t
        → refill rates l (record { tokens = of_int (pos t); last = now }) now ≡ of_int (pos t)
    unfolding refill
    refill_at_once l now key t h (r, b, g) = ground (
      arith,
      same_time now,
      rates.no_time t rpm (omega arith),
      rates.less_exact burst t fits (omega arith),
    )

    allow-HasTokens :
        (l : RateLimiter rates) (now : Time) (key : Text) (t : ℕ)
        → suc t ≤ burst
        → HasTokens l now key (suc t)
        → ((allow rates l now key).0 ≡ true) × HasTokens (allow rates l now key).1 now key t
    unfolding allow
    allow-HasTokens l now key t h (r, b, g) = ground (
      arith,
      refill_at_once l now key (suc t) h (r, b, g),
      rates.less_exact (suc t) 1 (omega arith) (omega arith),
      rates.minus_one t (omega arith),
      get-put l.buckets key key (record { tokens = of_int (pos t); last = now }),
    )

    allow_empty :
        (l : RateLimiter rates) (now : Time) (key : Text)
        → HasTokens l now key 0
        → ((allow rates l now key).0 ≡ false) × HasTokens (allow rates l now key).1 now key 0
    unfolding allow
    allow_empty l now key (r, b, g) = ground (
      arith,
      refill_at_once l now key 0 (omega arith) (r, b, g),
      rates.less_exact 0 1 (omega arith) (omega arith),
      get-put l.buckets key key (record { tokens = of_int (pos 0); last = now }),
    )

    allowed_of-HasTokens :
        (n : ℕ) (l : RateLimiter rates) (now : Time) (key : Text) (t : ℕ)
        → t ≤ burst
        → HasTokens l now key t
        → allowed_of n l now key ≡ smaller n t
    unfolding allowed_of
    allowed_of-HasTokens zero l now key t h has = ground arith
    allowed_of-HasTokens (suc n) l now key zero h has =
        let (no_more, has') = allow_empty l now key has in
        ground
          (arith, no_more, allowed_of-HasTokens n (allow rates l now key).1 now key zero h has')
    allowed_of-HasTokens (suc n) l now key (suc t) h has =
        let (through, has') = allow-HasTokens l now key t h has in
        ground (
          arith,
          through,
          allowed_of-HasTokens n (allow rates l now key).1 now key t (omega arith) has',
        )

    first-HasTokens :
        (l : RateLimiter rates) (now : Time) (key : Text)
        → 0 < burst
        → l.rpm ≡ of_int rpm
        → l.burst ≡ of_int (pos burst)
        → get l.buckets key ≡ none
        → ((allow rates l now key).0 ≡ true)
          × HasTokens (allow rates l now key).1 now key (burst - 1)
    unfolding allow
    first-HasTokens l now key h r b g =
        let back : burst - 1 + 1 ≡ burst = omega arith in
        ground (
          arith,
          back,
          rates.minus_one (burst - 1) (omega arith),
          get-put l.buckets key key (record { tokens = of_int (pos (burst - 1)); last = now }),
        )

    -- Of the requests that a client makes at one instant, when the limiter has not seen it before,
    -- exactly the first `burst` are let through, and all of them if there are no more; for a
    -- positive burst up to 2^53.
    pub allowed_of_new :
        (n : ℕ) (now : Time) (key : Text) (l : RateLimiter rates)
        → 0 < burst
        → l.rpm ≡ of_int rpm
        → l.burst ≡ of_int (pos burst)
        → get l.buckets key ≡ none
        → allowed_of n l now key ≡ smaller n burst
    unfolding allowed_of
    allowed_of_new zero now key l h r b g = ground arith
    allowed_of_new (suc n) now key l h r b g =
        let (through, has) = first-HasTokens l now key h r b g in
        ground (
          arith,
          through,
          allowed_of-HasTokens n (allow rates l now key).1 now key (burst - 1) (omega arith) has,
        )

  -- A key that the limiter has not seen is let through at once, whatever the limits, and whatever
  -- the other clients have spent: their buckets stay as they are.
  pub allow_new :
      (l : RateLimiter rates) (now : Time) (key : Text)
      → get l.buckets key ≡ none
      → ((allow rates l now key).0 ≡ true)
        × ((other : Text)
            → other ≢ key
            → get (allow rates l now key).1.buckets other ≡ get l.buckets other)
  unfolding allow
  allow_new l now key g = (
    ground arith,
    λ other ne. ground (
      arith,
      get-put l.buckets key other (record { tokens = minus l.burst (of_int (pos 1)); last = now }),
    ),
  )
