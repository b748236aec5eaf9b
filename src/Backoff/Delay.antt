-- ===== src/Backoff/Delay.antt =====
-- The delays without jitter: the strategies that multiply and add.
use native.Mathlib.Nat.{mul-le-mul_left, one-le-pow, pow-zero}
use native.Mathlib.Omega.{pow_step}
use sssonector.Prelude.{
  Bool, Float64, ap, arith, false, if◌then◌else◌, lt_int64-ltb, ltb, refl, suc, sym, u64, zero, ℕ,
  ◌&&◌, ◌*◌, ◌+◌, ◌<◌, ◌^◌, ◌∙◌, ◌≡◌, ◌≤◌,
}
use sssonector.Backoff.{
  Backoff, BackoffConfig, FloatMath, calculate_delay, delay_by, fixed, geometric, geometric_delay,
  get_next_delay, linear,
}

-- IEEE 754, of a whole number as a float: up to 2^53 the conversions from and to a Duration are exact,
-- and so is a product.
pub record IsExact {F : Float64} (math : FloatMath F) : Type 0 where
  pub conversion : (n : ℕ) → n ≤ 9007199254740992 → math.to_duration (math.of_duration n) ≡ n
  pub product :
      (a b : ℕ)
      → a ≤ 9007199254740992
      → b ≤ 9007199254740992
      → a * b ≤ 9007199254740992
      → math.mul (math.of_duration a) (math.of_duration b) ≡ math.of_duration (a * b)

abbrev pub smaller : ℕ → ℕ → ℕ
smaller a b = if ltb a b then a else b

-- A jitter that is off.
abbrev pub IsCalm : {F : Float64} → BackoffConfig F → Type 0
IsCalm {F} config = config.enable_jitter && F.lt (F.of_nat 0) config.jitter_factor ≡ false

module _ {F : Float64} (math : FloatMath F) (config : BackoffConfig F) (exact : IsExact math) where
  geometric_delay-pow :
      (k n d : ℕ)
      → config.multiplier ≡ math.of_duration k
      → 1 ≤ k
      → k ≤ 9007199254740992
      → d * k ^ n ≤ 9007199254740992
      → geometric_delay math config n (math.of_duration d) ≡ math.of_duration (d * k ^ n)
  unfolding geometric_delay
  geometric_delay-pow k zero d same positive small fits =
      ap math.of_duration (omega (arith, pow-zero k, ap (λ p. d * p) (pow-zero k)))
  geometric_delay-pow k (suc n) d same positive small fits =
      let more : d * k ^ suc n ≡ d * k * k ^ n = rw (pow_step k n) (omega arith) in
      let step : d * k ≤ 9007199254740992 =
        omega (arith, more, fits, mul-le-mul_left (d * k) (one-le-pow n k positive)) in
      let first : d ≤ 9007199254740992 = omega (arith, step, mul-le-mul_left d positive) in
      rw same (
        rw (exact.product d k first small step) (
          geometric_delay-pow k n (d * k) same positive small (omega (arith, more, fits))
          ∙ ap math.of_duration (sym more)))

  -- The delays where the jitter is off, after fewer than 2^31 retries: of the geometric strategy it is
  -- the base delay times the multiplier to the power of the number of retries, and of the linear one
  -- the base delay once more than the number of retries, each cut at the maximum; of the fixed one it
  -- is the base delay, whatever the maximum. The multiplier is a whole number from 1 to 2^53, the
  -- power times the base delay is at most 2^53, up to which floats of whole numbers are exact, and
  -- the linear delay and the maximum are below 2^63.
  pub get_next_delay-grows :
      (k : ℕ) (adds : Bool) (random : F.Float) (b : Backoff)
      → IsCalm config
      → config.max_delay < 9223372036854775808
      → config.multiplier ≡ math.of_duration k
      → 1 ≤ k
      → k ≤ 9007199254740992
      → b.retry_count < 2147483648
      → config.base_delay * k ^ b.retry_count ≤ 9007199254740992
      → b.retry_count * config.base_delay + config.base_delay < 9223372036854775808
      → (get_next_delay math (record config { strategy = geometric }) adds random b
          ≡ smaller config.max_delay (config.base_delay * k ^ b.retry_count))
        × (get_next_delay math (record config { strategy = linear }) adds random b
            ≡ smaller config.max_delay (b.retry_count * config.base_delay + config.base_delay))
        × (get_next_delay math (record config { strategy = fixed }) adds random b
            ≡ config.base_delay)
  unfolding get_next_delay calculate_delay delay_by
  get_next_delay-grows k adds random b calm m same positive small few fits below =
      let n = b.retry_count in
      let base = config.base_delay in
      let read : math.to_duration (geometric_delay math config n (math.of_duration base))
          ≡ base * k ^ n =
        rw (geometric_delay-pow k n base same positive small fits) (exact.conversion _ fits) in
      let unwrapped : u64 (base + u64 (n * base)) ≡ n * base + base = omega (arith, below) in
      (
        rw (calm, read)
            (rw (lt_int64-ltb config.max_delay (base * k ^ n) m (omega (arith, fits))) refl),
        rw (calm, unwrapped) (rw (lt_int64-ltb config.max_delay (n * base + base) m below) refl),
        rw calm refl,
      )
