-- ===== src/Backoff.antt =====
-- internal/resilience/backoff.go: delays and the loop that retries. A time is a number of
-- nanoseconds that is not negative, the random numbers and the environment's answers are arguments.
-- Of the configuration the loop reads `max_retries`, below 2^31 as int32 keeps it, and
-- `reset_after`, 0 for any that is not positive. A delay is an int64, kept as a number below 2^64.
-- The callbacks are not modelled.
pub mod Retry
pub mod Budget
pub mod Delay
mod Examples
use sssonector.Prelude.{
  Bool, Float64, Option, eqb, if◌then◌else◌, lt_int32, lt_int64, ltb, none, not, some, suc, u32,
  u64, zero, ℕ, ◌&&◌, ◌*◌, ◌+◌, ◌-◌, ◌||◌,
}

pub data BackoffStrategy : Type 0 where
  exponential linear fixed geometric : BackoffStrategy

-- Of float64 and the package math, beyond the interface: the product, Pow with an exponent that is a
-- number, and the conversions from and to a Duration.
pub record FloatMath (F : Float64) : Type 0 where
  pub mul : F.Float → F.Float → F.Float
  pub pow : F.Float → ℕ → F.Float
  pub of_duration : ℕ → F.Float
  pub to_duration : F.Float → ℕ

-- The difference of two int64, with its wrap-around.
abbrev minus_int64 : ℕ → ℕ → ℕ
minus_int64 a b = u64 (a + (18446744073709551616 - u64 b))

pub record BackoffConfig (F : Float64) : Type 0 where
  pub strategy : BackoffStrategy
  pub base_delay : ℕ
  pub max_delay : ℕ
  pub max_retries : ℕ
  pub jitter_factor : F.Float
  pub reset_after : ℕ
  pub enable_jitter : Bool
  pub multiplier : F.Float

-- `ExponentialBackoff`, without its configuration.
pub record Backoff : Type 0 where
  pub retry_count : ℕ  -- int32
  pub consecutive_successes : ℕ  -- int32
  pub total_retries : ℕ  -- int64
  pub last_retry : ℕ
  pub last_success : ℕ

unfoldable pub new_exponential_backoff : Backoff
new_exponential_backoff = record {
  retry_count = 0;
  consecutive_successes = 0;
  total_retries = 0;
  last_retry = 0;
  last_success = 0;
}

module _ {F : Float64} (math : FloatMath F) (config : BackoffConfig F) where
  open config use {base_delay, max_delay, multiplier}

  -- The loop of the geometric strategy.
  unfoldable pub geometric_delay : ℕ → F.Float → F.Float
  geometric_delay zero delay = delay
  geometric_delay (suc n) delay = geometric_delay n (math.mul delay multiplier)

  -- The switch on the strategy, after `n` retries, a number below 2^31.
  unfoldable pub delay_by : BackoffStrategy → ℕ → ℕ
  unfolding geometric_delay
  delay_by exponential n =
      let delay = math.mul (math.of_duration base_delay) (math.pow multiplier n) in
      if F.lt (math.of_duration max_delay) delay then max_delay else math.to_duration delay
  delay_by linear n =
      let delay = u64 (base_delay + u64 (n * base_delay)) in
      if lt_int64 max_delay delay then max_delay else delay
  delay_by fixed n = base_delay
  delay_by geometric n =
      let delay = math.to_duration (geometric_delay n (math.of_duration base_delay)) in
      if lt_int64 max_delay delay then max_delay else delay

  unfoldable pub calculate_delay : Backoff → ℕ
  unfolding delay_by
  calculate_delay b = delay_by config.strategy b.retry_count

  -- `adds` is the parity of the random number, and `random` the random float64.
  unfoldable pub get_next_delay : Bool → F.Float → Backoff → ℕ
  unfolding calculate_delay
  get_next_delay adds random b =
      let delay = calculate_delay b in
      let jitter =
        math.to_duration
          (math.mul (math.mul (math.of_duration delay) config.jitter_factor) random) in
      let moved = if adds then u64 (delay + jitter) else minus_int64 delay jitter in
      let positive = if lt_int64 moved 0 then minus_int64 0 moved else moved in
      if config.enable_jitter && F.lt (F.of_nat 0) config.jitter_factor
      then (if lt_int64 max_delay positive then max_delay else positive)
      else delay

abbrev pub should_retry : ℕ → Backoff → Bool
should_retry max_retries b = lt_int32 b.retry_count (u32 max_retries)

unfoldable pub reset : Backoff → Backoff
reset b = record b { retry_count = 0; consecutive_successes = 0; last_retry = 0; total_retries = 0 }

-- `now` is when the time since the last retry is taken.
unfoldable pub try_reset_backoff : ℕ → ℕ → ℕ → Backoff → Backoff
unfolding reset
try_reset_backoff max_retries reset_after now b =
    if eqb reset_after 0
    then b
    else if lt_int32 (u32 max_retries) b.consecutive_successes
        && ltb (b.last_retry + reset_after) now
    then reset b
    else b

-- One round of the loop: whether the context is cancelled when it is asked and while the loop waits,
-- what the function answers, and when.
pub record Round {ℓ} (E : Type ℓ) : Type ℓ where
  pub is_cancelled : Bool
  pub is_cancelled_waiting : Bool
  pub answer : Option E
  pub now : ℕ
  pub later : ℕ

pub data Outcome {ℓ} (E : Type ℓ) : Type ℓ where
  succeeded cancelled : Outcome E
  failed : E → Outcome E

-- How a Retry ended: its outcome, how often it called the function, and the backoff.
pub record Done {ℓ} (E : Type ℓ) : Type ℓ where
  pub outcome : Outcome E
  pub calls : ℕ
  pub backoff : Backoff

-- What Retry records of a call that succeeds, at `now`; `later` is when the reset reads the clock.
abbrev pub record_success : ℕ → ℕ → ℕ → ℕ → ℕ → Backoff → Backoff
record_success max_retries reset_after attempt now later b =
    try_reset_backoff max_retries reset_after later (record b {
      retry_count = u32 (b.retry_count + 1);
      consecutive_successes = u32 (b.consecutive_successes + 1);
      total_retries = u64 (b.total_retries + attempt);
      last_success = now;
      last_retry = now;
    })

module _ {ℓ} {E : Type ℓ} (max_retries reset_after : ℕ) (rounds : ℕ → Round E) where
  abbrev pub after_success : ℕ → Backoff → Backoff
  after_success attempt b =
      let r = rounds attempt in record_success max_retries reset_after attempt r.now r.later b

  abbrev pub after_failure : ℕ → Backoff → Backoff
  after_failure attempt b = record b {
    retry_count = u32 (b.retry_count + 1);
    consecutive_successes = 0;
    total_retries = u64 (b.total_retries + 1);
    last_retry = (rounds attempt).now;
  }

  abbrev pub after_exhaustion : ℕ → Backoff → Backoff
  after_exhaustion attempt b = record b {
    retry_count = u32 (b.retry_count + 1);
    total_retries = u64 (b.total_retries + attempt);
  }

  -- The rounds of the loop that begin at `attempt`, the one after the error `last` or, with none, the
  -- first. `none` means that the fuel is used up.
  unfoldable pub retry_from : ℕ → ℕ → Option E → Backoff → Option (Done E)
  retry_from zero attempt last b = none
  retry_from (suc fuel) attempt last b =
      let r = rounds attempt in
      let calling : Option (Done E) = elim r.answer [
        | none ↦
            some (record {
              outcome = succeeded;
              calls = attempt + 1;
              backoff = after_success attempt b;
            })
        | some e ↦ retry_from fuel (attempt + 1) (some e) (after_failure attempt b)
      ] in
      elim last [
        | none ↦ calling
        | some e ↦
            if not (should_retry max_retries b)
            then some (record {
              outcome = failed e;
              calls = attempt;
              backoff = after_exhaustion attempt b;
            })
            else if r.is_cancelled || r.is_cancelled_waiting
            then some (record { outcome = cancelled; calls = attempt; backoff = b })
            else calling
      ]

  unfoldable pub retry : ℕ → Backoff → Option (Done E)
  retry fuel b = retry_from fuel 0 none b

unfoldable pub set_config : Backoff → Backoff
set_config b = record b { retry_count = 0; consecutive_successes = 0; last_retry = 0 }

abbrev pub wait : Backoff → Backoff
wait b = record b { retry_count = u32 (b.retry_count + 1) }
