-- ===== src/Dial.antt =====
-- internal/pool/retry.go: connecting in three phases. The context and the factory are the
-- environment: `probes i` is what the i-th look at them gives, a cancelled context, a connection or
-- a failure of the factory. Sleeps are kept in the order in which they are taken.
pub mod Phases
pub mod Cancelled
pub mod Schedule
mod Examples
use sssonector.Prelude.{
  Bool, List, Option, [], if◌then◌else◌, ltb, none, some, suc, true, u64, zero, ℕ, ◌*◌, ◌++◌, ◌+◌,
  ◌∷◌,
}

pub data Probe : Type 0 where
  cancelled refused : Probe
  connected : ℕ → Probe

pub data Dialed : Type 0 where
  conn : ℕ → Dialed
  err_context err_max_retries_exceeded : Dialed

pub record RetryConfig : Type 0 where
  pub immediate_attempts : ℕ
  pub immediate_interval : ℕ
  pub gradual_attempts : ℕ
  pub gradual_interval : ℕ
  pub max_gradual_interval : ℕ
  pub persistent_enabled : Bool
  pub persistent_interval : ℕ

pub record Metrics : Type 0 where
  pub attempts : ℕ  -- int64
  pub failures : ℕ  -- int64
  pub successes : ℕ  -- int64

-- How far the environment has been read, and the sleeps so far.
pub record Clock : Type 0 where
  pub polls : ℕ
  pub sleeps : List ℕ

abbrev pub polled : Clock → Clock
polled t = record t { polls = t.polls + 1 }

abbrev pub slept : ℕ → Clock → Clock
slept d t = record t { polls = t.polls + 1; sleeps = t.sleeps ++ (d ∷ []) }

unfoldable pub default_retry_config : RetryConfig
default_retry_config = record {
  immediate_attempts = 3;
  immediate_interval = 5000000000;
  gradual_attempts = 5;
  gradual_interval = 30000000000;
  max_gradual_interval = 480000000000;
  persistent_enabled = true;
  persistent_interval = 600000000000;
}

module _ (probes : ℕ → Probe) where
  -- The number of attempts left counts down.
  unfoldable pub immediate_retries : ℕ → ℕ → Clock → Dialed × Clock
  immediate_retries interval zero t = (err_max_retries_exceeded, t)
  immediate_retries interval (suc n) t = elim (probes t.polls) [
    | cancelled ↦ (err_context, polled t)
    | connected c ↦ (conn c, polled t)
    | refused ↦ immediate_retries interval n (slept interval t)
  ]

  -- The interval doubles after each sleep, up to the maximum. (The source doubles it as a float64,
  -- which is exact for the intervals below 2^53 nanoseconds, about 104 days.)
  unfoldable pub gradual_retries : ℕ → ℕ → ℕ → Clock → Dialed × Clock
  gradual_retries interval limit zero t = (err_max_retries_exceeded, t)
  gradual_retries interval limit (suc n) t = elim (probes t.polls) [
    | cancelled ↦ (err_context, polled t)
    | connected c ↦ (conn c, polled t)
    | refused ↦
        gradual_retries (if ltb limit (interval * 2) then limit else interval * 2) limit n
          (slept interval t)
  ]

  -- This loop has no bound of its own: `none` means that it still runs when the fuel is used up.
  unfoldable pub persistent_retries : ℕ → ℕ → Clock → Option (Dialed × Clock)
  persistent_retries interval zero t = none
  persistent_retries interval (suc n) t = elim (probes t.polls) [
    | cancelled ↦ some (err_context, polled t)
    | connected c ↦ some (conn c, polled t)
    | refused ↦ persistent_retries interval n (slept interval t)
  ]

abbrev pub succeeded : Metrics → Metrics
succeeded m = record m { successes = u64 (m.successes + 1) }

abbrev pub failed : Metrics → Metrics
failed m = record m { failures = u64 (m.failures + 1) }

give_up : Metrics → Clock → Option (Dialed × Metrics × Clock)
give_up m t = some (err_max_retries_exceeded, failed m, t)

after_persistent : Metrics → Option (Dialed × Clock) → Option (Dialed × Metrics × Clock)
unfolding give_up
after_persistent m none = none
after_persistent m (some (conn c, t)) = some (conn c, succeeded m, t)
after_persistent m (some (err_context, t)) = give_up m t
after_persistent m (some (err_max_retries_exceeded, t)) = give_up m t

module _ (probes : ℕ → Probe) (config : RetryConfig) (fuel : ℕ) where
  open config use {
    immediate_attempts, immediate_interval, gradual_attempts, gradual_interval,
    max_gradual_interval, persistent_enabled, persistent_interval,
  }

  unfoldable pub third_phase : Metrics → Clock → Option (Dialed × Metrics × Clock)
  unfolding after_persistent give_up
  third_phase m t =
      if persistent_enabled
      then after_persistent m (persistent_retries probes persistent_interval fuel t)
      else give_up m t

  after_gradual : Metrics → Dialed × Clock → Option (Dialed × Metrics × Clock)
  unfolding third_phase
  after_gradual m (conn c, t) = some (conn c, succeeded m, t)
  after_gradual m (err_context, t) = third_phase m t
  after_gradual m (err_max_retries_exceeded, t) = third_phase m t

  unfoldable pub second_phase : Metrics → Clock → Option (Dialed × Metrics × Clock)
  unfolding after_gradual
  second_phase m t =
      after_gradual m
        (gradual_retries probes gradual_interval max_gradual_interval gradual_attempts t)

  after_immediate : Metrics → Dialed × Clock → Option (Dialed × Metrics × Clock)
  unfolding second_phase
  after_immediate m (conn c, t) = some (conn c, succeeded m, t)
  after_immediate m (err_context, t) = second_phase m t
  after_immediate m (err_max_retries_exceeded, t) = second_phase m t

  unfoldable pub get_connection : Metrics → Clock → Option (Dialed × Metrics × Clock)
  unfolding after_immediate
  get_connection m t =
      after_immediate (record m { attempts = u64 (m.attempts + 1) })
        (immediate_retries probes immediate_interval immediate_attempts t)
