-- ===== src/Breaker.antt =====
-- internal/resilience/circuit_breaker.go: the circuit breaker's state and its methods.
-- Time is an argument in nanoseconds, durations and the configuration's counts are not negative,
-- float64 is an interface, and an error is any type `E`, `none` being nil. A call is split in two,
-- as `fn` runs between its halves without a lock: `begin_call` up to `fn`, `end_call` after it.
pub mod Ledger
pub mod Timing
pub mod Recovery
mod Examples
use sssonector.Prelude.{
  ℕ, ◌+◌, ◌∷◌, ◌++◌, [], List, Bool, true, false, not, Option, none, some, ltb, leb, eqb,
  if◌then◌else◌, u64, Float64,
}

pub data CircuitBreakerState : Type 0 where
  state_closed state_half_open state_open : CircuitBreakerState

-- `has_callback` says whether `StateChangeCallback` is set; its calls are kept in `notified`.
pub record CircuitBreakerConfig (F : Float64) (E : Type 0) : Type 0 where
  pub failure_threshold : F.Float
  pub recovery_timeout : ℕ
  pub success_threshold : ℕ
  pub min_requests : ℕ
  pub has_callback : Bool
  pub error_classifier : Option (E → Bool)

pub record CircuitBreaker (F : Float64) (E : Type 0) : Type 0 where
  pub config : CircuitBreakerConfig F E
  pub state : CircuitBreakerState
  pub requests : ℕ  -- uint64
  pub successes : ℕ  -- uint64
  pub failures : ℕ  -- uint64
  pub last_state_transition : ℕ
  pub half_open_requests : ℕ
  pub half_open_successes : ℕ
  pub notified : List (CircuitBreakerState × CircuitBreakerState)

pub data CallResult (E : Type 0) : Type 0 where
  err_circuit_open : CallResult E
  returned : Option E → CallResult E

abbrev pub is_half_open_state : CircuitBreakerState → Bool
is_half_open_state state_half_open = true
is_half_open_state _ = false

abbrev pub is_open_state : CircuitBreakerState → Bool
is_open_state state_open = true
is_open_state _ = false

abbrev pub is_closed_state : CircuitBreakerState → Bool
is_closed_state state_closed = true
is_closed_state _ = false

module _ {F : Float64} {E : Type 0} where
  unfoldable pub new_circuit_breaker : CircuitBreakerConfig F E → ℕ → CircuitBreaker F E
  new_circuit_breaker config now = record {
    config = config;
    state = state_closed;
    requests = 0;
    successes = 0;
    failures = 0;
    last_state_transition = now;
    half_open_requests = 0;
    half_open_successes = 0;
    notified = [];
  }

  -- `totalFailures / totalRequests`, 0 where there was no request.
  unfoldable pub get_failure_rate : CircuitBreaker F E → F.Float
  get_failure_rate cb =
      if eqb cb.requests 0 then F.of_nat 0 else F.div (F.of_nat cb.failures) (F.of_nat cb.requests)

  unfoldable pub transition_to_state :
      CircuitBreaker F E → CircuitBreakerState → ℕ → CircuitBreaker F E
  transition_to_state cb new_state now = record cb {
    state = new_state;
    last_state_transition = now;
    half_open_requests = if is_half_open_state new_state then 0 else cb.half_open_requests;
    half_open_successes = if is_half_open_state new_state then 0 else cb.half_open_successes;
    notified =
        if cb.config.has_callback then cb.notified ++ ((cb.state, new_state) ∷ []) else cb.notified;
  }

  -- The two tests of the closed state, nested in the source.
  abbrev pub should_trip : CircuitBreaker F E → Bool
  unfolding get_failure_rate
  should_trip cb =
      if leb cb.config.min_requests cb.requests
      then F.lt cb.config.failure_threshold (get_failure_rate cb)
      else false

  fail_fast_in : CircuitBreakerState → CircuitBreaker F E → ℕ → CircuitBreaker F E × Bool
  unfolding transition_to_state
  fail_fast_in state_closed cb now =
      if should_trip cb then (transition_to_state cb state_open now, true) else (cb, false)
  fail_fast_in state_open cb now =
      if leb (cb.last_state_transition + cb.config.recovery_timeout) now
      then (transition_to_state cb state_half_open now, false)
      else (cb, true)
  fail_fast_in state_half_open cb now = (cb, false)

  unfoldable pub should_fail_fast : CircuitBreaker F E → ℕ → CircuitBreaker F E × Bool
  unfolding fail_fast_in get_failure_rate
  should_fail_fast cb now = fail_fast_in cb.state cb now

  -- `err == nil || (classifier != nil && !classifier(err))`
  unfoldable pub is_success : CircuitBreakerConfig F E → Option E → Bool
  is_success config none = true
  is_success config (some e) = elim config.error_classifier [ none ↦ false | some c ↦ not (c e) ]

  update_half_open : CircuitBreaker F E → Bool → ℕ → CircuitBreaker F E
  unfolding transition_to_state
  update_half_open cb success now =
      let n = if success then cb.half_open_successes + 1 else cb.half_open_successes in
      let counted = record cb {
        half_open_requests = cb.half_open_requests + 1;
        half_open_successes = n;
      } in
      if leb cb.config.success_threshold n
      then transition_to_state counted state_closed now
      else counted

  unfoldable pub update_state : CircuitBreaker F E → Option E → ℕ → CircuitBreaker F E
  unfolding update_half_open is_success
  update_state cb err now =
      if is_half_open_state cb.state then update_half_open cb (is_success cb.config err) now else cb

  count_outcome : CircuitBreaker F E → Option E → CircuitBreaker F E
  count_outcome cb none = record cb { successes = u64 (cb.successes + 1) }
  count_outcome cb (some e) = record cb { failures = u64 (cb.failures + 1) }

  -- `CanExecute`, and the part of `Call` before `fn`: true admits the request.
  unfoldable pub begin_call : CircuitBreaker F E → ℕ → CircuitBreaker F E × Bool
  unfolding should_fail_fast
  begin_call cb now =
      let (cb', refused) = should_fail_fast cb now in
      (record cb' { requests = u64 (cb'.requests + 1) }, not refused)

  -- The part of `Call` after `fn` has returned `err`.
  unfoldable pub end_call : CircuitBreaker F E → Option E → ℕ → CircuitBreaker F E
  unfolding update_state count_outcome
  end_call cb err now = count_outcome (update_state cb err now) err

  -- `Call` with nobody else between its halves: `fn` returns `err` at the time `later`.
  unfoldable pub call : CircuitBreaker F E → ℕ → Option E → ℕ → CircuitBreaker F E × CallResult E
  unfolding begin_call end_call
  call cb now err later =
      let (cb', admitted) = begin_call cb now in
      if admitted then (end_call cb' err later, returned err) else (cb', err_circuit_open)

  unfoldable pub can_execute : CircuitBreaker F E → ℕ → CircuitBreaker F E × Bool
  unfolding should_fail_fast
  can_execute cb now =
      let (cb', refused) = should_fail_fast cb now in
      let counted = record cb' { requests = u64 (cb'.requests + 1) } in
      if refused then (counted, false) else (counted, true)

  unfoldable pub reset : CircuitBreaker F E → ℕ → CircuitBreaker F E
  reset cb now = record cb {
    state = state_closed;
    requests = 0;
    successes = 0;
    failures = 0;
    half_open_requests = 0;
    half_open_successes = 0;
    last_state_transition = now;
  }

  unfoldable pub set_threshold : CircuitBreaker F E → F.Float → CircuitBreaker F E
  set_threshold cb threshold = record cb {
    config = record cb.config { failure_threshold = threshold };
  }

  unfoldable pub force_open : CircuitBreaker F E → ℕ → CircuitBreaker F E
  unfolding transition_to_state
  force_open cb now = transition_to_state cb state_open now

  unfoldable pub force_close : CircuitBreaker F E → ℕ → CircuitBreaker F E
  unfolding transition_to_state
  force_close cb now = transition_to_state cb state_closed now
