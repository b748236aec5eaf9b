-- ===== src/Fleet/Examples.antt =====
-- A registry of two breakers, and the theorems at concrete inputs.
use sssonector.Prelude.{
  Float64, [], false, leb, lookup, ltb, none, refl, some, string_eq, true, ℕ, ◌*◌, ◌/◌, ◌∷◌, ◌≡◌,
}
use sssonector.Breaker.{CircuitBreaker, CircuitBreakerConfig, is_open_state, new_circuit_breaker}
use sssonector.Fleet.{
  AlertMetrics, Breakers, GlobalState, add_breaker, already_exists, get_global_state, log_event,
  new_circuit_breaker_events, should_alert,
}
use sssonector.Fleet.Events.{log_all}
use sssonector.Fleet.Health.{get_global_state-counts, number}

-- Ratios of numbers below 100, times 100.
abbrev percent : Float64
percent = record { Float = ℕ; of_nat = λ n. n * 100; div = λ a b. a * 100 / b; lt = ltb; le = leb }

abbrev config : CircuitBreakerConfig percent Unit
config = record {
  failure_threshold = 50;
  recovery_timeout = 10;
  success_threshold = 2;
  min_requests = 4;
  has_callback = false;
  error_classifier = none;
}

abbrev link : CircuitBreaker percent Unit
unfolding new_circuit_breaker
link = new_circuit_breaker config 0

abbrev fleet : Breakers percent Unit
unfolding new_circuit_breaker
fleet = ("up", link) ∷ ("down", link) ∷ []

registered_twice : (add_breaker "up" link fleet).1 ≡ some already_exists
unfolding add_breaker new_circuit_breaker lookup
registered_twice = refl

oldest_dropped :
    (log_all {A = ℕ} (1 ∷ 2 ∷ 3 ∷ []) (new_circuit_breaker_events 2)).events ≡ 2 ∷ 3 ∷ []
unfolding log_all log_event
oldest_dropped = refl

get_global_state-counts_example : (get_global_state 5 fleet).open_count ≡ number is_open_state fleet
get_global_state-counts_example = (get_global_state-counts 5 fleet).0

abbrev alarm : GlobalState
alarm = record {
  total_breakers = 2;
  open_count = 2;
  half_open_count = 0;
  closed_count = 0;
  total_requests = 0;
  total_failures = 0;
  overall_health = "critical";
  time_stamp = 40000000000;
}

abbrev quiet : AlertMetrics
quiet = record { alert_count = 0; last_check = 0 }

alerts : (should_alert percent 40000000000 alarm quiet).1 ≡ true
unfolding should_alert
alerts = refl
