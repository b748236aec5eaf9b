-- ===== src/Breaker/Examples.antt =====
-- Runs of a breaker, and the theorems at concrete inputs. Rates are whole percents here.
use sssonector.Prelude.{
  Float64, List, [], arith, leb, ltb, none, refl, some, true, u64, ℕ, ◌*◌, ◌+◌, ◌/◌, ◌∷◌, ◌≡◌,
}
use sssonector.Breaker.{
  CircuitBreaker, CircuitBreakerConfig, begin_call, call, err_circuit_open, force_open, is_success,
  new_circuit_breaker, state_closed, state_open,
}
use sssonector.Breaker.Ledger.{begins, begun, here, next, opened, requests_accounted}
use sssonector.Breaker.Timing.{Visit, open_refuses, run_calls}
use sssonector.Breaker.Recovery.{half_open_closes}

abbrev percent : Float64
percent = record { Float = ℕ; of_nat = λ n. n; div = λ a b. a * 100 / b; lt = ltb; le = leb }

abbrev settings : CircuitBreakerConfig percent ℕ
settings = record {
  failure_threshold = 40;
  recovery_timeout = 60;
  success_threshold = 2;
  min_requests = 3;
  has_callback = true;
  error_classifier = none;
}

-- Three failures in a row, and a fourth call that finds the rate too high.
abbrev failing : List (Visit ℕ)
failing = (1, some 7, 2) ∷ (3, some 7, 4) ∷ (5, some 7, 6) ∷ (7, none, 8) ∷ []

abbrev tripped : CircuitBreaker percent ℕ
tripped = (run_calls (new_circuit_breaker settings 0) failing).0

abbrev probing : CircuitBreaker percent ℕ
probing = (begin_call (force_open (new_circuit_breaker settings 0) 10) 70).0

failing_trips : tripped.state ≡ state_open
unfolding run_calls call new_circuit_breaker
failing_trips = refl

requests_accounted_example :
    let l = begun (opened settings 0) 1 in
    l.breaker.requests
    ≡ u64 (l.breaker.successes + l.breaker.failures + l.in_flight + l.refused + l.probes)
requests_accounted_example =
    requests_accounted settings 0 (next here (begins (opened settings 0) 1))

open_refuses_example :
    (run_calls tripped ((20, none, 21) ∷ (30, none, 31) ∷ [])).1
    ≡ err_circuit_open ∷ err_circuit_open ∷ []
unfolding run_calls call new_circuit_breaker
open_refuses_example =
    (open_refuses tripped ((20, none, 21) ∷ (30, none, 31) ∷ []) refl (omega arith)).0

half_open_closes_example :
    (run_calls probing ((71, none, 72) ∷ (73, none, 74) ∷ [])).0.state ≡ state_closed
unfolding begin_call force_open new_circuit_breaker is_success
half_open_closes_example =
    half_open_closes probing ((71, none, 72) ∷ (73, none, 74) ∷ []) refl (refl, (refl, tt))
      (omega arith) (omega arith)

-- One of the two successes that are needed, with three failures in five requests.
abbrev relapsing : CircuitBreaker percent ℕ
relapsing = (run_calls tripped ((67, none, 68) ∷ [])).0
