-- ===== src/Fleet.antt =====
-- internal/resilience/state.go: the registry of circuit breakers, the operations on all of them, the
-- log of their changes and the alerts. Each breaker is registered under one name. The order in which
-- Go visits the map is that of the list. `clock name` is the time at which the breaker registered
-- under the name reads the clock; a time is not negative and 0 stands for the zero Time.
pub mod Health
pub mod Events
pub mod Alerts
mod Examples
use sssonector.Prelude.{
  Bool, Float64, List, Option, String, [], drop, eqb, false, if◌then◌else◌, insert, length, lookup,
  ltb, none, some, string_eq, true, u64, ℕ, ◌++◌, ◌+◌, ◌-◌, ◌||◌, ◌∷◌,
}
use sssonector.Breaker.{
  CircuitBreaker, CircuitBreakerState, force_close, force_open, is_closed_state, is_open_state,
  reset, state_closed, state_half_open, state_open,
}

pub data FleetError : Type 0 where
  already_exists : FleetError

-- `CircuitBreakerGlobalState`.
pub record GlobalState : Type 0 where
  pub total_breakers : ℕ
  pub open_count : ℕ
  pub half_open_count : ℕ
  pub closed_count : ℕ
  pub total_requests : ℕ  -- uint64
  pub total_failures : ℕ  -- uint64
  pub overall_health : String
  pub time_stamp : ℕ

-- The variables of the loop in GetGlobalState.
pub record Totals : Type 0 where
  pub total_open : ℕ
  pub total_half_open : ℕ
  pub total_closed : ℕ
  pub total_requests : ℕ
  pub total_failures : ℕ

abbrev pub Breakers : Float64 → Type 0 → Type 0
Breakers F E = List (String × CircuitBreaker F E)

abbrev pub count_state : CircuitBreakerState → Totals → Totals
count_state state_open t = record t { total_open = t.total_open + 1 }
count_state state_half_open t = record t { total_half_open = t.total_half_open + 1 }
count_state state_closed t = record t { total_closed = t.total_closed + 1 }

abbrev pub no_totals : Totals
no_totals = record {
  total_open = 0;
  total_half_open = 0;
  total_closed = 0;
  total_requests = 0;
  total_failures = 0;
}

module _ {F : Float64} {E : Type 0} where
  abbrev pub new_states : Breakers F E
  new_states = []

  unfoldable pub add_breaker :
      String → CircuitBreaker F E → Breakers F E → Breakers F E × Option FleetError
  add_breaker name breaker cs = elim (lookup name cs) [
    | some b ↦ (cs, some already_exists)
    | none ↦ (insert name breaker cs, none)
  ]

  abbrev pub get_breaker : String → Breakers F E → Option (CircuitBreaker F E)
  get_breaker name cs = lookup name cs

  unfoldable pub get_all_breakers : Breakers F E → List (CircuitBreaker F E)
  get_all_breakers [] = []
  get_all_breakers ((name, breaker) ∷ cs) = breaker ∷ get_all_breakers cs

  abbrev pub count_stats : CircuitBreaker F E → Totals → Totals
  count_stats breaker t = record t {
    total_requests = u64 (t.total_requests + breaker.requests);
    total_failures = u64 (t.total_failures + breaker.failures);
  }

  unfoldable pub tally : Breakers F E → Totals → Totals
  tally [] t = t
  tally ((name, breaker) ∷ cs) t = tally cs (count_stats breaker (count_state breaker.state t))

  unfoldable pub get_global_state : ℕ → Breakers F E → GlobalState
  unfolding tally
  get_global_state now cs =
      let t = tally cs no_totals in
      record {
        total_breakers = length cs;
        open_count = t.total_open;
        half_open_count = t.total_half_open;
        closed_count = t.total_closed;
        total_requests = t.total_requests;
        total_failures = t.total_failures;
        overall_health =
            if ltb 0 t.total_open
            then "critical"
            else if ltb 0 t.total_half_open
            then "degraded"
            else "healthy";
        time_stamp = now;
      }

  -- The bodies of the bulk loops.
  abbrev pub open_one : CircuitBreaker F E → ℕ → CircuitBreaker F E
  open_one breaker now = if is_open_state breaker.state then breaker else force_open breaker now

  abbrev pub close_one : CircuitBreaker F E → ℕ → CircuitBreaker F E
  close_one breaker now = if is_closed_state breaker.state then breaker else force_close breaker now

  unfoldable pub open_all : (String → ℕ) → Breakers F E → Breakers F E
  open_all clock [] = []
  open_all clock ((name, breaker) ∷ cs) = (name, open_one breaker (clock name)) ∷ open_all clock cs

  unfoldable pub close_all : (String → ℕ) → Breakers F E → Breakers F E
  close_all clock [] = []
  close_all clock ((name, breaker) ∷ cs) =
      (name, close_one breaker (clock name)) ∷ close_all clock cs

  unfoldable pub reset_all : (String → ℕ) → Breakers F E → Breakers F E
  reset_all clock [] = []
  reset_all clock ((name, breaker) ∷ cs) = (name, reset breaker (clock name)) ∷ reset_all clock cs

-- `CircuitBreakerMetrics`, without its references to the registry and the log.
pub record AlertMetrics : Type 0 where
  pub alert_count : ℕ  -- int64
  pub last_check : ℕ

-- The literal 0.2 is the float64 nearest to 1/5, as the quotient of 1 and 5 is.
unfoldable pub should_alert : Float64 → ℕ → GlobalState → AlertMetrics → AlertMetrics × Bool
should_alert F now global_state cm =
    if ltb now (cm.last_check + 30000000000)
    then (cm, false)
    else if F.lt (F.div (F.of_nat 1) (F.of_nat 5))
        (F.div (F.of_nat global_state.open_count) (F.of_nat global_state.total_breakers))
    then (record { alert_count = u64 (cm.alert_count + 1); last_check = now }, true)
    else (record cm { last_check = now }, false)

-- `E` is the event; the log does not look into it.
pub record CircuitBreakerEvents {ℓ} (E : Type ℓ) : Type ℓ where
  pub events : List E
  pub max_events : ℕ

module _ {ℓ} {E : Type ℓ} where
  -- The maximum 0 stands for any that is not positive.
  abbrev pub new_circuit_breaker_events : ℕ → CircuitBreakerEvents E
  new_circuit_breaker_events max_events = record {
    events = [];
    max_events = if eqb max_events 0 then 1000 else max_events;
  }

  unfoldable pub log_event : E → CircuitBreakerEvents E → CircuitBreakerEvents E
  log_event event ce =
      let appended = ce.events ++ (event ∷ []) in
      if ltb ce.max_events (length appended)
      then record ce { events = drop 1 appended }
      else record ce { events = appended }

  -- The limit 0 stands for any that is not positive.
  unfoldable pub get_events : ℕ → CircuitBreakerEvents E → List E
  get_events limit ce =
      let count = length ce.events in
      let n = if eqb limit 0 || ltb count limit then count else limit in drop (count - n) ce.events

  abbrev pub clear_events : CircuitBreakerEvents E → CircuitBreakerEvents E
  clear_events ce = record ce { events = [] }
