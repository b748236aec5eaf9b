-- ===== src/Dial/Examples.antt =====
-- Connecting at concrete inputs.
use sssonector.Prelude.{[], arith, eqb, if◌then◌else◌, refl, some, ℕ, ◌<◌, ◌∷◌, ◌≡◌}
use sssonector.Dial.{
  Clock, Metrics, Probe, conn, connected, default_retry_config, get_connection, gradual_retries,
  immediate_retries, refused, second_phase, succeeded,
}
use sssonector.Dial.Phases.{counted, get_connection-finds}
use sssonector.Dial.Cancelled.{}
use sssonector.Dial.Schedule.{}

-- The fifth attempt, the second of the gradual phase, makes the connection.
abbrev fifth : ℕ → Probe
fifth n = if eqb n 4 then connected 7 else refused

abbrev no_metrics : Metrics
no_metrics = record { attempts = 0; failures = 0; successes = 0 }

abbrev start : Clock
start = record { polls = 0; sleeps = [] }

fifth_refused : (i : ℕ) → i < 4 → fifth i ≡ refused
fifth_refused i h = ground arith

fifth_sleeps :
    get_connection fifth default_retry_config 1 no_metrics start
    ≡ some (
      conn 7,
      record { attempts = 1; failures = 0; successes = 1 },
      record { polls = 5; sleeps = 5000000000 ∷ 5000000000 ∷ 5000000000 ∷ 30000000000 ∷ [] },
    )
unfolding get_connection immediate_retries second_phase gradual_retries default_retry_config
fifth_sleeps = refl

get_connection-finds_example :
    (t : Clock) × (get_connection fifth default_retry_config 1 no_metrics start
      ≡ some (conn 7, succeeded (counted no_metrics), t))
    × (t.polls ≡ 5)
unfolding default_retry_config
get_connection-finds_example =
    get_connection-finds fifth default_retry_config 1 no_metrics start 4 7 refl (omega arith)
      (omega arith) (λ i p q. fifth_refused i q) refl
