-- ===== src/Recover/Examples.antt =====
-- The theorems on classification at concrete errors.
use mathlib.Core.List.{}
use sssonector.Prelude.{
  List, Option, String, [], false, if◌then◌else◌, none, refl, some, true, ℕ, ◌==◌, ◌∷◌, ◌≡◌,
}
use sssonector.Recover.{
  Error, backoff_retry_can_recover, builtin_recovery_strategies, circuit_reset_can_recover,
  classify_common_error, classify_message, codes, contains_string, default_classifiers,
  find_strategy, match_error, network,
}
use sssonector.Recover.Recovery.{finish, new_metrics, recover, recovery_start, recovery_success}
use sssonector.Recover.Strategies.{CircuitReset}
use sssonector.Recover.Outcomes.{Tells, recover-Tells}
use sssonector.Prelude.{string_eq}
use sssonector.Recover.Messages.{}
use sssonector.Recover.Classifiers.{}

abbrev plain : List ℕ → Error
plain message = record {
  is_canceled = false;
  is_deadline_exceeded = false;
  is_circuit_open = false;
  message = message;
}

out_of_memory_is_network : classify_common_error (some (plain (codes "out of memory"))) ≡ network
unfolding classify_common_error classify_message match_error contains_string
out_of_memory_is_network = refl

abbrev attempt : String → Error → Option Error
attempt name e = if name == "network_retry" then some (plain (codes "refused")) else none

abbrev dial_error : Error
dial_error = record (plain []) { is_circuit_open = true }

-- An open circuit is for the strategy that resets it, which succeeds here.
open_circuit_recovers :
    (recover default_classifiers builtin_recovery_strategies attempt
      (some dial_error)
      new_metrics).1
    ≡ recovery_start dial_error "circuit_reset" ∷ recovery_success dial_error "circuit_reset" ∷ []
unfolding recover finish find_strategy builtin_recovery_strategies backoff_retry_can_recover
    circuit_reset_can_recover classify_common_error classify_message match_error contains_string
open_circuit_recovers = refl

recover-Tells_example :
    Tells default_classifiers builtin_recovery_strategies attempt dial_error new_metrics
      "circuit_reset" 7
      (find_strategy builtin_recovery_strategies dial_error)
      (recover default_classifiers builtin_recovery_strategies attempt
        (some dial_error)
        new_metrics)
recover-Tells_example =
    recover-Tells default_classifiers builtin_recovery_strategies attempt dial_error new_metrics
      "circuit_reset" 7

abbrev first_reset : CircuitReset
first_reset = record { max_resets = 2; reset_count = 0 }
