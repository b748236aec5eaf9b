-- ===== src/Recover/Recovery.antt =====
-- internal/resilience/recovery.go: ErrorRecovery.Recover, with its counters and what it tells each
-- observer. What a strategy's own Recover answers is an argument; the durations and their average
-- are not modelled. The source increments elements of two maps through their addresses, which Go
-- does not have; here they are incremented. A missing key counts as 0.
use sssonector.Prelude.{
  Bool, Eq, List, Option, String, [], has_key, if◌then◌else◌, insert, lookup, none, some, suc, u64,
  ℕ, ◌∷◌,
}
use sssonector.Prelude.{nat_eq, string_eq}
use sssonector.Recover.{Error, ErrorClassifier, category_code, classify_error, find_strategy}

pub record RecoveryMetrics : Type 0 where
  pub total_recoveries : ℕ
  pub successful_recoveries : ℕ
  pub failed_recoveries : ℕ
  pub error_category_metrics : List (ℕ × ℕ)
  pub strategy_usage : List (String × ℕ)

unfoldable pub new_metrics : RecoveryMetrics
new_metrics = record {
  total_recoveries = 0;
  successful_recoveries = 0;
  failed_recoveries = 0;
  error_category_metrics = [];
  strategy_usage = [];
}

-- What an observer is told: `OnRecoveryStart`, `OnRecoverySuccess` and `OnRecoveryFailed`.
pub data Notice : Type 0 where
  recovery_start recovery_success : Error → String → Notice
  recovery_failed : Error → String → Error → Notice

abbrev pub count_at : Option ℕ → ℕ
count_at none = 0
count_at (some n) = n

unfoldable pub increment {κ} : {K : Type κ} ⦃keys : Eq K⦄ → K → List (K × ℕ) → List (K × ℕ)
increment key counts = insert key (u64 (suc (count_at (lookup key counts)))) counts

abbrev pub Outcome : Type 0
Outcome = RecoveryMetrics × List Notice × Option Error

-- The end of Recover, after the strategy's answer.
unfoldable pub finish : Error → String → Option Error → RecoveryMetrics → Outcome
finish e name none m = (
  record m { successful_recoveries = u64 (suc m.successful_recoveries) },
  recovery_start e name ∷ recovery_success e name ∷ [],
  none,
)
finish e name (some failure) m = (
  record m { failed_recoveries = u64 (suc m.failed_recoveries) },
  recovery_start e name ∷ recovery_failed e name failure ∷ [],
  some failure,
)

unfoldable pub add_strategy :
    String
    → (Error → Bool)
    → List (String × (Error → Bool))
    → Option (List (String × (Error → Bool)))
add_strategy name can_recover strategies =
    if has_key name strategies then none else some (insert name can_recover strategies)

module _ (classifiers : List ErrorClassifier) (strategies : List (String × (Error → Bool)))
    (attempt : String → Error → Option Error) where
  unfoldable pub recover : Option Error → RecoveryMetrics → Outcome
  recover none m = (m, [], none)
  recover (some e) m =
      let category = category_code (classify_error classifiers e) in
      let counted = record m {
        total_recoveries = u64 (suc m.total_recoveries);
        error_category_metrics = increment category m.error_category_metrics;
      } in
      elim (find_strategy strategies e) [
        | none ↦
            (record counted { failed_recoveries = u64 (suc counted.failed_recoveries) }, [], some e)
        | some name ↦
            finish e name (attempt name e)
              (record counted { strategy_usage = increment name counted.strategy_usage })
      ]

  -- The metrics after the errors of a run.
  unfoldable pub recover_all : List (Option Error) → RecoveryMetrics → RecoveryMetrics
  recover_all [] m = m
  recover_all (e ∷ errors) m = recover_all errors (recover e m).0
