-- ===== src/Recover/Outcomes.antt =====
-- internal/resilience/recovery.go: what Recover answers, and what its counters add up to.
use sssonector.Prelude.{
  Bool, Bool-cases, Eq, List, Option, Option-cases, String, [], ap, arith, false, if◌then◌else◌,
  inl, inr, lookup, lookup-insert, none, refl, some, suc, sym, u64, ℕ, ◌+◌, ◌==◌, ◌∙◌, ◌∷◌, ◌≡◌,
}
use sssonector.Prelude.{nat_eq, string_eq}
use mathlib.Core.Path.{subst}
use sssonector.Recover.{Error, ErrorClassifier, category_code, classify_error, find_strategy}
use sssonector.Recover.Recovery.{
  Notice, Outcome, RecoveryMetrics, count_at, finish, increment, recover, recover_all,
  recovery_failed, recovery_start, recovery_success,
}

-- Each recovery that was begun has ended well or badly, as the counters wrap.
unfoldable pub IsSettled : RecoveryMetrics → Type 0
IsSettled m = m.total_recoveries ≡ u64 (m.successful_recoveries + m.failed_recoveries)

finish-IsSettled :
    (e : Error) (name : String) (answer : Option Error) (m m' : RecoveryMetrics)
    → IsSettled m
    → m'.total_recoveries ≡ u64 (suc m.total_recoveries)
    → m'.successful_recoveries ≡ m.successful_recoveries
    → m'.failed_recoveries ≡ m.failed_recoveries
    → IsSettled (finish e name answer m').0
unfolding finish IsSettled
finish-IsSettled e name none m m' h total good bad = omega (arith, h, total, good, bad)
finish-IsSettled e name (some failure) m m' h total good bad = omega (arith, h, total, good, bad)

-- How often a strategy or a category has been counted.
abbrev pub times {κ} : {K : Type κ} ⦃keys : Eq K⦄ → K → List (K × ℕ) → ℕ
times key counts = count_at (lookup key counts)

increment-times {κ} :
    {K : Type κ} ⦃keys : Eq K⦄ (key other : K) (counts : List (K × ℕ))
    → times other (increment key counts)
      ≡ (if key == other then u64 (suc (times other counts)) else times other counts)
unfolding increment
increment-times ⦃keys⦄ key other counts =
    rw (lookup-insert key other (u64 (suc (times key counts))) counts)
      (elim (Bool-cases (key == other)) [
        | inl same ↦
            rw same (ap (λ k. u64 (suc (times k counts))) ((keys.beq_iff key other).0 same))
        | inr different ↦ rw different refl
      ])

-- The answer and the notices of the one strategy that is tried, or of none.
unfoldable pub answer_of : (String → Error → Option Error) → Error → Option String → Option Error
answer_of attempt e none = some e
answer_of attempt e (some name) = attempt name e

unfoldable pub ended : Error → String → Option Error → List Notice
ended e name none = recovery_success e name ∷ []
ended e name (some failure) = recovery_failed e name failure ∷ []

unfoldable pub notices_of : (String → Error → Option Error) → Error → Option String → List Notice
notices_of attempt e none = []
notices_of attempt e (some name) = recovery_start e name ∷ ended e name (attempt name e)

-- Which strategies are counted.
abbrev pub is_tried : String → Option String → Bool
is_tried name none = false
is_tried name (some tried) = tried == name

finish-outcome :
    (e : Error) (name : String) (answer : Option Error) (m : RecoveryMetrics)
    → ((finish e name answer m).2 ≡ answer)
      × ((finish e name answer m).1 ≡ recovery_start e name ∷ ended e name answer)
      × ((finish e name answer m).0.error_category_metrics ≡ m.error_category_metrics)
      × ((finish e name answer m).0.strategy_usage ≡ m.strategy_usage)
unfolding finish ended
finish-outcome e name none m = (refl, refl, refl, refl)
finish-outcome e name (some failure) m = (refl, refl, refl, refl)

module _ (classifiers : List ErrorClassifier) (strategies : List (String × (Error → Bool)))
    (attempt : String → Error → Option Error) where
  counted_metrics : RecoveryMetrics → Error → RecoveryMetrics
  counted_metrics m e = record m {
    total_recoveries = u64 (suc m.total_recoveries);
    error_category_metrics =
        increment (category_code (classify_error classifiers e)) m.error_category_metrics;
  }

  failed_at_once : RecoveryMetrics → Error → RecoveryMetrics
  unfolding counted_metrics
  failed_at_once m e = record (counted_metrics m e) {
    failed_recoveries = u64 (suc m.failed_recoveries);
  }

  tried_metrics : RecoveryMetrics → Error → String → RecoveryMetrics
  unfolding counted_metrics
  tried_metrics m e name = record (counted_metrics m e) {
    strategy_usage = increment name m.strategy_usage;
  }

  failed-IsSettled :
      (m : RecoveryMetrics) (e : Error) → IsSettled m → IsSettled (failed_at_once m e)
  unfolding IsSettled failed_at_once counted_metrics
  failed-IsSettled m e h = omega (arith, h)

  recover-IsSettled :
      (e : Option Error) (m : RecoveryMetrics)
      → IsSettled m
      → IsSettled (recover classifiers strategies attempt e m).0
  unfolding recover failed_at_once tried_metrics counted_metrics
  recover-IsSettled none m h = h
  recover-IsSettled (some e) m h = elim (Option-cases (find_strategy strategies e)) [
    | inl nobody ↦
        let step : (recover classifiers strategies attempt (some e) m).0 ≡ failed_at_once m e =
          rw (recover, nobody) refl in
        subst IsSettled (sym step) (failed-IsSettled m e h)
    | inr (name, found) ↦
        let step : recover classifiers strategies attempt (some e) m
            ≡ finish e name (attempt name e) (tried_metrics m e name) =
          rw (recover, found) refl in
        subst (λ o. IsSettled o.0) (sym step)
          (finish-IsSettled e name (attempt name e) m (tried_metrics m e name) h refl refl refl)
  ]

  -- Through any run of errors, from metrics where it holds, such as new ones: the number of recoveries
  -- is the sum of the successful and the failed ones, modulo 2^64.
  pub recover_all-IsSettled :
      (errors : List (Option Error)) (m : RecoveryMetrics)
      → IsSettled m
      → IsSettled (recover_all classifiers strategies attempt errors m)
  unfolding recover_all
  recover_all-IsSettled [] m h = h
  recover_all-IsSettled (e ∷ errors) m h =
      recover_all-IsSettled errors (recover classifiers strategies attempt e m).0
        (recover-IsSettled e m h)

  -- What an outcome says for a strategy that was found, or for none.
  unfoldable pub Tells : Error → RecoveryMetrics → String → ℕ → Option String → Outcome → Type 0
  Tells e m name category found outcome =
      (outcome.2 ≡ answer_of attempt e found)
      × (outcome.1 ≡ notices_of attempt e found)
      × (times name outcome.0.strategy_usage ≡ (
          if is_tried name found
          then u64 (suc (times name m.strategy_usage))
          else times name m.strategy_usage))
      × (times category outcome.0.error_category_metrics ≡ (
          if category_code (classify_error classifiers e) == category
          then u64 (suc (times category m.error_category_metrics))
          else times category m.error_category_metrics))

  -- Recover on an error: the answer is that of the first strategy that accepts the error, or the error
  -- itself where none does; the observers are told of the start and of how it ended, or nothing; and
  -- of the counters of strategies and of categories only those of the strategy tried and of the
  -- error's category grow, by one.
  pub recover-Tells :
      (e : Error) (m : RecoveryMetrics) (name : String) (category : ℕ)
      → Tells e m name category
          (find_strategy strategies e)
          (recover classifiers strategies attempt (some e) m)
  unfolding recover Tells answer_of notices_of failed_at_once tried_metrics counted_metrics
  recover-Tells e m name category =
      let code = category_code (classify_error classifiers e) in
      let categories = increment-times code category m.error_category_metrics in
      elim (Option-cases (find_strategy strategies e)) [
        | inl nobody ↦
            let step : recover classifiers strategies attempt (some e) m
                ≡ (failed_at_once m e, [], some e) =
              rw (recover, nobody) refl in
            subst (λ o. Tells e m name category (find_strategy strategies e) o) (sym step)
              (subst (λ f. Tells e m name category f (failed_at_once m e, [], some e)) (sym nobody)
                (refl, refl, refl, categories))
        | inr (tried, found) ↦
            let after = finish e tried (attempt tried e) (tried_metrics m e tried) in
            let step : recover classifiers strategies attempt (some e) m ≡ after =
              rw (recover, found) refl in
            let (answer, notices, kept, used) =
              finish-outcome e tried (attempt tried e) (tried_metrics m e tried) in
            subst (λ o. Tells e m name category (find_strategy strategies e) o) (sym step)
              (subst (λ f. Tells e m name category f after) (sym found)
                (
                  answer,
                  notices,
                  ap (times name) used ∙ increment-times tried name m.strategy_usage,
                  ap (times category) kept ∙ categories,
                ))
      ]
