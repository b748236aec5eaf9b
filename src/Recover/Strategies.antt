-- ===== src/Recover/Strategies.antt =====
-- internal/resilience/recovery.go: what the four strategies of the program answer when they are asked
-- to recover, which ErrorRecovery does at attempt 1. `ended` is the context's error where the context
-- ends before the delay is over. An error that wraps another answers errors.Is as that does.
use sssonector.Prelude.{
  Bool, Bool-cases, List, Option, Option-cases, String, arith, if◌then◌else◌, inl, inr, leb, none,
  refl, some, suc, u64, ℕ, ◌++◌, ◌+◌, ◌==◌, ◌≡◌,
}
use sssonector.Prelude.{string_eq}
use sssonector.Recover.{Error, ErrorClassifier, codes, find_strategy}
use sssonector.Recover.Recovery.{Outcome, RecoveryMetrics, finish, recover}

abbrev pub wrapped : String → Error → Error
wrapped prefix e = record e { message = codes prefix ++ e.message }

-- The select on the context and the delay.
unfoldable pub after_delay : Option Error → Error → Option Error
after_delay none failure = some failure
after_delay (some ctx_error) failure = some ctx_error

unfoldable pub backoff_retry_recover : Option Error → Error → Option Error
backoff_retry_recover ended e =
    after_delay ended (wrapped "backoff recovery simulated for attempt 1: " e)

pub record CircuitReset : Type 0 where
  pub max_resets : ℕ
  pub reset_count : ℕ

unfoldable pub circuit_reset_recover :
    Option Error → CircuitReset → Error → CircuitReset × Option Error
circuit_reset_recover ended s e =
    if leb s.max_resets s.reset_count
    then (s, some (wrapped "circuit reset limit exceeded: " e))
    else elim ended [
      | none ↦ (
        record s { reset_count = s.reset_count + 1 },
        some (wrapped "circuit reset attempted at attempt 1: " e),
      )
      | some ctx_error ↦ (s, some ctx_error)
    ]

unfoldable pub resource_retry_recover : Option Error → Error → Option Error
resource_retry_recover ended e = after_delay ended (wrapped "resource retry at attempt 1: " e)

unfoldable pub network_retry_recover : Option Error → Error → Option Error
network_retry_recover ended e = after_delay ended (wrapped "network retry at attempt 1: " e)

-- The strategy by its name; the last is that of the network.
unfoldable pub builtin_recover : Option Error → CircuitReset → String → Error → Option Error
builtin_recover ended s name e =
    if name == "backoff_retry"
    then backoff_retry_recover ended e
    else if name == "circuit_reset"
    then (circuit_reset_recover ended s e).1
    else if name == "resource_retry"
    then resource_retry_recover ended e
    else network_retry_recover ended e

after_delay-some :
    (ended : Option Error) (failure : Error) → (x : Error) × (after_delay ended failure ≡ some x)
unfolding after_delay
after_delay-some none failure = (failure, refl)
after_delay-some (some ctx_error) failure = (ctx_error, refl)

circuit_reset-some :
    (ended : Option Error) (s : CircuitReset) (e : Error)
    → (x : Error) × ((circuit_reset_recover ended s e).1 ≡ some x)
unfolding circuit_reset_recover
circuit_reset-some ended s e = elim (Bool-cases (leb s.max_resets s.reset_count)) [
  | inl spent ↦ (wrapped "circuit reset limit exceeded: " e, rw spent refl)
  | inr left ↦ elim (Option-cases ended) [
    | inl waited ↦ (wrapped "circuit reset attempted at attempt 1: " e, rw (left, waited) refl)
    | inr (ctx_error, over) ↦ (ctx_error, rw (left, over) refl)
  ]
]

builtin_recover-some :
    (ended : Option Error) (s : CircuitReset) (name : String) (e : Error)
    → (x : Error) × (builtin_recover ended s name e ≡ some x)
unfolding builtin_recover backoff_retry_recover resource_retry_recover network_retry_recover
builtin_recover-some ended s name e = elim (Bool-cases (name == "backoff_retry")) [
  | inl first ↦ rw first (after_delay-some ended _)
  | inr other ↦ elim (Bool-cases (name == "circuit_reset")) [
    | inl second ↦ rw (other, second) (circuit_reset-some ended s e)
    | inr neither ↦ elim (Bool-cases (name == "resource_retry")) [
      | inl third ↦ rw (other, neither, third) (after_delay-some ended _)
      | inr last ↦ rw (other, neither, last) (after_delay-some ended _)
    ]
  ]
]

-- An outcome with an error, which counts as a failure.
abbrev pub Fails : RecoveryMetrics → Outcome → Type 0
Fails m outcome =
    ((x : Error) × (outcome.2 ≡ some x))
    × (outcome.0.successful_recoveries ≡ m.successful_recoveries)
    × (outcome.0.failed_recoveries ≡ u64 (suc m.failed_recoveries))

finish-Fails :
    (e x : Error) (name : String) (answer : Option Error) (m : RecoveryMetrics)
    → answer ≡ some x
    → Fails m (finish e name answer m)
unfolding finish
finish-Fails e x name none m h = absurd (ground (arith, h))
finish-Fails e x name (some failure) m h = ((failure, refl), refl, refl)

-- With the program's own strategies no error is ever recovered from: whatever the context and the
-- counter of resets are, Recover answers an error, and counts a failure and no success.
pub recover-Fails :
    (classifiers : List ErrorClassifier) (strategies : List (String × (Error → Bool)))
    (ended : Option Error) (s : CircuitReset) (e : Error) (m : RecoveryMetrics)
    → Fails m (recover classifiers strategies (builtin_recover ended s) (some e) m)
unfolding recover
recover-Fails classifiers strategies ended s e m =
    elim (Option-cases (find_strategy strategies e)) [
      | inl nobody ↦ rw (recover, nobody) ((e, refl), refl, refl)
      | inr (name, found) ↦
          let (x, answer) = builtin_recover-some ended s name e in
          rw (recover, found) (finish-Fails e x name (builtin_recover ended s name e) _ answer)
    ]
