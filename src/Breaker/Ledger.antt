-- ===== src/Breaker/Ledger.antt =====
-- Who is counted where, over every interleaving of calls: the counters of a breaker against the
-- calls in flight, the calls refused and the probes by `CanExecute`.
use sssonector.Prelude.{
  ℕ, ◌+◌, ◌-◌, ◌<◌, ◌≡◌, refl, Option, arith, u64, Float64, inl, inr, Bool-cases, if◌then◌else◌,
}
use sssonector.Breaker.{
  CircuitBreaker, CircuitBreakerConfig, new_circuit_breaker, begin_call, end_call, can_execute,
  force_open, force_close, set_threshold,
}

-- A breaker with the calls that it has seen; `in_flight` of them wait for `fn`.
pub record Ledger (F : Float64) (E : Type 0) : Type 0 where
  pub breaker : CircuitBreaker F E
  pub in_flight : ℕ
  pub refused : ℕ
  pub probes : ℕ

module _ {F : Float64} {E : Type 0} where
  abbrev pub opened : CircuitBreakerConfig F E → ℕ → Ledger F E
  opened config now = record {
    breaker = new_circuit_breaker config now;
    in_flight = 0;
    refused = 0;
    probes = 0;
  }

  abbrev pub begun : Ledger F E → ℕ → Ledger F E
  begun l now =
      let (cb, admitted) = begin_call l.breaker now in
      if admitted
      then record l { breaker = cb; in_flight = l.in_flight + 1 }
      else record l { breaker = cb; refused = l.refused + 1 }

  -- What the callers of one breaker do, in any order. A call ends once for each that began.
  pub data Step : Ledger F E → Ledger F E → Type 0 where
    begins : (l : Ledger F E) (now : ℕ) → Step l (begun l now)
    ends :
        (l : Ledger F E) (err : Option E) (now : ℕ)
        → 0 < l.in_flight
        → Step l (record l { breaker = end_call l.breaker err now; in_flight = l.in_flight - 1 })
    asks :
        (l : Ledger F E) (now : ℕ)
        → Step l (record l { breaker = (can_execute l.breaker now).0; probes = l.probes + 1 })
    opens : (l : Ledger F E) (now : ℕ) → Step l (record l { breaker = force_open l.breaker now })
    closes : (l : Ledger F E) (now : ℕ) → Step l (record l { breaker = force_close l.breaker now })
    tunes :
        (l : Ledger F E) (threshold : F.Float)
        → Step l (record l { breaker = set_threshold l.breaker threshold })

  pub data Reach (s : Ledger F E) : Ledger F E → Type 0 where
    here : Reach s s
    next : {t u : Ledger F E} → Reach s t → Step t u → Reach s u

  abbrev pub IsBalanced : Ledger F E → Type 0
  IsBalanced l =
      l.breaker.requests
      ≡ u64 (l.breaker.successes + l.breaker.failures + l.in_flight + l.refused + l.probes)

  requests-begin_call :
      (cb : CircuitBreaker F E) (now : ℕ)
      → ((begin_call cb now).0.requests ≡ u64 (cb.requests + 1))
        × ((begin_call cb now).0.successes ≡ cb.successes)
        × ((begin_call cb now).0.failures ≡ cb.failures)
  unfolding begin_call
  requests-begin_call cb now = ground arith

  requests-can_execute :
      (cb : CircuitBreaker F E) (now : ℕ)
      → ((can_execute cb now).0.requests ≡ u64 (cb.requests + 1))
        × ((can_execute cb now).0.successes ≡ cb.successes)
        × ((can_execute cb now).0.failures ≡ cb.failures)
  unfolding can_execute
  requests-can_execute cb now = ground arith

  requests-end_call :
      (cb : CircuitBreaker F E) (err : Option E) (now : ℕ)
      → ((end_call cb err now).requests ≡ cb.requests)
        × (u64 ((end_call cb err now).successes + (end_call cb err now).failures)
            ≡ u64 (cb.successes + cb.failures + 1))
  unfolding end_call
  requests-end_call cb err now = ground arith

  Step-IsBalanced : {s t : Ledger F E} → Step s t → IsBalanced s → IsBalanced t
  unfolding force_open force_close set_threshold
  Step-IsBalanced (begins l now) h = elim (Bool-cases (begin_call l.breaker now).1) [
    | inl e ↦ rw e (omega (arith, requests-begin_call l.breaker now))
    | inr e ↦ rw e (omega (arith, requests-begin_call l.breaker now))
  ]
  Step-IsBalanced (ends l err now p) h = omega (arith, requests-end_call l.breaker err now)
  Step-IsBalanced (asks l now) h = omega (arith, requests-can_execute l.breaker now)
  Step-IsBalanced (opens l now) h = h
  Step-IsBalanced (closes l now) h = h
  Step-IsBalanced (tunes l threshold) h = h

  Reach-IsBalanced : {s t : Ledger F E} → IsBalanced s → Reach s t → IsBalanced t
  Reach-IsBalanced h here = h
  Reach-IsBalanced h (next r st) = Step-IsBalanced st (Reach-IsBalanced h r)

  -- Whatever the order in which callers begin and end their calls, ask `CanExecute` and force or
  -- tune the breaker, and as long as nobody resets it, the number of requests is, modulo 2^64, the
  -- successes and failures together with the calls in flight, the refused calls and the probes.
  pub requests_accounted :
      (config : CircuitBreakerConfig F E) (now : ℕ) {l : Ledger F E}
      → Reach (opened config now) l
      → IsBalanced l
  unfolding new_circuit_breaker
  requests_accounted config now r = Reach-IsBalanced refl r
