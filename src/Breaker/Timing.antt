-- ===== src/Breaker/Timing.antt =====
-- What opens the breaker, how long it stays open, and what the state-change callback is told.
use sssonector.Prelude.{
  ℕ, ◌+◌, ◌<◌, ◌≤◌, ◌≡◌, ◌⊎◌, refl, true, false, Option, List, [], ◌∷◌, ◌++◌, arith, u64, Float64,
  All, map,
}
use sssonector.Breaker.{
  CircuitBreaker, CircuitBreakerConfig, CircuitBreakerState, state_closed, state_half_open,
  state_open, CallResult, err_circuit_open, returned, new_circuit_breaker, begin_call, end_call,
  can_execute, force_open, force_close, set_threshold, should_trip, should_fail_fast, call,
  transition_to_state,
}
use sssonector.Breaker.Ledger.{
  Ledger, Step, begins, ends, asks, opens, closes, tunes, Reach, here, next, opened, begun,
}

-- A call that nobody interrupts: when it starts, what `fn` returns, when it ends.
abbrev pub Visit : Type 0 → Type 0
Visit E = ℕ × Option E × ℕ

module _ {F : Float64} {E : Type 0} where
  unfoldable pub run_calls :
      CircuitBreaker F E → List (Visit E) → CircuitBreaker F E × List (CallResult E)
  run_calls cb [] = (cb, [])
  run_calls cb ((now, err, later) ∷ cs) =
      let (cb', r) = call cb now err later in let (last, rs) = run_calls cb' cs in (last, r ∷ rs)

  call_open :
      (cb : CircuitBreaker F E) (now : ℕ) (err : Option E) (later : ℕ)
      → cb.state ≡ state_open
      → now < cb.last_state_transition + cb.config.recovery_timeout
      → call cb now err later ≡ (record cb { requests = u64 (cb.requests + 1) }, err_circuit_open)
  unfolding call
  call_open cb now err later o early = ground arith

  -- An open breaker refuses every call that starts before the recovery timeout has passed, however
  -- many come and whatever `fn` would return: each result is the circuit-open error, and the
  -- breaker is left open, with the same counts of outcomes and the same transition time.
  pub open_refuses :
      (cb : CircuitBreaker F E) (cs : List (Visit E))
      → cb.state ≡ state_open
      → All (λ (c : Visit E). c.0 < cb.last_state_transition + cb.config.recovery_timeout) cs
      → let (last, results) = run_calls cb cs in
        (results ≡ map (λ _. err_circuit_open) cs)
        × (last.state ≡ state_open)
        × (last.successes ≡ cb.successes)
        × (last.failures ≡ cb.failures)
        × (last.last_state_transition ≡ cb.last_state_transition)
  unfolding run_calls
  open_refuses cb [] o early = (refl, o, refl, refl, refl)
  open_refuses cb ((now, err, later) ∷ cs) o early =
      rw (call_open cb now err later o early.0)
        (ground (arith, open_refuses (record cb { requests = u64 (cb.requests + 1) }) cs o early.1))

  -- Once the recovery timeout has passed, an open breaker admits the next call: it is half-open from
  -- the moment of the call on, with both half-open counters at 0, and the request is counted.
  pub open_admits :
      (cb : CircuitBreaker F E) (now : ℕ)
      → cb.state ≡ state_open
      → cb.last_state_transition + cb.config.recovery_timeout ≤ now
      → let (cb', admitted) = begin_call cb now in
        (admitted ≡ true)
        × (cb'.state ≡ state_half_open)
        × (cb'.half_open_requests ≡ 0)
        × (cb'.half_open_successes ≡ 0)
        × (cb'.last_state_transition ≡ now)
        × (cb'.requests ≡ u64 (cb.requests + 1))
  unfolding begin_call
  open_admits cb now o late = ground arith

  -- A closed breaker refuses a call exactly when it has seen the minimum of requests and the failure
  -- rate is over the threshold; it is then open. A call that it admits leaves it closed, whatever
  -- `fn` returns.
  pub closed_trips :
      (cb : CircuitBreaker F E) (now : ℕ) (err : Option E) (later : ℕ)
      → cb.state ≡ state_closed
      → let (cb', result) = call cb now err later in
        ((should_trip cb ≡ true)
          × (result ≡ err_circuit_open)
          × (cb'.state ≡ state_open)
          × (cb'.last_state_transition ≡ now))
        ⊎ ((should_trip cb ≡ false)
            × (result ≡ returned err)
            × (cb'.state ≡ state_closed)
            × (cb'.last_state_transition ≡ cb.last_state_transition))
  unfolding call
  closed_trips cb now err later c = ground arith

abbrev pub Chain :
    CircuitBreakerState
    → List (CircuitBreakerState × CircuitBreakerState)
    → CircuitBreakerState
    → Type 0
Chain s [] t = s ≡ t
Chain s ((a, b) ∷ moves) t = (a ≡ s) × Chain b moves t

Chain-append :
    (s t u : CircuitBreakerState) (moves : List (CircuitBreakerState × CircuitBreakerState))
    → Chain s moves t
    → Chain s (moves ++ ((t, u) ∷ [])) u
Chain-append s t u [] h = ground arith
Chain-append s t u ((a, b) ∷ moves) h = (h.0, Chain-append b t u moves h.1)

module _ {F : Float64} {E : Type 0} where
  abbrev pub IsTold : CircuitBreaker F E → Type 0
  IsTold cb = (cb.config.has_callback ≡ true) × Chain state_closed cb.notified cb.state

  transition_to_state-IsTold :
      (cb : CircuitBreaker F E) (s : CircuitBreakerState) (now : ℕ)
      → IsTold cb
      → IsTold (transition_to_state cb s now)
  unfolding transition_to_state
  transition_to_state-IsTold cb s now h =
      ground (arith, Chain-append state_closed cb.state s cb.notified h.1)

  should_fail_fast-IsTold :
      (cb : CircuitBreaker F E) (now : ℕ) → IsTold cb → IsTold (should_fail_fast cb now).0
  unfolding should_fail_fast
  should_fail_fast-IsTold cb now h = ground (
    arith,
    Chain-append state_closed cb.state state_open cb.notified h.1,
    Chain-append state_closed cb.state state_half_open cb.notified h.1,
  )

  end_call-IsTold :
      (cb : CircuitBreaker F E) (err : Option E) (now : ℕ)
      → IsTold cb
      → IsTold (end_call cb err now)
  unfolding end_call
  end_call-IsTold cb err now h =
      ground (arith, Chain-append state_closed cb.state state_closed cb.notified h.1)

  begun-IsTold : (l : Ledger F E) (now : ℕ) → IsTold l.breaker → IsTold (begun l now).breaker
  unfolding begin_call
  begun-IsTold l now h = ground (arith, should_fail_fast-IsTold l.breaker now h)

  can_execute-IsTold :
      (cb : CircuitBreaker F E) (now : ℕ) → IsTold cb → IsTold (can_execute cb now).0
  unfolding can_execute
  can_execute-IsTold cb now h = ground (arith, should_fail_fast-IsTold cb now h)

  Step-IsTold : {s t : Ledger F E} → Step s t → IsTold s.breaker → IsTold t.breaker
  unfolding force_open force_close set_threshold
  Step-IsTold (begins l now) h = begun-IsTold l now h
  Step-IsTold (ends l err now p) h = end_call-IsTold l.breaker err now h
  Step-IsTold (asks l now) h = can_execute-IsTold l.breaker now h
  Step-IsTold (opens l now) h = transition_to_state-IsTold l.breaker state_open now h
  Step-IsTold (closes l now) h = transition_to_state-IsTold l.breaker state_closed now h
  Step-IsTold (tunes l threshold) h = h

  Reach-IsTold : {s t : Ledger F E} → IsTold s.breaker → Reach s t → IsTold t.breaker
  Reach-IsTold h here = h
  Reach-IsTold h (next r st) = Step-IsTold st (Reach-IsTold h r)

  -- With a callback set from the start, and in every order of calls, probes and forced changes
  -- without a reset, the callback is told a chain of moves: the first leaves the closed state, each
  -- other one starts where the one before it ended, and the last ends in the breaker's state.
  pub notified-Chain :
      (config : CircuitBreakerConfig F E) (now : ℕ) {l : Ledger F E}
      → config.has_callback ≡ true
      → Reach (opened config now) l
      → Chain state_closed l.breaker.notified l.breaker.state
  unfolding new_circuit_breaker
  notified-Chain config now h r = (Reach-IsTold (h, refl) r).1
