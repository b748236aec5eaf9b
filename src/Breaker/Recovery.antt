-- ===== src/Breaker/Recovery.antt =====
-- How a half-open breaker recovers, and what its failures do.
use sssonector.Prelude.{
  All, Float64, List, Option, [], arith, dec_lt, false, if◌then◌else◌, length, le→ltb, ltb, lt→ltb,
  map, refl, suc, true, ℕ, ◌+◌, ◌<◌, ◌∙◌, ◌∷◌, ◌≡◌, ◌≤◌,
}
use sssonector.Breaker.{
  CircuitBreaker, call, err_circuit_open, is_success, returned, should_trip, state_closed,
  state_half_open, state_open,
}
use sssonector.Breaker.Timing.{Visit, closed_trips, run_calls}

module _ {F : Float64} {E : Type 0} where
  call_good :
      (cb : CircuitBreaker F E) (now : ℕ) (err : Option E) (later : ℕ)
      → cb.state ≡ state_half_open
      → is_success cb.config err ≡ true
      → cb.half_open_successes + 1 < cb.config.success_threshold
      → let cb' = (call cb now err later).0 in
        (cb'.state ≡ state_half_open)
        × (cb'.half_open_successes ≡ cb.half_open_successes + 1)
        × (cb'.config ≡ cb.config)
  unfolding call
  call_good cb now err later s good low = ground arith

  call_last :
      (cb : CircuitBreaker F E) (now : ℕ) (err : Option E) (later : ℕ)
      → cb.state ≡ state_half_open
      → is_success cb.config err ≡ true
      → cb.config.success_threshold ≤ cb.half_open_successes + 1
      → ((call cb now err later).0.state ≡ state_closed)
        × ((call cb now err later).0.last_state_transition ≡ later)
  unfolding call
  call_last cb now err later s good low = ground arith

  call_bad :
      (cb : CircuitBreaker F E) (now : ℕ) (err : Option E) (later : ℕ)
      → cb.state ≡ state_half_open
      → is_success cb.config err ≡ false
      → cb.half_open_successes < cb.config.success_threshold
      → let (cb', result) = call cb now err later in
        (result ≡ returned err)
        × (cb'.state ≡ state_half_open)
        × (cb'.half_open_requests ≡ cb.half_open_requests + 1)
        × (cb'.half_open_successes ≡ cb.half_open_successes)
        × (cb'.config ≡ cb.config)
  unfolding call
  call_bad cb now err later s bad low = ground arith

  abbrev pub AllGood : CircuitBreaker F E → List (Visit E) → Type 0
  AllGood cb = All (λ (c : Visit E). is_success cb.config c.1 ≡ true)

  abbrev pub AllBad : CircuitBreaker F E → List (Visit E) → Type 0
  AllBad cb = All (λ (c : Visit E). is_success cb.config c.1 ≡ false)

  -- The call that reaches the threshold is the last of the run, or the run overshoots.
  close_now :
      (cb : CircuitBreaker F E) (now : ℕ) (err : Option E) (later : ℕ) (cs : List (Visit E))
      → cb.state ≡ state_half_open
      → is_success cb.config err ≡ true
      → cb.half_open_successes < cb.config.success_threshold
      → ¬ (cb.half_open_successes + 1 < cb.config.success_threshold)
      → let last = (run_calls cb ((now, err, later) ∷ cs)).0 in
        (cb.half_open_successes + suc (length cs) < cb.config.success_threshold
          → (last.state ≡ state_half_open)
            × (last.half_open_successes ≡ cb.half_open_successes + suc (length cs)))
        × (cb.half_open_successes + suc (length cs) ≡ cb.config.success_threshold
            → last.state ≡ state_closed)
  unfolding run_calls
  close_now cb now err later [] s good low done =
      (λ h. absurd (omega arith), λ h. (call_last cb now err later s good (omega arith)).0)
  close_now cb now err later (c ∷ cs) s good low done =
      (λ h. absurd (omega arith), λ h. absurd (omega arith))

  half_open_counts :
      (cb : CircuitBreaker F E) (cs : List (Visit E))
      → cb.state ≡ state_half_open
      → AllGood cb cs
      → cb.half_open_successes < cb.config.success_threshold
      → let last = (run_calls cb cs).0 in
        (cb.half_open_successes + length cs < cb.config.success_threshold
          → (last.state ≡ state_half_open)
            × (last.half_open_successes ≡ cb.half_open_successes + length cs))
        × (cb.half_open_successes + length cs ≡ cb.config.success_threshold
            → last.state ≡ state_closed)
  unfolding run_calls
  half_open_counts cb [] s good low = (λ _. (s, omega arith), λ e. absurd (omega arith))
  half_open_counts cb ((now, err, later) ∷ cs) s good low =
      elim (dec_lt (cb.half_open_successes + 1) cb.config.success_threshold) [
        | yes more ↦
            let (s', n', c') = call_good cb now err later s good.0 more in
            let ih =
              half_open_counts (call cb now err later).0 cs s' (rw c' good.1) (rw (c', n') more) in
            (
              λ h. let (a, b) = ih.0 (rw (c', n') (omega arith)) in (a, omega arith),
              λ h. ih.1 (rw (c', n') (omega arith)),
            )
        | no done ↦ close_now cb now err later cs s good.0 low done
      ]

  -- A half-open breaker closes with the success that reaches the success threshold: after successes
  -- that do not pass the threshold, it is closed if they reach it and half-open if they do not.
  pub half_open_closes :
      (cb : CircuitBreaker F E) (cs : List (Visit E))
      → cb.state ≡ state_half_open
      → AllGood cb cs
      → cb.half_open_successes < cb.config.success_threshold
      → cb.half_open_successes + length cs ≤ cb.config.success_threshold
      → (run_calls cb cs).0.state ≡ (
          if ltb (cb.half_open_successes + length cs) cb.config.success_threshold
          then state_half_open
          else state_closed)
  half_open_closes cb cs s good low fits =
      let (below, at) = half_open_counts cb cs s good low in
      elim (dec_lt (cb.half_open_successes + length cs) cb.config.success_threshold) [
        | yes h ↦ rw (lt→ltb _ _ h) (below h).0
        | no h ↦
            rw
              (le→ltb (cb.half_open_successes + length cs) cb.config.success_threshold
                (omega arith))
              (at (omega arith))
      ]

  -- Failures never close a half-open breaker, and never open it again either: below the success
  -- threshold it admits each of them and stays half-open, however many there are, with the number of
  -- its successes unchanged and each failure counted as a half-open request.
  pub half_open_keeps_admitting :
      (cb : CircuitBreaker F E) (cs : List (Visit E))
      → cb.state ≡ state_half_open
      → AllBad cb cs
      → cb.half_open_successes < cb.config.success_threshold
      → let (last, results) = run_calls cb cs in
        (results ≡ map (λ (c : Visit E). returned c.1) cs)
        × (last.state ≡ state_half_open)
        × (last.half_open_successes ≡ cb.half_open_successes)
        × (last.half_open_requests ≡ cb.half_open_requests + length cs)
  unfolding run_calls
  half_open_keeps_admitting cb [] s bad low = (refl, s, refl, omega arith)
  half_open_keeps_admitting cb ((now, err, later) ∷ cs) s bad low =
      let (r, s', q', n', c') = call_bad cb now err later s bad.0 low in
      let (rs, sl, nl, ql) =
        half_open_keeps_admitting (call cb now err later).0 cs s' (rw c' bad.1) (rw (c', n') low) in
      (rw (r, rs), sl, nl ∙ n', omega arith)

  -- Closing keeps the counts that opened the breaker: where the failure rate is still over the
  -- threshold when the last probing call succeeds, the next call finds a closed breaker, is refused
  -- at once and opens it again.
  pub closes_then_trips :
      (cb : CircuitBreaker F E) (now : ℕ) (err : Option E) (later : ℕ) (soon : ℕ) (err' : Option E)
      (end : ℕ)
      → cb.state ≡ state_half_open
      → is_success cb.config err ≡ true
      → cb.config.success_threshold ≤ cb.half_open_successes + 1
      → should_trip (call cb now err later).0 ≡ true
      → let closed = (call cb now err later).0 in
        (closed.state ≡ state_closed)
        × ((call closed soon err' end).1 ≡ err_circuit_open)
        × ((call closed soon err' end).0.state ≡ state_open)
  closes_then_trips cb now err later soon err' end s good low trips = ground (
    arith,
    call_last cb now err later s good low,
    closed_trips (call cb now err later).0 soon err' end (call_last cb now err later s good low).0,
  )
