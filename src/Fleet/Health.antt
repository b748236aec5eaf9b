-- ===== src/Fleet/Health.antt =====
-- The counts of the global state, and what the bulk operations make of them.
use sssonector.Prelude.{
  Bool, Float64, String, [], ap, arith, if◌then◌else◌, inl, inr, length, refl, suc, ℕ, ◌+◌, ◌<◌,
  ◌∷◌, ◌≡◌, ◌⊎◌,
}
use sssonector.Breaker.{
  CircuitBreaker, CircuitBreakerState, force_close, force_open, is_closed_state, is_half_open_state,
  is_open_state, state_closed, state_half_open, state_open, transition_to_state,
}
use sssonector.Fleet.{
  Breakers, Totals, close_all, close_one, count_state, count_stats, get_global_state, no_totals,
  open_all, open_one, tally,
}

State-cases :
    (s : CircuitBreakerState) → (s ≡ state_closed) ⊎ (s ≡ state_half_open) ⊎ (s ≡ state_open)
State-cases state_closed = inl refl
State-cases state_half_open = inr (inl refl)
State-cases state_open = inr (inr refl)

module _ {F : Float64} {E : Type 0} where
  -- How many breakers are in a state that passes the test.
  unfoldable pub number : (CircuitBreakerState → Bool) → Breakers F E → ℕ
  number p [] = 0
  number p ((name, breaker) ∷ cs) = let n = number p cs in if p breaker.state then suc n else n

  tally-counts :
      (cs : Breakers F E) (t : Totals)
      → ((tally cs t).total_open ≡ t.total_open + number is_open_state cs)
        × ((tally cs t).total_half_open ≡ t.total_half_open + number is_half_open_state cs)
        × ((tally cs t).total_closed ≡ t.total_closed + number is_closed_state cs)
  unfolding tally number
  tally-counts [] t = (omega arith, omega arith, omega arith)
  tally-counts ((name, b) ∷ cs) t =
      let (x, y, z) = tally-counts cs (count_stats b (count_state b.state t)) in
      elim (State-cases b.state) [
        | inl e ↦ ground (arith, e, x, y, z)
        | inr (inl e) ↦ ground (arith, e, x, y, z)
        | inr (inr e) ↦ ground (arith, e, x, y, z)
      ]

  number-total :
      (cs : Breakers F E)
      → number is_open_state cs + number is_half_open_state cs + number is_closed_state cs
        ≡ length cs
  unfolding number
  number-total [] = omega arith
  number-total ((name, b) ∷ cs) =
      let ih = number-total cs in
      elim (State-cases b.state) [
        | inl e ↦ rw e (omega arith)
        | inr (inl e) ↦ rw e (omega arith)
        | inr (inr e) ↦ rw e (omega arith)
      ]

  closes : (b : CircuitBreaker F E) (now : ℕ) → (close_one b now).state ≡ state_closed
  unfolding force_close transition_to_state
  closes b now = elim (State-cases b.state) [
    | inl e ↦ rw (e, close_one) refl
    | inr (inl e) ↦ rw (e, close_one) refl
    | inr (inr e) ↦ rw (e, close_one) refl
  ]

  opens : (b : CircuitBreaker F E) (now : ℕ) → (open_one b now).state ≡ state_open
  unfolding force_open transition_to_state
  opens b now = elim (State-cases b.state) [
    | inl e ↦ rw (e, open_one) refl
    | inr (inl e) ↦ rw (e, open_one) refl
    | inr (inr e) ↦ rw (e, open_one) refl
  ]

  number-close_all :
      (clock : String → ℕ) (cs : Breakers F E)
      → (number is_closed_state (close_all clock cs) ≡ length cs)
        × (length (close_all clock cs) ≡ length cs)
  unfolding number close_all
  number-close_all clock [] = (refl, refl)
  number-close_all clock ((name, b) ∷ cs) =
      let (x, y) = number-close_all clock cs in rw (closes b (clock name)) (ap suc x, ap suc y)

  number-open_all :
      (clock : String → ℕ) (cs : Breakers F E)
      → (number is_open_state (open_all clock cs) ≡ length cs)
        × (length (open_all clock cs) ≡ length cs)
  unfolding number open_all
  number-open_all clock [] = (refl, refl)
  number-open_all clock ((name, b) ∷ cs) =
      let (x, y) = number-open_all clock cs in rw (opens b (clock name)) (ap suc x, ap suc y)

  -- GetGlobalState counts every breaker in exactly one of the three states: each count is the number
  -- of the breakers in that state, and together they are the number of all breakers.
  pub get_global_state-counts :
      (now : ℕ) (cs : Breakers F E)
      → let g = get_global_state now cs in
        (g.open_count ≡ number is_open_state cs)
        × (g.half_open_count ≡ number is_half_open_state cs)
        × (g.closed_count ≡ number is_closed_state cs)
        × (g.open_count + g.half_open_count + g.closed_count ≡ g.total_breakers)
  unfolding get_global_state
  get_global_state-counts now cs =
      let (x, y, z) = tally-counts cs no_totals in
      let total = number-total cs in (omega arith, omega arith, omega arith, omega arith)

  -- After CloseAll every breaker counts as closed, none as open or half-open, and the overall health
  -- is "healthy", whatever the states were; no breaker is added or lost.
  pub close_all-healthy :
      (clock : String → ℕ) (now : ℕ) (cs : Breakers F E)
      → let g = get_global_state now (close_all clock cs) in
        (g.overall_health ≡ "healthy")
        × (g.closed_count ≡ length cs)
        × (g.total_breakers ≡ length cs)
  unfolding get_global_state
  close_all-healthy clock now cs =
      let (x, y, z) = tally-counts (close_all clock cs) no_totals in
      let total = number-total (close_all clock cs) in
      let (a, b) = number-close_all clock cs in
      (ground (arith, x, y, z, total, a, b), omega arith, omega arith)

  -- After OpenAll every breaker counts as open, and where there is a breaker at all the overall
  -- health is "critical".
  pub open_all-critical :
      (clock : String → ℕ) (now : ℕ) (cs : Breakers F E)
      → 0 < length cs
      → let g = get_global_state now (open_all clock cs) in
        (g.overall_health ≡ "critical")
        × (g.open_count ≡ length cs)
        × (g.total_breakers ≡ length cs)
  unfolding get_global_state
  open_all-critical clock now cs h =
      let (x, y, z) = tally-counts (open_all clock cs) no_totals in
      let (a, b) = number-open_all clock cs in
      (ground (arith, x, y, z, a, b), omega arith, omega arith)
