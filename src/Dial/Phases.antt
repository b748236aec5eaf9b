-- ===== src/Dial/Phases.antt =====
-- Which connection the three phases return.
use sssonector.Prelude.{
  arith, dec_lt, if◌then◌else◌, ltb, refl, some, suc, true, u64, zero, ℕ, ◌*◌, ◌+◌, ◌<◌, ◌≡◌, ◌≤◌,
}
use sssonector.Dial.{
  Clock, Metrics, Probe, RetryConfig, conn, connected, err_max_retries_exceeded, get_connection,
  gradual_retries, immediate_retries, persistent_retries, polled, refused, second_phase, slept,
  succeeded, third_phase,
}

-- From one look at the environment up to another, the factory fails.
abbrev pub RefusedUntil : (ℕ → Probe) → ℕ → ℕ → Type 0
RefusedUntil probes from k = (i : ℕ) → from ≤ i → i < k → probes i ≡ refused

module _ (probes : ℕ → Probe) where
  immediate_exhausted :
      (interval n : ℕ) (t : Clock)
      → RefusedUntil probes t.polls (t.polls + n)
      → let (r, t') = immediate_retries probes interval n t in
        (r ≡ err_max_retries_exceeded) × (t'.polls ≡ t.polls + n)
  unfolding immediate_retries
  immediate_exhausted interval zero t h = (refl, omega arith)
  immediate_exhausted interval (suc n) t h =
      let (a, b) =
        immediate_exhausted interval n (slept interval t)
          (λ i p q. h i (omega arith) (omega arith)) in
      rw (h t.polls (omega arith) (omega arith), immediate_retries) (a, omega arith)

  immediate_hit :
      (interval n k c : ℕ) (t : Clock)
      → t.polls ≤ k
      → k < t.polls + n
      → RefusedUntil probes t.polls k
      → probes k ≡ connected c
      → let (r, t') = immediate_retries probes interval n t in (r ≡ conn c) × (t'.polls ≡ k + 1)
  unfolding immediate_retries
  immediate_hit interval zero k c t low high h e = absurd (omega arith)
  immediate_hit interval (suc n) k c t low high h e = elim (dec_lt t.polls k) [
    | yes before ↦
        rw (h t.polls (omega arith) before, immediate_retries)
          (immediate_hit interval n k c (slept interval t) (omega arith) (omega arith)
            (λ i p q. h i (omega arith) q) e)
    | no now ↦
        let same : k ≡ t.polls = omega arith in
        let e' : probes t.polls ≡ connected c = rw same at e in
        rw (e', immediate_retries) (refl, omega arith)
  ]

  pub gradual_exhausted :
      (interval limit n : ℕ) (t : Clock)
      → RefusedUntil probes t.polls (t.polls + n)
      → let (r, t') = gradual_retries probes interval limit n t in
        (r ≡ err_max_retries_exceeded) × (t'.polls ≡ t.polls + n)
  unfolding gradual_retries
  gradual_exhausted interval limit zero t h = (refl, omega arith)
  gradual_exhausted interval limit (suc n) t h =
      let (a, b) =
        gradual_exhausted (if ltb limit (interval * 2) then limit else interval * 2) limit n
          (slept interval t) (λ i p q. h i (omega arith) (omega arith)) in
      rw (h t.polls (omega arith) (omega arith), gradual_retries) (a, omega arith)

  gradual_hit :
      (interval limit n k c : ℕ) (t : Clock)
      → t.polls ≤ k
      → k < t.polls + n
      → RefusedUntil probes t.polls k
      → probes k ≡ connected c
      → let (r, t') = gradual_retries probes interval limit n t in (r ≡ conn c) × (t'.polls ≡ k + 1)
  unfolding gradual_retries
  gradual_hit interval limit zero k c t low high h e = absurd (omega arith)
  gradual_hit interval limit (suc n) k c t low high h e = elim (dec_lt t.polls k) [
    | yes before ↦
        rw (h t.polls (omega arith) before, gradual_retries)
          (gradual_hit (if ltb limit (interval * 2) then limit else interval * 2) limit n k c
            (slept interval t) (omega arith) (omega arith) (λ i p q. h i (omega arith) q) e)
    | no now ↦
        let same : k ≡ t.polls = omega arith in
        let e' : probes t.polls ≡ connected c = rw same at e in
        rw (e', gradual_retries) (refl, omega arith)
  ]

  persistent_hit :
      (interval n k c : ℕ) (t : Clock)
      → t.polls ≤ k
      → k < t.polls + n
      → RefusedUntil probes t.polls k
      → probes k ≡ connected c
      → (t' : Clock) × (persistent_retries probes interval n t ≡ some (conn c, t'))
        × (t'.polls ≡ k + 1)
  unfolding persistent_retries
  persistent_hit interval zero k c t low high h e = absurd (omega arith)
  persistent_hit interval (suc n) k c t low high h e = elim (dec_lt t.polls k) [
    | yes before ↦
        rw (h t.polls (omega arith) before, persistent_retries)
          (persistent_hit interval n k c (slept interval t) (omega arith) (omega arith)
            (λ i p q. h i (omega arith) q) e)
    | no now ↦
        let same : k ≡ t.polls = omega arith in
        let e' : probes t.polls ≡ connected c = rw same at e in
        rw (e', persistent_retries) (polled t, refl, omega arith)
  ]

pub pair_of : {A B : Type 0} (p : A × B) {a : A} → p.0 ≡ a → p ≡ (a, p.1)
pair_of p h = rw (← h)

abbrev pub counted : Metrics → Metrics
counted m = record m { attempts = u64 (m.attempts + 1) }

module _ (probes : ℕ → Probe) (config : RetryConfig) (fuel : ℕ) (m : Metrics) where
  open config use {
    immediate_attempts, immediate_interval, gradual_attempts, gradual_interval,
    max_gradual_interval, persistent_enabled, persistent_interval,
  }

  finds_third :
      (t : Clock) (k c : ℕ)
      → persistent_enabled ≡ true
      → t.polls ≤ k
      → k < t.polls + fuel
      → RefusedUntil probes t.polls k
      → probes k ≡ connected c
      → (t' : Clock) × (third_phase probes config fuel m t ≡ some (conn c, succeeded m, t'))
        × (t'.polls ≡ k + 1)
  unfolding third_phase
  finds_third t k c p low high h e =
      let (t', a, b) = persistent_hit probes persistent_interval fuel k c t low high h e in
      rw (p, third_phase) (rw a (t', refl, b))

  finds_second :
      (t : Clock) (k c : ℕ)
      → persistent_enabled ≡ true
      → t.polls ≤ k
      → k < t.polls + gradual_attempts + fuel
      → RefusedUntil probes t.polls k
      → probes k ≡ connected c
      → (t' : Clock) × (second_phase probes config fuel m t ≡ some (conn c, succeeded m, t'))
        × (t'.polls ≡ k + 1)
  unfolding second_phase
  finds_second t k c p low high h e =
      let g = gradual_retries probes gradual_interval max_gradual_interval gradual_attempts t in
      elim (dec_lt k (t.polls + gradual_attempts)) [
        | yes early ↦
            let (a, b) =
              gradual_hit probes gradual_interval max_gradual_interval gradual_attempts k c t low
                early h e in
            rw (pair_of g a) (g.1, refl, b)
        | no later ↦
            let (a, b) =
              gradual_exhausted probes gradual_interval max_gradual_interval gradual_attempts t
                (λ i q r. h i q (omega arith)) in
            rw (pair_of g a)
              (finds_third g.1 k c p (omega arith) (omega arith) (λ i q r. h i (omega arith) r) e)
      ]

-- With persistent retries enabled, and as long as the context is not cancelled, `GetConnection`
-- returns the first connection that the factory makes, after exactly as many calls of the factory
-- as it takes, and counts one attempt and one success. So it does for every such moment: the fuel
-- has to reach past it, which a large enough fuel does.
pub get_connection-finds :
    (probes : ℕ → Probe) (config : RetryConfig) (fuel : ℕ) (m : Metrics) (t : Clock) (k c : ℕ)
    → config.persistent_enabled ≡ true
    → t.polls ≤ k
    → k < t.polls + config.immediate_attempts + config.gradual_attempts + fuel
    → RefusedUntil probes t.polls k
    → probes k ≡ connected c
    → (t' : Clock) × (get_connection probes config fuel m t
        ≡ some (conn c, succeeded (counted m), t'))
      × (t'.polls ≡ k + 1)
unfolding get_connection
get_connection-finds probes config fuel m t k c p low high h e =
    let g = immediate_retries probes config.immediate_interval config.immediate_attempts t in
    elim (dec_lt k (t.polls + config.immediate_attempts)) [
      | yes early ↦
          let (a, b) =
            immediate_hit probes config.immediate_interval config.immediate_attempts k c t low early
              h e in
          rw (pair_of g a) (g.1, refl, b)
      | no later ↦
          let (a, b) =
            immediate_exhausted probes config.immediate_interval config.immediate_attempts t
              (λ i q r. h i q (omega arith)) in
          rw (pair_of g a) (
            finds_second probes config fuel (counted m) g.1 k c p (omega arith) (omega arith)
              (λ i q r. h i (omega arith) r) e)
    ]
