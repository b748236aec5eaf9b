-- ===== src/Dial/Cancelled.antt =====
-- What a cancelled context becomes.
use sssonector.Prelude.{Bool-cases, Option, inl, inr, refl, some, suc, zero, ℕ, ◌∙◌, ◌≡◌, ◌⊎◌}
use sssonector.Dial.{
  Clock, Dialed, Metrics, Probe, RetryConfig, cancelled, err_context, err_max_retries_exceeded,
  failed, get_connection, gradual_retries, immediate_retries, persistent_retries, polled,
  second_phase, third_phase,
}
use sssonector.Dial.Phases.{counted, pair_of}

abbrev IsFailure : Dialed → Type 0
IsFailure r = (r ≡ err_context) ⊎ (r ≡ err_max_retries_exceeded)

module _ (probes : ℕ → Probe) (h : (i : ℕ) → probes i ≡ cancelled) where
  immediate_cancelled :
      (interval n : ℕ) (t : Clock)
      → let (r, t') = immediate_retries probes interval n t in IsFailure r × (t'.sleeps ≡ t.sleeps)
  unfolding immediate_retries
  immediate_cancelled interval zero t = (inr refl, refl)
  immediate_cancelled interval (suc n) t = rw (h t.polls, immediate_retries) (inl refl, refl)

  gradual_cancelled :
      (interval limit n : ℕ) (t : Clock)
      → let (r, t') = gradual_retries probes interval limit n t in
        IsFailure r × (t'.sleeps ≡ t.sleeps)
  unfolding gradual_retries
  gradual_cancelled interval limit zero t = (inr refl, refl)
  gradual_cancelled interval limit (suc n) t = rw (h t.polls, gradual_retries) (inl refl, refl)

  module _ (config : RetryConfig) (fuel : ℕ) (m : Metrics) where
    abbrev GivesUp : Clock → Option (Dialed × Metrics × Clock) → Type 0
    GivesUp t r =
        (t' : Clock) × (r ≡ some (err_max_retries_exceeded, failed m, t')) × (t'.sleeps ≡ t.sleeps)

    third_cancelled : (t : Clock) → GivesUp t (third_phase probes config (suc fuel) m t)
    unfolding third_phase persistent_retries
    third_cancelled t = elim (Bool-cases config.persistent_enabled) [
      | inl on ↦ rw (on, third_phase) (rw (h t.polls, persistent_retries) (polled t, refl, refl))
      | inr off ↦ rw (off, third_phase) (t, refl, refl)
    ]

    second_cancelled : (t : Clock) → GivesUp t (second_phase probes config (suc fuel) m t)
    unfolding second_phase
    second_cancelled t =
        let g =
          gradual_retries probes config.gradual_interval config.max_gradual_interval
            config.gradual_attempts t in
        let (f, s) =
          gradual_cancelled config.gradual_interval config.max_gradual_interval
            config.gradual_attempts t in
        let (t', e, u) = third_cancelled g.1 in
        elim f [ inl a ↦ rw (pair_of g a) (t', e, u ∙ s) | inr a ↦ rw (pair_of g a) (t', e, u ∙ s) ]

-- A cancelled context is never reported as such: where it is cancelled before the first look, every
-- phase that has an attempt returns at once with the context's error, and `GetConnection` goes on to
-- the next one and answers that the maximum of retries is exceeded, with one failure counted and no
-- sleep taken.
pub get_connection-cancelled :
    (probes : ℕ → Probe) (config : RetryConfig) (fuel : ℕ) (m : Metrics) (t : Clock)
    → ((i : ℕ) → probes i ≡ cancelled)
    → (t' : Clock) × (get_connection probes config (suc fuel) m t
        ≡ some (err_max_retries_exceeded, failed (counted m), t'))
      × (t'.sleeps ≡ t.sleeps)
unfolding get_connection
get_connection-cancelled probes config fuel m t h =
    let g = immediate_retries probes config.immediate_interval config.immediate_attempts t in
    let (f, s) =
      immediate_cancelled probes h config.immediate_interval config.immediate_attempts t in
    let (t', e, u) = second_cancelled probes h config fuel (counted m) g.1 in
    elim f [ inl a ↦ rw (pair_of g a) (t', e, u ∙ s) | inr a ↦ rw (pair_of g a) (t', e, u ∙ s) ]
