-- ===== src/Backoff/Retry.antt =====
-- The loop of Retry: that it ends, and which budget its calls have.
use sssonector.Prelude.{
  Bool-cases, Option-cases, arith, dec_lt, false, inl, inr, le→ltb, lt_int32-ltb, ltb, lt→ltb, none,
  refl, some, suc, true, u32, zero, ℕ, ◌+◌, ◌-◌, ◌<◌, ◌||◌, ◌∙◌, ◌≡◌, ◌≤◌,
}
use sssonector.Backoff.{
  Backoff, Done, Round, after_exhaustion, after_failure, after_success, cancelled, failed, retry,
  retry_from, should_retry, succeeded,
}

should_retry-ltb :
    (max_retries : ℕ) (b : Backoff)
    → max_retries < 2147483648
    → b.retry_count < 2147483648
    → should_retry max_retries b ≡ ltb b.retry_count max_retries
should_retry-ltb max_retries b m c =
    let same : u32 max_retries ≡ max_retries = omega arith in
    rw same (lt_int32-ltb b.retry_count max_retries c m)

module _ {ℓ} {E : Type ℓ} (max_retries reset_after : ℕ) (rounds : ℕ → Round E) where
  -- A later round, and the three ways in which it can go.
  abbrev Ends : ℕ → ℕ → E → Backoff → ℕ → Type ℓ
  Ends fuel attempt e b budget =
      (d : Done E) × (retry_from max_retries reset_after rounds fuel attempt (some e) b ≡ some d)
      × (attempt ≤ d.calls)
      × (d.calls ≤ attempt + budget)

  Ends-used :
      (fuel attempt : ℕ) (e : E) (b : Backoff)
      → should_retry max_retries b ≡ false
      → retry_from max_retries reset_after rounds (suc fuel) attempt (some e) b
        ≡ some (record {
          outcome = failed e;
          calls = attempt;
          backoff = after_exhaustion max_retries reset_after rounds attempt b;
        })
  unfolding retry_from
  Ends-used fuel attempt e b used = rw used refl

  Ends-more :
      (fuel attempt budget : ℕ) (e : E) (b : Backoff)
      → should_retry max_retries b ≡ true
      → ((e' : E)
          → Ends fuel
              (attempt + 1)
              e'
              (after_failure max_retries reset_after rounds attempt b)
              budget)
      → Ends (suc fuel) attempt e b (suc budget)
  unfolding retry_from
  Ends-more fuel attempt budget e b more later =
      let r = rounds attempt in
      elim (Bool-cases (r.is_cancelled || r.is_cancelled_waiting)) [
        | inl cancelled_now ↦ rw more (
            rw cancelled_now (
              record { outcome = cancelled; calls = attempt; backoff = b },
              refl,
              omega arith,
              omega arith,
            ))
        | inr goes_on ↦ elim (Option-cases r.answer) [
          | inl fine ↦ rw more (
              rw goes_on (
                rw fine (
                  record {
                    outcome = succeeded;
                    calls = attempt + 1;
                    backoff = after_success max_retries reset_after rounds attempt b;
                  },
                  refl,
                  omega arith,
                  omega arith,
                )))
          | inr (e', wrong) ↦
              let (d, p, q, q') = later e' in
              rw more (rw goes_on (rw wrong (d, p, omega (arith, q), omega (arith, q'))))
        ]
      ]

  Ends-stops :
      (budget fuel attempt : ℕ) (e : E) (b : Backoff)
      → max_retries < 2147483648
      → b.retry_count < 2147483648
      → max_retries ≤ b.retry_count
      → Ends (suc fuel) attempt e b budget
  Ends-stops budget fuel attempt e b m c used =
      let stop : should_retry max_retries b ≡ false =
        should_retry-ltb max_retries b m c ∙ le→ltb _ _ used in
      (
        record {
          outcome = failed e;
          calls = attempt;
          backoff = after_exhaustion max_retries reset_after rounds attempt b;
        },
        Ends-used fuel attempt e b stop,
        omega arith,
        omega arith,
      )

  -- From a round after an error the loop ends when the retries that are left are used up.
  retry_from-Ends :
      (budget fuel attempt : ℕ) (e : E) (b : Backoff)
      → max_retries < 2147483648
      → b.retry_count < 2147483648
      → max_retries - b.retry_count ≤ budget
      → budget < fuel
      → Ends fuel attempt e b budget
  retry_from-Ends budget zero attempt e b m c k h = absurd (omega arith)
  retry_from-Ends zero (suc fuel) attempt e b m c k h =
      Ends-stops zero fuel attempt e b m c (omega arith)
  retry_from-Ends (suc budget) (suc fuel) attempt e b m c k h =
      elim (dec_lt b.retry_count max_retries) [
        | no used ↦ Ends-stops (suc budget) fuel attempt e b m c (omega arith)
        | yes more ↦
            let test : should_retry max_retries b ≡ true =
              should_retry-ltb max_retries b m c ∙ lt→ltb _ _ more in
            Ends-more fuel attempt budget e b test (λ e'.
              retry_from-Ends budget fuel (attempt + 1) e'
                (after_failure max_retries reset_after rounds attempt b) m (omega arith)
                (omega arith) (omega arith))
      ]

  retry-fine :
      (fuel : ℕ) (b : Backoff)
      → (rounds 0).answer ≡ none
      → retry max_retries reset_after rounds (suc fuel) b
        ≡ some (record {
          outcome = succeeded;
          calls = 1;
          backoff = after_success max_retries reset_after rounds 0 b;
        })
  unfolding retry retry_from
  retry-fine fuel b fine = rw (fine, retry_from) refl

  retry-wrong :
      (fuel : ℕ) (e : E) (b : Backoff)
      → (rounds 0).answer ≡ some e
      → retry max_retries reset_after rounds (suc fuel) b
        ≡ retry_from max_retries reset_after rounds fuel 1
            (some e)
            (after_failure max_retries reset_after rounds 0 b)
  unfolding retry retry_from
  retry-wrong fuel e b wrong = rw (wrong, retry_from) refl

  -- A first call that fails, with no retry left.
  pub retry-spent :
      (fuel : ℕ) (e : E) (b : Backoff)
      → max_retries < 2147483648
      → b.retry_count + 1 < 2147483648
      → max_retries ≤ b.retry_count + 1
      → (rounds 0).answer ≡ some e
      → (b' : Backoff) × (retry max_retries reset_after rounds (suc (suc fuel)) b
          ≡ some (record { outcome = failed e; calls = 1; backoff = b' }))
  retry-spent fuel e b m c used wrong =
      let failed_once = after_failure max_retries reset_after rounds 0 b in
      let stop : should_retry max_retries failed_once ≡ false =
        should_retry-ltb max_retries failed_once m (omega arith) ∙ le→ltb _ _ (omega arith) in
      (
        after_exhaustion max_retries reset_after rounds 1 failed_once,
        retry-wrong (suc fuel) e b wrong ∙ Ends-used fuel 1 e failed_once stop,
      )

-- Retry ends: whatever the function, the context and the clock do, and whatever state earlier calls
-- have left, it returns within as many rounds as there are retries left and two more; it calls the
-- function at least once, and at most once more than the retries that are left after that call.
-- (The limit is below 2^31 and the counter of earlier attempts has not reached 2^31 - 1.)
pub retry-terminates {ℓ} :
    {E : Type ℓ} (max_retries reset_after : ℕ) (rounds : ℕ → Round E) (fuel : ℕ) (b : Backoff)
    → max_retries < 2147483648
    → b.retry_count + 1 < 2147483648
    → max_retries - b.retry_count + 1 < fuel
    → (d : Done E) × (retry max_retries reset_after rounds fuel b ≡ some d)
      × (1 ≤ d.calls)
      × (d.calls ≤ 1 + (max_retries - (b.retry_count + 1)))
retry-terminates max_retries reset_after rounds zero b m c h = absurd (omega arith)
retry-terminates max_retries reset_after rounds (suc fuel) b m c h =
    elim (Option-cases (rounds 0).answer) [
      | inl fine ↦ (
        record {
          outcome = succeeded;
          calls = 1;
          backoff = after_success max_retries reset_after rounds 0 b;
        },
        retry-fine max_retries reset_after rounds fuel b fine,
        omega arith,
        omega arith,
      )
      | inr (e, wrong) ↦
          let (d, p, q, q') =
            retry_from-Ends max_retries reset_after rounds (max_retries - (b.retry_count + 1)) fuel
              1 e (after_failure max_retries reset_after rounds 0 b) m (omega arith) (omega arith)
              (omega arith) in
          (d, retry-wrong max_retries reset_after rounds fuel e b wrong ∙ p, q, q')
    ]
