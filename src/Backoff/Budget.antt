-- ===== src/Backoff/Budget.antt =====
-- Successes use up the budget of retries.
use sssonector.Prelude.{
  All, Bool-cases, List, [], ap, arith, eqb, false, inl, inr, length, le→ltb, lt_int32, ltb, refl,
  some, suc, u32, u64, ℕ, ◌+◌, ◌<◌, ◌∙◌, ◌∷◌, ◌≡◌, ◌≤◌,
}
use sssonector.Backoff.{Backoff, Round, failed, record_success, retry, try_reset_backoff}
use sssonector.Backoff.Retry.{retry-spent}

-- The state after one Retry and another, in each of which the first call succeeds at the first time
-- and the reset reads the clock at the second.
unfoldable pub successes : ℕ → ℕ → List (ℕ × ℕ) → Backoff → Backoff
successes max_retries reset_after [] b = b
successes max_retries reset_after ((now, later) ∷ rest) b =
    successes max_retries reset_after rest (record_success max_retries reset_after 0 now later b)

no_reset :
    (max_retries reset_after later : ℕ) (b : Backoff)
    → later ≤ b.last_retry + reset_after
    → try_reset_backoff max_retries reset_after later b ≡ b
unfolding try_reset_backoff
no_reset max_retries reset_after later b h =
    let soon : ltb (b.last_retry + reset_after) later ≡ false = le→ltb _ _ h in
    elim (Bool-cases (eqb reset_after 0)) [
      | inl off ↦ rw off refl
      | inr on ↦ elim (Bool-cases (lt_int32 (u32 max_retries) b.consecutive_successes)) [
        | inl often ↦ rw on (rw often (rw soon refl))
        | inr seldom ↦ rw on (rw seldom refl)
      ]
    ]

successes_counted :
    (max_retries reset_after : ℕ) (times : List (ℕ × ℕ)) (b : Backoff)
    → All (λ t. t.1 ≤ t.0 + reset_after) times
    → b.retry_count + length times < 2147483648
    → (successes max_retries reset_after times b).retry_count ≡ b.retry_count + length times
unfolding successes
successes_counted max_retries reset_after [] b h c = omega arith
successes_counted max_retries reset_after ((now, later) ∷ rest) b h c =
    let counted = record b {
      retry_count = u32 (b.retry_count + 1);
      consecutive_successes = u32 (b.consecutive_successes + 1);
      total_retries = u64 (b.total_retries + 0);
      last_success = now;
      last_retry = now;
    } in
    rw
      (
        ap (λ b'. (successes max_retries reset_after rest b').retry_count)
            (no_reset max_retries reset_after later counted h.0),
        successes,
      )
      (successes_counted max_retries reset_after rest counted h.1 (omega arith) ∙ omega arith)

-- Successes count as attempts: after as many calls that succeed at once as the limit less one, a
-- call whose function fails is not retried: Retry calls it once and returns its error. The reset
-- that should prevent it asks whether `ResetAfter` has passed since the time that the same success
-- has just recorded; the theorem holds as long as no two such readings of the clock lie that far
-- apart.
pub successes-spend {ℓ} :
    {E : Type ℓ} (max_retries reset_after fuel : ℕ) (times : List (ℕ × ℕ)) (rounds : ℕ → Round E)
    (e : E) (b : Backoff)
    → All (λ t. t.1 ≤ t.0 + reset_after) times
    → max_retries < 2147483648
    → b.retry_count + length times + 1 < 2147483648
    → max_retries ≤ b.retry_count + length times + 1
    → (rounds 0).answer ≡ some e
    → (b' : Backoff) × (retry max_retries reset_after rounds
          (suc (suc fuel))
          (successes max_retries reset_after times b)
        ≡ some (record { outcome = failed e; calls = 1; backoff = b' }))
successes-spend max_retries reset_after fuel times rounds e b h m c spent wrong =
    let count = successes_counted max_retries reset_after times b h (omega arith) in
    retry-spent max_retries reset_after rounds fuel e (successes max_retries reset_after times b) m
      (omega (arith, count)) (omega (arith, count)) wrong
