-- ===== src/Connections/Connect.antt =====
-- internal/connection/manager.go: Connect. The answers of the dialer and of the context are an
-- argument, one round for each attempt. Nothing of the manager's state changes.
use sssonector.Prelude.{
  Bool, ap, arith, false, if◌then◌else◌, inl, inr, ltb, refl, suc, sym, zero, ℕ, ◌&&◌, ◌+◌, ◌<◌,
  ◌∙◌, ◌≡◌, ◌≤◌, ◌⊎◌,
}

-- One attempt: whether the context ends while the interval before it runs, and what the dialer
-- answers, a connection or the number of an error.
pub record Round : Type 0 where
  pub is_done : Bool
  pub dialed : ℕ ⊎ ℕ

pub data Connected : Type 0 where
  conn : ℕ → Connected
  dial_error : ℕ → Connected
  context_error : Connected

-- What the goroutine sends, from the attempt number `attempt` on, with `left` more after it.
unfoldable pub attempts_from : ℕ → ℕ → (ℕ → Round) → Connected
attempts_from zero attempt rounds =
    if ltb 0 attempt && (rounds attempt).is_done
    then context_error
    else elim (rounds attempt).dialed [ inl c ↦ conn c | inr e ↦ dial_error e ]
attempts_from (suc left) attempt rounds =
    let rest = attempts_from left (suc attempt) rounds in
    if ltb 0 attempt && (rounds attempt).is_done
    then context_error
    else elim (rounds attempt).dialed [ inl c ↦ conn c | inr e ↦ rest ]

-- The final select takes what the goroutine sent or, with `timed_out`, the end of the context.
unfoldable pub connect : ℕ → Bool → (ℕ → Round) → Connected
connect retry_attempts timed_out rounds =
    let sent = attempts_from retry_attempts 0 rounds in if timed_out then context_error else sent

attempt_made : (attempt : ℕ) (r : Round) → r.is_done ≡ false → (ltb 0 attempt && r.is_done) ≡ false
attempt_made attempt r h = ground (arith, h)

attempts_from-first :
    (k n left attempt c : ℕ) (rounds : ℕ → Round)
    → n ≡ attempt + k
    → k ≤ left
    → ((j : ℕ) → (rounds j).is_done ≡ false)
    → ((j : ℕ) → j < n → (e : ℕ) × ((rounds j).dialed ≡ inr e))
    → (rounds n).dialed ≡ inl c
    → attempts_from left attempt rounds ≡ conn c
unfolding attempts_from
attempts_from-first zero n zero attempt c rounds at few alive before hit =
    let here : n ≡ attempt = omega (arith, at) in
    let now = ap (λ x. (rounds x).dialed) (sym here) ∙ hit in
    rw (attempt_made attempt (rounds attempt) (alive attempt), now) refl
attempts_from-first zero n (suc left) attempt c rounds at few alive before hit =
    let here : n ≡ attempt = omega (arith, at) in
    let now = ap (λ x. (rounds x).dialed) (sym here) ∙ hit in
    rw (attempt_made attempt (rounds attempt) (alive attempt), now) refl
attempts_from-first (suc k) n zero attempt c rounds at few alive before hit =
    absurd (omega (arith, few))
attempts_from-first (suc k) n (suc left) attempt c rounds at few alive before hit =
    let (e, failed) = before attempt (omega (arith, at)) in
    rw (attempt_made attempt (rounds attempt) (alive attempt), failed)
      (attempts_from-first k n left (suc attempt) c rounds (omega (arith, at)) (omega (arith, few))
        alive before hit)

-- Where the context does not end, Connect answers the connection of the first attempt that gets one,
-- if that is among the first and the retries.
pub connect-attempts_from :
    (k retry_attempts c : ℕ) (rounds : ℕ → Round)
    → k ≤ retry_attempts
    → ((j : ℕ) → (rounds j).is_done ≡ false)
    → ((j : ℕ) → j < k → (e : ℕ) × ((rounds j).dialed ≡ inr e))
    → (rounds k).dialed ≡ inl c
    → connect retry_attempts false rounds ≡ conn c
unfolding connect
connect-attempts_from k retry_attempts c rounds few alive before hit =
    attempts_from-first k k retry_attempts 0 c rounds (omega arith) few alive before hit
