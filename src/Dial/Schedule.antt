-- ===== src/Dial/Schedule.antt =====
-- The sleeps of the gradual phase: a doubling interval with a ceiling.
use native.Mathlib.Nat.{pow-suc, mul_assoc}
use mathlib.Core.List.{append-nil, append_assoc}
use sssonector.Prelude.{
  List, [], ap, arith, if◌then◌else◌, ltb, suc, sym, zero, ℕ, ◌*◌, ◌++◌, ◌+◌, ◌^◌, ◌∙◌, ◌∷◌, ◌≡◌,
  ◌≤◌,
}
use sssonector.Dial.{Clock, Probe, err_max_retries_exceeded, gradual_retries, slept}
use sssonector.Dial.Phases.{RefusedUntil, gradual_exhausted}

abbrev pub capped : ℕ → ℕ → ℕ
capped limit d = if ltb limit d then limit else d

-- The first n sleeps from the i-th on, in closed form.
unfoldable pub schedule : ℕ → ℕ → ℕ → ℕ → List ℕ
schedule interval limit i zero = []
schedule interval limit i (suc n) =
    capped limit (interval * 2 ^ i) ∷ schedule interval limit (suc i) n

capped-double : (limit d : ℕ) → capped limit (capped limit d * 2) ≡ capped limit (d * 2)
capped-double limit d = ground arith

capped-pow :
    (interval limit i : ℕ)
    → capped limit (capped limit (interval * 2 ^ i) * 2) ≡ capped limit (interval * 2 ^ suc i)
capped-pow interval limit i =
    capped-double limit (interval * 2 ^ i)
    ∙ ap (capped limit) (mul_assoc interval (2 ^ i) 2 ∙ ap (λ x. interval * x) (sym (pow-suc 2 i)))

module _ (probes : ℕ → Probe) (interval limit : ℕ) where
  sleeps_from :
      (n i : ℕ) (t : Clock)
      → RefusedUntil probes t.polls (t.polls + n)
      → (gradual_retries probes (capped limit (interval * 2 ^ i)) limit n t).1.sleeps
        ≡ t.sleeps ++ schedule interval limit i n
  unfolding gradual_retries schedule
  sleeps_from zero i t h = sym (append-nil t.sleeps)
  sleeps_from (suc n) i t h =
      rw (h t.polls (omega arith) (omega arith), gradual_retries)
        (rw (capped-pow interval limit i) (
          sleeps_from n (suc i) (slept (capped limit (interval * 2 ^ i)) t)
            (λ j p q. h j (omega arith) (omega arith))
          ∙ append_assoc t.sleeps (capped limit (interval * 2 ^ i) ∷ [])
              (schedule interval limit (suc i) n)))

-- Where the interval starts at or below its maximum and the factory fails as long as the gradual
-- phase has attempts, the phase gives up after exactly its number of attempts, and the sleeps that
-- it has taken are in order the minimum of the maximum interval and the first interval times 2 ^ i,
-- for i from 0 on: one after each attempt, the last included.
pub gradual_retries-schedule :
    (probes : ℕ → Probe) (interval limit n : ℕ) (t : Clock)
    → interval ≤ limit
    → RefusedUntil probes t.polls (t.polls + n)
    → let (r, t') = gradual_retries probes interval limit n t in
      (r ≡ err_max_retries_exceeded)
      × (t'.polls ≡ t.polls + n)
      × (t'.sleeps ≡ t.sleeps ++ schedule interval limit 0 n)
gradual_retries-schedule probes interval limit n t low h =
    let (a, b) = gradual_exhausted probes interval limit n t h in
    let starts : capped limit (interval * 2 ^ 0) ≡ interval = ground arith in
    (a, b, rw starts at (sleeps_from probes interval limit n 0 t h))
