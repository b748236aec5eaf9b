-- ===== src/Pool/Examples.antt =====
-- A pool of at most two connections, and the theorems at concrete inputs.
use sssonector.Prelude.{Bool, [], eqb, false, length, nat_eq, refl, true, ℕ, ◌+◌, ◌∷◌, ◌≡◌, ◌≤◌}
use sssonector.Pool.{begin_get, err_pool_exhausted, new_pool, take_idle, try_factory}
use sssonector.Pool.Limit.{begins, checks, finishes, opened, pool-within_limit, puts, run}
use sssonector.Pool.Sharing.{}

abbrev answering : ℕ → Bool
answering n = true

second_answer : try_factory (λ i. eqb i 1) 0 3 ≡ true
unfolding try_factory
second_answer = refl

no_attempt : try_factory (λ i. false) 0 0 ≡ true
unfolding try_factory
no_attempt = refl

all_fail : try_factory (λ i. false) 0 3 ≡ false
unfolding try_factory
all_fail = refl

third_waits :
    (begin_get 1 answering
      (begin_get 1 answering (begin_get 1 answering (new_pool 100 2 2 3)).0).0).1
    ≡ err_pool_exhausted
unfolding begin_get take_idle new_pool
third_waits = refl

pool-within_limit_example :
    let b =
      run
        (begins 1 answering ∷ finishes 1 answering ∷ puts 2 0 ∷ checks 3 answering ∷ [])
        (opened 100 2 2 3) in
    (b.handed + length b.pool.idle ≤ 2 + b.returned + b.evicted)
    × (b.pool.began + b.returned + b.evicted ≡ b.handed + b.pool.ended)
pool-within_limit_example =
    pool-within_limit 100 2 2 3
      (begins 1 answering ∷ finishes 1 answering ∷ puts 2 0 ∷ checks 3 answering ∷ [])
