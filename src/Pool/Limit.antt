-- ===== src/Pool/Limit.antt =====
-- What the limit of active connections is worth.
use sssonector.Prelude.{Bool, List, [], arith, length, nat_eq, refl, ℕ, ◌+◌, ◌∙◌, ◌∷◌, ◌≡◌, ◌≤◌}
use sssonector.Pool.{Pool, begin_get, close, finish_get, health_check, new_pool, put}
use sssonector.Pool.Moves.{
  Moves, begin_get-Moves, close-Moves, finish_get-Moves, health_check-Moves, is_failed, is_handed,
  is_put, put-Moves,
}

pub data Op : Type 0 where
  begins : ℕ → (ℕ → Bool) → Op
  finishes : ℕ → (ℕ → Bool) → Op
  puts : ℕ → ℕ → Op
  closes : Op
  checks : ℕ → (ℕ → Bool) → Op

-- The pool with the books kept of it: the Gets that it let through, the connections that came back or
-- were not made, and those that a health check took away.
pub record Books : Type 0 where
  pub pool : Pool
  pub handed : ℕ
  pub returned : ℕ
  pub evicted : ℕ

unfoldable pub perform : Op → Books → Books
perform (begins now alive) b =
    let (p, r) = begin_get now alive b.pool in
    record b { pool = p; handed = b.handed + is_handed r }
perform (finishes now answers) b =
    let (p, r) = finish_get now answers b.pool in
    record b { pool = p; returned = b.returned + is_failed r }
perform (puts now c) b =
    let (p, r) = put now c b.pool in record b { pool = p; returned = b.returned + is_put r }
perform closes b = record b { pool = close b.pool }
perform (checks now alive) b =
    let (p, n) = health_check now alive b.pool in record b { pool = p; evicted = b.evicted + n }

unfoldable pub run : List Op → Books → Books
run [] b = b
run (op ∷ ops) b = run ops (perform op b)

-- `limit` is the configured maximum.
pub record IsKept (limit : ℕ) (b : Books) : Type 0 where
  pub fixed : b.pool.max_active ≡ limit
  pub began_handed : b.pool.began ≡ b.handed
  pub ended_back : b.pool.ended ≡ b.returned + b.evicted
  pub within : b.pool.began + length b.pool.idle ≤ limit + b.pool.ended

Moves-IsKept :
    (limit hand back away : ℕ) (b b' : Books)
    → IsKept limit b
    → Moves b.pool hand (back + away) b'.pool
    → b'.handed ≡ b.handed + hand
    → b'.returned ≡ b.returned + back
    → b'.evicted ≡ b.evicted + away
    → IsKept limit b'
Moves-IsKept limit hand back away b b' v (x, y, z, w) i j k = record {
  fixed = x ∙ v.fixed;
  began_handed = omega (arith, y, v.began_handed, i);
  ended_back = omega (arith, z, v.ended_back, j, k);
  within = omega (arith, w, x, v.fixed);
}

moved :
    (p p' : Pool) (hand back back' : ℕ)
    → back ≡ back'
    → Moves p hand back p'
    → Moves p hand back' p'
moved p p' hand back back' e m = rw (← e) m

perform-IsKept :
    (limit : ℕ) (op : Op) (b : Books)
    → b.pool.began + length b.pool.idle ≤ b.pool.max_active + b.pool.ended
    → IsKept limit b
    → IsKept limit (perform op b)
unfolding perform
perform-IsKept limit (begins now alive) b h v =
    let r = (begin_get now alive b.pool).1 in
    Moves-IsKept limit (is_handed r) 0 0 b (perform (begins now alive) b) v
      (begin_get-Moves b.pool h now alive) refl (omega arith) (omega arith)
perform-IsKept limit (finishes now answers) b h v =
    let (p', r) = finish_get now answers b.pool in
    Moves-IsKept limit 0 (is_failed r) 0 b (perform (finishes now answers) b) v
      (moved b.pool p' 0 (is_failed r) (is_failed r + 0) (omega arith)
        (finish_get-Moves b.pool h now answers))
      (omega arith) refl (omega arith)
perform-IsKept limit (puts now c) b h v =
    let (p', r) = put now c b.pool in
    Moves-IsKept limit 0 (is_put r) 0 b (perform (puts now c) b) v
      (moved b.pool p' 0 (is_put r) (is_put r + 0) (omega arith) (put-Moves b.pool h now c))
      (omega arith) refl (omega arith)
perform-IsKept limit closes b h v =
    Moves-IsKept limit 0 0 0 b (perform closes b) v (close-Moves b.pool h) (omega arith)
      (omega arith) (omega arith)
perform-IsKept limit (checks now alive) b h v =
    let (p', n) = health_check now alive b.pool in
    Moves-IsKept limit 0 0 n b (perform (checks now alive) b) v
      (moved b.pool p' 0 n (0 + n) (omega arith) (health_check-Moves b.pool h now alive))
      (omega arith) (omega arith) refl

run-IsKept : (limit : ℕ) (ops : List Op) (b : Books) → IsKept limit b → IsKept limit (run ops b)
unfolding run
run-IsKept limit [] b v = v
run-IsKept limit (op ∷ ops) b v =
    run-IsKept limit ops (perform op b)
      (perform-IsKept limit op b (omega (arith, v.within, v.fixed)) v)

unfoldable pub opened : ℕ → ℕ → ℕ → ℕ → Books
opened timeout idle limit retries = record {
  pool = new_pool timeout idle limit retries;
  handed = 0;
  returned = 0;
  evicted = 0;
}

-- In every sequence of calls on a new pool, Gets in both their halves, Puts, health checks and Close,
-- whatever the connections and the factory answer: the Gets that were let through and the idle
-- connections together never exceed the configured maximum by more than what came back, the
-- connections that Put took and the Gets whose factory failed, and what the health check took away.
-- The pool's own count of active connections is exactly the first less the other two.
pub pool-within_limit :
    (timeout idle limit retries : ℕ) (ops : List Op)
    → let b = run ops (opened timeout idle limit retries) in
      (b.handed + length b.pool.idle ≤ limit + b.returned + b.evicted)
      × (b.pool.began + b.returned + b.evicted ≡ b.handed + b.pool.ended)
unfolding opened new_pool
pool-within_limit timeout idle limit retries ops =
    let start = opened timeout idle limit retries in
    let v = run-IsKept limit ops start (record {
      fixed = refl;
      began_handed = refl;
      ended_back = omega arith;
      within = omega arith;
    }) in
    (
      omega (arith, v.within, v.began_handed, v.ended_back),
      omega (arith, v.began_handed, v.ended_back),
    )
