-- ===== src/Pool/Sharing.antt =====
-- What the pool does not guard against: a Close within a Get, and a connection put back twice.
use sssonector.Prelude.{
  Bool, List, ap, arith, false, length, le→ltb, lt→ltb, nat_eq, refl, true, ℕ, ◌+◌, ◌<◌, ◌∷◌, ◌≡◌,
  ◌≤◌,
}
use sssonector.Pool.{
  Pool, activate, begin_get, close, deactivate, finish_get, got, is_stale, panicked, put, take_idle,
  try_factory, update,
}

-- Where the pool is closed between the halves of a Get, the one that calls the factory, and the
-- factory makes the connection, Get panics: it assigns to the map that Close has set to nil.
pub finish_get-closed :
    (now : ℕ) (answers : ℕ → Bool) (p : Pool)
    → p.closed ≡ false
    → try_factory answers 0 p.max_retries ≡ true
    → (finish_get now answers (close p)).1 ≡ panicked
unfolding finish_get close
finish_get-closed now answers p h made = rw (h, close) (rw (made, finish_get) refl)

-- Put, where the connection goes to the idle ones.
put-idle :
    (now c : ℕ) (p : Pool)
    → p.closed ≡ false
    → p.fail_count c ≤ p.max_retries
    → length p.idle < p.max_idle
    → (put now c p).0 ≡ record p {
      active_conns = deactivate c p.active_conns;
      ended = p.ended + 1;
      time_used = update c now p.time_used;
      idle = c ∷ p.idle;
    }
unfolding put
put-idle now c p h f room =
    simp (h, le→ltb p.max_retries (p.fail_count c) f, lt→ltb (length p.idle) p.max_idle room)

-- Get, where the connection last put back is fit.
begin_get-idle :
    (later c : ℕ) (rest : List ℕ) (alive : ℕ → Bool) (p : Pool)
    → p.closed ≡ false
    → p.idle ≡ c ∷ rest
    → is_stale later alive p c ≡ false
    → begin_get later alive p ≡ (
      record p { idle = rest; began = p.began + 1; active_conns = activate c p.active_conns },
      got c,
    )
unfolding begin_get take_idle
begin_get-idle later c rest alive p h i fresh = simp (h, i, fresh)

-- A connection that is put back twice stands twice among the idle ones, and the next two Gets hand
-- the same connection to both callers: an open pool with room for two, in which the connection has
-- not failed too often and is alive, and no more than the idle timeout passes.
pub put_twice-shares :
    (now later c : ℕ) (alive : ℕ → Bool) (p : Pool)
    → p.closed ≡ false
    → p.fail_count c ≤ p.max_retries
    → length p.idle + 2 ≤ p.max_idle
    → later ≤ now + p.idle_timeout
    → alive c ≡ true
    → let twice = (put now c (put now c p).0).0 in
      let (first, r) = begin_get later alive twice in
      (r ≡ got c) × ((begin_get later alive first).1 ≡ got c)
put_twice-shares now later c alive p h f room soon lives =
    let once = record p {
      active_conns = deactivate c p.active_conns;
      ended = p.ended + 1;
      time_used = update c now p.time_used;
      idle = c ∷ p.idle;
    } in
    let twice = record once {
      active_conns = deactivate c once.active_conns;
      ended = once.ended + 1;
      time_used = update c now once.time_used;
      idle = c ∷ once.idle;
    } in
    let first = record twice {
      idle = once.idle;
      began = twice.began + 1;
      active_conns = activate c twice.active_conns;
    } in
    let fit : is_stale later alive twice c ≡ false = ground (arith, lives, soon) in
    rw (put-idle now c p h f (omega arith)) (
      rw (put-idle now c once h f (omega arith)) (
        rw (begin_get-idle later c once.idle alive twice h refl fit)
          (refl, ap (λ r. r.1) (begin_get-idle later c p.idle alive first h refl fit))))
