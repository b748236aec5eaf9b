-- ===== src/Pool.antt =====
-- internal/pool/pool.go: the pool of connections. A pooled connection is a number, its metadata are
-- functions of it. `idle` has the end of the source's slice first, where Get takes connections and
-- Put adds them. The counter `active` is an int that can fall below 0: it is `began` less `ended`.
-- Times and the configuration's numbers are not negative; `alive` is what testConnection finds when
-- an operation asks it.
pub mod Moves
pub mod Limit
pub mod Sharing
mod Examples
use sssonector.Prelude.{
  Bool, List, Option, [], delete, eqb, false, if◌then◌else◌, insert, leb, length, ltb, map, nat_eq,
  none, not, some, suc, true, zero, ℕ, ◌++◌, ◌+◌, ◌||◌, ◌∷◌,
}

pub record Pool : Type 0 where
  pub idle_timeout : ℕ
  pub max_idle : ℕ
  pub max_active : ℕ
  pub max_retries : ℕ
  pub closed : Bool
  pub began : ℕ
  pub ended : ℕ
  pub idle : List ℕ
  pub active_conns : Option (List (ℕ × Bool))  -- `none` for nil
  pub time_used : ℕ → ℕ
  pub fail_count : ℕ → ℕ
  pub next : ℕ  -- the connections from here on have not been made
  pub shut : List ℕ  -- what Close was called on

-- What Get comes to: `creating` goes on without the lock, to call the factory.
pub data GetResult : Type 0 where
  got : ℕ → GetResult
  creating err_pool_closed err_pool_exhausted err_factory panicked : GetResult

pub data PutResult : Type 0 where
  put_ok put_closed : PutResult

unfoldable pub new_pool : ℕ → ℕ → ℕ → ℕ → Pool
new_pool timeout max_idle' max_active' max_retries' = record {
  idle_timeout = timeout;
  max_idle = max_idle';
  max_active = max_active';
  max_retries = max_retries';
  closed = false;
  began = 0;
  ended = 0;
  idle = [];
  active_conns = some [];
  time_used = λ c. 0;
  fail_count = λ c. 0;
  next = 0;
  shut = [];
}

abbrev pub default_pool : Pool
unfolding new_pool
default_pool = new_pool 300000000000 100 500 3

abbrev pub update : ℕ → ℕ → (ℕ → ℕ) → ℕ → ℕ
update c value f d = if eqb c d then value else f d

abbrev pub activate : ℕ → Option (List (ℕ × Bool)) → Option (List (ℕ × Bool))
activate c none = none
activate c (some conns) = some (insert c true conns)

abbrev pub deactivate : ℕ → Option (List (ℕ × Bool)) → Option (List (ℕ × Bool))
deactivate c none = none
deactivate c (some conns) = some (delete c conns)

abbrev pub is_stale : ℕ → (ℕ → Bool) → Pool → ℕ → Bool
is_stale now alive p c = ltb (p.time_used c + p.idle_timeout) now || not (alive c)

-- The loop of Get over the idle connections.
unfoldable pub take_idle : ℕ → (ℕ → Bool) → List ℕ → Pool → Pool × GetResult
take_idle now alive [] p =
    if leb (p.max_active + p.ended) p.began
    then (record p { idle = [] }, err_pool_exhausted)
    else (record p { idle = []; began = p.began + 1 }, creating)
take_idle now alive (c ∷ rest) p =
    let further = take_idle now alive rest (record p { idle = rest; shut = c ∷ p.shut }) in
    if is_stale now alive p c then further else (
      record p { idle = rest; began = p.began + 1; active_conns = activate c p.active_conns },
      got c,
    )

-- Get up to its call of the factory.
unfoldable pub begin_get : ℕ → (ℕ → Bool) → Pool → Pool × GetResult
begin_get now alive p = if p.closed then (p, err_pool_closed) else take_idle now alive p.idle p

-- The loop of Get over the factory's answers: whether it ends without an error, which it does where
-- there is no attempt at all.
unfoldable pub try_factory : (ℕ → Bool) → ℕ → ℕ → Bool
try_factory answers i zero = true
try_factory answers i (suc n) =
    let again = try_factory answers (i + 1) n in
    if answers i then true else if eqb n 0 then false else again

-- The end of Get, given the map. It is nil once the pool is closed, and an assignment panics.
abbrev pub enlist : ℕ → Pool → Option (List (ℕ × Bool)) → Pool × GetResult
enlist now p none = (p, panicked)
enlist now p (some conns) = (
  record p {
    active_conns = some (insert p.next true conns);
    time_used = update p.next now p.time_used;
    next = p.next + 1;
  },
  got p.next,
)

-- Get from its calls of the factory on.
unfoldable pub finish_get : ℕ → (ℕ → Bool) → Pool → Pool × GetResult
finish_get now answers p =
    if try_factory answers 0 p.max_retries
    then enlist now p p.active_conns
    else (record p { ended = p.ended + 1 }, err_factory)

unfoldable pub put : ℕ → ℕ → Pool → Pool × PutResult
put now c p =
    let freed = record p { active_conns = deactivate c p.active_conns; ended = p.ended + 1 } in
    if p.closed
    then (record p { shut = c ∷ p.shut }, put_closed)
    else if ltb p.max_retries (p.fail_count c)
    then (record freed { shut = c ∷ p.shut }, put_ok)
    else if ltb (length p.idle) p.max_idle
    then (record freed { time_used = update c now p.time_used; idle = c ∷ p.idle }, put_ok)
    else (record freed { shut = c ∷ p.shut }, put_ok)

abbrev pub keys : Option (List (ℕ × Bool)) → List ℕ
keys none = []
keys (some conns) = map (λ (entry : ℕ × Bool). entry.0) conns

unfoldable pub close : Pool → Pool
close p = if p.closed then p else record p {
  closed = true;
  idle = [];
  active_conns = none;
  shut = keys p.active_conns ++ p.idle ++ p.shut;
}

-- The idle connections that the health check keeps, and what it closes.
unfoldable pub check_idle : ℕ → (ℕ → Bool) → List ℕ → Pool → List ℕ × List ℕ
check_idle now alive [] p = ([], p.shut)
check_idle now alive (c ∷ rest) p =
    let (kept, shut') = check_idle now alive rest p in
    if is_stale now alive p c then (kept, c ∷ shut') else (c ∷ kept, shut')

-- The active connections that the health check takes away from the pool: `evicted` counts them.
unfoldable pub check_active : (ℕ → Bool) → List ℕ → Pool → Pool × ℕ
check_active alive [] p = (p, 0)
check_active alive (c ∷ rest) p =
    let failed = record p { fail_count = update c (p.fail_count c + 1) p.fail_count } in
    let (lost, n) = check_active alive rest (record failed {
      active_conns = deactivate c p.active_conns;
      ended = p.ended + 1;
      shut = c ∷ p.shut;
    }) in
    let kept = check_active alive rest failed in
    let same = check_active alive rest p in
    if alive c then same else if ltb p.max_retries (p.fail_count c + 1) then (lost, n + 1) else kept

unfoldable pub health_check : ℕ → (ℕ → Bool) → Pool → Pool × ℕ
health_check now alive p =
    let (kept, shut') = check_idle now alive p.idle p in
    if p.closed
    then (p, 0)
    else check_active alive (keys p.active_conns) (record p { idle = kept; shut = shut' })
