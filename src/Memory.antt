-- ===== src/Memory.antt =====
-- internal/memory/limits.go and pool.go: the memory limit, and the pool of buffers that reserves from
-- it. An int64 is the number that its bits spell. A buffer is its size, a sync.Pool how many it holds;
-- a Get names by `hit` whether it gets one of those. A manager has one pool, whose cleanup it calls.
-- That the runtime takes a buffer out of a sync.Pool is not modelled.
pub mod Ledger
pub mod Balance
pub mod Sizes
pub mod Peak
mod Examples
use sssonector.Prelude.{
  Bool, List, Option, [], false, has_key, if◌then◌else◌, insert, leb, lookup, lt_int64, none, some,
  suc, true, u64, zero, ℕ, ◌*◌, ◌+◌, ◌-◌, ◌∷◌,
}
use sssonector.Prelude.{nat_eq}

pub record Manager : Type 0 where
  pub max_memory_mb : ℕ
  pub current : ℕ  -- int64
  pub max : ℕ  -- int64
  pub cleanups : ℕ  -- int64
  pub rejections : ℕ  -- int64

unfoldable pub new_manager : ℕ → Manager
new_manager max_memory_mb = record {
  max_memory_mb = max_memory_mb;
  current = 0;
  max = 0;
  cleanups = 0;
  rejections = 0;
}

abbrev pub limit : Manager → ℕ
limit m = u64 (m.max_memory_mb * 1024 * 1024)

-- The test of CheckAndReserve at the value that it loaded, and what it then does: another goroutine
-- may come between the two.
unfoldable pub exceeds : ℕ → ℕ → Manager → Bool
exceeds current size m = lt_int64 (limit m) (u64 (current + size))

unfoldable pub settle : Bool → ℕ → Manager → Bool × Manager
settle true size m = (false, record m { rejections = u64 (suc m.rejections) })
settle false size m = (true, record m { current = u64 (m.current + size) })

unfoldable pub check_and_reserve : ℕ → Manager → Bool × Manager
check_and_reserve size m = settle (exceeds m.current size m) size m

unfoldable pub release : ℕ → Manager → Manager
release size m = record m { current = u64 (m.current + 18446744073709551616 - size) }

-- The number of buffers by size.
pub record Memory : Type 0 where
  pub manager : Manager
  pub pools : List (ℕ × ℕ)

unfoldable pub sizes : List ℕ
sizes = 4096 ∷ 8192 ∷ 16384 ∷ 32768 ∷ 65536 ∷ 131072 ∷ 262144 ∷ 524288 ∷ 1048576 ∷ []

abbrev empty_pools : List ℕ → List (ℕ × ℕ)
empty_pools [] = []
empty_pools (size ∷ rest) = (size, 0) ∷ empty_pools rest

unfoldable pub new_buffer_pool : Manager → Memory
new_buffer_pool manager = record { manager = manager; pools = empty_pools sizes }

abbrev pub reserved : Memory → Bool × Manager → Bool × Memory
reserved s (allowed, m) = (allowed, record s { manager = m })

-- New reserves for the pool; where it may not, the pool gives nil and Get tries once more.
unfoldable pub get_new : ℕ → Memory → Bool × Memory
get_new size s =
    let (allowed, m) = check_and_reserve size s.manager in
    if allowed then reserved s (true, m) else reserved s (check_and_reserve size m)

abbrev pub take_one : ℕ → ℕ → Memory → Bool × Memory
take_one size zero s = get_new size s
take_one size (suc count) s = (true, record s { pools = insert size count s.pools })

-- True is a buffer, and false nil.
unfoldable pub get : Bool → ℕ → Memory → Bool × Memory
get hit size s = elim (lookup size s.pools) [
  | none ↦ reserved s (check_and_reserve size s.manager)
  | some count ↦ if hit then take_one size count s else get_new size s
]

unfoldable pub put : ℕ → Memory → Memory
put size s = elim (lookup size s.pools) [
  | none ↦ record s { manager = release size s.manager }
  | some count ↦ record s { pools = insert size (suc count) s.pools }
]

-- The loop that gets and discards.
unfoldable pub drain : ℕ → ℕ → Manager → Manager
drain size zero m = m
drain size (suc count) m = drain size count (release size m)

unfoldable pub drain_all : List (ℕ × ℕ) → Manager → Manager
drain_all [] m = m
drain_all ((size, count) ∷ pools) m = drain_all pools (drain size count m)

abbrev pub emptied : List (ℕ × ℕ) → List (ℕ × ℕ)
emptied [] = []
emptied ((size, count) ∷ pools) = (size, 0) ∷ emptied pools

-- `BufferPool.cleanup`, which Reset calls.
unfoldable pub cleanup_pools : Memory → Memory
cleanup_pools s = record { manager = drain_all s.pools s.manager; pools = emptied s.pools }

-- `Manager.cleanup`, with the pool's cleanup registered.
unfoldable pub cleanup : Memory → Memory
cleanup s =
    let cleaned = cleanup_pools s in
    record cleaned {
      manager = record cleaned.manager { cleanups = u64 (suc cleaned.manager.cleanups) };
    }

-- A turn of the monitor on its check, with what the runtime has allocated; `near` is the comparison of
-- floats that follows.
abbrev pub sampled : ℕ → Manager → Manager
sampled alloc m = record m { current = alloc; max = if lt_int64 m.max alloc then alloc else m.max }

unfoldable pub check_tick : (ℕ → Bool) → ℕ → Memory → Memory
check_tick near alloc s =
    let read = record s { manager = sampled alloc s.manager } in
    if near alloc then cleanup read else read

-- `none` is -1.
unfoldable pub first_fitting : ℕ → List ℕ → Option ℕ
first_fitting size [] = none
first_fitting size (pool_size ∷ rest) =
    let later = first_fitting size rest in if leb size pool_size then some pool_size else later

unfoldable pub get_closest_pool_size : ℕ → Option ℕ
get_closest_pool_size size = first_fitting size sizes

unfoldable pub is_managed_size : ℕ → Memory → Bool
is_managed_size size s = has_key size s.pools
