-- ===== src/Buffers.antt =====
-- internal/pool/buffer.go: pools of byte slices. A slice is what its array holds from the slice's
-- start, and how many bytes of that it shows. A sync.Pool is the list of its items: a Get names the
-- place of the item that it gets, or none, and a `forget` takes an item away, as the runtime may at
-- any time. A counter of type int64 is the number that its bits spell. The pools of requests and
-- of responses, the hit rate and the times are not modelled.
pub mod Runs
pub mod Counts
pub mod Chunks
mod Examples
use sssonector.Prelude.{
  List, Option, [], drop, if◌then◌else◌, leb, length, ltb, none, replicate, some, suc, u64, zero, ℕ,
  ◌++◌, ◌+◌, ◌||◌, ◌∷◌,
}

pub record Slice : Type 0 where
  pub array : List ℕ
  pub shown : ℕ

abbrev pub cap : Slice → ℕ
cap buf = length buf.array

pub record BufferStats : Type 0 where
  pub requests : ℕ
  pub hits : ℕ
  pub misses : ℕ
  pub bytes_alloc : ℕ

pub record BufferPool : Type 0 where
  pub pool : List Slice
  pub min_size : ℕ
  pub max_size : ℕ
  pub stats : BufferStats

-- Sizes that are not negative; `none` is the panic.
unfoldable pub new_buffer_pool : ℕ → ℕ → Option BufferPool
new_buffer_pool min_size max_size =
    if leb min_size 0 || leb max_size 0 || ltb max_size min_size
    then none
    else some (record {
      pool = [];
      min_size = min_size;
      max_size = max_size;
      stats = record { requests = 0; hits = 0; misses = 0; bytes_alloc = 0 };
    })

-- The item at a place of a sync.Pool.
unfoldable pub get_elem? : List Slice → ℕ → Option Slice
get_elem? [] n = none
get_elem? (buf ∷ items) zero = some buf
get_elem? (buf ∷ items) (suc n) = get_elem? items n

unfoldable pub remove_at : ℕ → List Slice → List Slice
remove_at n [] = []
remove_at zero (buf ∷ items) = items
remove_at (suc n) (buf ∷ items) = buf ∷ remove_at n items

-- The size that Get asks for.
abbrev pub clamp : BufferPool → ℕ → ℕ
clamp p size =
    let raised = if ltb size p.min_size then p.min_size else size in
    if ltb p.max_size raised then p.max_size else raised

abbrev pub inc_requests : BufferPool → BufferPool
inc_requests p = record p { stats = record p.stats { requests = u64 (suc p.stats.requests) } }

abbrev pub inc_hits : BufferPool → BufferPool
inc_hits p = record p { stats = record p.stats { hits = u64 (suc p.stats.hits) } }

abbrev pub inc_misses : BufferPool → BufferPool
inc_misses p = record p { stats = record p.stats { misses = u64 (suc p.stats.misses) } }

abbrev pub inc_bytes_alloc : ℕ → BufferPool → BufferPool
inc_bytes_alloc bytes p = record p {
  stats = record p.stats { bytes_alloc = u64 (p.stats.bytes_alloc + bytes) };
}

-- The end of Get.
abbrev pub allocate : ℕ → BufferPool → BufferPool × Slice
allocate size p =
    (inc_bytes_alloc size (inc_misses p), record { array = replicate size 0; shown = size })

unfoldable pub get : ℕ → Option ℕ → BufferPool → BufferPool × Slice
get asked place before =
    let p = inc_requests before in
    let size = clamp p asked in
    elim place [
      | none ↦ allocate size p
      | some n ↦ elim (get_elem? p.pool n) [
        | none ↦ allocate size p
        | some buf ↦
            let taken = record p { pool = remove_at n p.pool } in
            if leb size (cap buf)
            then (inc_hits taken, record { array = buf.array; shown = size })
            else allocate size taken
      ]
    ]

-- Only the bytes that the slice shows are cleared. A nil slice has no array, so it falls under the
-- test of the least size, which is positive.
unfoldable pub put : Slice → BufferPool → BufferPool
put buf p = if ltb (cap buf) p.min_size then p else record p {
  pool =
      record { array = replicate buf.shown 0 ++ drop buf.shown buf.array; shown = buf.shown }
      ∷ p.pool;
}

pub data Event : Type 0 where
  gets : ℕ → Option ℕ → Event
  puts : Slice → Event
  forgets : ℕ → Event

unfoldable pub step : Event → BufferPool → BufferPool
step (gets asked place) p = (get asked place p).0
step (puts buf) p = put buf p
step (forgets n) p = record p { pool = remove_at n p.pool }

unfoldable pub run : List Event → BufferPool → BufferPool
run [] p = p
run (event ∷ events) p = run events (step event p)

pub record PoolMetrics : Type 0 where
  pub get_total : ℕ
  pub get_ok : ℕ
  pub put_total : ℕ
  pub current_size : ℕ

pub record AtomicPool : Type 0 where
  pub buffers : BufferPool
  pub metrics : PoolMetrics

-- `n--` of an int64.
abbrev pub decrement : ℕ → ℕ
decrement n = u64 (n + 18446744073709551615)

unfoldable pub atomic_get : ℕ → Option ℕ → AtomicPool → AtomicPool × Slice
atomic_get asked place p =
    let (buffers, buf) = get asked place p.buffers in
    (
      record {
        buffers = buffers;
        metrics = record p.metrics {
          get_total = u64 (suc p.metrics.get_total);
          get_ok = u64 (suc p.metrics.get_ok);
          current_size = u64 (suc p.metrics.current_size);
        };
      },
      buf,
    )

unfoldable pub atomic_put : Slice → AtomicPool → AtomicPool
atomic_put buf p = record {
  buffers = put buf p.buffers;
  metrics = record p.metrics {
    put_total = u64 (suc p.metrics.put_total);
    current_size = decrement p.metrics.current_size;
  };
}

-- `ResetMetrics`
unfoldable pub reset_metrics : AtomicPool → AtomicPool
reset_metrics p = record p {
  metrics = record { get_total = 0; get_ok = 0; put_total = 0; current_size = 0 };
}
