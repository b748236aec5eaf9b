-- ===== src/Buffers/Examples.antt =====
-- Runs of the pools of slices.
use sssonector.Prelude.{List, [], none, refl, some, ℕ, ◌∷◌, ◌≡◌}
use sssonector.Buffers.{
  AtomicPool, BufferPool, atomic_put, get, get_elem?, put, puts, remove_at, run,
}
use sssonector.Buffers.Runs.{IsClear, get-IsClear}
use sssonector.Buffers.Counts.{}

abbrev empty_pool : BufferPool
empty_pool = record {
  pool = [];
  min_size = 2;
  max_size = 4;
  stats = record { requests = 0; hits = 0; misses = 0; bytes_alloc = 0 };
}

abbrev empty_atomic : AtomicPool
empty_atomic = record {
  buffers = empty_pool;
  metrics = record { get_total = 0; get_ok = 0; put_total = 0; current_size = 0 };
}

abbrev secret : List ℕ
secret = 11 ∷ 12 ∷ 13 ∷ []

-- A slice that was cut to one byte comes back with the two bytes behind it.
secret_survives :
    (get 3 (some 0) (put (record { array = secret; shown = 1 }) empty_pool)).1
    ≡ record { array = 0 ∷ 12 ∷ 13 ∷ []; shown = 3 }
unfolding get put get_elem? remove_at
secret_survives = refl

-- More than the greatest size is asked for.
get_too_large : (get 9 none empty_pool).1.shown ≡ 4
unfolding get
get_too_large = refl

-- A slice that is too small for the pool still lowers the current size, to -1.
current_size_below :
    (atomic_put (record { array = []; shown = 0 }) empty_atomic).metrics.current_size
    ≡ 18446744073709551615
unfolding atomic_put
current_size_below = refl

get-IsClear_example :
    IsClear (get 3 (some 0) (run (puts (record { array = secret; shown = 3 }) ∷ []) empty_pool)).1
get-IsClear_example =
    get-IsClear (puts (record { array = secret; shown = 3 }) ∷ []) empty_pool 3 (some 0) refl
      (refl, tt)
