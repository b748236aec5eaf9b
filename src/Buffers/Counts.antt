-- ===== src/Buffers/Counts.antt =====
-- internal/pool/buffer.go: the counters of the two pools.
use mathlib.Core.Path.{subst}
use sssonector.Prelude.{
  Bool-cases, List, Option, Option-cases, [], ap, arith, inl, inr, leb, ltb, none, refl, some, suc,
  sym, u64, ℕ, ◌+◌, ◌∷◌, ◌≡◌, ◌⊎◌,
}
use sssonector.Buffers.{
  AtomicPool, BufferPool, Event, Slice, allocate, atomic_get, atomic_put, cap, clamp, forgets, get,
  get_elem?, gets, inc_hits, inc_requests, put, puts, remove_at, run, step,
}

-- Each request is a hit or a miss, as the counters wrap.
unfoldable pub IsCounted : BufferPool → Type 0
IsCounted p = p.stats.requests ≡ u64 (p.stats.hits + p.stats.misses)

-- What Get makes of the counters: one more request, and one more hit or one more miss.
abbrev Counts : BufferPool → BufferPool → Type 0
Counts p q =
    (q.stats.requests ≡ u64 (suc p.stats.requests))
    × (((q.stats.hits ≡ u64 (suc p.stats.hits)) × (q.stats.misses ≡ p.stats.misses))
        ⊎ ((q.stats.hits ≡ p.stats.hits) × (q.stats.misses ≡ u64 (suc p.stats.misses))))

get-Counts : (asked : ℕ) (place : Option ℕ) (p : BufferPool) → Counts p (get asked place p).0
unfolding get
get-Counts asked none p = (refl, inr (refl, refl))
get-Counts asked (some n) p = elim (Option-cases (get_elem? p.pool n)) [
  | inl missing ↦
      let step : get asked (some n) p ≡ allocate (clamp p asked) (inc_requests p) =
        rw (get, missing) refl in
      subst (λ r. Counts p r.0) (sym step) (refl, inr (refl, refl))
  | inr (buf, at) ↦
      let taken = record (inc_requests p) { pool = remove_at n p.pool } in
      elim (Bool-cases (leb (clamp p asked) (cap buf))) [
        | inl long ↦
            let step : get asked (some n) p
                ≡ (inc_hits taken, record { array = buf.array; shown = clamp p asked }) =
              rw (get, at, long) refl in
            subst (λ r. Counts p r.0) (sym step) (refl, inl (refl, refl))
        | inr short ↦
            let step : get asked (some n) p ≡ allocate (clamp p asked) taken =
              rw (get, at, short) refl in
            subst (λ r. Counts p r.0) (sym step) (refl, inr (refl, refl))
      ]
]

get-IsCounted :
    (asked : ℕ) (place : Option ℕ) (p : BufferPool) → IsCounted p → IsCounted (get asked place p).0
unfolding IsCounted
get-IsCounted asked place p h =
    let (requests, rest) = get-Counts asked place p in
    elim rest [
      | inl (hits, misses) ↦ omega (arith, h, requests, hits, misses)
      | inr (hits, misses) ↦ omega (arith, h, requests, hits, misses)
    ]

put-stats : (buf : Slice) (p : BufferPool) → (put buf p).stats ≡ p.stats
unfolding put
put-stats buf p = elim (Bool-cases (ltb (cap buf) p.min_size)) [
  | inl small ↦ rw small refl
  | inr large ↦ rw large refl
]

step-IsCounted : (event : Event) (p : BufferPool) → IsCounted p → IsCounted (step event p)
unfolding step IsCounted
step-IsCounted (gets asked place) p h = get-IsCounted asked place p h
step-IsCounted (puts buf) p h = rw (put-stats buf p) h
step-IsCounted (forgets n) p h = h

-- A pool in which each request is counted as a hit or as a miss, as a new one is, stays one through
-- any run: the number of requests is the sum of the hits and the misses, modulo 2^64.
pub run-IsCounted : (events : List Event) (p : BufferPool) → IsCounted p → IsCounted (run events p)
unfolding run
run-IsCounted [] p h = h
run-IsCounted (event ∷ events) p h = run-IsCounted events (step event p) (step-IsCounted event p h)

unfoldable pub atomic_step : Event → AtomicPool → AtomicPool
atomic_step (gets asked place) p = (atomic_get asked place p).0
atomic_step (puts buf) p = atomic_put buf p
atomic_step (forgets n) p = record p { buffers = step (forgets n) p.buffers }

unfoldable pub atomic_run : List Event → AtomicPool → AtomicPool
atomic_run [] p = p
atomic_run (event ∷ events) p = atomic_run events (atomic_step event p)

-- Every get is fine, and the current size is the gets less the puts, as the counters wrap.
unfoldable pub IsBalanced : AtomicPool → Type 0
IsBalanced p =
    (p.metrics.get_ok ≡ p.metrics.get_total)
    × (u64 (p.metrics.current_size + p.metrics.put_total) ≡ p.metrics.get_total)
    × (p.buffers.stats.requests ≡ p.metrics.get_total)

atomic_step-IsBalanced :
    (event : Event) (p : AtomicPool) → IsBalanced p → IsBalanced (atomic_step event p)
unfolding atomic_step atomic_get atomic_put step IsBalanced
atomic_step-IsBalanced (gets asked place) p h =
    let requests = (get-Counts asked place p.buffers).0 in
    (omega (arith, h.0), omega (arith, h.1), omega (arith, h.2, requests))
atomic_step-IsBalanced (puts buf) p h =
    let requests = ap (λ s. s.requests) (put-stats buf p.buffers) in
    (h.0, omega (arith, h.1), omega (arith, h.2, requests))
atomic_step-IsBalanced (forgets n) p h = h

-- Through any run of the pool with metrics, from one where it holds, such as a new one: the
-- successful gets are all gets, the pool beneath has counted the same number of requests, and the
-- current size is the number of gets less that of puts, modulo 2^64, whether or not the pool beneath
-- has kept what was put.
pub atomic_run-IsBalanced :
    (events : List Event) (p : AtomicPool) → IsBalanced p → IsBalanced (atomic_run events p)
unfolding atomic_run
atomic_run-IsBalanced [] p h = h
atomic_run-IsBalanced (event ∷ events) p h =
    atomic_run-IsBalanced events (atomic_step event p) (atomic_step-IsBalanced event p h)
