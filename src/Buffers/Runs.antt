-- ===== src/Buffers/Runs.antt =====
-- internal/pool/buffer.go: what a slice from the pool holds.
use sssonector.Prelude.{
  All, Bool-cases, List, Option, Option-cases, [], arith, drop, inl, inr, leb, leb→le, length, ltb,
  none, refl, replicate, some, suc, sym, zero, ℕ, ◌++◌, ◌∙◌, ◌∷◌, ◌≡◌, ◌≤◌, ◌⊎◌,
}
use mathlib.Core.Path.{subst}
use sssonector.Buffers.{
  BufferPool, Event, Slice, allocate, cap, clamp, forgets, get, get_elem?, gets, inc_hits,
  inc_requests, put, puts, remove_at, run, step,
}

-- Every byte of the array is 0.
abbrev pub IsClear : Slice → Type 0
IsClear buf = All (λ (b : ℕ). b ≡ 0) buf.array

-- The slice shows its whole array.
abbrev pub IsWhole : Slice → Type 0
IsWhole buf = buf.shown ≡ cap buf

abbrev pub PutsWhole : Event → Type 0
PutsWhole (gets asked place) = Unit
PutsWhole (puts buf) = IsWhole buf
PutsWhole (forgets n) = Unit

abbrev IsClean : BufferPool → Type 0
IsClean p = All IsClear p.pool

-- A slice of a size within the pool's bounds and within its own array.
abbrev pub Fits : BufferPool → ℕ → Slice → Type 0
Fits p asked buf =
    (buf.shown ≤ cap buf)
    × (p.min_size ≤ buf.shown)
    × (buf.shown ≤ p.max_size)
    × (p.min_size ≤ asked → asked ≤ p.max_size → buf.shown ≡ asked)

replicate-clear : (n : ℕ) → All (λ (b : ℕ). b ≡ 0) (replicate n 0)
replicate-clear zero = tt
replicate-clear (suc n) = (refl, replicate-clear n)

pub length-replicate : (n : ℕ) → length {A = ℕ} (replicate n 0) ≡ n
length-replicate zero = refl
length-replicate (suc n) = omega (arith, length-replicate n)

cleared : (l : List ℕ) → All (λ (b : ℕ). b ≡ 0) (replicate (length l) 0 ++ drop (length l) l)
cleared [] = tt
cleared (b ∷ l) = (refl, cleared l)

pub get_elem?-All :
    (P : Slice → Type 0) (n : ℕ) (items : List Slice) (buf : Slice)
    → All P items
    → get_elem? items n ≡ some buf
    → P buf
unfolding get_elem?
get_elem?-All P n [] buf h at = ground (arith, at)
get_elem?-All P zero (item ∷ items) buf h at = subst P (ground (arith, at)) h.0
get_elem?-All P (suc n) (item ∷ items) buf h at = get_elem?-All P n items buf h.1 at

pub remove_at-All :
    (P : Slice → Type 0) (n : ℕ) (items : List Slice) → All P items → All P (remove_at n items)
unfolding remove_at
remove_at-All P n [] h = tt
remove_at-All P zero (item ∷ items) h = h.1
remove_at-All P (suc n) (item ∷ items) h = (h.0, remove_at-All P n items h.1)

-- The slice of a Get has the clamped size, in a new array or in that of an item that is long enough,
-- and the pool keeps its items but perhaps one.
abbrev Gets : BufferPool → ℕ → BufferPool × Slice → Type 0
Gets p asked result =
    (result.1.shown ≡ clamp p asked)
    × ((result.1.array ≡ replicate (clamp p asked) 0)
        ⊎ ((n : ℕ) × (buf : Slice) × (get_elem? p.pool n ≡ some buf)
            × (clamp p asked ≤ cap buf)
            × (result.1.array ≡ buf.array)))
    × ((result.0.pool ≡ p.pool) ⊎ ((n : ℕ) × (result.0.pool ≡ remove_at n p.pool)))

get-Gets : (asked : ℕ) (place : Option ℕ) (p : BufferPool) → Gets p asked (get asked place p)
unfolding get
get-Gets asked none p = (refl, inl refl, inl refl)
get-Gets asked (some n) p = elim (Option-cases (get_elem? p.pool n)) [
  | inl missing ↦
      let step : get asked (some n) p ≡ allocate (clamp p asked) (inc_requests p) =
        rw (get, missing) refl in
      subst (Gets p asked) (sym step) (refl, inl refl, inl refl)
  | inr (buf, at) ↦
      let taken = record (inc_requests p) { pool = remove_at n p.pool } in
      elim (Bool-cases (leb (clamp p asked) (cap buf))) [
        | inl long ↦
            let step : get asked (some n) p
                ≡ (inc_hits taken, record { array = buf.array; shown = clamp p asked }) =
              rw (get, at, long) refl in
            subst (Gets p asked) (sym step)
              (refl, inr (n, buf, at, leb→le (clamp p asked) (cap buf) long, refl), inr (n, refl))
        | inr short ↦
            let step : get asked (some n) p ≡ allocate (clamp p asked) taken =
              rw (get, at, short) refl in
            subst (Gets p asked) (sym step) (refl, inl refl, inr (n, refl))
      ]
]

clamp-Fits :
    (asked : ℕ) (p : BufferPool)
    → p.min_size ≤ p.max_size
    → (p.min_size ≤ clamp p asked)
      × (clamp p asked ≤ p.max_size)
      × (p.min_size ≤ asked → asked ≤ p.max_size → clamp p asked ≡ asked)
clamp-Fits asked p h = (ground (arith, h), ground (arith, h), λ low high. ground (arith, low, high))

-- Whatever item the runtime hands out, a Get on a pool whose least size is at most the greatest gives
-- a slice that lies within its array and whose size is between the two, and the size asked for where
-- that is.
pub get-Fits :
    (asked : ℕ) (place : Option ℕ) (p : BufferPool)
    → p.min_size ≤ p.max_size
    → Fits p asked (get asked place p).1
get-Fits asked place p h =
    let (size, from, pool) = get-Gets asked place p in
    let (low, high, same) = clamp-Fits asked p h in
    (
      rw size (elim from [
        | inl new ↦ rw new (rw (length-replicate (clamp p asked)) (omega arith))
        | inr (n, buf, at, long, old) ↦ rw old long
      ]),
      rw size low,
      rw size high,
      λ above below. size ∙ same above below,
    )

step-IsClean :
    (event : Event) (p : BufferPool) → PutsWhole event → IsClean p → IsClean (step event p)
unfolding step put
step-IsClean (gets asked place) p h clean =
    let (size, from, pool) = get-Gets asked place p in
    elim pool [
      | inl kept ↦ rw kept clean
      | inr (n, taken) ↦ rw taken (remove_at-All IsClear n p.pool clean)
    ]
step-IsClean (puts buf) p h clean = elim (Bool-cases (ltb (cap buf) p.min_size)) [
  | inl small ↦ rw small clean
  | inr large ↦ rw (large, h) (cleared buf.array, clean)
]
step-IsClean (forgets n) p h clean = remove_at-All IsClear n p.pool clean

run-IsClean :
    (events : List Event) (p : BufferPool)
    → All PutsWhole events
    → IsClean p
    → IsClean (run events p)
unfolding run
run-IsClean [] p h clean = clean
run-IsClean (event ∷ events) p h clean =
    run-IsClean events (step event p) h.1 (step-IsClean event p h.0 clean)

-- After any run from an empty pool in which each slice that is put shows its whole array, a Get gives
-- a slice whose array holds nothing but zeros, whatever the users wrote to the slices before.
pub get-IsClear :
    (events : List Event) (p : BufferPool) (asked : ℕ) (place : Option ℕ)
    → p.pool ≡ []
    → All PutsWhole events
    → IsClear (get asked place (run events p)).1
get-IsClear events p asked place empty h =
    let start : IsClean p = rw empty tt in
    let clean = run-IsClean events p h start in
    let (size, from, pool) = get-Gets asked place (run events p) in
    elim from [
      | inl new ↦ rw new (replicate-clear (clamp (run events p) asked))
      | inr (n, buf, at, long, old) ↦
          rw old (get_elem?-All IsClear n (run events p).pool buf clean at)
    ]
