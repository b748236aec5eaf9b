-- ===== src/Memory/Ledger.antt =====
-- internal/memory/limits.go and pool.go: what is reserved, counted in bytes.
use sssonector.Prelude.{
  Bool, Bool-cases, List, [], arith, eqb_iff, false, inl, inr, insert, lookup, lt_int64,
  lt_int64-ltb, ltb, refl, some, suc, true, u64, zero, ℕ, ◌*◌, ◌+◌, ◌<◌, ◌==◌, ◌∷◌, ◌≡◌, ◌≤◌,
}
use sssonector.Prelude.{nat_eq}
use sssonector.Memory.{
  Manager, check_and_reserve, drain, drain_all, emptied, exceeds, limit, release, settle,
}

-- `count` buffers of the size.
abbrev pub times : ℕ → ℕ → ℕ
times zero size = 0
times (suc count) size = size + times count size

abbrev pub pooled : List (ℕ × ℕ) → ℕ
pooled [] = 0
pooled ((size, count) ∷ pools) = times count size + pooled pools

abbrev pub total : List ℕ → ℕ
total [] = 0
total (size ∷ held) = size + total held

pub pooled-insert :
    (size old new : ℕ) (pools : List (ℕ × ℕ))
    → lookup size pools ≡ some old
    → pooled (insert size new pools) + times old size ≡ pooled pools + times new size
unfolding lookup insert
pooled-insert size old new [] h = absurd (ground (arith, h))
pooled-insert size old new ((k, count) ∷ pools) h = elim (Bool-cases (k == size)) [
  | inl same ↦
      let key : k ≡ size = (eqb_iff k size).0 same in
      let count_old : count ≡ old = ground (arith, same, h) in
      rw same (rw (key, count_old) (omega arith))
  | inr other ↦
      rw other (omega (arith, pooled-insert size old new pools (ground (arith, other, h))))
]

-- A manager within its limit, which is below 2^62 bytes.
pub record IsWithin (m : Manager) : Type 0 where
  pub small : m.max_memory_mb < 4398046511104
  pub within : m.current ≤ m.max_memory_mb * 1048576

-- What a reservation answers and leaves.
abbrev pub Reserves : ℕ → Manager → Bool × Manager → Type 0
Reserves size m (true, after) = (after.current ≡ m.current + size) × IsWithin after
Reserves size m (false, after) = (after.current ≡ m.current) × IsWithin after

pub check_and_reserve-Reserves :
    (size : ℕ) (m : Manager)
    → size < 4611686018427387904
    → IsWithin m
    → Reserves size m (check_and_reserve size m)
unfolding check_and_reserve exceeds settle
check_and_reserve-Reserves size m few h =
    let whole : limit m ≡ m.max_memory_mb * 1048576 = omega (arith, h.small) in
    let sum : u64 (m.current + size) ≡ m.current + size = omega (arith, h.small, h.within, few) in
    let test : lt_int64 (limit m) (u64 (m.current + size))
        ≡ ltb (m.max_memory_mb * 1048576) (m.current + size) =
      rw (whole, sum)
        (lt_int64-ltb _ _ (omega (arith, h.small)) (omega (arith, h.small, h.within, few))) in
    elim (Bool-cases (ltb (m.max_memory_mb * 1048576) (m.current + size))) [
      | inl over ↦ rw (test, over) (refl, record { small = h.small; within = h.within })
      | inr fits ↦
          rw (test, fits) (sum, record { small = h.small; within = ground (arith, sum, fits) })
    ]

pub release-current :
    (size : ℕ) (m : Manager)
    → IsWithin m
    → size ≤ m.current
    → ((release size m).current + size ≡ m.current) × IsWithin (release size m)
unfolding release
release-current size m h g =
    let less : (release size m).current + size ≡ m.current = omega (arith, h.small, h.within, g) in
    (less, record { small = h.small; within = omega (arith, less, h.within) })

pub drain-current :
    (size count : ℕ) (m : Manager)
    → IsWithin m
    → times count size ≤ m.current
    → ((drain size count m).current + times count size ≡ m.current) × IsWithin (drain size count m)
unfolding drain
drain-current size zero m h g = (omega arith, h)
drain-current size (suc count) m h g =
    let (less, within) = release-current size m h (omega (arith, g)) in
    let (rest, done) = drain-current size count (release size m) within (omega (arith, g, less)) in
    (omega (arith, rest, less), done)

pub drain_all-current :
    (pools : List (ℕ × ℕ)) (m : Manager)
    → IsWithin m
    → pooled pools ≤ m.current
    → ((drain_all pools m).current + pooled pools ≡ m.current) × IsWithin (drain_all pools m)
unfolding drain_all
drain_all-current [] m h g = (omega arith, h)
drain_all-current ((size, count) ∷ pools) m h g =
    let (less, within) = drain-current size count m h (omega (arith, g)) in
    let (rest, done) =
      drain_all-current pools (drain size count m) within (omega (arith, g, less)) in
    (omega (arith, rest, less), done)

pub pooled-emptied : (pools : List (ℕ × ℕ)) → pooled (emptied pools) ≡ 0
pooled-emptied [] = refl
pooled-emptied ((size, count) ∷ pools) = omega (arith, pooled-emptied pools)
