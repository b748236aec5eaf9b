-- ===== src/Memory/Peak.antt =====
-- internal/memory/limits.go: the peak that the monitor keeps.
use sssonector.Prelude.{
  All, Bool, Bool-cases, List, [], ap, arith, if◌then◌else◌, inl, inr, lt_int64-ltb, ltb, refl, suc,
  zero, ℕ, ◌<◌, ◌∙◌, ◌∷◌, ◌≡◌,
}
use sssonector.Memory.{
  Manager, Memory, check_tick, cleanup, cleanup_pools, drain, drain_all, release,
}

drain-max : (size count : ℕ) (m : Manager) → (drain size count m).max ≡ m.max
unfolding drain release
drain-max size zero m = refl
drain-max size (suc count) m = drain-max size count (release size m)

drain_all-max : (pools : List (ℕ × ℕ)) (m : Manager) → (drain_all pools m).max ≡ m.max
unfolding drain_all
drain_all-max [] m = refl
drain_all-max ((size, count) ∷ pools) m =
    drain_all-max pools (drain size count m) ∙ drain-max size count m

cleanup-max : (s : Memory) → (cleanup s).manager.max ≡ s.manager.max
unfolding cleanup cleanup_pools
cleanup-max s = drain_all-max s.pools s.manager

-- The greatest of a number and those of a list.
abbrev pub greatest : ℕ → List ℕ → ℕ
greatest n [] = n
greatest n (a ∷ rest) = greatest (if ltb n a then a else n) rest

unfoldable pub check_ticks : (ℕ → Bool) → List ℕ → Memory → Memory
check_ticks near [] s = s
check_ticks near (alloc ∷ rest) s = check_ticks near rest (check_tick near alloc s)

check_tick-max :
    (near : ℕ → Bool) (alloc : ℕ) (s : Memory)
    → alloc < 9223372036854775808
    → s.manager.max < 9223372036854775808
    → (check_tick near alloc s).manager.max
      ≡ (if ltb s.manager.max alloc then alloc else s.manager.max)
unfolding check_tick
check_tick-max near alloc s h g =
    let test = lt_int64-ltb s.manager.max alloc g h in
    elim (Bool-cases (near alloc)) [
      | inl high ↦
          rw (check_tick, high) (cleanup-max _ ∙ ap (λ b. if b then alloc else s.manager.max) test)
      | inr low ↦ rw (check_tick, low) (ap (λ b. if b then alloc else s.manager.max) test)
    ]

-- However often the monitor checks, and whether it cleans up or not, the peak is the greatest of what
-- it was and of all samples, where those are int64s that are not negative.
pub check_ticks-max :
    (near : ℕ → Bool) (allocs : List ℕ) (s : Memory)
    → All (λ alloc. alloc < 9223372036854775808) allocs
    → s.manager.max < 9223372036854775808
    → (check_ticks near allocs s).manager.max ≡ greatest s.manager.max allocs
unfolding check_ticks
check_ticks-max near [] s h g = refl
check_ticks-max near (alloc ∷ rest) s h g =
    let now = check_tick-max near alloc s h.0 g in
    let small : (check_tick near alloc s).manager.max < 9223372036854775808 =
      ground (arith, now, h.0, g) in
    check_ticks-max near rest (check_tick near alloc s) h.1 small ∙ ap (λ n. greatest n rest) now
