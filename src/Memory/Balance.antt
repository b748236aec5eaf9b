-- ===== src/Memory/Balance.antt =====
-- internal/memory/limits.go and pool.go: what is reserved is what is held and what is pooled.
use sssonector.Prelude.{
  All, Bool, List, Option, Option-cases, [], ap, arith, false, if◌then◌else◌, inl, inr, lookup,
  none, refl, some, suc, true, zero, ℕ, ◌*◌, ◌+◌, ◌<◌, ◌∷◌, ◌≡◌, ◌≤◌,
}
use sssonector.Prelude.{nat_eq}
use sssonector.Memory.{
  Manager, Memory, check_and_reserve, cleanup, cleanup_pools, drain_all, get, get_new,
  new_buffer_pool, new_manager, put, reserved, sizes, take_one,
}
use sssonector.Memory.Ledger.{
  IsWithin, Reserves, check_and_reserve-Reserves, drain_all-current, pooled, pooled-emptied,
  pooled-insert, release-current, total,
}

-- The sizes of the buffers that are in use.
pub record IsBalanced (s : Memory) (held : List ℕ) : Type 0 where
  pub sum : s.manager.current ≡ total held + pooled s.pools
  pub within : IsWithin s.manager

abbrev held_after : ℕ → List ℕ → Bool → List ℕ
held_after size held true = size ∷ held
held_after size held false = held

Gets : ℕ → List ℕ → Bool × Memory → Type 0
Gets size held (got, s) = IsBalanced s (held_after size held got)

reserved-Gets :
    (size : ℕ) (s : Memory) (held : List ℕ) (before : Manager) (result : Bool × Manager)
    → s.manager.current ≡ total held + pooled s.pools
    → before.current ≡ s.manager.current
    → Reserves size before result
    → Gets size held (reserved s result)
unfolding Gets
reserved-Gets size s held before (true, m) sum same h = record {
  sum = omega (arith, sum, same, h.0);
  within = h.1;
}
reserved-Gets size s held before (false, m) sum same h = record {
  sum = omega (arith, sum, same, h.0);
  within = h.1;
}

get_new-Gets :
    (size : ℕ) (s : Memory) (held : List ℕ)
    → size < 4611686018427387904
    → IsBalanced s held
    → Gets size held (get_new size s)
unfolding get_new
get_new-Gets size s held few h =
    go (check_and_reserve size s.manager) (check_and_reserve-Reserves size s.manager few h.within)
  where
    go :
        (result : Bool × Manager)
        → Reserves size s.manager result
        → Gets size held (
            if result.0
            then reserved s (true, result.1)
            else reserved s (check_and_reserve size result.1))
    go (true, m) first = reserved-Gets size s held s.manager (true, m) h.sum refl first
    go (false, m) first =
        reserved-Gets size s held m (check_and_reserve size m) h.sum first.0
          (check_and_reserve-Reserves size m few first.1)

get-Gets :
    (hit : Bool) (size : ℕ) (s : Memory) (held : List ℕ)
    → size < 4611686018427387904
    → IsBalanced s held
    → Gets size held (get hit size s)
unfolding get Gets
get-Gets hit size s held few h = elim (Option-cases (lookup size s.pools)) [
  | inl missing ↦
      rw (get, missing)
        (reserved-Gets size s held s.manager (check_and_reserve size s.manager) h.sum refl
          (check_and_reserve-Reserves size s.manager few h.within))
  | inr (count, at) ↦ rw (get, at) (taken hit count at)
]
  where
    taken :
        (hit : Bool) (count : ℕ)
        → lookup size s.pools ≡ some count
        → Gets size held (if hit then take_one size count s else get_new size s)
    taken false count at = get_new-Gets size s held few h
    taken true zero at = get_new-Gets size s held few h
    taken true (suc count) at = record {
      sum = omega (arith, h.sum, pooled-insert size (suc count) count s.pools at);
      within = h.within;
    }

put-IsBalanced :
    (size : ℕ) (s : Memory) (held rest : List ℕ)
    → total held ≡ size + total rest
    → IsBalanced s held
    → IsBalanced (put size s) rest
unfolding put
put-IsBalanced size s held rest split h = elim (Option-cases (lookup size s.pools)) [
  | inl missing ↦
      let (less, within) = release-current size s.manager h.within (omega (arith, split, h.sum)) in
      rw (put, missing) (record { sum = omega (arith, split, h.sum, less); within = within })
  | inr (count, at) ↦
      rw (put, at)
        (record {
          sum = omega (arith, split, h.sum, pooled-insert size count (suc count) s.pools at);
          within = h.within;
        })
]

-- A cleanup releases all that is pooled: what stays reserved is what is held.
pub cleanup_pools-current :
    (s : Memory) (held : List ℕ)
    → IsBalanced s held
    → ((cleanup_pools s).manager.current ≡ total held) × IsBalanced (cleanup_pools s) held
unfolding cleanup_pools
cleanup_pools-current s held h =
    let (less, within) = drain_all-current s.pools s.manager h.within (omega (arith, h.sum)) in
    let only : (drain_all s.pools s.manager).current ≡ total held = omega (arith, less, h.sum) in
    (only, record { sum = omega (arith, only, pooled-emptied s.pools); within = within })

-- The n-th of the buffers in use, and the others.
unfoldable pub take_held : ℕ → List ℕ → Option (ℕ × List ℕ)
take_held n [] = none
take_held zero (size ∷ held) = some (size, held)
take_held (suc n) (size ∷ held) = elim (take_held n held) [
  | none ↦ none
  | some (found, rest) ↦ some (found, size ∷ rest)
]

-- Uses one after the other: a get, a put of the n-th buffer in use, a Reset, a cleanup.
pub data Use : Type 0 where
  gets : Bool → ℕ → Use
  puts : ℕ → Use
  resets cleans : Use

unfoldable pub run : List Use → Memory → List ℕ → Memory × List ℕ
run [] s held = (s, held)
run (gets hit size ∷ uses) s held =
    let (got, after) = get hit size s in run uses after (held_after size held got)
run (puts n ∷ uses) s held = elim (take_held n held) [
  | none ↦ run uses s held
  | some (size, rest) ↦ run uses (put size s) rest
]
run (resets ∷ uses) s held = run uses (cleanup_pools s) held
run (cleans ∷ uses) s held = run uses (cleanup s) held

abbrev pub AsksFew : Use → Type 0
AsksFew (gets hit size) = size < 4611686018427387904
AsksFew (puts n) = Unit
AsksFew resets = Unit
AsksFew cleans = Unit

take_held-total :
    (n : ℕ) (held : List ℕ) (size : ℕ) (rest : List ℕ)
    → take_held n held ≡ some (size, rest)
    → total held ≡ size + total rest
unfolding take_held
take_held-total n [] size rest h = absurd (ground (arith, h))
take_held-total zero (first ∷ held) size rest h =
    let same : first ≡ size = ground (arith, h) in
    let others : held ≡ rest = ground (arith, h) in rw (same, others) refl
take_held-total (suc n) (first ∷ held) size rest h = elim (Option-cases (take_held n held)) [
  | inl missing ↦ absurd (ground (arith, missing, h))
  | inr ((found, others), at) ↦
      let same : found ≡ size = ground (arith, at, h) in
      let left : first ∷ others ≡ rest = ground (arith, at, h) in
      omega (arith, same, ap total left, take_held-total n held found others at)
]

run-IsBalanced :
    (uses : List Use) (s : Memory) (held : List ℕ)
    → All AsksFew uses
    → IsBalanced s held
    → IsBalanced (run uses s held).0 (run uses s held).1
unfolding run Gets cleanup
run-IsBalanced [] s held few h = h
run-IsBalanced (gets hit size ∷ uses) s held few h =
    run-IsBalanced uses (get hit size s).1 (held_after size held (get hit size s).0) few.1
      (get-Gets hit size s held few.0 h)
run-IsBalanced (puts n ∷ uses) s held few h = elim (Option-cases (take_held n held)) [
  | inl missing ↦ rw (run, missing) (run-IsBalanced uses s held few.1 h)
  | inr ((size, rest), at) ↦
      rw (run, at)
        (run-IsBalanced uses (put size s) rest few.1
          (put-IsBalanced size s held rest (take_held-total n held size rest at) h))
]
run-IsBalanced (resets ∷ uses) s held few h =
    run-IsBalanced uses (cleanup_pools s) held few.1 (cleanup_pools-current s held h).1
run-IsBalanced (cleans ∷ uses) s held few h =
    let (_, cleaned) = cleanup_pools-current s held h in
    run-IsBalanced uses (cleanup s) held few.1 (record {
      sum = cleaned.sum;
      within = record { small = cleaned.within.small; within = cleaned.within.within };
    })

new_buffer_pool-IsBalanced :
    (max_memory_mb : ℕ)
    → max_memory_mb < 4398046511104
    → IsBalanced (new_buffer_pool (new_manager max_memory_mb)) []
unfolding new_buffer_pool new_manager sizes
new_buffer_pool-IsBalanced max_memory_mb small = record {
  sum = refl;
  within = record { small = small; within = omega arith };
}

-- After any gets, puts of buffers in use, resets and cleanups, one after the other, with no turn of
-- the monitor and while the runtime takes no pooled buffer away, what is reserved is the bytes of the buffers in use and of those pooled, and is not
-- more than the limit, where the limit and each size asked for are below 2^62 bytes.
pub run-new_buffer_pool :
    (uses : List Use) (max_memory_mb : ℕ)
    → max_memory_mb < 4398046511104
    → All AsksFew uses
    → let (s, held) = run uses (new_buffer_pool (new_manager max_memory_mb)) [] in
      (s.manager.current ≡ total held + pooled s.pools)
      × (s.manager.current ≤ s.manager.max_memory_mb * 1048576)
run-new_buffer_pool uses max_memory_mb small few =
    let h =
      run-IsBalanced uses (new_buffer_pool (new_manager max_memory_mb)) [] few
        (new_buffer_pool-IsBalanced max_memory_mb small) in
    (h.sum, h.within.within)
