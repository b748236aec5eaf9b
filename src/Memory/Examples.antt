-- ===== src/Memory/Examples.antt =====
-- Memory limits at concrete sizes.
use sssonector.Prelude.{
  Bool, List, [], arith, false, lookup, ltb, refl, some, true, ◌*◌, ◌+◌, ◌∷◌, ◌≡◌, ◌≤◌,
}
use sssonector.Prelude.{nat_eq}
use sssonector.Memory.{
  Manager, check_and_reserve, exceeds, first_fitting, get, get_closest_pool_size, get_new, limit,
  new_buffer_pool, new_manager, settle, sizes,
}
use sssonector.Memory.Ledger.{pooled, total}
use sssonector.Memory.Balance.{Use, cleans, gets, puts, run, run-new_buffer_pool}
use sssonector.Memory.Sizes.{}

abbrev uses : List Use
uses = gets false 4096 ∷ gets false 10000 ∷ puts 1 ∷ gets true 4096 ∷ puts 0 ∷ cleans ∷ []

run-new_buffer_pool_example :
    let (s, held) = run uses (new_buffer_pool (new_manager 1)) [] in
    (s.manager.current ≡ total held + pooled s.pools)
    × (s.manager.current ≤ s.manager.max_memory_mb * 1048576)
run-new_buffer_pool_example =
    run-new_buffer_pool uses 1 (omega arith)
      (omega arith, (omega arith, (tt, (omega arith, (tt, (tt, tt))))))

closest_test : get_closest_pool_size 33792 ≡ some 65536
unfolding get_closest_pool_size first_fitting sizes
closest_test = refl

abbrev one_mb : Manager
one_mb = record (new_manager 1) { current = 600000 }

-- Two goroutines that load the counter before either adds to it are both let through.
abbrev both : Bool × Manager
both =
    let first = exceeds one_mb.current 400000 one_mb in
    let second = exceeds one_mb.current 300000 one_mb in
    settle second 300000 (settle first 400000 one_mb).1

race_test : ltb (limit one_mb) both.1.current ≡ true
unfolding exceeds settle new_manager
race_test = refl

-- The sum of a size near the greatest int64 is negative, and below every limit.
overflow_test : (check_and_reserve 9223372036854775807 one_mb).0 ≡ true
unfolding check_and_reserve exceeds settle new_manager
overflow_test = refl

-- One get that fails counts two rejections.
rejected_test : (get false 1048576 (new_buffer_pool one_mb)).1.manager.rejections ≡ 2
unfolding get get_new check_and_reserve exceeds settle new_manager new_buffer_pool sizes lookup
rejected_test = refl
