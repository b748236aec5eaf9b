-- ===== src/Classes/Examples.antt =====
-- The pools of package tunnel, which has them for 1500 to 9000 bytes.
use sssonector.Prelude.{List, [], arith, false, leb, map, none, refl, some, ℕ, ◌∷◌, ◌≡◌}
use sssonector.Classes.{
  Class, PoolConfig, class_at, doublings, get, get_item, get_size_class, make_classes, new_pool,
  next_power_of_two, put, set_items,
}
use sssonector.Classes.PowerOfTwo.{IsLeastPower, next_power_of_two-IsLeastPower}
use sssonector.Classes.Sharing.{Completes, Use, returns, run, run-new_pool, takes}
use sssonector.Buffers.{get_elem?, remove_at}

abbrev config : PoolConfig
config = record { min_size = 1500; max_size = 9000 }

abbrev sizes : List Class → List ℕ
sizes cs = map (λ (c : Class). c.size) cs

default_sizes_test : sizes ((new_pool config).pools) ≡ 2048 ∷ 4096 ∷ 8192 ∷ 16384 ∷ []
unfolding new_pool next_power_of_two doublings make_classes
default_sizes_test = refl

next_power_of_two-IsLeastPower_example : IsLeastPower 1500 (next_power_of_two 1500)
next_power_of_two-IsLeastPower_example =
    next_power_of_two-IsLeastPower 1500 (omega arith) (omega arith)

abbrev uses : List Use
uses = takes none 1500 ∷ takes none 4000 ∷ returns 1 ∷ takes (some 0) 1400 ∷ takes none 9000 ∷ []

run-new_pool_example : Completes (run uses (new_pool config) [])
run-new_pool_example = run-new_pool uses config (omega arith) (omega arith)

-- A slice with the capacity 3 is put with those of 4 bytes, and a get of 4 bytes then panics.
foreign_test :
    get (some 0) 4 (
      put
        (record { array = 0 ∷ 0 ∷ 0 ∷ []; shown = 3 })
        (new_pool (record { min_size = 2; max_size = 8 })))
    ≡ none
unfolding get put get_size_class new_pool next_power_of_two doublings make_classes class_at
    set_items get_item get_elem? remove_at
foreign_test = refl

-- A slice for the greatest size is never pooled, if that is no power of two.
jumbo_test : leb (next_power_of_two 9000) 9000 ≡ false
unfolding next_power_of_two
jumbo_test = refl
