-- ===== src/Mib/Examples.antt =====
-- Runs of the tree, with the sort by insertion.
use sssonector.Prelude.{
  Float64, [], inl, inr, insert, leb, length, lookup, ltb, refl, some, ℕ, ◌/◌, ◌∷◌, ◌≡◌, ◌⊎◌,
}
use sssonector.Prelude.{string_eq}
use sssonector.Mib.{
  MibEntry, MibTree, add_counter64, add_gauge32, add_integer, add_string, first_after,
  get_next_entry, no_next, oids_for,
}
use sssonector.Mib.Insertion.{insertion, insertion_sort, put}
use sssonector.Mib.Tree.{Metrics, megabytes, new_mib_tree, update_metrics, updated_value}
use sssonector.Mib.Next.{IsLast, IsNext, IsTree, get_next_entry-IsNext}
use sssonector.Mib.Walk.{Visits, walk, walk-Visits}
use sssonector.Mib.Objects.{served, served-IsTree}

abbrev floats : Float64
floats = record { Float = ℕ; of_nat = λ n. n; div = ◌/◌; lt = ltb; le = leb }

abbrev metrics : Metrics floats
metrics = record {
  bytes_in = 100;
  bytes_out = 200;
  connections = 3;
  cpu_usage = 12;
  memory_usage = 5242880;
  connect_time = 7;
  disconnect_time = 4;
  last_error = "";
  start_time = 1700000000;
}

abbrev tree : MibTree
tree = served (λ n. n) (new_mib_tree (λ n. n) metrics) (record metrics { bytes_in = 150 } ∷ [])

tree-IsTree : IsTree tree
tree-IsTree = served-IsTree (λ n. n) metrics (record metrics { bytes_in = 150 } ∷ [])

-- The walk of the read community, from the start of the subtree of the status.
status_walk :
    walk insertion "public" tree 3 ".1.3.6.1.4.1.54321.2"
    ≡ ".1.3.6.1.4.1.54321.2.1" ∷ ".1.3.6.1.4.1.54321.2.2" ∷ ".1.3.6.1.4.1.54321.2.3" ∷ []
unfolding walk get_next_entry first_after oids_for served new_mib_tree update_metrics updated_value
    add_counter64 add_gauge32 add_integer add_string insert lookup insertion_sort put
status_walk = refl

-- The megabytes of five times 2^20 bytes.
memory_usage_value : megabytes 5242880 ≡ 5
memory_usage_value = refl

get_next_entry-IsNext_example :
    (IsLast ".1.3" "public" tree × (get_next_entry insertion ".1.3" "public" tree ≡ inl no_next))
    ⊎ ((e : MibEntry) × (get_next_entry insertion ".1.3" "public" tree ≡ inr e)
        × (lookup e.oid tree ≡ some e)
        × IsNext ".1.3" "public" tree e.oid)
get_next_entry-IsNext_example =
    get_next_entry-IsNext insertion ".1.3" "public" tree refl tree-IsTree

walk-Visits_example : Visits "public" tree "" (walk insertion "public" tree (length tree) "")
walk-Visits_example = walk-Visits insertion "public" tree refl tree-IsTree ""
