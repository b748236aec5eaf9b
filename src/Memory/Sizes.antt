-- ===== src/Memory/Sizes.antt =====
-- internal/memory/pool.go: the standard sizes.
use sssonector.Prelude.{
  All, Bool, Bool-cases, List, Option, [], arith, inl, inr, leb, leb→le, member, none, refl, some,
  true, ℕ, ◌&&◌, ◌<◌, ◌∷◌, ◌≡◌, ◌≤◌,
}
use sssonector.Prelude.{nat_eq}
use sssonector.Memory.{first_fitting, get_closest_pool_size, sizes}

-- The answer is the least size of the list that the size is not above, or there is none.
abbrev pub IsClosest : ℕ → List ℕ → Option ℕ → Type 0
IsClosest size pool_sizes none = All (λ q. q < size) pool_sizes
IsClosest size pool_sizes (some p) =
    (size ≤ p) × (member p pool_sizes ≡ true) × All (λ q. size ≤ q → p ≤ q) pool_sizes

abbrev all_above : ℕ → List ℕ → Bool
all_above p [] = true
all_above p (q ∷ rest) = leb p q && all_above p rest

abbrev ascends : List ℕ → Bool
ascends [] = true
ascends (p ∷ rest) = all_above p rest && ascends rest

closest_first :
    (p size : ℕ) (rest : List ℕ) → all_above p rest ≡ true → All (λ q. size ≤ q → p ≤ q) rest
closest_first p size [] h = tt
closest_first p size (q ∷ rest) h =
    (λ _. leb→le p q (ground (arith, h)), closest_first p size rest (ground (arith, h)))

first_fitting-IsClosest :
    (size : ℕ) (pool_sizes : List ℕ)
    → ascends pool_sizes ≡ true
    → IsClosest size pool_sizes (first_fitting size pool_sizes)
unfolding first_fitting
first_fitting-IsClosest size [] h = tt
first_fitting-IsClosest size (p ∷ rest) h = elim (Bool-cases (leb size p)) [
  | inl fits ↦
      rw (first_fitting, fits)
        (
          leb→le size p fits,
          ground arith,
          (λ _. omega arith, closest_first p size rest (ground (arith, h))),
        )
  | inr small ↦
      rw (first_fitting, small)
        (later (first_fitting size rest) (first_fitting-IsClosest size rest (ground (arith, h)))
          (ground (arith, small)))
]
  where
    later :
        (answer : Option ℕ)
        → IsClosest size rest answer
        → p < size
        → IsClosest size (p ∷ rest) answer
    later none g less = (less, g)
    later (some q) g less =
        (g.0, ground (arith, g.1), (λ fits. absurd (omega (arith, fits, less)), g.2))

-- GetClosestPoolSize answers the least of the standard sizes that is not below the size, and none if
-- all of them are below it.
pub get_closest_pool_size-IsClosest : (size : ℕ) → IsClosest size sizes (get_closest_pool_size size)
unfolding get_closest_pool_size sizes
get_closest_pool_size-IsClosest size = first_fitting-IsClosest size _ refl
