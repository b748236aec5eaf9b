-- ===== src/Classes.antt =====
-- internal/buffer/pool.go: pools of byte slices by size class. A slice is modelled as in Buffers, and so
-- is a sync.Pool with the choice of a Get. Sizes are ints that are not negative and below 2^62; a
-- loop that doubles runs at most 32 times, which is enough up to a size of 2^32.
pub mod Bits
pub mod PowerOfTwo
pub mod Doubling
pub mod Items
pub mod Sharing
mod Examples
use Prim.Native.Nat.{bit_or}
use sssonector.Prelude.{
  List, Option, [], if◌then◌else◌, leb, ltb, none, replicate, some, suc, zero, ℕ, ◌*◌, ◌+◌, ◌/◌,
  ◌||◌, ◌∷◌,
}
use sssonector.Buffers.{Slice, cap, get_elem?, remove_at}

pub record SizeClass : Type 0 where
  pub size : ℕ
  pub class : ℕ

-- One `sync.Pool`, with the size that its New captured.
pub record Class : Type 0 where
  pub size : ℕ
  pub items : List Slice

pub record Pool : Type 0 where
  pub pools : List Class
  pub min_size : ℕ
  pub max_size : ℕ

pub record PoolConfig : Type 0 where
  pub min_size : ℕ
  pub max_size : ℕ

-- `n |= n >> k`, of which the divisor is 2^k.
abbrev pub smear : ℕ → ℕ → ℕ
smear divisor n = bit_or n (n / divisor)

unfoldable pub next_power_of_two : ℕ → ℕ
next_power_of_two zero = 1
next_power_of_two (suc n) = suc (smear 65536 (smear 256 (smear 16 (smear 4 (smear 2 n)))))

-- How often `s *= 2` runs while `s < bound`.
unfoldable pub doublings : ℕ → ℕ → ℕ → ℕ
doublings zero s bound = 0
doublings (suc fuel) s bound =
    let rest = doublings fuel (s * 2) bound in if ltb s bound then suc rest else 0

unfoldable pub get_size_class : ℕ → ℕ → SizeClass
get_size_class size min_size =
    if leb size min_size
    then record { size = min_size; class = 0 }
    else let actual_size = next_power_of_two size in
      record { size = actual_size; class = doublings 32 (next_power_of_two min_size) actual_size }

-- `size << i` for the pools from here on.
unfoldable pub make_classes : ℕ → ℕ → List Class
make_classes zero size = []
make_classes (suc n) size = record { size = size; items = [] } ∷ make_classes n (size * 2)

unfoldable pub new_pool : PoolConfig → Pool
new_pool config =
    let min_size = if leb config.min_size 0 then 1500 else config.min_size in
    let max_size = if leb config.max_size 0 then min_size * 2 else config.max_size in
    let first = next_power_of_two min_size in
    let num_classes = 1 + doublings 32 first (next_power_of_two max_size) in
    record { pools = make_classes num_classes first; min_size = min_size; max_size = max_size }

-- `none` is a class beyond the pools.
unfoldable pub class_at : ℕ → List Class → Option Class
class_at n [] = none
class_at zero (c ∷ cs) = some c
class_at (suc n) (c ∷ cs) = class_at n cs

unfoldable pub set_items : ℕ → List Slice → List Class → List Class
set_items n items [] = []
set_items zero items (c ∷ cs) = record c { items = items } ∷ cs
set_items (suc n) items (c ∷ cs) = c ∷ set_items n items cs

-- `make([]byte, size)`, of a size that the runtime has the memory for.
abbrev pub make_slice : ℕ → Slice
make_slice size = record { array = replicate size 0; shown = size }

-- What a Get of a sync.Pool gives, and the items that stay.
unfoldable pub get_item : Option ℕ → Class → Slice × List Slice
get_item choice c =
    let new : Slice = record { array = replicate c.size 0; shown = 0 } in
    elim choice [
      | none ↦ (new, c.items)
      | some n ↦ elim (get_elem? c.items n) [
        | none ↦ (new, c.items)
        | some buf ↦ (buf, remove_at n c.items)
      ]
    ]

abbrev pub requested : ℕ → Pool → ℕ
requested size p = if leb size 0 then p.min_size else size

-- `buf[:size]` of the item, which panics beyond the capacity; that is `none`.
unfoldable pub get : Option ℕ → ℕ → Pool → Option (Slice × Pool)
get choice size p =
    let n = requested size p in
    let sc = get_size_class n p.min_size in
    if ltb p.max_size n then some (make_slice n, p) else elim (class_at sc.class p.pools) [
      | none ↦ some (make_slice n, p)
      | some c ↦
          let (buf, items) = get_item choice c in
          if ltb (cap buf) n
          then none
          else some
              (record buf { shown = n }, record p { pools = set_items sc.class items p.pools })
    ]

unfoldable pub put : Slice → Pool → Pool
put buf p =
    let sc = get_size_class (cap buf) p.min_size in
    if ltb p.max_size (cap buf) || ltb (cap buf) p.min_size
    then p
    else elim (class_at sc.class p.pools) [
      | none ↦ p
      | some c ↦ record p {
        pools = set_items sc.class (record buf { shown = 0 } ∷ c.items) p.pools;
      }
    ]

abbrev pub get_with_mtu : Option ℕ → ℕ → Pool → Option (Slice × Pool)
get_with_mtu choice mtu p = get choice (requested mtu p) p

unfoldable pub get_zero_copy : Option ℕ → Pool → Option (Slice × Pool)
get_zero_copy choice p = elim (get choice p.max_size p) [
  | none ↦ none
  | some (buf, q) ↦ some (record buf { shown = 0 }, q)
]

-- One choice for each buffer of the batch.
unfoldable pub get_batch : ℕ → List (Option ℕ) → Pool → Option (List Slice × Pool)
get_batch size [] p = some ([], p)
get_batch size (choice ∷ choices) p = elim (get choice size p) [
  | none ↦ none
  | some (buf, q) ↦ elim (get_batch size choices q) [
    | none ↦ none
    | some (bufs, r) ↦ some (buf ∷ bufs, r)
  ]
]

unfoldable pub put_batch : List Slice → Pool → Pool
put_batch [] p = p
put_batch (buf ∷ bufs) p = put_batch bufs (put buf p)
