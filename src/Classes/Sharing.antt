-- ===== src/Classes/Sharing.antt =====
-- internal/buffer/pool.go: gets and puts of buffers that the pool handed out.
use mathlib.Core.Path.{subst}
use sssonector.Prelude.{
  All, Bool-cases, List, Option, Option-cases, [], ap, arith, false, inl, inr, length, le→ltb, ltb,
  ltb→lt, none, refl, some, sym, ℕ, ◌<◌, ◌||◌, ◌∷◌, ◌≡◌, ◌≤◌, ◌⊎◌,
}
use sssonector.Classes.{
  Pool, PoolConfig, class_at, get, get_item, get_size_class, make_slice, new_pool,
  next_power_of_two, put, requested, set_items,
}
use sssonector.Classes.Doubling.{IsSize, class_fits, class_of_shifted, shifted}
use sssonector.Classes.Items.{
  AllHold, class_at_beyond, class_at-none, get_item-Holds, make_classes-AllHold, set_items-AllHold,
  set_items-length,
}
use sssonector.Buffers.{Slice, cap, get_elem?, remove_at}
use sssonector.Buffers.Runs.{get_elem?-All, length-replicate, remove_at-All}

-- What never changes of a pool: its bounds, and how many classes there are.
pub record Shape : Type 0 where
  pub min_size : ℕ
  pub max_size : ℕ
  pub count : ℕ

abbrev pub shape : Pool → Shape
shape p = record { min_size = p.min_size; max_size = p.max_size; count = length p.pools }

pub record IsFit (p : Pool) : Type 0 where
  pub min_bounds : IsSize p.min_size
  pub max_bound : p.max_size ≤ 4294967296
  pub classes : AllHold (next_power_of_two p.min_size) p.pools

-- A put leaves this buffer to the garbage collector, or its capacity is the size of a class.
abbrev pub IsReturnable : Shape → Slice → Type 0
IsReturnable s buf =
    (s.max_size < cap buf)
    ⊎ ((s.count ≤ (get_size_class (cap buf) s.min_size).class)
        ⊎ ((k : ℕ) × (cap buf ≡ shifted (next_power_of_two s.min_size) k)))

-- What a get hands out and leaves; a panic is none of it.
abbrev pub Serves : Pool → ℕ → Option (Slice × Pool) → Type 0
Serves p size none = ⊥
Serves p size (some (buf, q)) =
    (buf.shown ≡ requested size p)
    × (buf.shown ≤ cap buf)
    × IsReturnable (shape p) buf
    × IsFit q
    × (shape q ≡ shape p)

made :
    (n : ℕ) (p : Pool) (size : ℕ)
    → IsFit p
    → n ≡ requested size p
    → (p.max_size < n) ⊎ (length p.pools ≤ (get_size_class n p.min_size).class)
    → Serves p size (some (make_slice n, p))
made n p size fit same h =
    let long : cap (make_slice n) ≡ n = length-replicate n in
    (
      same,
      omega (arith, long),
      rw long (elim h [ inl over ↦ inl over | inr beyond ↦ inr (inl beyond) ]),
      fit,
      refl,
    )

set_items-IsFit :
    (p : Pool) (j : ℕ) (items : List Slice)
    → IsFit p
    → All (λ buf. cap buf ≡ shifted (next_power_of_two p.min_size) j) items
    → IsFit (record p { pools = set_items j items p.pools })
set_items-IsFit p j items fit h = record {
  min_bounds = fit.min_bounds;
  max_bound = fit.max_bound;
  classes = set_items-AllHold (next_power_of_two p.min_size) j items p.pools fit.classes h;
}

same_shape :
    (p : Pool) (j : ℕ) (items : List Slice)
    → shape (record p { pools = set_items j items p.pools }) ≡ shape p
same_shape p j items =
    ap (λ count. record { min_size = p.min_size; max_size = p.max_size; count = count })
      (set_items-length j items p.pools)

-- A get hands out a buffer that shows as many bytes as were asked for, and does not panic; the pool
-- stays fit, and the buffer may be put back.
pub get-Serves :
    (choice : Option ℕ) (size : ℕ) (p : Pool) → IsFit p → Serves p size (get choice size p)
unfolding get
get-Serves choice size p fit =
    let n = requested size p in
    let class = (get_size_class n p.min_size).class in
    elim (Bool-cases (ltb p.max_size n)) [
      | inl over ↦ rw over (made n p size fit refl (inl (ltb→lt p.max_size n over)))
      | inr within ↦ elim (Option-cases (class_at class p.pools)) [
        | inl missing ↦
            rw (within, missing)
              (made n p size fit refl (inr (class_at-none class p.pools missing)))
        | inr (c, at) ↦
            let room =
              class_fits n p.min_size fit.min_bounds (ground (arith, within, fit.max_bound)) in
            let (exact, rest) = get_item-Holds choice _ c (fit.classes class c at) in
            let wide : ltb (cap (get_item choice c).0) n ≡ false =
              le→ltb (cap (get_item choice c).0) n (omega (arith, exact, room)) in
            rw (within, at, wide)
              (
                refl,
                omega (arith, exact, room),
                inr (inr (class, exact)),
                set_items-IsFit p class _ fit rest,
                same_shape p class _,
              )
      ]
    ]

-- A put keeps the pool fit, where the buffer is one that may be put back.
pub put-IsFit :
    (buf : Slice) (p : Pool)
    → IsFit p
    → IsReturnable (shape p) buf
    → IsFit (put buf p) × (shape (put buf p) ≡ shape p)
unfolding put
put-IsFit buf p fit h =
    let n = cap buf in
    let class = (get_size_class n p.min_size).class in
    elim (Bool-cases (ltb p.max_size n || ltb n p.min_size)) [
      | inl out ↦ rw out (fit, refl)
      | inr within ↦ elim (Option-cases (class_at class p.pools)) [
        | inl missing ↦ rw (within, missing) (fit, refl)
        | inr (c, at) ↦
            let own : n ≡ shifted (next_power_of_two p.min_size) class = elim h [
              | inl over ↦ absurd (ground (arith, over, within))
              | inr (inl beyond) ↦ absurd (ground (arith, class_at_beyond class p.pools beyond, at))
              | inr (inr (k, power)) ↦ sym (
                  class_of_shifted n p.min_size k fit.min_bounds
                    (ground (arith, within, fit.max_bound)) (ground (arith, within)) power)
            ] in
            rw (within, at)
              (
                set_items-IsFit p class _ fit (own, (fit.classes class c at).1),
                same_shape p class _,
              )
      ]
    ]

pub new_pool-IsFit :
    (config : PoolConfig)
    → config.min_size ≤ 2147483648
    → config.max_size ≤ 4294967296
    → IsFit (new_pool config)
unfolding new_pool
new_pool-IsFit config h g = record {
  min_bounds = (ground arith, ground (arith, h));
  max_bound = ground (arith, h, g);
  classes = make_classes-AllHold _ _;
}

-- A user of the pool takes a buffer, or puts back the n-th of those that it holds.
pub data Use : Type 0 where
  takes : Option ℕ → ℕ → Use
  returns : ℕ → Use

-- What is left of the pool and held after all uses; `none` is a panic.
unfoldable pub run : List Use → Pool → List Slice → Option (Pool × List Slice)
run [] p held = some (p, held)
run (takes choice size ∷ uses) p held = elim (get choice size p) [
  | none ↦ none
  | some (buf, q) ↦ run uses q (buf ∷ held)
]
run (returns n ∷ uses) p held = elim (get_elem? held n) [
  | none ↦ run uses p held
  | some buf ↦ run uses (put buf p) (remove_at n held)
]

-- All uses come to an end without a panic, and leave a fit pool.
abbrev pub Completes : Option (Pool × List Slice) → Type 0
Completes none = ⊥
Completes (some (p, held)) = IsFit p

run-Completes :
    (uses : List Use) (p : Pool) (held : List Slice)
    → IsFit p
    → All (IsReturnable (shape p)) held
    → Completes (run uses p held)
unfolding run
run-Completes [] p held fit h = fit
run-Completes (takes choice size ∷ uses) p held fit h = elim (Option-cases (get choice size p)) [
  | inl panic ↦ absurd (subst (Serves p size) panic (get-Serves choice size p fit))
  | inr ((buf, q), at) ↦
      let (_, _, returnable, fit_q, same) =
        subst (Serves p size) at (get-Serves choice size p fit) in
      rw (run, at)
        (run-Completes uses q (buf ∷ held) fit_q
          (subst (λ s. All (IsReturnable s) (buf ∷ held)) (sym same) (returnable, h)))
]
run-Completes (returns n ∷ uses) p held fit h = elim (Option-cases (get_elem? held n)) [
  | inl missing ↦ rw (run, missing) (run-Completes uses p held fit h)
  | inr (buf, at) ↦
      let (fit_q, same) =
        put-IsFit buf p fit (get_elem?-All (IsReturnable (shape p)) n held buf h at) in
      rw (run, at)
        (run-Completes uses (put buf p) (remove_at n held) fit_q (
          subst (λ s. All (IsReturnable s) (remove_at n held)) (sym same)
            (remove_at-All (IsReturnable (shape p)) n held h)))
]

-- No use of a new pool panics: any gets, and puts of buffers that were got and not put back since,
-- run to the end, where the configured least size is at most 2^31 and the greatest at most 2^32.
pub run-new_pool :
    (uses : List Use) (config : PoolConfig)
    → config.min_size ≤ 2147483648
    → config.max_size ≤ 4294967296
    → Completes (run uses (new_pool config) [])
run-new_pool uses config h g =
    run-Completes uses (new_pool config) [] (new_pool-IsFit config h g) tt
