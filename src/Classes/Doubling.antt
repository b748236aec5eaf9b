-- ===== src/Classes/Doubling.antt =====
-- internal/buffer/pool.go: the size class of a size.
use sssonector.Prelude.{
  Bool-cases, ap, arith, inl, inr, leb, leb→le, ltb, suc, zero, ℕ, ◌*◌, ◌+◌, ◌∙◌, ◌≡◌, ◌≤◌,
}
use sssonector.Classes.{doublings, get_size_class, next_power_of_two}
use sssonector.Classes.Bits.{pow2, pow2_mono}
use sssonector.Classes.PowerOfTwo.{next_power_of_two-IsLeastPower}

-- `s << k`
abbrev pub shifted : ℕ → ℕ → ℕ
shifted s zero = s
shifted s (suc k) = shifted (s * 2) k

pub shifted_grows : (s k : ℕ) → s ≤ shifted s k
shifted_grows s zero = omega arith
shifted_grows s (suc k) = omega (arith, shifted_grows (s * 2) k)

shifted-pow2 : (e k : ℕ) → shifted (pow2 e) k ≡ pow2 (e + k)
unfolding pow2
shifted-pow2 e zero = ap pow2 (omega arith)
shifted-pow2 e (suc k) =
    let next : suc e + k ≡ e + suc k = omega arith in shifted-pow2 (suc e) k ∙ ap pow2 next

-- The loop ends with its condition false, where the fuel is enough.
doublings_exits :
    (fuel s bound : ℕ) → bound ≤ shifted s fuel → bound ≤ shifted s (doublings fuel s bound)
unfolding doublings
doublings_exits zero s bound h = h
doublings_exits (suc fuel) s bound h = elim (Bool-cases (ltb s bound)) [
  | inl less ↦ rw less (doublings_exits fuel (s * 2) bound h)
  | inr done ↦ rw done (ground (arith, done))
]

-- It does not pass a bound that it meets.
doublings_stops :
    (fuel s k bound : ℕ) → bound ≡ shifted s k → shifted s (doublings fuel s bound) ≤ bound
unfolding doublings
doublings_stops zero s k bound h = omega (arith, h, shifted_grows s k)
doublings_stops (suc fuel) s zero bound h = elim (Bool-cases (ltb s bound)) [
  | inl less ↦ absurd (ground (arith, h, less))
  | inr done ↦ rw done (omega (arith, h))
]
doublings_stops (suc fuel) s (suc k) bound h = elim (Bool-cases (ltb s bound)) [
  | inl less ↦ rw less (doublings_stops fuel (s * 2) k bound h)
  | inr done ↦ rw done (omega (arith, h, shifted_grows s (suc k)))
]

-- Sizes that the bounds of the model admit.
abbrev pub IsSize : ℕ → Type 0
IsSize n = (1 ≤ n) × (n ≤ 4294967296)

next_power_of_two_bounds :
    (n : ℕ) → IsSize n → (n ≤ next_power_of_two n) × (next_power_of_two n ≤ 4294967296)
unfolding pow2
next_power_of_two_bounds n h =
    let (e, same, least, first) = next_power_of_two-IsLeastPower n h.0 h.1 in
    (omega (arith, same, least), omega (arith, same, first 32 h.1))

enough_room :
    (n min_size : ℕ)
    → IsSize min_size
    → n ≤ 4294967296
    → n ≤ shifted (next_power_of_two min_size) 32
enough_room n min_size h g = omega (arith, g, (next_power_of_two_bounds min_size h).0, h.0)

-- The size of a size's class is not less than the size.
pub class_fits :
    (n min_size : ℕ)
    → IsSize min_size
    → n ≤ 4294967296
    → n ≤ shifted (next_power_of_two min_size) (get_size_class n min_size).class
unfolding get_size_class
class_fits n min_size h g = elim (Bool-cases (leb n min_size)) [
  | inl small ↦
      rw small (omega (arith, leb→le n min_size small, (next_power_of_two_bounds min_size h).0))
  | inr large ↦
      let (above, below) = next_power_of_two_bounds n (ground (arith, large, h), g) in
      rw large (
        omega (
          arith,
          above,
          doublings_exits 32 (next_power_of_two min_size) (next_power_of_two n)
              (enough_room (next_power_of_two n) min_size h below),
        ))
]

next_power_of_two-pow2 : (f : ℕ) → pow2 f ≤ 4294967296 → next_power_of_two (pow2 f) ≡ pow2 f
unfolding pow2
next_power_of_two-pow2 f h =
    let (e, same, least, first) =
      next_power_of_two-IsLeastPower (pow2 f) (pow2_mono 0 f (omega arith)) h in
    omega (arith, same, least, first f (omega arith))

-- The size of a class has that class.
pub class_of_shifted :
    (n min_size k : ℕ)
    → IsSize min_size
    → n ≤ 4294967296
    → min_size ≤ n
    → n ≡ shifted (next_power_of_two min_size) k
    → shifted (next_power_of_two min_size) (get_size_class n min_size).class ≡ n
unfolding get_size_class
class_of_shifted n min_size k h g least at = elim (Bool-cases (leb n min_size)) [
  | inl small ↦ rw small (
      omega (
        arith,
        leb→le n min_size small,
        (next_power_of_two_bounds min_size h).0,
        least,
        at,
        shifted_grows (next_power_of_two min_size) k,
      ))
  | inr large ↦
      let (e, same, _, _) = next_power_of_two-IsLeastPower min_size h.0 h.1 in
      let power : n ≡ pow2 (e + k) = at ∙ (ap (λ m. shifted m k) same ∙ shifted-pow2 e k) in
      let own : next_power_of_two n ≡ n =
        rw power (next_power_of_two-pow2 (e + k) (omega (arith, power, g))) in
      let low = doublings_stops 32 (next_power_of_two min_size) k n at in
      let high = doublings_exits 32 (next_power_of_two min_size) n (enough_room n min_size h g) in
      rw (large, own) (omega (arith, low, high))
]
