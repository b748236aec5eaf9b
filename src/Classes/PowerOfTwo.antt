-- ===== src/Classes/PowerOfTwo.antt =====
-- internal/buffer/pool.go: nextPowerOfTwo.
use sssonector.Prelude.{
  Bool-cases, ap, arith, inl, inr, leb, leb→le, refl, suc, sym, true, zero, ℕ, ◌+◌, ◌/◌, ◌<◌, ◌||◌,
  ◌∙◌, ◌≡◌, ◌≤◌,
}
use sssonector.Classes.{next_power_of_two, smear}
use sssonector.Classes.Bits.{
  IsShift, bit_or_below, has_bit, has_bit-bit_or, has_bit_top, highest_digit, ones, pow2, pow2_mono,
  twice-IsShift, two-IsShift,
}

-- Less than 2^s, with ones in the highest k of the s places.
record IsSmeared (s k n : ℕ) : Type 0 where
  below : n < pow2 s
  filled : (i : ℕ) → i < s → s ≤ i + k → has_bit i n ≡ true

-- One `n |= n >> k` doubles the ones.
smear-IsSmeared : (d s k n : ℕ) → IsShift d k → IsSmeared s k n → IsSmeared s (k + k) (smear d n)
smear-IsSmeared d s k n shift h = record {
  below = bit_or_below s n (n / d) h.below (omega (arith, shift.shrinks n, h.below));
  filled = λ i inside reach.
      has_bit-bit_or i n (n / d)
      ∙ (ap (λ b. has_bit i n || b) (shift.moves i n) ∙ elim (Bool-cases (leb s (i + k))) [
        | inl first ↦ rw (h.filled i inside (ground (arith, first))) refl
        | inr later ↦
            rw (h.filled (i + k) (ground (arith, later)) (omega (arith, reach))) (ground arith)
      ]);
}

four-IsShift : IsShift 4 2
four-IsShift = twice-IsShift 2 1 4 2 two-IsShift (λ n. omega arith) (omega arith)

sixteen-IsShift : IsShift 16 4
sixteen-IsShift = twice-IsShift 4 2 16 4 four-IsShift (λ n. omega arith) (omega arith)

byte-IsShift : IsShift 256 8
byte-IsShift = twice-IsShift 16 4 256 8 sixteen-IsShift (λ n. omega arith) (omega arith)

half_word-IsShift : IsShift 65536 16
half_word-IsShift = twice-IsShift 256 8 65536 16 byte-IsShift (λ n. omega arith) (omega arith)

-- With the highest digit at place s, and at most 32 digits, all digits become ones.
all_smeared :
    (s n : ℕ) → s < 32 → pow2 s ≤ n → n < pow2 (suc s) → next_power_of_two (suc n) ≡ pow2 (suc s)
unfolding next_power_of_two
all_smeared s n short least most =
    let start : IsSmeared (suc s) 1 n = record {
      below = most;
      filled = λ i inside reach.
          let top : s ≡ i = omega (arith, inside, reach) in
          ap (λ j. has_bit j n) (sym top) ∙ has_bit_top s n least most;
    } in
    let one = smear-IsSmeared 2 (suc s) 1 n two-IsShift start in
    let two = smear-IsSmeared 4 (suc s) 2 _ four-IsShift one in
    let four = smear-IsSmeared 16 (suc s) 4 _ sixteen-IsShift two in
    let eight = smear-IsSmeared 256 (suc s) 8 _ byte-IsShift four in
    let all = smear-IsSmeared 65536 (suc s) 16 _ half_word-IsShift eight in
    ones (suc s) _ all.below (λ i inside. all.filled i inside (omega (arith, short)))

-- The answer is a power of two, and none of those that the number is not above is less.
abbrev pub IsLeastPower : ℕ → ℕ → Type 0
IsLeastPower n answer =
    (e : ℕ) × (answer ≡ pow2 e) × (n ≤ pow2 e) × ((f : ℕ) → n ≤ pow2 f → pow2 e ≤ pow2 f)

-- nextPowerOfTwo finds the least power of two that is not less than its argument, for each
-- argument from 1 to 2^32.
pub next_power_of_two-IsLeastPower :
    (n : ℕ) → 1 ≤ n → n ≤ 4294967296 → IsLeastPower n (next_power_of_two n)
unfolding next_power_of_two pow2
next_power_of_two-IsLeastPower zero h g = absurd (omega (arith, h))
next_power_of_two-IsLeastPower (suc zero) h g =
    (0, refl, omega arith, λ f _. pow2_mono 0 f (omega arith))
next_power_of_two-IsLeastPower (suc (suc m)) h g =
    let (s, short, least, most) = highest_digit 32 (suc m) (omega arith) (omega (arith, g)) in
    (
      suc s,
      all_smeared s (suc m) short least most,
      most,
      λ f fits. elim (Bool-cases (leb f s)) [
        | inl low ↦ absurd (omega (arith, fits, least, pow2_mono f s (leb→le f s low)))
        | inr high ↦ pow2_mono (suc s) f (ground (arith, high))
      ],
    )
