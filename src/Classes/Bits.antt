-- ===== src/Classes/Bits.antt =====
-- The binary digits of numbers and of their bitwise or.
use Prim.Native.Nat.{bit_or, bit_or-bitwise, digits, max}
use sssonector.Prelude.{
  Bool, Bool-cases, ap, arith, eqb, eqb_iff, false, inl, inr, ltb, ltb→lt, refl, suc, true, zero, ℕ,
  ◌%◌, ◌*◌, ◌+◌, ◌/◌, ◌<◌, ◌||◌, ◌∙◌, ◌≡◌, ◌≤◌,
}

-- Whether the i-th digit is one.
unfoldable pub has_bit : ℕ → ℕ → Bool
has_bit zero n = eqb (n % 2) 1
has_bit (suc i) n = has_bit i (n / 2)

unfoldable pub pow2 : ℕ → ℕ
pow2 zero = 1
pow2 (suc n) = pow2 n * 2

-- The count of digits to go matters no more where it is large enough.
digits_enough :
    (n m a b : ℕ) → a ≤ n → a ≤ m → digits (λ b. b) max n a b ≡ digits (λ b. b) max m a b
digits_enough zero zero a b h g = refl
digits_enough zero (suc m) zero b h g = refl
digits_enough zero (suc m) (suc a) b h g = absurd (omega (arith, h))
digits_enough (suc n) zero zero b h g = refl
digits_enough (suc n) zero (suc a) b h g = absurd (omega (arith, g))
digits_enough (suc n) (suc m) zero b h g = refl
digits_enough (suc n) (suc m) (suc a) b h g =
    ap (λ d. d * 2 + max (suc a % 2) (b % 2))
      (digits_enough n m (suc a / 2) (b / 2) (omega (arith, h)) (omega (arith, g)))

abbrev or_digits : ℕ → ℕ → ℕ
or_digits a b = digits (λ b. b) max a a b

or_digits_split : (a b : ℕ) → or_digits a b ≡ or_digits (a / 2) (b / 2) * 2 + max (a % 2) (b % 2)
or_digits_split zero b = omega arith
or_digits_split (suc a) b =
    ap (λ d. d * 2 + max (suc a % 2) (b % 2))
      (digits_enough a (suc a / 2) (suc a / 2) (b / 2) (omega arith) (omega arith))

low_digit : (a b : ℕ) → max (a % 2) (b % 2) < 2
low_digit a b = omega arith

has_bit-or_digits : (i a b : ℕ) → has_bit i (or_digits a b) ≡ has_bit i a || has_bit i b
unfolding has_bit
has_bit-or_digits zero a b = rw (or_digits_split a b) (ground arith)
has_bit-or_digits (suc i) a b =
    let half : or_digits a b / 2 ≡ or_digits (a / 2) (b / 2) =
      omega (arith, or_digits_split a b, low_digit a b) in
    rw half (has_bit-or_digits i (a / 2) (b / 2))

pub has_bit-bit_or : (i a b : ℕ) → has_bit i (bit_or a b) ≡ has_bit i a || has_bit i b
has_bit-bit_or i a b = ap (has_bit i) (bit_or-bitwise a b) ∙ has_bit-or_digits i a b

-- Below 2^s, and with a digit at the top.
pub has_bit_above : (s i n : ℕ) → n < pow2 s → s ≤ i → has_bit i n ≡ false
unfolding has_bit pow2
has_bit_above zero zero n h g = ground (arith, h)
has_bit_above zero (suc i) n h g = has_bit_above zero i (n / 2) (omega (arith, h)) (omega arith)
has_bit_above (suc s) zero n h g = absurd (omega (arith, g))
has_bit_above (suc s) (suc i) n h g =
    has_bit_above s i (n / 2) (omega (arith, h)) (omega (arith, g))

pub has_bit_top : (s n : ℕ) → pow2 s ≤ n → n < pow2 (suc s) → has_bit s n ≡ true
unfolding has_bit pow2
has_bit_top zero n h g = ground (arith, h, g)
has_bit_top (suc s) n h g = has_bit_top s (n / 2) (omega (arith, h)) (omega (arith, g))

or_digits_below : (s a b : ℕ) → a < pow2 s → b < pow2 s → or_digits a b < pow2 s
unfolding pow2
or_digits_below zero a b h g = let none_left : a ≡ 0 = omega (arith, h) in rw none_left g
or_digits_below (suc s) a b h g =
    let ih = or_digits_below s (a / 2) (b / 2) (omega (arith, h)) (omega (arith, g)) in
    rw (or_digits_split a b) (omega (arith, ih, low_digit a b))

pub bit_or_below : (s a b : ℕ) → a < pow2 s → b < pow2 s → bit_or a b < pow2 s
bit_or_below s a b h g = rw (bit_or-bitwise a b) (or_digits_below s a b h g)

-- A number of s digits that are all ones.
pub ones : (s n : ℕ) → n < pow2 s → ((i : ℕ) → i < s → has_bit i n ≡ true) → suc n ≡ pow2 s
unfolding has_bit pow2
ones zero n h g = omega (arith, h)
ones (suc s) n h g =
    let low : n % 2 ≡ 1 = (eqb_iff (n % 2) 1).0 (g 0 (omega arith)) in
    let high = ones s (n / 2) (omega (arith, h)) (λ i below. g (suc i) (omega (arith, below))) in
    omega (arith, low, high)

-- Dividing by d moves the digits by k places.
pub record IsShift (d k : ℕ) : Type 0 where
  pub moves : (i n : ℕ) → has_bit i (n / d) ≡ has_bit (i + k) n
  pub shrinks : (n : ℕ) → n / d ≤ n

pub two-IsShift : IsShift 2 1
unfolding has_bit
two-IsShift = record {
  moves = λ i n. let next : suc i ≡ i + 1 = omega arith in ap (λ j. has_bit j n) next;
  shrinks = λ n. omega arith;
}

pub twice-IsShift :
    (d k dd kk : ℕ) → IsShift d k → ((n : ℕ) → n / dd ≡ n / d / d) → kk ≡ k + k → IsShift dd kk
twice-IsShift d k dd kk h split double = record {
  moves = λ i n.
      ap (has_bit i) (split n)
      ∙ (h.moves i (n / d) ∙ (h.moves (i + k) n ∙ ap (λ j. has_bit j n) (omega (arith, double))));
  shrinks = λ n. omega (arith, split n, h.shrinks n, h.shrinks (n / d));
}

pub pow2_mono : (a b : ℕ) → a ≤ b → pow2 a ≤ pow2 b
unfolding pow2
pow2_mono zero zero h = omega arith
pow2_mono zero (suc b) h = omega (arith, pow2_mono zero b (omega arith))
pow2_mono (suc a) zero h = absurd (omega (arith, h))
pow2_mono (suc a) (suc b) h = omega (arith, pow2_mono a b (omega (arith, h)))

-- A number that is not 0 lies between two powers.
pub highest_digit :
    (b n : ℕ) → 1 ≤ n → n < pow2 b → (s : ℕ) × (s < b) × (pow2 s ≤ n) × (n < pow2 (suc s))
unfolding pow2
highest_digit zero n h g = absurd (omega (arith, h, g))
highest_digit (suc b) n h g = elim (Bool-cases (ltb n (pow2 b))) [
  | inl low ↦
      let (s, below, least, most) = highest_digit b n h (ltb→lt n (pow2 b) low) in
      (s, omega (arith, below), least, most)
  | inr high ↦ (b, omega arith, ground (arith, high), g)
]
