-- ===== src/Prelude/Order.antt =====
-- The order of Go's strings, byte by byte, which on UTF-8 is that of the code points.
use Prim.Native.Nat.{ℕ, Ordering, compare as compare_ℕ}
use Prim.Native.Char.{code}
use Prim.Native.String.compare
use Prim.Native.String.{String, [], ◌∷◌, compare, then}
use mathlib.Core.Path.{◌≡◌, refl, sym, ap, ◌∙◌}
use mathlib.Core.Logic.{◌≢◌, ◌⊎◌, inl, inr}
use mathlib.Core.Bool.{Bool, true, false, true≢false}
use native.Mathlib.Omega.{arith}
use text.Mathlib.Text.{is_lt}
use text.Mathlib.TextPositions.{compare_refl}
use text.Mathlib.TextEquality.{codes_equal, path_by_compare}

-- `<` of strings.
abbrev pub lt_string : String → String → Bool
lt_string s t = is_lt (compare s t)

-- Numbers: what `compare` answers.
compare_trans :
    (m n k : ℕ)
    → compare_ℕ m n ≡ Ordering.lt
    → compare_ℕ n k ≡ Ordering.lt
    → compare_ℕ m k ≡ Ordering.lt
compare_trans m n k h g = ground arith

compare_flip : (m n : ℕ) → compare_ℕ m n ≡ Ordering.gt → compare_ℕ n m ≡ Ordering.lt
compare_flip m n h = ground arith

irrefl_ℕ : (m : ℕ) → compare_ℕ m m ≡ Ordering.lt → ⊥
irrefl_ℕ m h = ground arith

lt≢gt : Ordering.lt ≢ Ordering.gt
lt≢gt h = ground arith

eq≢gt : Ordering.eq ≢ Ordering.gt
eq≢gt h = ground arith

compare_same : (m : ℕ) → compare_ℕ m m ≡ Ordering.eq
compare_same m = ground arith

neither : (o : Ordering) → is_lt o ≡ false → (o ≡ Ordering.gt → ⊥) → o ≡ Ordering.eq
neither Ordering.lt h g = ground arith
neither Ordering.eq h g = refl
neither Ordering.gt h g = absurd (g refl)

then_lt :
    (o r : Ordering)
    → then o r ≡ Ordering.lt
    → (o ≡ Ordering.lt) ⊎ ((o ≡ Ordering.eq) × (r ≡ Ordering.lt))
then_lt Ordering.lt r h = inl refl
then_lt Ordering.eq r h = inr (refl, h)
then_lt Ordering.gt r h = ground arith

lt-compare : (s t : String) → lt_string s t ≡ true → compare s t ≡ Ordering.lt
lt-compare s t h = ground arith

then_gt :
    (o r : Ordering)
    → then o r ≡ Ordering.gt
    → (o ≡ Ordering.gt) ⊎ ((o ≡ Ordering.eq) × (r ≡ Ordering.gt))
then_gt Ordering.lt r h = ground arith
then_gt Ordering.eq r h = inr (refl, h)
then_gt Ordering.gt r h = inl refl

eq_ℕ : (m n : ℕ) → compare_ℕ m n ≡ Ordering.eq → m ≡ n
eq_ℕ m n h = ground arith

then_trans :
    (m n k : ℕ) (o r q : Ordering)
    → then (compare_ℕ m n) o ≡ Ordering.lt
    → then (compare_ℕ n k) r ≡ Ordering.lt
    → (o ≡ Ordering.lt → r ≡ Ordering.lt → q ≡ Ordering.lt)
    → then (compare_ℕ m k) q ≡ Ordering.lt
then_trans m n k o r q h g f = elim (then_lt (compare_ℕ m n) o h) [
  | inl lower ↦ elim (then_lt (compare_ℕ n k) r g) [
    | inl low ↦ rw (compare_trans m n k lower low) refl
    | inr (same, rest) ↦ rw (← eq_ℕ n k same) (rw lower refl)
  ]
  | inr (equal, next) ↦ rw (eq_ℕ m n equal) (elim (then_lt (compare_ℕ n k) r g) [
    | inl low ↦ rw low refl
    | inr (same, rest) ↦ rw same (f next rest)
  ])
]

compare_trans_String :
    (s t u : String)
    → compare s t ≡ Ordering.lt
    → compare t u ≡ Ordering.lt
    → compare s u ≡ Ordering.lt
compare_trans_String [] [] u h g = g
compare_trans_String [] (d ∷ t) [] h g = absurd (lt≢gt (sym g ∙ compare.cons-nil d t))
compare_trans_String [] (d ∷ t) (e ∷ u) h g = compare.nil-cons e u
compare_trans_String (c ∷ s) [] u h g = absurd (lt≢gt (sym h ∙ compare.cons-nil c s))
compare_trans_String (c ∷ s) (d ∷ t) [] h g = absurd (lt≢gt (sym g ∙ compare.cons-nil d t))
compare_trans_String (c ∷ s) (d ∷ t) (e ∷ u) h g =
    compare.cons-cons c e s u
    ∙ then_trans (code c) (code d) (code e) (compare s t) (compare t u) (compare s u)
        (sym (compare.cons-cons c d s t) ∙ h) (sym (compare.cons-cons d e t u) ∙ g)
        (compare_trans_String s t u)

compare_flip_String : (s t : String) → compare s t ≡ Ordering.gt → compare t s ≡ Ordering.lt
compare_flip_String [] [] h = absurd (eq≢gt (sym compare.nil-nil ∙ h))
compare_flip_String [] (d ∷ t) h = absurd (lt≢gt (sym (compare.nil-cons d t) ∙ h))
compare_flip_String (c ∷ s) [] h = compare.nil-cons c s
compare_flip_String (c ∷ s) (d ∷ t) h =
    compare.cons-cons d c t s
    ∙ elim (then_gt (compare_ℕ (code c) (code d)) (compare s t)
        (sym (compare.cons-cons c d s t) ∙ h)) [
          | inl higher ↦ rw (compare_flip (code c) (code d) higher) refl
          | inr (same, rest) ↦
              rw (codes_equal c d same) (rw (compare_same (code d)) (compare_flip_String s t rest))
        ]

pub lt_string_trans :
    (s t u : String) → lt_string s t ≡ true → lt_string t u ≡ true → lt_string s u ≡ true
lt_string_trans s t u h g =
    rw (compare_trans_String s t u (lt-compare s t h) (lt-compare t u g)) refl

pub lt_string_irrefl : (s : String) → lt_string s s ≡ false
lt_string_irrefl s = rw (compare_refl s) refl

-- Of two different strings one is less.
pub lt_string_total : (s t : String) → lt_string s t ≡ false → lt_string t s ≡ false → s ≡ t
lt_string_total s t h g = path_by_compare s t (
    neither (compare s t) h
      (λ above. absurd (true≢false (sym (ap is_lt (compare_flip_String s t above)) ∙ g))))
