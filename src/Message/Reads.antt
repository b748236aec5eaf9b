-- ===== src/Message/Reads.antt =====
-- internal/monitor/snmp_message.go: what the reader makes of bytes that were written.
use mathlib.Core.List.{append_assoc}
use sssonector.Prelude.{
  Bool, Bool-cases, List, [], ap, arith, drop, eqb, eqb_iff, false, inl, inr, length, length-append,
  le→ltb, ltb, not, refl, take, true, ℕ, ◌++◌, ◌+◌, ◌<◌, ◌∙◌, ◌∷◌, ◌≡◌, ◌≤◌,
}
use sssonector.Message.Wire.{
  Parser, Result, expect, next, ok, peek, refuse_if, slice, text_of, within, ◌>>=◌,
}
use sssonector.Message.Encode.{byte_of, element}
use sssonector.Message.{
  WireValue, decode_varbind, lift, not_at_end, read_value, validate_community, validate_oid,
}

pub take-append : (xs ys : List ℕ) → take (length xs) (xs ++ ys) ≡ xs
take-append [] ys = refl
take-append (x ∷ xs) ys = ap (◌∷◌ x) (take-append xs ys)

pub drop-append : (xs ys : List ℕ) → drop (length xs) (xs ++ ys) ≡ ys
drop-append [] ys = refl
drop-append (x ∷ xs) ys = drop-append xs ys

pub within-ok : (n : ℕ) (bytes : List ℕ) → n ≤ length bytes → within n bytes ≡ ok (tt, bytes)
unfolding within
within-ok n bytes h = rw (le→ltb (length bytes) n h) refl

pub slice-append : (xs ys : List ℕ) → slice (length xs) (xs ++ ys) ≡ ok (xs, ys)
unfolding slice
slice-append xs ys =
    rw (le→ltb (length (xs ++ ys)) (length xs) (omega (arith, length-append xs ys)))
      (rw (take-append xs ys, drop-append xs ys) refl)

pub byte_small : (n : ℕ) → n < 256 → byte_of n ≡ n
byte_small n h = omega (arith, h)

-- A step that succeeds, before the others.
module _ {ℓ κ} {A : Type ℓ} {B : Type κ} where
  pub step :
      (p : Parser A) (f : A → Parser B) {bytes rest : List ℕ} {a : A} {r : Result (B × List ℕ)}
      → p bytes ≡ ok (a, rest)
      → f a rest ≡ r
      → (p >>= f) bytes ≡ r
  unfolding ◌>>=◌
  step p f e h = rw (◌>>=◌, e) h

pub text_of-append :
    (xs ys : List ℕ) → length xs < 256 → text_of (byte_of (length xs) ∷ (xs ++ ys)) ≡ ok (xs, ys)
unfolding text_of next
text_of-append xs ys h = rw (byte_small (length xs) h) (
    step _ _ refl (
      step _ _ (within-ok (length xs) (xs ++ ys) (omega (arith, length-append xs ys)))
        (slice-append xs ys)))

-- A value that is read from bytes, and the variable with it.
abbrev pub IsRead : ℕ → List ℕ → WireValue → Type 0
IsRead tag text value = read_value tag text ≡ ok value

pub expect-same : (tag : ℕ) (bytes : List ℕ) → expect tag (tag ∷ bytes) ≡ ok (tt, bytes)
unfolding expect
expect-same tag bytes = rw ((eqb_iff tag tag).1 refl) refl

not_at_end-cons : (b : ℕ) (bytes : List ℕ) → not_at_end (b ∷ bytes) ≡ ok (tt, b ∷ bytes)
unfolding not_at_end
not_at_end-cons b bytes = refl

pub refuse_if-false :
    (bad : Bool) (bytes : List ℕ) → bad ≡ false → refuse_if bad bytes ≡ ok (tt, bytes)
refuse_if-false bad bytes h = rw h refl

pub peek-cons : (b : ℕ) (bytes : List ℕ) → peek (b ∷ bytes) ≡ ok (b, b ∷ bytes)
unfolding peek
peek-cons b bytes = refl

pub next-cons : (b : ℕ) (bytes : List ℕ) → next (b ∷ bytes) ≡ ok (b, bytes)
unfolding next
next-cons b bytes = refl

lift-ok :
    (r : Result WireValue) (value : WireValue) (bytes : List ℕ)
    → r ≡ ok value
    → lift r bytes ≡ ok (value, bytes)
lift-ok r value bytes h = rw h refl

varbind_length :
    (name text rest : List ℕ) (tag : ℕ)
    → length (name ++ (element tag text ++ rest)) ≡ length name + (2 + (length text + length rest))
varbind_length name text rest tag =
    omega (arith, length-append name (element tag text ++ rest), length-append text rest)

pub inner_length :
    (name text : List ℕ) (tag : ℕ)
    → length (element 6 name ++ element tag text) ≡ 4 + length name + length text
inner_length name text tag = omega (arith, length-append name (element tag text))

pub decode_varbind-varbind :
    (name text rest : List ℕ) (tag : ℕ) (value : WireValue)
    → validate_oid name ≡ true
    → tag < 256
    → IsRead tag text value
    → 4 + length name + length text < 256
    → decode_varbind (element 48 (element 6 name ++ element tag text) ++ rest)
      ≡ ok (record { name = name; tag = tag; value = value }, rest)
unfolding decode_varbind
decode_varbind-varbind name text rest tag value valid small read short =
    let all = varbind_length name text rest tag in
    let inner = inner_length name text tag in
    rw (append_assoc name (element tag text) rest) (
      step _ _ (expect-same 48 _) (
        step _ _ (next-cons _ _) (
          step _ _ (within-ok _ _ (omega (arith, all, inner, short))) (
            step _ _ (expect-same 6 _) (
              step _ _ (text_of-append name (element tag text ++ rest) (omega (arith, short))) (
                step _ _ (refuse_if-false (not (validate_oid name)) _ (rw valid refl)) (
                  step _ _ (not_at_end-cons _ _) (
                    step _ _ (next-cons _ _) (
                      step _ _ (text_of-append text rest (omega (arith, short))) (
                        step _ _
                          (lift-ok _ value rest
                            (ap (λ t. read_value t text) (byte_small tag small) ∙ read))
                          (ap (λ t. ok (record { name = name; tag = t; value = value }, rest))
                            (byte_small tag small))))))))))))

pub community_length : (s : List ℕ) → validate_community s ≡ true → length s ≤ 32
unfolding validate_community
community_length s h = elim (Bool-cases (eqb (length s) 0)) [
  | inl empty ↦ absurd (ground (arith, empty, h))
  | inr filled ↦ elim (Bool-cases (ltb 32 (length s))) [
    | inl long ↦ absurd (ground (arith, filled, long, h))
    | inr short ↦ ground (arith, short)
  ]
]
