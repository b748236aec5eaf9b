-- ===== src/Message/Wire.antt =====
-- Reading bytes from a slice: what is left of it stands for the source's `data` and `offset`, which
-- never passes the end. An index past the end is a panic.
use sssonector.Prelude.{Bool, List, [], drop, eqb, if◌then◌else◌, length, ltb, take, ℕ, ◌∷◌}

-- `refused` is an error, `panics` a panic of the Go runtime. `stuck` is no Go value: a loop ran out of
-- fuel.
pub data Result {ℓ} (A : Type ℓ) : Type ℓ where
  ok : A → Result A
  refused panics stuck : Result A

abbrev pub Parser {ℓ} : Type ℓ → Type ℓ
Parser A = List ℕ → Result (A × List ℕ)

abbrev pub pure {ℓ} : {A : Type ℓ} → A → Parser A
pure a bytes = ok (a, bytes)

module _ {ℓ κ} {A : Type ℓ} {B : Type κ} where
  infixl 5 ◌>>=◌ ◌>>◌
  unfoldable pub ◌>>=◌ : Parser A → (A → Parser B) → Parser B
  ◌>>=◌ p f bytes = elim (p bytes) [
    | ok (a, rest) ↦ f a rest
    | refused ↦ refused
    | panics ↦ panics
    | stuck ↦ stuck
  ]

  abbrev pub ◌>>◌ : Parser A → Parser B → Parser B
  p >> q = p >>= λ _. q

abbrev pub refuse_if : Bool → Parser (Unit {0})
refuse_if bad bytes = if bad then refused else ok (tt, bytes)

-- `data[offset]`, and `data[offset]` with `offset++`.
unfoldable pub peek : Parser ℕ
peek [] = panics
peek (b ∷ bytes) = ok (b, b ∷ bytes)

unfoldable pub next : Parser ℕ
next [] = panics
next (b ∷ bytes) = ok (b, bytes)

-- A byte that has to be there.
unfoldable pub expect : ℕ → Parser (Unit {0})
expect tag [] = panics
expect tag (b ∷ bytes) = if eqb b tag then ok (tt, bytes) else refused

-- `offset+n > len(data)` is an error.
unfoldable pub within : ℕ → Parser (Unit {0})
within n bytes = if ltb (length bytes) n then refused else ok (tt, bytes)

-- `data[offset : offset+n]` with `offset += n`.
unfoldable pub slice : ℕ → Parser (List ℕ)
slice n bytes = if ltb (length bytes) n then panics else ok (take n bytes, drop n bytes)

-- A length byte, the test of it, and so many bytes.
unfoldable pub text_of : Parser (List ℕ)
text_of = next >>= λ n. within n >>= λ _. slice n
