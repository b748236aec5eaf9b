-- ===== src/Snmp/Oids.antt =====
-- Object identifiers survive being written and read.
use native.Mathlib.Nat.{pow-suc}
use sssonector.Prelude.{
  All, List, Option, String, [], ap, arith, dec_lt, false, length, le→ltb, ltb, lt→ltb, refl, some,
  suc, true, u64, zero, ℕ, ◌%◌, ◌*◌, ◌++◌, ◌+◌, ◌/◌, ◌<◌, ◌^◌, ◌∙◌, ◌∷◌, ◌≡◌, ◌≢◌, ◌≤◌,
}
use sssonector.Snmp.{
  base_128, decode_oid, decode_rest, encode_component, encode_oid, encode_rest, set_continuation,
}

-- The number that the reader has after these digits.
unfoldable pub read_digits : ℕ → List ℕ → ℕ
read_digits value [] = value
read_digits value (d ∷ ds) = read_digits (u64 (value * 128) + d) ds

read_digits-base_128 :
    (fuel num : ℕ) (bytes : List ℕ)
    → num < 128 ^ fuel
    → num < 18446744073709551616
    → read_digits 0 (base_128 fuel num bytes) ≡ read_digits num bytes
unfolding read_digits base_128
read_digits-base_128 zero num bytes h w = let none_left : num ≡ 0 = omega arith in rw none_left refl
read_digits-base_128 (suc fuel) num bytes h w =
    let h' : num < 128 ^ fuel * 128 = rw (pow-suc 128 fuel) at h in
    let below : num / 128 < 128 ^ fuel = omega arith in
    let ih = read_digits-base_128 fuel (num / 128) (num % 128 ∷ bytes) below (omega arith) in
    let exact : u64 (num / 128 * 128) + num % 128 ≡ num = omega arith in
    elim (dec_lt 0 num) [
      | yes more ↦ rw (lt→ltb 0 num more) (ih ∙ ap (λ v. read_digits v bytes) exact)
      | no last ↦
          let none_left : num ≡ 0 = omega arith in
          rw (le→ltb 0 num (omega arith)) (rw none_left refl)
    ]

base_128-digits :
    (fuel num : ℕ) (bytes : List ℕ)
    → All (λ d. d < 128) bytes
    → All (λ d. d < 128) (base_128 fuel num bytes)
      × (length bytes ≤ length (base_128 fuel num bytes))
unfolding base_128
base_128-digits zero num bytes h = (h, omega arith)
base_128-digits (suc fuel) num bytes h =
    let (a, b) = base_128-digits fuel (num / 128) (num % 128 ∷ bytes) (omega arith, h) in
    elim (dec_lt 0 num) [
      | yes more ↦ rw (lt→ltb 0 num more) (a, omega arith)
      | no last ↦ rw (le→ltb 0 num (omega arith)) (h, omega arith)
    ]

base_128-nonempty : (fuel num : ℕ) → 0 < num → 0 < length (base_128 (suc fuel) num [])
unfolding base_128
base_128-nonempty fuel num h =
    let one_more = (base_128-digits fuel (num / 128) (num % 128 ∷ []) (omega arith, tt)).1 in
    rw (lt→ltb 0 num h) (omega arith)

decode_rest-digits :
    (value d : ℕ) (ds rest : List ℕ)
    → All (λ d. d < 128) (d ∷ ds)
    → decode_rest value (set_continuation (d ∷ ds) ++ rest)
      ≡ read_digits value (d ∷ ds) ∷ decode_rest 0 rest
unfolding decode_rest set_continuation read_digits
decode_rest-digits value d [] rest h =
    let last : ltb d 128 ≡ true = lt→ltb d 128 h.0 in
    let digit : d % 128 ≡ d = omega (arith, h.0) in rw last (rw digit refl)
decode_rest-digits value d (e ∷ ds) rest h =
    let more : ltb (d + 128) 128 ≡ false = le→ltb (d + 128) 128 (omega arith) in
    let digit : (d + 128) % 128 ≡ d = omega (arith, h.0) in
    rw more (rw digit (decode_rest-digits (u64 (value * 128) + d) e ds rest h.1))

decode_rest-nonempty :
    (ds rest : List ℕ)
    → All (λ d. d < 128) ds
    → 0 < length ds
    → decode_rest 0 (set_continuation ds ++ rest) ≡ read_digits 0 ds ∷ decode_rest 0 rest
decode_rest-nonempty [] rest h n = absurd (omega arith)
decode_rest-nonempty (d ∷ ds) rest h n = decode_rest-digits 0 d ds rest h

encode_component-read :
    (num : ℕ) (rest : List ℕ)
    → num < 4294967296
    → decode_rest 0 (encode_component num ++ rest) ≡ num ∷ decode_rest 0 rest
unfolding encode_component read_digits set_continuation
encode_component-read num rest h = elim (dec_lt num 128) [
  | yes small ↦
      rw (lt→ltb num 128 small, encode_component)
        (decode_rest-digits 0 num [] rest (small, tt)
          ∙ ap (λ v. v ∷ decode_rest 0 rest) (omega arith))
  | no large ↦
      let ds = base_128 5 num [] in
      let fits : num < 128 ^ 5 = omega arith in
      let value : read_digits 0 ds ≡ num = read_digits-base_128 5 num [] fits (omega arith) in
      let (digits, some_more) = base_128-digits 5 num [] tt in
      rw (le→ltb num 128 (omega arith), encode_component)
        (decode_rest-nonempty ds rest digits (base_128-nonempty 4 num (omega arith))
          ∙ ap (λ v. v ∷ decode_rest 0 rest) value)
]

-- The texts stand for these numbers, each below 2^32.
abbrev pub Reads : (String → Option ℕ) → List String → List ℕ → Type 0
Reads parse [] [] = Unit
Reads parse [] (n ∷ ns) = ⊥
Reads parse (part ∷ parts) [] = ⊥
Reads parse (part ∷ parts) (n ∷ ns) =
    (parse part ≡ some n) × (n < 4294967296) × Reads parse parts ns

encode_rest-read :
    (atoi parse_uint : String → Option ℕ) (parts : List String) (ns : List ℕ)
    → Reads parse_uint parts ns
    → (bytes : List ℕ) × (encode_rest atoi parse_uint parts ≡ some bytes)
      × (decode_rest 0 bytes ≡ ns)
unfolding encode_rest decode_rest
encode_rest-read atoi parse_uint [] [] h = ([], refl, refl)
encode_rest-read atoi parse_uint [] (n ∷ ns) h = absurd h
encode_rest-read atoi parse_uint (part ∷ parts) [] h = absurd h
encode_rest-read atoi parse_uint (part ∷ parts) (n ∷ ns) (p, small, h) =
    let (bytes, a, b) = encode_rest-read atoi parse_uint parts ns h in
    rw (p, encode_rest)
      (rw (a, encode_rest)
        (encode_component n ++ bytes, refl, encode_component-read n bytes small ∙ ap (◌∷◌ n) b))

-- An object identifier that starts x.y, with y below 40 and 40 * x + y below 256, and goes on with
-- numbers below 2^32, is encoded without an error, and decodeOID reads the same numbers back from
-- the bytes. (The texts of the numbers are what the parsers of package strconv make of them.)
pub decode_oid-encode :
    (atoi parse_uint : String → Option ℕ) (a b : String) (parts : List String) (x y : ℕ)
    (ns : List ℕ)
    → atoi a ≡ some x
    → atoi b ≡ some y
    → y < 40
    → x * 40 + y < 256
    → Reads parse_uint parts ns
    → (bytes : List ℕ) × (encode_oid atoi parse_uint (a ∷ b ∷ parts) ≡ some bytes)
      × (decode_oid bytes ≡ x ∷ y ∷ ns)
unfolding encode_oid decode_oid
decode_oid-encode atoi parse_uint a b parts x y ns p q h h' r =
    let (bytes, c, d) = encode_rest-read atoi parse_uint parts ns r in
    let first : (x * 40 + y) % 256 / 40 ≡ x = omega arith in
    let second : (x * 40 + y) % 256 % 40 ≡ y = omega arith in
    rw (p, encode_oid)
      (rw (q, encode_oid)
        (rw (c, encode_oid) (((x * 40 + y) % 256) ∷ bytes, refl, rw (first, second, d) refl)))

abbrev second : List ℕ → ℕ
second (a ∷ b ∷ ns) = b
second _ = 0

-- The first two numbers of an identifier are not checked: with y from 40 on they are encoded without
-- an error all the same, and decodeOID reads another identifier.
pub decode_oid-confuses :
    (atoi parse_uint : String → Option ℕ) (a b : String) (parts : List String) (x y : ℕ)
    (ns : List ℕ)
    → atoi a ≡ some x
    → atoi b ≡ some y
    → 40 ≤ y
    → Reads parse_uint parts ns
    → (bytes : List ℕ) × (encode_oid atoi parse_uint (a ∷ b ∷ parts) ≡ some bytes)
      × (decode_oid bytes ≢ x ∷ y ∷ ns)
unfolding encode_oid decode_oid
decode_oid-confuses atoi parse_uint a b parts x y ns p q h r =
    let (bytes, c, d) = encode_rest-read atoi parse_uint parts ns r in
    let wrong : (x * 40 + y) % 256 % 40 ≢ y = λ e. absurd (omega (arith, e)) in
    rw (p, encode_oid)
      (rw (q, encode_oid)
        (rw (c, encode_oid) (((x * 40 + y) % 256) ∷ bytes, refl, λ e. wrong (ap second e))))
