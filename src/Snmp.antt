-- ===== src/Snmp.antt =====
-- internal/monitor/snmp_pdu.go: numbers and object identifiers as bytes. A byte is a number below
-- 256. Where the source has `|` of a number whose low bits are zero and one that has no others,
-- here is their sum; shifts are products and quotients, with uint64's wrap-around.
pub mod Counters
pub mod Oids
mod Examples
use sssonector.Prelude.{
  List, Option, String, [], if◌then◌else◌, ltb, none, some, suc, u64, zero, ℕ, ◌%◌, ◌*◌, ◌++◌, ◌+◌,
  ◌/◌, ◌∷◌,
}

-- The loop of encodeUint64 fills the slice from its end: the last byte is the lowest.
unfoldable pub encode_big_endian : ℕ → ℕ → List ℕ
encode_big_endian zero value = []
encode_big_endian (suc i) value = encode_big_endian i (value / 256) ++ (value % 256 ∷ [])

abbrev pub encode_uint64 : ℕ → List ℕ
encode_uint64 value = encode_big_endian 8 value

unfoldable pub decode_big_endian : ℕ → List ℕ → ℕ
decode_big_endian value [] = value
decode_big_endian value (b ∷ bytes) = decode_big_endian (u64 (value * 256) + b) bytes

abbrev pub decode_uint64 : List ℕ → ℕ
decode_uint64 bytes = decode_big_endian 0 bytes

-- The loop that splits a number in base 128, on fuel.
unfoldable pub base_128 : ℕ → ℕ → List ℕ → List ℕ
base_128 zero num bytes = bytes
base_128 (suc fuel) num bytes =
    let rest = base_128 fuel (num / 128) (num % 128 ∷ bytes) in if ltb 0 num then rest else bytes

-- The continuation bit of all but the last byte.
unfoldable pub set_continuation : List ℕ → List ℕ
set_continuation [] = []
set_continuation (b ∷ []) = b ∷ []
set_continuation (b ∷ c ∷ bytes) = (b + 128) ∷ set_continuation (c ∷ bytes)

-- A number below 2^32 has at most five digits in base 128.
unfoldable pub encode_component : ℕ → List ℕ
encode_component num = if ltb num 128 then num ∷ [] else set_continuation (base_128 5 num [])

-- The texts of the numbers are read by package strconv: Atoi, where its result is not negative, and
-- ParseUint in base 10 with 32 bits. The text of the identifier comes split at its dots.
module _ (atoi parse_uint : String → Option ℕ) where
  unfoldable pub encode_rest : List String → Option (List ℕ)
  encode_rest [] = some []
  encode_rest (part ∷ parts) = elim (parse_uint part) [
    | none ↦ none
    | some num ↦ elim (encode_rest parts) [
      | none ↦ none
      | some bytes ↦ some (encode_component num ++ bytes)
    ]
  ]

  unfoldable pub encode_oid : List String → Option (List ℕ)
  encode_oid [] = none
  encode_oid (a ∷ []) = none
  encode_oid (a ∷ b ∷ parts) = elim (atoi a) [
    | none ↦ none
    | some first ↦ elim (atoi b) [
      | none ↦ none
      | some second ↦ elim (encode_rest parts) [
        | none ↦ none
        | some bytes ↦ some (((first * 40 + second) % 256) ∷ bytes)
      ]
    ]
  ]

-- `value` is a uint of 64 bits.
unfoldable pub decode_rest : ℕ → List ℕ → List ℕ
decode_rest value [] = []
decode_rest value (b ∷ bytes) =
    let v = u64 (value * 128) + b % 128 in
    let ended = decode_rest 0 bytes in
    let continued = decode_rest v bytes in if ltb b 128 then v ∷ ended else continued

-- The numbers of the identifier; the source writes them with dots between them.
unfoldable pub decode_oid : List ℕ → List ℕ
decode_oid [] = []
decode_oid (b ∷ bytes) = b / 40 ∷ b % 40 ∷ decode_rest 0 bytes
