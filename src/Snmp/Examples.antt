-- ===== src/Snmp/Examples.antt =====
-- Numbers and identifiers as bytes, at concrete inputs.
use sssonector.Prelude.{
  List, Option, String, [], arith, if◌then◌else◌, length, none, refl, some, string_eq, ℕ, ◌==◌, ◌∷◌,
  ◌≡◌,
}
use sssonector.Snmp.{
  base_128, decode_oid, decode_uint64, encode_component, encode_oid, encode_rest, encode_uint64,
  set_continuation,
}
use sssonector.Snmp.Counters.{decode_uint64-encode}
use sssonector.Snmp.Oids.{decode_oid-encode}

abbrev reads : String → Option ℕ
reads s =
    if s == "1"
    then some 1
    else if s == "3"
    then some 3
    else if s == "54321"
    then some 54321
    else if s == "99"
    then some 99
    else none

enterprise : encode_oid reads reads ("1" ∷ "3" ∷ "54321" ∷ []) ≡ some (43 ∷ 131 ∷ 168 ∷ 49 ∷ [])
unfolding encode_oid encode_rest encode_component base_128 set_continuation
enterprise = refl

too_short : encode_oid reads reads ("1" ∷ []) ≡ none
unfolding encode_oid
too_short = refl

decode_uint64-encode_example :
    (length (encode_uint64 81985529216486895) ≡ 8)
    × (decode_uint64 (encode_uint64 81985529216486895) ≡ 81985529216486895)
decode_uint64-encode_example = decode_uint64-encode 81985529216486895 (omega arith)

decode_oid-encode_example :
    (bytes : List ℕ) × (encode_oid reads reads ("1" ∷ "3" ∷ "54321" ∷ []) ≡ some bytes)
    × (decode_oid bytes ≡ 1 ∷ 3 ∷ 54321 ∷ [])
decode_oid-encode_example =
    decode_oid-encode reads reads "1" "3" ("54321" ∷ []) 1 3 (54321 ∷ []) refl refl (omega arith)
      (omega arith) (refl, omega arith, tt)
