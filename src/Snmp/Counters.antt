-- ===== src/Snmp/Counters.antt =====
-- The eight bytes of a counter.
use native.Mathlib.Nat.{pow-suc}
use sssonector.Prelude.{
  List, [], ap, arith, length, length-append, refl, suc, sym, u64, zero, ℕ, ◌%◌, ◌*◌, ◌++◌, ◌+◌,
  ◌/◌, ◌<◌, ◌^◌, ◌∙◌, ◌∷◌, ◌≡◌,
}
use sssonector.Snmp.{decode_big_endian, decode_uint64, encode_big_endian, encode_uint64}

decode-append :
    (value : ℕ) (bytes : List ℕ) (b : ℕ)
    → decode_big_endian value (bytes ++ (b ∷ [])) ≡ u64 (decode_big_endian value bytes * 256) + b
unfolding decode_big_endian
decode-append value [] b = refl
decode-append value (c ∷ bytes) b = decode-append (u64 (value * 256) + c) bytes b

decode-encode :
    (i value : ℕ)
    → value < 256 ^ i
    → value < 18446744073709551616
    → decode_big_endian 0 (encode_big_endian i value) ≡ value
unfolding encode_big_endian decode_big_endian
decode-encode zero value h w = let none_left : value ≡ 0 = omega arith in sym none_left
decode-encode (suc i) value h w =
    let h' : value < 256 ^ i * 256 = rw (pow-suc 256 i) at h in
    let below : value / 256 < 256 ^ i = omega arith in
    let ih : decode_big_endian 0 (encode_big_endian i (value / 256)) ≡ value / 256 =
      decode-encode i (value / 256) below (omega arith) in
    let exact : u64 (value / 256 * 256) + value % 256 ≡ value = omega arith in
    decode-append 0 (encode_big_endian i (value / 256)) (value % 256)
    ∙ ap (λ v. u64 (v * 256) + value % 256) ih
    ∙ exact

length-encode : (i value : ℕ) → length (encode_big_endian i value) ≡ i
unfolding encode_big_endian
length-encode zero value = refl
length-encode (suc i) value =
    length-append (encode_big_endian i (value / 256)) (value % 256 ∷ [])
    ∙ omega (arith, length-encode i (value / 256))

-- Every uint64 is encoded in exactly eight bytes, from which decodeUint64 gets the same number.
pub decode_uint64-encode :
    (value : ℕ)
    → value < 18446744073709551616
    → (length (encode_uint64 value) ≡ 8) × (decode_uint64 (encode_uint64 value) ≡ value)
decode_uint64-encode value h = (length-encode 8 value, decode-encode 8 value h h)
