-- ===== src/Message.antt =====
-- internal/monitor/snmp_message.go and the tests of snmp_asn1.go: SNMP messages as bytes. A string is
-- its bytes. The constants of package gosnmp and FormatInt are parameters. An int that is written as
-- one byte is the number below 256 that remains of it, int32 and int64 are the numbers of their bits.
pub mod Wire
pub mod Encode
pub mod Reads
pub mod Varbinds
pub mod Written
pub mod Fields
pub mod RoundTrip
pub mod Ends
pub mod Truncation
mod Examples
use sssonector.Prelude.{
  Bool, List, [], eqb, false, if◌then◌else◌, leb, length, ltb, not, suc, true, zero, ℕ, ◌&&◌, ◌*◌,
  ◌+◌, ◌-◌, ◌||◌, ◌∷◌,
}
use sssonector.Message.Wire.{
  Parser, Result, expect, next, ok, panics, peek, pure, refuse_if, refused, slice, stuck, text_of,
  within, ◌>>=◌, ◌>>◌,
}

-- A value as it is read or written: an int64, or a string.
pub data WireValue : Type 0 where
  number : ℕ → WireValue
  string : List ℕ → WireValue

pub record WirePdu : Type 0 where
  pub name : List ℕ
  pub tag : ℕ  -- `Type`
  pub value : WireValue

pub record WireMessage : Type 0 where
  pub version : ℕ
  pub community : List ℕ
  pub pdu_type : ℕ
  pub request_id : ℕ
  pub variables : List WirePdu
  pub error : ℕ
  pub index : ℕ

unfoldable pub is_printable_ascii : ℕ → Bool
is_printable_ascii c = leb 32 c && leb c 126

-- The loop over the runes: a byte of a rune beyond ASCII is no printable byte either.
unfoldable pub all_printable : List ℕ → Bool
all_printable [] = true
all_printable (c ∷ s) = let rest = all_printable s in is_printable_ascii c && rest

-- True is that there is no error.
unfoldable pub validate_community : List ℕ → Bool
validate_community community =
    if eqb (length community) 0
    then false
    else if ltb 32 (length community)
    then false
    else all_printable community

abbrev pub starts_with_dot : List ℕ → Bool
starts_with_dot [] = false
starts_with_dot (c ∷ s) = eqb c 46

unfoldable pub validate_oid : List ℕ → Bool
validate_oid oid =
    if eqb (length oid) 0
    then false
    else if ltb 128 (length oid)
    then false
    else starts_with_dot oid

unfoldable pub validate_length : ℕ → ℕ → Bool
validate_length n max = not (ltb max n)

unfoldable pub validate_var_binds : ℕ → Bool
validate_var_binds count = not (ltb 2048 count)

unfoldable pub valid_names : List WirePdu → Bool
valid_names [] = true
valid_names (v ∷ vs) = let rest = valid_names vs in validate_oid v.name && rest

-- Bytes as one number, the first the highest.
abbrev pub big_endian : ℕ → List ℕ → ℕ
big_endian n [] = n
big_endian n (b ∷ bytes) = big_endian (n * 256 + b) bytes

-- `value[0]`
unfoldable pub first_byte : List ℕ → Result WireValue
first_byte [] = panics
first_byte (b ∷ bytes) = ok (number b)

-- The switch on the type of a value.
unfoldable pub read_value : ℕ → List ℕ → Result WireValue
read_value tag bytes =
    if eqb tag 2 || eqb tag 65 || eqb tag 66
    then if eqb (length bytes) 4 then ok (number (big_endian 0 bytes)) else first_byte bytes
    else if eqb tag 70
    then if eqb (length bytes) 8 then ok (number (big_endian 0 bytes)) else ok (number 0)
    else ok (string bytes)

abbrev pub lift : Result WireValue → Parser WireValue
lift (ok v) bytes = ok (v, bytes)
lift refused bytes = refused
lift panics bytes = panics
lift stuck bytes = stuck

-- `offset >= len(data)` is an error.
unfoldable pub not_at_end : Parser (Unit {0})
not_at_end [] = refused
not_at_end (b ∷ bytes) = ok (tt, b ∷ bytes)

unfoldable pub decode_varbind : Parser WirePdu
decode_varbind = do
  expect 48
  n ← next
  within n
  expect 6
  oid ← text_of
  refuse_if (not (validate_oid oid))
  not_at_end
  tag ← next
  bytes ← text_of
  value ← lift (read_value tag bytes)
  pure (record { name = oid; tag = tag; value = value })

-- The loop, which goes on while more bytes are left than `stop`.
unfoldable pub decode_varbinds : ℕ → ℕ → Parser (List WirePdu)
decode_varbinds zero stop bytes = if ltb stop (length bytes) then stuck else ok ([], bytes)
decode_varbinds (suc fuel) stop bytes =
    let more = (do v ← decode_varbind; vs ← decode_varbinds fuel stop; pure (v ∷ vs)) bytes in
    if ltb stop (length bytes) then more else ok ([], bytes)

-- The last sequence; every turn of the loop takes a byte, so that the bytes left are fuel enough.
unfoldable pub decode_variables : Parser (List WirePdu)
decode_variables = do
  expect 48
  n ← next
  within n
  λ bytes. decode_varbinds (length bytes) (length bytes - n) bytes

-- The message from its PDU on.
unfoldable pub decode_pdu : ℕ → List ℕ → Parser WireMessage
decode_pdu version community = do
  pdu_type ← next
  pdu_length ← next
  within pdu_length
  expect 2
  id_length ← next
  refuse_if (not (eqb id_length 4))
  id ← slice 4
  expect 2
  expect 1
  error ← next
  expect 2
  expect 1
  index ← next
  variables ← decode_variables
  pure (record {
    version = version;
    community = community;
    pdu_type = pdu_type;
    request_id = big_endian 0 id;
    variables = variables;
    error = error;
    index = index;
  })

-- The message from its outer sequence on.
unfoldable pub decode_fields : Parser WireMessage
decode_fields = do
  expect 48
  total ← next
  within total
  expect 2
  n ← next
  within n
  version ← peek
  slice n
  expect 4
  community ← text_of
  refuse_if (not (validate_community community))
  decode_pdu version community

abbrev pub outcome : Result (WireMessage × List ℕ) → Result WireMessage
outcome (ok (m, rest)) = ok m
outcome refused = refused
outcome panics = panics
outcome stuck = stuck

unfoldable pub decode_message : List ℕ → Result WireMessage
decode_message packet =
    if not (validate_length (length packet) 65507) || ltb (length packet) 2
    then refused
    else outcome (decode_fields packet)
