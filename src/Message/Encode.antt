-- ===== src/Message/Encode.antt =====
-- internal/monitor/snmp_message.go: EncodeMessage.
use sssonector.Prelude.{
  Bool, List, Option, [], eqb, if◌then◌else◌, length, none, not, some, ℕ, ◌%◌, ◌++◌, ◌+◌, ◌/◌, ◌||◌,
  ◌∷◌,
}
use sssonector.Message.Wire.{Result, ok, panics, refused}
use sssonector.Message.{
  WireMessage, WirePdu, number, string, valid_names, validate_community, validate_var_binds,
}

abbrev pub byte_of : ℕ → ℕ
byte_of n = n % 256

-- What the code takes of other packages: three constants of gosnmp, and the decimal digits of an
-- int64, which FormatInt and `%v` write alike.
pub record Formats : Type 0 where
  pub counter64 : ℕ
  pub gauge32 : ℕ
  pub integer : ℕ
  pub format_int : ℕ → List ℕ

-- A tag, a length in one byte, and the bytes.
abbrev pub element : ℕ → List ℕ → List ℕ
element tag bytes = byte_of tag ∷ byte_of (length bytes) ∷ bytes

module _ (formats : Formats) where
  open formats use {counter64, gauge32, integer, format_int}

  abbrev pub is_number_tag : ℕ → Bool
  is_number_tag tag = eqb tag counter64 || eqb tag gauge32 || eqb tag integer

  -- The type assertion of a value that is no int64 panics, which `none` is.
  unfoldable pub value_text : WirePdu → Option (List ℕ)
  value_text v = elim v.value [
    | number n ↦ some (format_int n)
    | string s ↦ if is_number_tag v.tag then none else some s
  ]

  abbrev pub varbind : WirePdu → List ℕ → List ℕ
  varbind v text = element 48 (element 6 v.name ++ element v.tag text)

  -- The loop over the variables, and the sizes that are added up before it.
  unfoldable pub encode_varbinds : List WirePdu → Option (List ℕ)
  encode_varbinds [] = some []
  encode_varbinds (v ∷ vs) = elim (value_text v) [
    | none ↦ none
    | some text ↦ elim (encode_varbinds vs) [
      | none ↦ none
      | some rest ↦ some (varbind v text ++ rest)
    ]
  ]

  unfoldable pub varbinds_size : List WirePdu → Option ℕ
  varbinds_size [] = some 0
  varbinds_size (v ∷ vs) = elim (value_text v) [
    | none ↦ none
    | some text ↦ elim (varbinds_size vs) [
      | none ↦ none
      | some rest ↦ some (2 + (2 + length v.name) + (2 + length text) + rest)
    ]
  ]

  abbrev pub pdu_bytes : WireMessage → List ℕ → List ℕ
  pdu_bytes m varbinds = element m.pdu_type (
      element 2 (
        byte_of (m.request_id / 16777216)
        ∷ byte_of (m.request_id / 65536)
        ∷ byte_of (m.request_id / 256)
        ∷ byte_of m.request_id
        ∷ [])
      ++ (element 2 (byte_of m.error ∷ [])
          ++ (element 2 (byte_of m.index ∷ []) ++ element 48 varbinds)))

  -- What is written behind the outer header.
  abbrev pub message_bytes : WireMessage → List ℕ → List ℕ
  message_bytes m varbinds =
      element 2 (byte_of m.version ∷ []) ++ (element 4 m.community ++ pdu_bytes m varbinds)

  abbrev pub buffer_size : WireMessage → ℕ → ℕ
  buffer_size m varbinds = 3 + (2 + length m.community) + 2 + 6 + 3 + 3 + 2 + varbinds

  unfoldable pub encode_message : WireMessage → Result (List ℕ)
  encode_message m =
      if not (validate_community m.community)
      then refused
      else if not (validate_var_binds (length m.variables))
      then refused
      else if not (valid_names m.variables)
      then refused
      else elim (varbinds_size m.variables) [
        | none ↦ panics
        | some size ↦ elim (encode_varbinds m.variables) [
          | none ↦ panics
          | some varbinds ↦ ok (48 ∷ byte_of (buffer_size m size) ∷ message_bytes m varbinds)
        ]
      ]
