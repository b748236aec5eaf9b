-- ===== src/Message/RoundTrip.antt =====
-- internal/monitor/snmp_message.go: messages that are written and read back.
use sssonector.Message.Reads.{byte_small, community_length}
use sssonector.Prelude.{
  All, List, [], ap, arith, eqb, false, length, le→ltb, ltb, map, refl, some, suc, sym, ℕ, ◌+◌, ◌<◌,
  ◌||◌, ◌∙◌, ◌∷◌, ◌≡◌,
}
use sssonector.Message.Wire.{ok}
use sssonector.Message.{
  WireMessage, WirePdu, decode_message, outcome, read_value, string, validate_length,
}
use sssonector.Message.Written.{encode_message-Encodes, message_bytes-length}
use sssonector.Message.Fields.{
  decode_fields-message_bytes, decode_variables-element, request_id_bytes,
}
use sssonector.Message.Encode.{
  Formats, buffer_size, byte_of, encode_message, is_number_tag, message_bytes, value_text,
  varbinds_size,
}
use sssonector.Message.Varbinds.{
  IsSendable, encode_varbinds-size, read_back, text_or_empty, value_of,
}

module _ (formats : Formats) where
  -- A message whose numbers fit the places that they have, whose variables take less than 256 bytes,
  -- each with a type that fits in a byte, and where no variable of the types 2, 65 and 66, which are
  -- read as numbers, is written as an empty text.
  pub record IsSmall (m : WireMessage) : Type 0 where
    pub version : m.version < 256
    pub pdu_type : m.pdu_type < 256
    pub request_id : m.request_id < 4294967296
    pub error : m.error < 256
    pub index : m.index < 256
    pub size : ℕ
    pub sized : varbinds_size formats m.variables ≡ some size
    pub few : size < 256
    pub sendable : All (IsSendable formats) m.variables

  -- What DecodeMessage makes of a message that EncodeMessage wrote, where the numbers of the message
  -- fit their places, its variables take less than 256 bytes and have types that fit in a byte, and no
  -- variable of the types 2, 65 and 66, which are read as numbers, is written as an empty text: the
  -- message, but each variable's value is what the switch on its type reads from the text that was
  -- written for it.
  pub decode_message-encode_message :
      (m : WireMessage) (bytes : List ℕ)
      → IsSmall m
      → encode_message formats m ≡ ok bytes
      → decode_message bytes ≡ ok (record m { variables = map (read_back formats) m.variables })
  unfolding decode_message validate_length
  decode_message-encode_message m bytes h written =
      let (community, names, (size, varbinds, sized, encoded, whole)) =
        encode_message-Encodes formats m bytes written in
      let same : h.size ≡ size = ground (arith, h.sized, sized) in
      let few : size < 256 = omega (arith, same, h.few) in
      let total = encode_varbinds-size formats m.variables size varbinds sized encoded in
      let short = community_length m.community community in
      let long = message_bytes-length formats m varbinds in
      let read =
        decode_fields-message_bytes formats m (byte_of (buffer_size formats m size)) varbinds
          (map (read_back formats) m.variables) community (omega (arith, long, total))
          (decode_variables-element formats m.variables size varbinds sized encoded few names
            h.sendable) in
      let short_enough : ltb 65507 (suc (suc (length (message_bytes formats m varbinds)))) ≡ false =
        le→ltb _ _ (omega (arith, long, total, few, short)) in
      let long_enough : ltb (suc (suc (length (message_bytes formats m varbinds)))) 2 ≡ false =
        le→ltb _ _ (omega arith) in
      rw (← whole) (
        rw (short_enough, long_enough)
          (ap outcome read
            ∙ rw
                (
                  request_id_bytes formats m.request_id h.request_id,
                  byte_small m.version h.version,
                  byte_small m.pdu_type h.pdu_type,
                  byte_small m.error h.error,
                  byte_small m.index h.index,
                )
                refl))

  -- A variable with a string, of a type that neither side takes for a number.
  abbrev pub IsText : WirePdu → Type 0
  IsText v =
      (s : List ℕ) × (v.value ≡ string s)
      × (is_number_tag formats v.tag ≡ false)
      × (eqb v.tag 2 || eqb v.tag 65 || eqb v.tag 66 ≡ false)
      × (eqb v.tag 70 ≡ false)

  read_back_text : (v : WirePdu) → IsText v → read_back formats v ≡ v
  unfolding read_back value_text read_value
  read_back_text v (s, text, other, narrow, wide) =
      let written : value_text formats v ≡ some s = rw (value_text, text) (rw other refl) in
      let read : value_of (read_value v.tag (text_or_empty (value_text formats v))) ≡ v.value =
        rw (narrow, wide, written) (sym text) in
      ap (λ w. record v { value = w }) read

  read_back_texts : (vs : List WirePdu) → All IsText vs → map (read_back formats) vs ≡ vs
  read_back_texts [] h = refl
  read_back_texts (v ∷ vs) h = rw (read_back_text v h.0, read_back_texts vs h.1) refl

  -- A message is read back as it was written, where each of its variables holds a string and has a
  -- type that fits in a byte and that neither side takes for a number, neither EncodeMessage by
  -- gosnmp's constants Counter64, Gauge32 and Integer nor DecodeMessage by 2, 65, 66 and 70, the
  -- variables take less than 256 bytes, and the numbers of the message fit their places.
  pub decode_message-encode_texts :
      (m : WireMessage) (bytes : List ℕ)
      → IsSmall m
      → All IsText m.variables
      → encode_message formats m ≡ ok bytes
      → decode_message bytes ≡ ok m
  decode_message-encode_texts m bytes h texts written =
      decode_message-encode_message m bytes h written
      ∙ ap (λ vs. ok (record m { variables = vs })) (read_back_texts m.variables texts)

  -- EncodeMessage writes just the bytes that its buffer was made for: the size that it adds up, and
  -- two for the outer header.
  pub encode_message-buffer_size :
      (m : WireMessage) (bytes : List ℕ)
      → encode_message formats m ≡ ok bytes
      → (size : ℕ) × (varbinds_size formats m.variables ≡ some size)
        × (length bytes ≡ 2 + buffer_size formats m size)
  encode_message-buffer_size m bytes written =
      let (community, names, (size, varbinds, sized, encoded, whole)) =
        encode_message-Encodes formats m bytes written in
      let total = encode_varbinds-size formats m.variables size varbinds sized encoded in
      let long = message_bytes-length formats m varbinds in
      (size, sized, ap length (sym whole) ∙ omega (arith, long, total))
