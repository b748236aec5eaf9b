-- ===== src/Message/Written.antt =====
-- internal/monitor/snmp_message.go: what EncodeMessage has written where it answers bytes.
use sssonector.Prelude.{
  Bool-cases, List, Option-cases, arith, inl, inr, length, length-append, some, true, ℕ, ◌∷◌, ◌≡◌,
}
use sssonector.Message.Wire.{ok}
use sssonector.Message.{WireMessage, valid_names, validate_community, validate_var_binds}
use sssonector.Message.Encode.{
  Formats, buffer_size, byte_of, encode_message, encode_varbinds, message_bytes, pdu_bytes,
  varbinds_size,
}

module _ (formats : Formats) where
  -- What encoding answers, where it answers bytes.
  abbrev pub Encodes : WireMessage → List ℕ → Type 0
  Encodes m bytes =
      (validate_community m.community ≡ true)
      × (valid_names m.variables ≡ true)
      × ((size : ℕ) × (varbinds : List ℕ) × (varbinds_size formats m.variables ≡ some size)
          × (encode_varbinds formats m.variables ≡ some varbinds)
          × (48 ∷ byte_of (buffer_size formats m size) ∷ message_bytes formats m varbinds ≡ bytes))

  pub encode_message-Encodes :
      (m : WireMessage) (bytes : List ℕ) → encode_message formats m ≡ ok bytes → Encodes m bytes
  unfolding encode_message
  encode_message-Encodes m bytes h = elim (Bool-cases (validate_community m.community)) [
    | inr bad ↦ absurd (ground (arith, bad, h))
    | inl community ↦ elim (Bool-cases (validate_var_binds (length m.variables))) [
      | inr bad ↦ absurd (ground (arith, community, bad, h))
      | inl count ↦ elim (Bool-cases (valid_names m.variables)) [
        | inr bad ↦ absurd (ground (arith, community, count, bad, h))
        | inl names ↦ elim (Option-cases (varbinds_size formats m.variables)) [
          | inl missing ↦ absurd (ground (arith, community, count, names, missing, h))
          | inr (size, sized) ↦ elim (Option-cases (encode_varbinds formats m.variables)) [
            | inl missing ↦ absurd (ground (arith, community, count, names, sized, missing, h))
            | inr (varbinds, written) ↦ (
              community,
              names,
              (
                size,
                varbinds,
                sized,
                written,
                ground (arith, community, count, names, sized, written, h),
              ),
            )
          ]
        ]
      ]
    ]
  ]

  pub message_bytes-length :
      (m : WireMessage) (varbinds : List ℕ)
      → length (message_bytes formats m varbinds) ≡ buffer_size formats m (length varbinds)
  message_bytes-length m varbinds =
      omega (arith, length-append m.community (pdu_bytes formats m varbinds))
