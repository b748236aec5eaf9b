-- ===== src/Message/Fields.antt =====
-- internal/monitor/snmp_message.go: the fields of a message that was written, read back.
use mathlib.Core.List.{append-nil}
use sssonector.Prelude.{
  All, List, [], ap, arith, length, map, refl, some, sym, true, ℕ, ◌++◌, ◌-◌, ◌/◌, ◌<◌, ◌∙◌, ◌∷◌,
  ◌≡◌, ◌≤◌,
}
use sssonector.Message.Wire.{ok}
use sssonector.Message.{
  WireMessage, WirePdu, big_endian, decode_fields, decode_pdu, decode_varbinds, decode_variables,
  valid_names, validate_community,
}
use sssonector.Message.Encode.{
  Formats, byte_of, element, encode_varbinds, message_bytes, pdu_bytes, varbinds_size,
}
use sssonector.Message.Reads.{
  byte_small, community_length, expect-same, next-cons, peek-cons, refuse_if-false, slice-append,
  step, text_of-append, within-ok,
}
use sssonector.Message.Varbinds.{
  IsSendable, decode_varbinds-encode_varbinds, encode_varbinds-size, read_back,
}

module _ (formats : Formats) where
  pub request_id_bytes :
      (n : ℕ)
      → n < 4294967296
      → big_endian 0
          (byte_of (n / 16777216) ∷ byte_of (n / 65536) ∷ byte_of (n / 256) ∷ byte_of n ∷ [])
        ≡ n
  request_id_bytes n h = omega (arith, h)

  decode_varbinds_whole :
      (vs : List WirePdu) (size : ℕ) (bytes : List ℕ)
      → varbinds_size formats vs ≡ some size
      → encode_varbinds formats vs ≡ some bytes
      → size < 256
      → valid_names vs ≡ true
      → All (IsSendable formats) vs
      → decode_varbinds (length bytes) (length bytes - length bytes) bytes
        ≡ ok (map (read_back formats) vs, [])
  decode_varbinds_whole vs size bytes sized written few names sendable =
      let nothing : length bytes - length bytes ≡ 0 = omega arith in
      let whole : bytes ++ [] ≡ bytes = append-nil bytes in
      rw nothing (
        ap (decode_varbinds (length bytes) 0) (sym whole)
        ∙ decode_varbinds-encode_varbinds formats vs size bytes [] (length bytes) sized written few
            names sendable (omega arith))

  pub decode_variables-element :
      (vs : List WirePdu) (size : ℕ) (bytes : List ℕ)
      → varbinds_size formats vs ≡ some size
      → encode_varbinds formats vs ≡ some bytes
      → size < 256
      → valid_names vs ≡ true
      → All (IsSendable formats) vs
      → decode_variables (element 48 bytes) ≡ ok (map (read_back formats) vs, [])
  unfolding decode_variables
  decode_variables-element vs size bytes sized written few names sendable =
      let total = encode_varbinds-size formats vs size bytes sized written in
      let fits = byte_small (length bytes) (omega (arith, total, few)) in
      rw fits (
        step _ _ (expect-same 48 _) (
          step _ _ (next-cons _ _) (
            step _ _ (within-ok _ _ (omega arith))
              (decode_varbinds_whole vs size bytes sized written few names sendable))))

  decode_pdu-pdu_bytes :
      (m : WireMessage) (varbinds : List ℕ) (vs : List WirePdu) (version : ℕ) (community : List ℕ)
      → decode_variables (element 48 varbinds) ≡ ok (vs, [])
      → decode_pdu version community (pdu_bytes formats m varbinds)
        ≡ ok (
          record {
            version = version;
            community = community;
            pdu_type = byte_of m.pdu_type;
            request_id = big_endian 0 (
                byte_of (m.request_id / 16777216)
                ∷ byte_of (m.request_id / 65536)
                ∷ byte_of (m.request_id / 256)
                ∷ byte_of m.request_id
                ∷ []);
            variables = vs;
            error = byte_of m.error;
            index = byte_of m.index;
          },
          [],
        )
  unfolding decode_pdu
  decode_pdu-pdu_bytes m varbinds vs version community read = step _ _ (next-cons _ _) (
      step _ _ (next-cons _ _) (
        step _ _ (within-ok _ _ (omega arith)) (
          step _ _ (expect-same 2 _) (
            step _ _ (next-cons _ _) (
              step _ _ (refuse_if-false _ _ refl) (
                step _ _
                  (slice-append
                    (byte_of (m.request_id / 16777216)
                      ∷ byte_of (m.request_id / 65536)
                      ∷ byte_of (m.request_id / 256)
                      ∷ byte_of m.request_id
                      ∷ [])
                    _)
                  (step _ _ (expect-same 2 _) (
                    step _ _ (expect-same 1 _) (
                      step _ _ (next-cons _ _) (
                        step _ _ (expect-same 2 _) (
                          step _ _ (expect-same 1 _)
                            (step _ _ (next-cons _ _) (step _ _ read refl)))))))))))))

  pub decode_fields-message_bytes :
      (m : WireMessage) (outer : ℕ) (varbinds : List ℕ) (vs : List WirePdu)
      → validate_community m.community ≡ true
      → outer ≤ length (message_bytes formats m varbinds)
      → decode_variables (element 48 varbinds) ≡ ok (vs, [])
      → decode_fields (48 ∷ outer ∷ message_bytes formats m varbinds)
        ≡ ok (
          record {
            version = byte_of m.version;
            community = m.community;
            pdu_type = byte_of m.pdu_type;
            request_id = big_endian 0 (
                byte_of (m.request_id / 16777216)
                ∷ byte_of (m.request_id / 65536)
                ∷ byte_of (m.request_id / 256)
                ∷ byte_of m.request_id
                ∷ []);
            variables = vs;
            error = byte_of m.error;
            index = byte_of m.index;
          },
          [],
        )
  unfolding decode_fields
  decode_fields-message_bytes m outer varbinds vs community fits read =
      let short = community_length m.community community in
      step _ _ (expect-same 48 _) (
        step _ _ (next-cons _ _) (
          step _ _ (within-ok _ _ fits) (
            step _ _ (expect-same 2 _) (
              step _ _ (next-cons _ _) (
                step _ _ (within-ok _ _ (omega arith)) (
                  step _ _ (peek-cons _ _) (
                    step _ _ (slice-append (byte_of m.version ∷ []) _) (
                      step _ _ (expect-same 4 _) (
                        step _ _ (text_of-append m.community _ (omega (arith, short))) (
                          step _ _ (refuse_if-false _ _ (rw community refl)) (
                            decode_pdu-pdu_bytes m varbinds vs (byte_of m.version) m.community
                              read)))))))))))
