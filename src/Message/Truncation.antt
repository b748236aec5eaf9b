-- ===== src/Message/Truncation.antt =====
-- internal/monitor/snmp_message.go: a message that stops where a byte is read without a test.
use mathlib.Core.List.{append-nil}
use sssonector.Prelude.{
  List, [], ap, arith, length, le→ltb, refl, sym, true, ℕ, ◌+◌, ◌∙◌, ◌∷◌, ◌≡◌, ◌≤◌,
}
use sssonector.Message.Reads.{
  byte_small, community_length, expect-same, next-cons, peek-cons, refuse_if-false, slice-append,
  step, text_of-append, within-ok,
}
use sssonector.Message.Wire.{Result, next, ok, panics, text_of, ◌>>=◌}
use sssonector.Message.Encode.{byte_of}
use sssonector.Message.{
  WireMessage, decode_fields, decode_message, decode_pdu, outcome, validate_community,
  validate_length,
}

decode_message-decode_fields :
    (packet : List ℕ) (r : Result (WireMessage × List ℕ))
    → length packet ≤ 65507
    → 2 ≤ length packet
    → decode_fields packet ≡ r
    → decode_message packet ≡ outcome r
unfolding decode_message validate_length
decode_message-decode_fields packet r h g e =
    rw (le→ltb 65507 (length packet) h, le→ltb (length packet) 2 g) (ap outcome e)

decode_pdu_nothing : (version : ℕ) (community : List ℕ) → decode_pdu version community [] ≡ panics
unfolding decode_pdu ◌>>=◌ next
decode_pdu_nothing version community = refl

truncated :
    (total version : ℕ) (community : List ℕ)
    → validate_community community ≡ true
    → total ≤ 5 + length community
    → decode_fields (48 ∷ total ∷ 2 ∷ 1 ∷ version ∷ 4 ∷ length community ∷ community) ≡ panics
unfolding decode_fields
truncated total version community valid fits =
    let short = community_length community valid in
    let long : total ≤ length (2 ∷ 1 ∷ version ∷ 4 ∷ length community ∷ community) =
      omega (arith, fits) in
    let small = byte_small (length community) (omega (arith, short)) in
    let text : text_of (length community ∷ community) ≡ ok (community, []) =
      ap (λ n. text_of (n ∷ community)) (sym small)
      ∙ (ap (λ t. text_of (byte_of (length community) ∷ t)) (sym (append-nil community))
          ∙ text_of-append community [] (omega (arith, short))) in
    step _ _ (expect-same 48 _) (
      step _ _ (next-cons _ _) (
        step _ _ (within-ok _ _ long) (
          step _ _ (expect-same 2 _) (
            step _ _ (next-cons _ _) (
              step _ _ (within-ok _ _ (omega arith)) (
                step _ _ (peek-cons _ _) (
                  step _ _ (slice-append (version ∷ []) _) (
                    step _ _ (expect-same 4 _) (
                      step _ _ text (
                        step _ _ (refuse_if-false _ _ (rw valid refl))
                          (decode_pdu_nothing version community)))))))))))

-- A message that ends behind its community makes DecodeMessage read past the end, which panics,
-- whatever the version and the community are, where the community is one that validation admits and
-- the outer length is not more than what there is.
pub decode_message_panics :
    (total version : ℕ) (community : List ℕ)
    → validate_community community ≡ true
    → total ≤ 5 + length community
    → decode_message (48 ∷ total ∷ 2 ∷ 1 ∷ version ∷ 4 ∷ length community ∷ community) ≡ panics
decode_message_panics total version community valid fits =
    let short = community_length community valid in
    decode_message-decode_fields _ _ (omega (arith, short)) (omega arith)
      (truncated total version community valid fits)
