-- ===== src/Message/Varbinds.antt =====
-- internal/monitor/snmp_message.go: the variables of a message, written and read back.
use mathlib.Core.List.{append_assoc}
use sssonector.Prelude.{
  All, Bool-cases, List, Option, Option-cases, [], ap, arith, eqb, false, inl, inr, length,
  length-append, le→ltb, lt→ltb, map, none, refl, some, suc, sym, true, zero, ℕ, ◌&&◌, ◌++◌, ◌+◌,
  ◌<◌, ◌||◌, ◌∙◌, ◌∷◌, ◌≡◌, ◌≤◌,
}
use sssonector.Message.Wire.{Result, ok, panics, refused, stuck}
use sssonector.Message.Encode.{Formats, encode_varbinds, value_text, varbind, varbinds_size}
use sssonector.Message.{
  WirePdu, WireValue, decode_varbinds, first_byte, number, read_value, valid_names, validate_oid,
}
use sssonector.Message.Reads.{IsRead, decode_varbind-varbind, inner_length, step}

-- What is read for a type and the bytes of a value.
abbrev pub value_of : Result WireValue → WireValue
value_of (ok value) = value
value_of refused = number 0
value_of panics = number 0
value_of stuck = number 0

abbrev pub text_or_empty : Option (List ℕ) → List ℕ
text_or_empty none = []
text_or_empty (some text) = text

module _ (formats : Formats) where
  -- The variable that is read where this one was written.
  unfoldable pub read_back : WirePdu → WirePdu
  read_back v = record v {
    value = value_of (read_value v.tag (text_or_empty (value_text formats v)));
  }

  -- The type fits in a byte, and where it is 2, 65 or 66, which are read as numbers, the text that is
  -- written for the value is not empty, so that it has a first byte.
  unfoldable pub IsSendable : WirePdu → Type 0
  IsSendable v =
      (v.tag < 256)
      × ((eqb v.tag 2 || eqb v.tag 65 || eqb v.tag 66)
            && eqb (length (text_or_empty (value_text formats v))) 0
          ≡ false)

  pub encode_varbinds-size :
      (vs : List WirePdu) (size : ℕ) (bytes : List ℕ)
      → varbinds_size formats vs ≡ some size
      → encode_varbinds formats vs ≡ some bytes
      → length bytes ≡ size
  unfolding varbinds_size encode_varbinds
  encode_varbinds-size [] size bytes h g = ground (arith, h, g)
  encode_varbinds-size (v ∷ vs) size bytes h g = elim (Option-cases (value_text formats v)) [
    | inl missing ↦ absurd (ground (arith, missing, h))
    | inr (text, at) ↦ elim (Option-cases (varbinds_size formats vs)) [
      | inl missing ↦ absurd (ground (arith, at, missing, h))
      | inr (n, sized) ↦ elim (Option-cases (encode_varbinds formats vs)) [
        | inl missing ↦ absurd (ground (arith, at, missing, g))
        | inr (rest, written) ↦
            let ih = encode_varbinds-size vs n rest sized written in
            let total : 2 + (2 + length v.name) + (2 + length text) + n ≡ size =
              ground (arith, at, sized, h) in
            let whole : varbind formats v text ++ rest ≡ bytes = ground (arith, at, written, g) in
            ap length (sym whole)
            ∙ omega (
              arith,
              ih,
              total,
              length-append (varbind formats v text) rest,
              inner_length v.name text v.tag,
            )
      ]
    ]
  ]

  read_value-value_of :
      (tag : ℕ) (text : List ℕ)
      → (eqb tag 2 || eqb tag 65 || eqb tag 66) && eqb (length text) 0 ≡ false
      → read_value tag text ≡ ok (value_of (read_value tag text))
  unfolding read_value first_byte
  read_value-value_of tag [] h = elim (Bool-cases (eqb tag 2 || eqb tag 65 || eqb tag 66)) [
    | inl numeric ↦ absurd (ground (arith, numeric, h))
    | inr other ↦ elim (Bool-cases (eqb tag 70)) [
      | inl wide ↦ rw (other, wide) refl
      | inr plain ↦ rw (other, plain) refl
    ]
  ]
  read_value-value_of tag (b ∷ text) h = elim (Bool-cases (eqb tag 2 || eqb tag 65 || eqb tag 66)) [
    | inl numeric ↦ elim (Bool-cases (eqb (length (b ∷ text)) 4)) [
      | inl four ↦ rw (numeric, four) refl
      | inr any ↦ rw (numeric, any) refl
    ]
    | inr other ↦ elim (Bool-cases (eqb tag 70)) [
      | inl wide ↦ elim (Bool-cases (eqb (length (b ∷ text)) 8)) [
        | inl eight ↦ rw (other, wide, eight) refl
        | inr any ↦ rw (other, wide, any) refl
      ]
      | inr plain ↦ rw (other, plain) refl
    ]
  ]

  value_text-IsRead :
      (v : WirePdu) (text : List ℕ)
      → IsSendable v
      → value_text formats v ≡ some text
      → IsRead v.tag text (value_of (read_value v.tag (text_or_empty (value_text formats v))))
  unfolding IsSendable
  value_text-IsRead v text h at = rw at (
      read_value-value_of v.tag text (
        sym (
          ap
            (λ t. (eqb v.tag 2 || eqb v.tag 65 || eqb v.tag 66) && eqb (length (text_or_empty t)) 0)
            at)
        ∙ h.1))

  at_end : (fuel : ℕ) (rest : List ℕ) → decode_varbinds fuel (length rest) rest ≡ ok ([], rest)
  unfolding decode_varbinds
  at_end zero rest = rw (le→ltb (length rest) (length rest) (omega arith)) refl
  at_end (suc fuel) rest = rw (le→ltb (length rest) (length rest) (omega arith)) refl

  turn :
      (fuel : ℕ) (v : WirePdu) (text more rest : List ℕ) (vs : List WirePdu)
      → validate_oid v.name ≡ true
      → IsSendable v
      → value_text formats v ≡ some text
      → 4 + length v.name + length text < 256
      → length (varbind formats v text ++ more) ≤ fuel
      → ((f : ℕ) → length more ≤ f → decode_varbinds f (length rest) (more ++ rest) ≡ ok (vs, rest))
      → decode_varbinds fuel (length rest) (varbind formats v text ++ (more ++ rest))
        ≡ ok (read_back v ∷ vs, rest)
  unfolding decode_varbinds read_back IsSendable
  turn zero v text more rest vs name sendable at short enough ih = absurd (omega (arith, enough))
  turn (suc fuel) v text more rest vs name sendable at short enough ih =
      let longer : length rest < length (varbind formats v text ++ (more ++ rest)) =
        omega
          (arith, length-append (varbind formats v text) (more ++ rest), length-append more rest) in
      rw (lt→ltb (length rest) (length (varbind formats v text ++ (more ++ rest))) longer) (
        step _ _
          (decode_varbind-varbind v.name text (more ++ rest) v.tag _ name sendable.0
            (value_text-IsRead v text sendable at) short)
          (step _ _ (ih fuel (omega (arith, enough, length-append (varbind formats v text) more)))
            refl))

  pub decode_varbinds-encode_varbinds :
      (vs : List WirePdu) (size : ℕ) (bytes rest : List ℕ) (fuel : ℕ)
      → varbinds_size formats vs ≡ some size
      → encode_varbinds formats vs ≡ some bytes
      → size < 256
      → valid_names vs ≡ true
      → All IsSendable vs
      → length bytes ≤ fuel
      → decode_varbinds fuel (length rest) (bytes ++ rest) ≡ ok (map read_back vs, rest)
  unfolding varbinds_size encode_varbinds decode_varbinds valid_names read_back IsSendable
  decode_varbinds-encode_varbinds [] size bytes rest fuel sized written few names sendable enough =
      let empty : [] ≡ bytes = ground (arith, written) in rw (← empty) (at_end fuel rest)
  decode_varbinds-encode_varbinds (v ∷ vs) size bytes rest fuel sized written few names sendable
        enough =
      elim (Option-cases (value_text formats v)) [
        | inl missing ↦ absurd (ground (arith, missing, sized))
        | inr (text, at) ↦ elim (Option-cases (varbinds_size formats vs)) [
          | inl missing ↦ absurd (ground (arith, at, missing, sized))
          | inr (n, sized') ↦ elim (Option-cases (encode_varbinds formats vs)) [
            | inl missing ↦ absurd (ground (arith, at, missing, written))
            | inr (more, written') ↦
                let total : 2 + (2 + length v.name) + (2 + length text) + n ≡ size =
                  ground (arith, at, sized', sized) in
                let whole : varbind formats v text ++ more ≡ bytes =
                  ground (arith, at, written', written) in
                rw (← whole, append_assoc (varbind formats v text) more rest)
                  (turn fuel v text more rest (map read_back vs) (ground (arith, names)) sendable.0
                    at (omega (arith, total, few)) (ground (arith, enough, ap length whole))
                    (λ f room.
                      decode_varbinds-encode_varbinds vs n more rest f sized' written'
                        (omega (arith, total, few)) (ground (arith, names)) sendable.1 room))
          ]
        ]
      ]
