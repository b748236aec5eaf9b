-- ===== src/Message/Ends.antt =====
-- internal/monitor/snmp_message.go: reading ends, whatever the bytes are.
use sssonector.Prelude.{
  Bool, Bool-cases, List, [], arith, drop, eqb, false, inl, inr, length, ltb, not, suc, true, zero,
  ℕ, ◌-◌, ◌||◌, ◌∷◌, ◌≢◌, ◌≤◌,
}
use sssonector.Message.Wire.{
  Parser, Result, expect, next, ok, panics, peek, pure, refuse_if, refused, slice, stuck, text_of,
  within, ◌>>=◌, ◌>>◌,
}
use sssonector.Message.{
  WireMessage, WirePdu, decode_fields, decode_message, decode_pdu, decode_varbind, decode_varbinds,
  decode_variables, first_byte, lift, not_at_end, outcome, read_value, validate_community,
  validate_length, validate_oid,
}

-- A reader that came to an answer and, where it succeeded, has left at most so many bytes.
abbrev Leaves {ℓ} : {A : Type ℓ} → ℕ → Result (A × List ℕ) → Type 0
Leaves n (ok (a, rest)) = length rest ≤ n
Leaves n refused = Unit
Leaves n panics = Unit
Leaves n stuck = ⊥

abbrev Shrinks {ℓ} : {A : Type ℓ} → Parser A → Type 0
Shrinks p = (n : ℕ) (bytes : List ℕ) → length bytes ≤ n → Leaves n (p bytes)

after {ℓ κ} :
    {A : Type ℓ} {B : Type κ} (f : A → Parser B) (n m : ℕ) (r : Result (A × List ℕ))
    → Leaves n r
    → ((a : A) (rest : List ℕ) → length rest ≤ n → Leaves m (f a rest))
    → Leaves m (elim r as (λ x. Result (B × List ℕ)) [
      | ok (a, rest) ↦ f a rest
      | refused ↦ refused
      | panics ↦ panics
      | stuck ↦ stuck
    ])
after f n m (ok (a, rest)) h g = g a rest h
after f n m refused h g = tt
after f n m panics h g = tt
after f n m stuck h g = absurd h

bind-Shrinks {ℓ κ} :
    {A : Type ℓ} {B : Type κ} (p : Parser A) (f : A → Parser B)
    → Shrinks p
    → ((a : A) → Shrinks (f a))
    → Shrinks (p >>= f)
unfolding ◌>>=◌
bind-Shrinks p f h g n bytes few = after f n n (p bytes) (h n bytes few) (λ a rest. g a n rest)

next-Shrinks : Shrinks next
unfolding next
next-Shrinks n [] h = tt
next-Shrinks n (b ∷ bytes) h = omega (arith, h)

peek-Shrinks : Shrinks peek
unfolding peek
peek-Shrinks n [] h = tt
peek-Shrinks n (b ∷ bytes) h = h

expect-Shrinks : (tag : ℕ) → Shrinks (expect tag)
unfolding expect
expect-Shrinks tag n [] h = tt
expect-Shrinks tag n (b ∷ bytes) h = elim (Bool-cases (eqb b tag)) [
  | inl same ↦ rw same (omega (arith, h))
  | inr other ↦ rw other tt
]

refuse_if-Shrinks : (bad : Bool) → Shrinks (refuse_if bad)
refuse_if-Shrinks true n bytes h = tt
refuse_if-Shrinks false n bytes h = h

within-Shrinks : (k : ℕ) → Shrinks (within k)
unfolding within
within-Shrinks k n bytes h = elim (Bool-cases (ltb (length bytes) k)) [
  | inl short ↦ rw short tt
  | inr long ↦ rw long h
]

length-drop : (k : ℕ) (bytes : List ℕ) → length (drop k bytes) ≤ length bytes
length-drop zero bytes = omega arith
length-drop (suc k) [] = omega arith
length-drop (suc k) (b ∷ bytes) = omega (arith, length-drop k bytes)

slice-Shrinks : (k : ℕ) → Shrinks (slice k)
unfolding slice
slice-Shrinks k n bytes h = elim (Bool-cases (ltb (length bytes) k)) [
  | inl short ↦ rw short tt
  | inr long ↦ rw long (omega (arith, h, length-drop k bytes))
]

not_at_end-Shrinks : Shrinks not_at_end
unfolding not_at_end
not_at_end-Shrinks n [] h = tt
not_at_end-Shrinks n (b ∷ bytes) h = h

text_of-Shrinks : Shrinks text_of
unfolding text_of
text_of-Shrinks =
    bind-Shrinks _ _ next-Shrinks λ n. bind-Shrinks _ _ (within-Shrinks n) λ _. slice-Shrinks n

first_byte-Shrinks : (bytes : List ℕ) → Shrinks (lift (first_byte bytes))
unfolding first_byte
first_byte-Shrinks [] n rest h = tt
first_byte-Shrinks (b ∷ bytes) n rest h = h

read_value-Shrinks : (tag : ℕ) (bytes : List ℕ) → Shrinks (lift (read_value tag bytes))
unfolding read_value
read_value-Shrinks tag bytes n rest h = elim (Bool-cases (eqb tag 2 || eqb tag 65 || eqb tag 66)) [
  | inl numeric ↦ elim (Bool-cases (eqb (length bytes) 4)) [
    | inl four ↦ rw (numeric, four) h
    | inr any ↦ rw (numeric, any) (first_byte-Shrinks bytes n rest h)
  ]
  | inr other ↦ elim (Bool-cases (eqb tag 70)) [
    | inl wide ↦ elim (Bool-cases (eqb (length bytes) 8)) [
      | inl eight ↦ rw (other, wide, eight) h
      | inr any ↦ rw (other, wide, any) h
    ]
    | inr plain ↦ rw (other, plain) h
  ]
]

abbrev varbind_rest : Parser WirePdu
varbind_rest = do
  n ← next
  within n
  expect 6
  oid ← text_of
  refuse_if (not (validate_oid oid))
  not_at_end
  tag ← next
  bytes ← text_of
  value ← lift (read_value tag bytes)
  pure (record { name = oid; tag = tag; value = value })

varbind_rest-Shrinks : Shrinks varbind_rest
varbind_rest-Shrinks = bind-Shrinks _ _ next-Shrinks λ n. bind-Shrinks _ _ (within-Shrinks n) λ _.
    bind-Shrinks _ _ (expect-Shrinks 6) λ _. bind-Shrinks _ _ text_of-Shrinks λ oid.
      bind-Shrinks _ _ (refuse_if-Shrinks (not (validate_oid oid))) λ _.
        bind-Shrinks _ _ not_at_end-Shrinks λ _. bind-Shrinks _ _ next-Shrinks λ tag.
          bind-Shrinks _ _ text_of-Shrinks
            λ bytes. bind-Shrinks _ _ (read_value-Shrinks tag bytes) λ value n bytes h. h

expect_takes : (tag n : ℕ) (bytes : List ℕ) → length bytes ≤ suc n → Leaves n (expect tag bytes)
unfolding expect
expect_takes tag n [] h = tt
expect_takes tag n (b ∷ bytes) h = elim (Bool-cases (eqb b tag)) [
  | inl same ↦ rw same (omega (arith, h))
  | inr other ↦ rw other tt
]

-- A turn of the loop takes at least the tag of its sequence.
decode_varbind-Leaves :
    (n : ℕ) (bytes : List ℕ) → length bytes ≤ suc n → Leaves n (decode_varbind bytes)
unfolding decode_varbind ◌>>=◌
decode_varbind-Leaves n bytes h =
    after _ n n (expect 48 bytes) (expect_takes 48 n bytes h)
      (λ _ rest. varbind_rest-Shrinks n rest)

Leaves_le {ℓ} : {A : Type ℓ} (n m : ℕ) (r : Result (A × List ℕ)) → n ≤ m → Leaves n r → Leaves m r
Leaves_le n m (ok (a, rest)) h g = omega (arith, h, g)
Leaves_le n m refused h g = tt
Leaves_le n m panics h g = tt
Leaves_le n m stuck h g = g

decode_varbinds-Leaves :
    (fuel stop : ℕ) (bytes : List ℕ)
    → length bytes ≤ fuel
    → Leaves fuel (decode_varbinds fuel stop bytes)
unfolding decode_varbinds ◌>>=◌
decode_varbinds-Leaves zero stop bytes h = elim (Bool-cases (ltb stop (length bytes))) [
  | inr done ↦ rw done h
  | inl more ↦ absurd (ground (arith, h, more))
]
decode_varbinds-Leaves (suc fuel) stop bytes h = elim (Bool-cases (ltb stop (length bytes))) [
  | inr done ↦ rw done h
  | inl more ↦ rw more (
      Leaves_le fuel (suc fuel) _ (omega arith) (
        after _ fuel fuel (decode_varbind bytes) (decode_varbind-Leaves fuel bytes h) (λ v rest few.
          after _ fuel fuel (decode_varbinds fuel stop rest)
            (decode_varbinds-Leaves fuel stop rest few) (λ vs last fewer. fewer))))
]

decode_variables-Shrinks : Shrinks decode_variables
unfolding decode_variables
decode_variables-Shrinks = bind-Shrinks _ _ (expect-Shrinks 48) λ _.
    bind-Shrinks _ _ next-Shrinks λ k. bind-Shrinks _ _ (within-Shrinks k) λ _ n bytes h.
      Leaves_le (length bytes) n _ h
        (decode_varbinds-Leaves (length bytes) (length bytes - k) bytes (omega arith))

decode_pdu-Shrinks : (version : ℕ) (community : List ℕ) → Shrinks (decode_pdu version community)
unfolding decode_pdu
decode_pdu-Shrinks version community = bind-Shrinks _ _ next-Shrinks λ type.
    bind-Shrinks _ _ next-Shrinks λ k. bind-Shrinks _ _ (within-Shrinks k) λ _.
      bind-Shrinks _ _ (expect-Shrinks 2) λ _. bind-Shrinks _ _ next-Shrinks λ id_length.
        bind-Shrinks _ _ (refuse_if-Shrinks (not (eqb id_length 4))) λ _.
          bind-Shrinks _ _ (slice-Shrinks 4) λ id. bind-Shrinks _ _ (expect-Shrinks 2) λ _.
            bind-Shrinks _ _ (expect-Shrinks 1) λ _. bind-Shrinks _ _ next-Shrinks λ error.
              bind-Shrinks _ _ (expect-Shrinks 2) λ _. bind-Shrinks _ _ (expect-Shrinks 1) λ _.
                bind-Shrinks _ _ next-Shrinks
                  λ index. bind-Shrinks _ _ decode_variables-Shrinks λ vs n bytes h. h

decode_fields-Shrinks : Shrinks decode_fields
unfolding decode_fields
decode_fields-Shrinks = bind-Shrinks _ _ (expect-Shrinks 48) λ _.
    bind-Shrinks _ _ next-Shrinks λ total. bind-Shrinks _ _ (within-Shrinks total) λ _.
      bind-Shrinks _ _ (expect-Shrinks 2) λ _. bind-Shrinks _ _ next-Shrinks λ k.
        bind-Shrinks _ _ (within-Shrinks k) λ _. bind-Shrinks _ _ peek-Shrinks λ version.
          bind-Shrinks _ _ (slice-Shrinks k) λ _. bind-Shrinks _ _ (expect-Shrinks 4) λ _.
            bind-Shrinks _ _ text_of-Shrinks λ community.
              bind-Shrinks _ _ (refuse_if-Shrinks (not (validate_community community)))
                λ _. decode_pdu-Shrinks version community

outcome_ends : (n : ℕ) (r : Result (WireMessage × List ℕ)) → Leaves n r → outcome r ≢ stuck
outcome_ends n (ok a) h e = absurd (ground (arith, e))
outcome_ends n refused h e = absurd (ground (arith, e))
outcome_ends n panics h e = absurd (ground (arith, e))
outcome_ends n stuck h e = h

-- DecodeMessage ends on all bytes: with as much fuel as there are bytes its loop does not run out.
pub decode_message_ends : (packet : List ℕ) → decode_message packet ≢ stuck
unfolding decode_message
decode_message_ends packet e =
    elim (Bool-cases (not (validate_length (length packet) 65507) || ltb (length packet) 2)) [
      | inl refuses ↦ absurd (ground (arith, refuses, e))
      | inr reads ↦
          outcome_ends (length packet) (decode_fields packet)
            (decode_fields-Shrinks (length packet) packet (omega arith)) (ground (arith, reads, e))
    ]
