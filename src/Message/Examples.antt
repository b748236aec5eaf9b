-- ===== src/Message/Examples.antt =====
-- Messages at concrete bytes.
use sssonector.Message.Varbinds.{IsSendable, read_back}
use sssonector.Message.RoundTrip.{
  IsSmall, decode_message-encode_message, decode_message-encode_texts,
}
use sssonector.Prelude.{List, [], arith, map, refl, ℕ, ◌∷◌, ◌≡◌, ◌≢◌}
use sssonector.Message.Encode.{Formats, encode_message, encode_varbinds, value_text, varbinds_size}
use sssonector.Message.{
  WireMessage, WirePdu, all_printable, decode_fields, decode_message, decode_pdu, decode_varbind,
  decode_varbinds, decode_variables, first_byte, is_printable_ascii, not_at_end, number, read_value,
  string, valid_names, validate_community, validate_length, validate_oid, validate_var_binds,
}
use sssonector.Message.Wire.{
  expect, next, ok, panics, peek, refused, slice, stuck, text_of, within, ◌>>=◌,
}
use sssonector.Message.Ends.{decode_message_ends}
use sssonector.Message.Truncation.{decode_message_panics}

-- The constants of gosnmp, and digits in base one.
abbrev digits : ℕ → List ℕ
digits n = 49 ∷ []

abbrev formats : Formats
formats = record { counter64 = 70; gauge32 = 66; integer = 2; format_int = digits }

abbrev public : List ℕ
public = 112 ∷ 117 ∷ 98 ∷ []

-- `.1` with the text `up`.
abbrev text_variable : WirePdu
text_variable = record { name = 46 ∷ 49 ∷ []; tag = 4; value = string (117 ∷ 112 ∷ []) }

abbrev text_message : WireMessage
text_message = record {
  version = 1;
  community = public;
  pdu_type = 162;
  request_id = 70000;
  variables = text_variable ∷ [];
  error = 0;
  index = 0;
}

abbrev text_bytes : List ℕ
text_bytes =
    48 ∷ 34 ∷ 2 ∷ 1 ∷ 1 ∷ 4 ∷ 3 ∷ 112 ∷ 117 ∷ 98 ∷ 162 ∷ 24 ∷ 2 ∷ 4 ∷ 0 ∷ 1 ∷ 17 ∷ 112 ∷ 2 ∷ 1 ∷ 0
    ∷ 2 ∷ 1 ∷ 0 ∷ 48 ∷ 10 ∷ 48 ∷ 8 ∷ 6 ∷ 2 ∷ 46 ∷ 49 ∷ 4 ∷ 2 ∷ 117 ∷ 112 ∷ []

two_bytes_test : decode_message (48 ∷ 0 ∷ []) ≡ panics
unfolding decode_message validate_length decode_fields ◌>>=◌ expect next within
two_bytes_test = refl

empty_test : decode_message [] ≡ refused
unfolding decode_message validate_length
empty_test = refl

text_message_written : encode_message formats text_message ≡ ok text_bytes
unfolding encode_message validate_community all_printable is_printable_ascii validate_var_binds
    valid_names validate_oid varbinds_size value_text encode_varbinds
text_message_written = refl

decode_message_panics_example :
    decode_message (48 ∷ 0 ∷ 2 ∷ 1 ∷ 1 ∷ 4 ∷ 3 ∷ 112 ∷ 117 ∷ 98 ∷ []) ≡ panics
unfolding validate_community all_printable is_printable_ascii
decode_message_panics_example = decode_message_panics 0 1 public refl (omega arith)

decode_message_ends_example : decode_message text_bytes ≢ stuck
decode_message_ends_example = decode_message_ends text_bytes

text_message-IsSmall : IsSmall formats text_message
unfolding varbinds_size value_text IsSendable
text_message-IsSmall = record {
  version = omega arith;
  pdu_type = omega arith;
  request_id = omega arith;
  error = omega arith;
  index = omega arith;
  size = 10;
  sized = refl;
  few = omega arith;
  sendable = ((omega arith, refl), tt);
}

decode_message-encode_texts_example : decode_message text_bytes ≡ ok text_message
decode_message-encode_texts_example =
    decode_message-encode_texts formats text_message text_bytes text_message-IsSmall
      ((117 ∷ 112 ∷ [], refl, refl, refl, refl), tt) text_message_written

decode_message-encode_message_example :
    decode_message text_bytes
    ≡ ok (record text_message { variables = map (read_back formats) (text_variable ∷ []) })
decode_message-encode_message_example =
    decode_message-encode_message formats text_message text_bytes text_message-IsSmall
      text_message_written

-- A number is written as digits and read back as the byte of the first.
number_test :
    read_back formats (record text_variable { tag = 2; value = number 1 })
    ≡ record text_variable { tag = 2; value = number 49 }
unfolding read_back value_text read_value first_byte
number_test = refl

-- An empty string of the type Counter32 is written, and its bytes make the reader panic.
abbrev empty_counter : WireMessage
empty_counter = record text_message {
  variables = record text_variable { tag = 65; value = string [] } ∷ [];
}

abbrev empty_counter_bytes : List ℕ
empty_counter_bytes =
    48 ∷ 32 ∷ 2 ∷ 1 ∷ 1 ∷ 4 ∷ 3 ∷ 112 ∷ 117 ∷ 98 ∷ 162 ∷ 22 ∷ 2 ∷ 4 ∷ 0 ∷ 1 ∷ 17 ∷ 112 ∷ 2 ∷ 1 ∷ 0
    ∷ 2 ∷ 1 ∷ 0 ∷ 48 ∷ 8 ∷ 48 ∷ 6 ∷ 6 ∷ 2 ∷ 46 ∷ 49 ∷ 65 ∷ 0 ∷ []

empty_counter_test :
    (encode_message formats empty_counter ≡ ok empty_counter_bytes)
    × (decode_message empty_counter_bytes ≡ panics)
unfolding encode_message validate_community all_printable is_printable_ascii validate_var_binds
    valid_names validate_oid varbinds_size value_text encode_varbinds decode_message validate_length
    decode_fields ◌>>=◌ expect next within read_value first_byte peek slice text_of decode_pdu
    decode_variables decode_varbinds decode_varbind not_at_end
empty_counter_test = (refl, refl)

-- `up` of the type Counter32 comes back as a number.
letters_test :
    read_back formats (record text_variable { tag = 65 })
    ≡ record text_variable { tag = 65; value = number 117 }
unfolding read_back value_text read_value first_byte
letters_test = refl
