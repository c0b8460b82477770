-- ===== src/Coap/Examples.antt =====
-- Runs of coap.rs on messages of its unit tests' shape, and the theorems at concrete inputs.
use meshcop_rs.Base.{
  ◌≡◌, ◌≤◌, ◌⊎◌, refl, List, [], ◌∷◌, arith, leb, if◌then◌else◌, length, ok, err, true,
}
use meshcop_rs.Base.Bytes.{Bytes, IsU16, IsBytes}
use meshcop_rs.Coap.{
  CoapMessage, CoapOption, confirmable, post_code, encode, decode, encode_extended_nibble,
  decode_extended_nibble, sorted_options, extended_byte, extended_u16, decode_option,
  decode_options, coap_type_try_from, encode_options, encode_option_header, first_byte,
  coap_type_as_u8, with_payload, sort, enumerate, insert, key_leb,
}
use meshcop_rs.Coap.Options.{Ascending, all_fit, bytes_or_too_long}
use meshcop_rs.Coap.RoundTrip.{wire, reordered, encode-wire, decode-encode}
use meshcop_rs.Coap.Sorting.{SortsTo}
use meshcop_rs.Coap.Decoding.{decode_total, encode-decode}
use meshcop_rs.Error.{Error, dataset}

-- The options of `post_request` with the path "/c/cp", behind one of a higher number.
abbrev content_format : CoapOption
content_format = record { number = 12; value = 0x2a ∷ [] }

abbrev path_c : CoapOption
path_c = record { number = 11; value = 0x63 ∷ [] }

abbrev path_cp : CoapOption
path_cp = record { number = 11; value = 0x63 ∷ 0x70 ∷ [] }

abbrev petition : CoapMessage
petition = record {
  ty = confirmable;
  code = post_code;
  message_id = 0x1234;
  token = 0xaa ∷ 0xbb ∷ [];
  options = content_format ∷ path_c ∷ path_cp ∷ [];
  payload = 0x0a ∷ 0x00 ∷ [];
}

abbrev petition_sorted : CoapMessage
petition_sorted = record {
  ty = confirmable;
  code = post_code;
  message_id = 0x1234;
  token = 0xaa ∷ 0xbb ∷ [];
  options = path_c ∷ path_cp ∷ content_format ∷ [];
  payload = 0x0a ∷ 0x00 ∷ [];
}

abbrev petition_bytes : Bytes
petition_bytes =
    0x42 ∷ 0x02 ∷ 0x12 ∷ 0x34 ∷ 0xaa ∷ 0xbb ∷ 0xb1 ∷ 0x63 ∷ 0x02 ∷ 0x63 ∷ 0x70 ∷ 0x11 ∷ 0x2a ∷ 0xff
    ∷ 0x0a ∷ 0x00 ∷ []

encode-petition : encode petition ≡ ok petition_bytes
unfolding encode encode_options encode_option_header encode_extended_nibble first_byte
    coap_type_as_u8 with_payload sorted_options sort enumerate insert key_leb
encode-petition = refl

decode-petition : decode petition_bytes ≡ ok petition_sorted
unfolding decode decode_options decode_option decode_extended_nibble extended_byte extended_u16
    coap_type_try_from
decode-petition = refl

all_fit-petition : all_fit petition.options ≡ true
unfolding all_fit
all_fit-petition = refl

all_fit-petition_sorted : all_fit petition_sorted.options ≡ true
unfolding all_fit
all_fit-petition_sorted = refl

petition-Ascending : Ascending 0 petition_sorted.options
unfolding Ascending
petition-Ascending = omega arith

encode-wire_example : encode petition ≡ (
    if leb (length petition.token) 8
    then bytes_or_too_long (all_fit petition.options) (wire petition)
    else err (dataset "CoAP token length > 8"))
encode-wire_example = encode-wire petition (omega arith)

decode-encode_example :
    (bytes : Bytes) × (options : List CoapOption) × (encode petition ≡ ok bytes)
    × (decode bytes ≡ ok (reordered petition options))
    × SortsTo petition.options options
decode-encode_example = decode-encode petition (omega arith) (omega arith) (omega arith)

decode_total_example :
    ((m : CoapMessage) × (decode petition_bytes ≡ ok m)
      × (length m.token ≤ 8)
      × Ascending 0 m.options
      × (IsBytes petition_bytes → IsU16 m.message_id × (all_fit m.options ≡ true)))
    ⊎ ((e : Error) × (decode petition_bytes ≡ err e))
decode_total_example = decode_total petition_bytes

encode-decode_example :
    (canonical : Bytes) × (encode petition_sorted ≡ ok canonical)
    × (decode canonical ≡ ok petition_sorted)
encode-decode_example = encode-decode petition_bytes petition_sorted (omega arith) decode-petition
