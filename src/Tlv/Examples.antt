-- ===== src/Tlv/Examples.antt =====
-- Runs of tlv.rs on the inputs of its unit tests, and the theorems at concrete inputs.
use meshcop_rs.Base.{◌≡◌, refl, some, [], ◌∷◌, arith, ok, err}
use meshcop_rs.Base.Bytes.{Bytes}
use meshcop_rs.Tlv.{
  TlvSet, buffer_too_small, value_too_large, extended_length, header_length, parse_one, parse_loop,
  parse, encode_header, encode, last_value,
}
use meshcop_rs.Tlv.RoundTrip.{parse-encode}

abbrev two : TlvSet
two = record {
  entries = record { ty = 1; value = 0xaa ∷ 0xbb ∷ [] } ∷ record { ty = 2; value = 0x11 ∷ [] } ∷ [];
}

abbrev repeated : TlvSet
repeated = record {
  entries =
      record { ty = 1; value = 0xaa ∷ [] }
      ∷ record { ty = 2; value = 0xbb ∷ [] }
      ∷ record { ty = 1; value = 0xcc ∷ [] }
      ∷ [];
}

abbrev repeated_bytes : Bytes
repeated_bytes = 1 ∷ 1 ∷ 0xaa ∷ 2 ∷ 1 ∷ 0xbb ∷ 1 ∷ 1 ∷ 0xcc ∷ []

parse-repeated : parse repeated_bytes ≡ ok repeated
unfolding parse parse_loop parse_one header_length
parse-repeated = refl

last_value-repeated : last_value repeated 1 ≡ some (0xcc ∷ [])
unfolding last_value
last_value-repeated = refl

truncated_header : parse (1 ∷ 0xff ∷ 0 ∷ []) ≡ err buffer_too_small
unfolding parse parse_loop parse_one header_length extended_length
truncated_header = refl

truncated_value : parse (1 ∷ 0xff ∷ 0 ∷ 2 ∷ 0xaa ∷ []) ≡ err buffer_too_small
unfolding parse parse_loop parse_one header_length extended_length
truncated_value = refl

extended_header : encode_header 2 255 [] ≡ (2 ∷ 0xff ∷ 0 ∷ 0xff ∷ [], ok tt)
unfolding encode_header
extended_header = refl

oversized_header : encode_header 1 0x1_0000 [] ≡ (1 ∷ [], err (value_too_large 0x1_0000))
unfolding encode_header
oversized_header = refl

parse-encode_example : (bytes : Bytes) × (encode two ≡ ok bytes) × (parse bytes ≡ ok two)
parse-encode_example = parse-encode two (omega arith)
