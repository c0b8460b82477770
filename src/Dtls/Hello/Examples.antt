-- ===== src/Dtls/Hello/Examples.antt =====
-- Runs of hello.rs, and its theorem for the ClientHello of the Thread profile.
use meshcop_rs.Base.{◌≡◌, refl, [], ◌∷◌, some, ok, err, arith, replicate}
use meshcop_rs.Base.Bytes.{Bytes}
use meshcop_rs.Dtls.Error.{crypto}
use meshcop_rs.Dtls.Hello.{
  ClientHello, thread_profile, thread_profile_with_ecjpake, set_ecjpake_kkpp, without_kkpp,
  supported_groups_extension, signature_algorithms_extension, ec_point_formats_extension,
  max_fragment_length_extension, ecjpake_kkpp, find_extension, encode_client_hello,
  encode_hello_verify_request, validate_u8_len, extension_bytes,
}
use meshcop_rs.Dtls.Hello.Reading.{
  decode_client_hello, decode_hello_verify_request, read_u16, read_vec_u8, read_u8, read_exact,
  finish,
}
use meshcop_rs.Dtls.Hello.RoundTrip.{
  IsEncodable, extensions_bytes, decode_client_hello-encode_client_hello,
}

abbrev hello : ClientHello
hello = thread_profile_with_ecjpake (replicate 32 1) (7 ∷ 8 ∷ []) (9 ∷ 9 ∷ [])

has_kkpp : ecjpake_kkpp hello ≡ some (9 ∷ 9 ∷ [])
unfolding ecjpake_kkpp find_extension thread_profile_with_ecjpake set_ecjpake_kkpp thread_profile
    without_kkpp supported_groups_extension signature_algorithms_extension
    ec_point_formats_extension
has_kkpp = refl

verify_bytes :
    encode_hello_verify_request (record { server_version = 0xfefd; cookie = 1 ∷ 2 ∷ [] })
    ≡ ok (0xfe ∷ 0xfd ∷ 2 ∷ 1 ∷ 2 ∷ [])
unfolding encode_hello_verify_request validate_u8_len
verify_bytes = refl

verify_trailing :
    decode_hello_verify_request (0xfe ∷ 0xfd ∷ 0 ∷ 1 ∷ [])
    ≡ err (crypto "trailing bytes after DTLS structure")
unfolding decode_hello_verify_request read_u16 read_vec_u8 read_u8 read_exact finish
verify_trailing = refl

hello-IsEncodable : IsEncodable hello
unfolding thread_profile_with_ecjpake set_ecjpake_kkpp thread_profile without_kkpp
    supported_groups_extension signature_algorithms_extension ec_point_formats_extension
    max_fragment_length_extension extensions_bytes extension_bytes
hello-IsEncodable = record {
  random_is = refl;
  session_fits = omega arith;
  cookie_fits = omega arith;
  suites_width = (omega arith, (omega arith, tt));
  suites_fit = omega arith;
  methods_fit = omega arith;
  extensions_width = (
    (omega arith, omega arith),
    (
      (omega arith, omega arith),
      ((omega arith, omega arith), ((omega arith, omega arith), ((omega arith, omega arith), tt))),
    ),
  );
  extensions_fit = omega arith;
}

decode_client_hello-encode_client_hello_example :
    (bytes : Bytes) × (encode_client_hello hello ≡ ok bytes)
    × (decode_client_hello bytes ≡ ok hello)
decode_client_hello-encode_client_hello_example =
    decode_client_hello-encode_client_hello hello hello-IsEncodable
