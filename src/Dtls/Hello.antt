-- ===== src/Dtls/Hello.antt =====
-- crates/meshcop-dtls/src/hello.rs: the bodies of the hello messages, with the constants of
-- constants.rs. A `Cursor` is the list of the bytes that it has not read.
pub mod Reading
pub mod RoundTrip
pub mod Total
mod Examples
use meshcop_rs.Base.{
  ℕ, zero, suc, ◌+◌, ◌*◌, ◌%◌, Bool, true, false, not, List, [], ◌∷◌, ◌++◌, ◌==◌, ◌||◌, leb, ltb,
  if◌then◌else◌, length, take, drop, Result, ok, err, stuck, ◌>>=◌, ◌>>◌, guard, Option, none, some,
}
use meshcop_rs.Base.Bits.{◌>>>◌}
use meshcop_rs.Base.Bytes.{Bytes, as_u8, u16_from_be_bytes, u16_to_be_bytes}
use meshcop_rs.Dtls.Error.{Error, crypto, over_255, over_65535}
use meshcop_rs.Dtls.Record.{dtls_1_2_version}
use Prim.Native.String.{String}

abbrev pub tls_ecjpake_with_aes_128_ccm_8 : ℕ
tls_ecjpake_with_aes_128_ccm_8 = 0xc0ff

abbrev pub tls_empty_renegotiation_info_scsv : ℕ
tls_empty_renegotiation_info_scsv = 0x00ff

abbrev pub tls_compression_null : ℕ
tls_compression_null = 0

abbrev pub extension_supported_groups : ℕ
extension_supported_groups = 10

abbrev pub extension_max_fragment_length : ℕ
extension_max_fragment_length = 1

abbrev pub extension_ec_point_formats : ℕ
extension_ec_point_formats = 11

abbrev pub extension_signature_algorithms : ℕ
extension_signature_algorithms = 13

abbrev pub extension_ecjpake_kkpp : ℕ
extension_ecjpake_kkpp = 256

abbrev pub named_group_secp256r1 : ℕ
named_group_secp256r1 = 23

abbrev pub ec_point_format_uncompressed : ℕ
ec_point_format_uncompressed = 0

pub record TlsExtension : Type 0 where
  pub extension_type : ℕ
  pub body : Bytes

pub record ClientHello : Type 0 where
  pub random : Bytes
  pub session_id : Bytes
  pub cookie : Bytes
  pub cipher_suites : List ℕ
  pub compression_methods : Bytes
  pub extensions : List TlsExtension

pub record HelloVerifyRequest : Type 0 where
  pub server_version : ℕ
  pub cookie : Bytes

pub record ServerHello : Type 0 where
  pub random : Bytes
  pub session_id : Bytes
  pub cipher_suite : ℕ
  pub compression_method : ℕ
  pub extensions : List TlsExtension

pub supported_groups_extension : TlsExtension
supported_groups_extension = record {
  extension_type = extension_supported_groups;
  body = 0x00 ∷ 0x02 ∷ as_u8 (named_group_secp256r1 >>> 8) ∷ as_u8 named_group_secp256r1 ∷ [];
}

pub signature_algorithms_extension : TlsExtension
signature_algorithms_extension = record {
  extension_type = extension_signature_algorithms;
  body = 0x00 ∷ 0x02 ∷ 0x04 ∷ 0x03 ∷ [];
}

pub ec_point_formats_extension : TlsExtension
ec_point_formats_extension = record {
  extension_type = extension_ec_point_formats;
  body = 0x01 ∷ ec_point_format_uncompressed ∷ [];
}

pub max_fragment_length_extension : TlsExtension
max_fragment_length_extension = record {
  extension_type = extension_max_fragment_length;
  body = 0x02 ∷ [];
}

pub thread_profile : Bytes → Bytes → ClientHello
thread_profile random cookie = record {
  random = random;
  session_id = [];
  cookie = cookie;
  cipher_suites = tls_ecjpake_with_aes_128_ccm_8 ∷ tls_empty_renegotiation_info_scsv ∷ [];
  compression_methods = tls_compression_null ∷ [];
  extensions =
      supported_groups_extension ∷ signature_algorithms_extension ∷ ec_point_formats_extension ∷ [];
}

-- `retain`: neither of the two extensions.
pub without_kkpp : List TlsExtension → List TlsExtension
without_kkpp [] = []
without_kkpp (extension ∷ extensions) =
    let rest = without_kkpp extensions in
    if extension.extension_type == extension_ecjpake_kkpp
      || extension.extension_type == extension_max_fragment_length
    then rest
    else extension ∷ rest

pub set_ecjpake_kkpp : ClientHello → Bytes → ClientHello
set_ecjpake_kkpp hello kkpp = record hello {
  extensions =
      without_kkpp hello.extensions
      ++ (record { extension_type = extension_ecjpake_kkpp; body = kkpp }
          ∷ max_fragment_length_extension
          ∷ []);
}

pub thread_profile_with_ecjpake : Bytes → Bytes → Bytes → ClientHello
thread_profile_with_ecjpake random cookie kkpp =
    set_ecjpake_kkpp (thread_profile random cookie) kkpp

pub find_extension : List TlsExtension → ℕ → Option Bytes
find_extension [] extension_type = none
find_extension (extension ∷ extensions) extension_type =
    if extension.extension_type == extension_type
    then some extension.body
    else find_extension extensions extension_type

pub ecjpake_kkpp : ClientHello → Option Bytes
ecjpake_kkpp hello = find_extension hello.extensions extension_ecjpake_kkpp

pub validate_u8_len : ℕ → String → Result Error (Unit {0})
validate_u8_len len field = guard (leb len 255) (over_255 field)

pub validate_u16_len : ℕ → String → Result Error (Unit {0})
validate_u16_len len field = guard (leb len 65535) (over_65535 field)

unfoldable pub extension_bytes : TlsExtension → Bytes
extension_bytes extension =
    u16_to_be_bytes extension.extension_type
    ++ (u16_to_be_bytes (length extension.body) ++ extension.body)

pub extensions_loop : List TlsExtension → Bytes → Result Error Bytes
extensions_loop [] encoded = ok encoded
extensions_loop (extension ∷ extensions) encoded = do
  validate_u16_len (length extension.body) "TLS extension"
  extensions_loop extensions (encoded ++ extension_bytes extension)

pub append_extensions : Bytes → List TlsExtension → Result Error Bytes
append_extensions out extensions = do
  encoded ← extensions_loop extensions []
  validate_u16_len (length encoded) "TLS extensions"
  ok (out ++ (u16_to_be_bytes (length encoded) ++ encoded))

pub suites_bytes : List ℕ → Bytes
suites_bytes [] = []
suites_bytes (suite ∷ suites) = u16_to_be_bytes suite ++ suites_bytes suites

-- The length of the cipher suites does not overflow a `usize`, which `checked_mul` asks for.
pub encode_client_hello : ClientHello → Result Error Bytes
encode_client_hello hello = do
  validate_u8_len (length hello.session_id) "ClientHello session_id"
  validate_u8_len (length hello.cookie) "ClientHello cookie"
  validate_u8_len (length hello.compression_methods) "ClientHello compression methods"
  validate_u16_len (length hello.cipher_suites * 2) "ClientHello cipher suites"
  append_extensions
      (u16_to_be_bytes dtls_1_2_version
        ++ (hello.random
            ++ (as_u8 (length hello.session_id)
                ∷ (hello.session_id
                    ++ (as_u8 (length hello.cookie)
                        ∷ (hello.cookie
                            ++ (u16_to_be_bytes (length hello.cipher_suites * 2)
                                ++ (suites_bytes hello.cipher_suites
                                    ++ (as_u8 (length hello.compression_methods)
                                        ∷ hello.compression_methods)))))))))
      hello.extensions

pub encode_hello_verify_request : HelloVerifyRequest → Result Error Bytes
encode_hello_verify_request hello = do
  validate_u8_len (length hello.cookie) "HelloVerifyRequest cookie"
  ok (u16_to_be_bytes hello.server_version ++ (as_u8 (length hello.cookie) ∷ hello.cookie))

pub encode_server_hello : ServerHello → Result Error Bytes
encode_server_hello hello = do
  validate_u8_len (length hello.session_id) "ServerHello session_id"
  append_extensions
      (u16_to_be_bytes dtls_1_2_version
        ++ (hello.random
            ++ (as_u8 (length hello.session_id)
                ∷ (hello.session_id
                    ++ (u16_to_be_bytes hello.cipher_suite ++ (hello.compression_method ∷ []))))))
      hello.extensions
