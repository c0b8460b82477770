-- ===== src/Dtls/Handshake.antt =====
-- crates/meshcop-dtls/src/handshake.rs, the header and the fragment, with the 24-bit integers of
-- crates/meshcop-dtls/src/util.rs.

pub mod Header
pub mod Fragment
use meshcop_rs.Base.{
  ℕ, ◌+◌, Bool, List, [], ◌∷◌, ◌++◌, ◌||◌, leb, ltb, ◌==◌, if◌then◌else◌, length, take, drop,
  Result, ok, err, ◌>>=◌, ◌>>◌, guard,
}
use meshcop_rs.Base.Bits.{◌<<<◌, ◌>>>◌}
use meshcop_rs.Base.Bytes.{Bytes, as_u8, u16_from_be_bytes, u16_to_be_bytes}
use meshcop_rs.Dtls.Error.{Error, crypto}
use Prim.Native.Nat.{bit_or}

abbrev pub max_u24 : ℕ
max_u24 = 0x00ff_ffff

pub read_u24 : ℕ → ℕ → ℕ → ℕ
read_u24 a b c = bit_or (bit_or (a <<< 16) (b <<< 8)) c

-- The three bytes that are written: every caller passes a slice of that length.
pub write_u24 : ℕ → Result Error Bytes
write_u24 value =
    if ltb max_u24 value
    then err (crypto "invalid 24-bit integer")
    else ok (as_u8 (value >>> 16) ∷ as_u8 (value >>> 8) ∷ as_u8 value ∷ [])

pub data HandshakeType : Type 0 where
  hello_request client_hello server_hello hello_verify_request certificate : HandshakeType
  server_key_exchange certificate_request server_hello_done certificate_verify : HandshakeType
  client_key_exchange finished : HandshakeType

-- `message_type as u8`
unfoldable pub handshake_type_as_u8 : HandshakeType → ℕ
handshake_type_as_u8 hello_request = 0
handshake_type_as_u8 client_hello = 1
handshake_type_as_u8 server_hello = 2
handshake_type_as_u8 hello_verify_request = 3
handshake_type_as_u8 certificate = 11
handshake_type_as_u8 server_key_exchange = 12
handshake_type_as_u8 certificate_request = 13
handshake_type_as_u8 server_hello_done = 14
handshake_type_as_u8 certificate_verify = 15
handshake_type_as_u8 client_key_exchange = 16
handshake_type_as_u8 finished = 20

pub handshake_type_try_from : ℕ → Result Error HandshakeType
handshake_type_try_from value =
    if value == 0
    then ok hello_request
    else if value == 1
    then ok client_hello
    else if value == 2
    then ok server_hello
    else if value == 3
    then ok hello_verify_request
    else if value == 11
    then ok certificate
    else if value == 12
    then ok server_key_exchange
    else if value == 13
    then ok certificate_request
    else if value == 14
    then ok server_hello_done
    else if value == 15
    then ok certificate_verify
    else if value == 16
    then ok client_key_exchange
    else if value == 20
    then ok finished
    else err (crypto "unknown DTLS handshake type")

pub record HandshakeHeader : Type 0 where
  pub message_type : HandshakeType
  pub len : ℕ
  pub message_seq : ℕ
  pub fragment_offset : ℕ
  pub fragment_length : ℕ

-- `HandshakeHeader::LEN`
abbrev pub header_len : ℕ
header_len = 12

-- Past the first test the sum is below 2 ^ 25, so the `u32` addition does not overflow.
pub validate : HandshakeHeader → Result Error (Unit {0})
validate h =
    if ltb max_u24 h.len || (ltb max_u24 h.fragment_offset || ltb max_u24 h.fragment_length)
    then err (crypto "DTLS handshake length exceeds 24-bit field")
    else if ltb h.len (h.fragment_offset + h.fragment_length)
    then err (crypto "DTLS handshake fragment exceeds message length")
    else ok tt

pub parse_header : Bytes → Result Error HandshakeHeader
parse_header (b0 ∷ b1 ∷ b2 ∷ b3 ∷ b4 ∷ b5 ∷ b6 ∷ b7 ∷ b8 ∷ b9 ∷ b10 ∷ b11 ∷ _) = do
  message_type ← handshake_type_try_from b0
  let header : HandshakeHeader = record {
    message_type = message_type;
    len = read_u24 b1 b2 b3;
    message_seq = u16_from_be_bytes b4 b5;
    fragment_offset = read_u24 b6 b7 b8;
    fragment_length = read_u24 b9 b10 b11;
  }
  validate header
  ok header
parse_header _ = err (crypto "DTLS handshake header is truncated")

pub encode_header : HandshakeHeader → Result Error Bytes
encode_header h = do
  validate h
  length_bytes ← write_u24 h.len
  offset_bytes ← write_u24 h.fragment_offset
  fragment_bytes ← write_u24 h.fragment_length
  ok (
      handshake_type_as_u8 h.message_type
      ∷ (length_bytes ++ (u16_to_be_bytes h.message_seq ++ (offset_bytes ++ fragment_bytes))))

pub record HandshakeFragment : Type 0 where
  pub header : HandshakeHeader
  pub fragment : Bytes

-- `end` is at most 12 + 0xff_ffff: `checked_add` does not overflow.
pub parse_fragment : Bytes → Result Error HandshakeFragment
parse_fragment bytes = do
  header ← parse_header bytes
  guard (leb (header_len + header.fragment_length) (length bytes))
      (crypto "DTLS handshake fragment is truncated")
  ok (record { header = header; fragment = take header.fragment_length (drop header_len bytes) })

pub encode_fragment : HandshakeFragment → Result Error Bytes
encode_fragment f = do
  guard (length f.fragment == f.header.fragment_length)
      (crypto "DTLS handshake fragment header length does not match payload")
  header ← encode_header f.header
  ok (header ++ f.fragment)
