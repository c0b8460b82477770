-- ===== src/Dtls/Record.antt =====
-- crates/meshcop-dtls/src/record.rs: DTLS record framing.
pub mod Header
pub mod Datagram
pub mod Binding
mod Examples
use meshcop_rs.Base.{
  ℕ, zero, suc, ◌+◌, ◌%◌, Bool, List, [], ◌∷◌, ◌++◌, leb, ltb, ◌==◌, if◌then◌else◌, length, take,
  drop, Result, ok, err, stuck, ◌>>=◌, ◌>>◌, guard,
}
use meshcop_rs.Base.Bits.{◌<<<◌, ◌>>>◌}
use meshcop_rs.Base.Bytes.{Bytes, as_u8, u16_from_be_bytes, u16_to_be_bytes}
use meshcop_rs.Dtls.Error.{Error, crypto}
use Prim.Native.Nat.{bit_or}

abbrev pub dtls_1_2_version : ℕ
dtls_1_2_version = 0xfefd

pub data ContentType : Type 0 where
  change_cipher_spec alert handshake application_data : ContentType

-- `content_type as u8`
pub content_type_as_u8 : ContentType → ℕ
content_type_as_u8 change_cipher_spec = 20
content_type_as_u8 alert = 21
content_type_as_u8 handshake = 22
content_type_as_u8 application_data = 23

pub content_type_try_from : ℕ → Result Error ContentType
content_type_try_from value =
    if value == 20
    then ok change_cipher_spec
    else if value == 21
    then ok alert
    else if value == 22
    then ok handshake
    else if value == 23
    then ok application_data
    else err (crypto "unknown DTLS content type")

pub record RecordHeader : Type 0 where
  pub content_type : ContentType
  pub version : ℕ
  pub epoch : ℕ
  pub sequence_number : ℕ
  pub len : ℕ

-- `RecordHeader::LEN`
abbrev pub header_len : ℕ
header_len = 13

-- The 48-bit sequence number from its six bytes.
pub read_sequence : ℕ → ℕ → ℕ → ℕ → ℕ → ℕ → ℕ
read_sequence b5 b6 b7 b8 b9 b10 =
    bit_or
      (bit_or (bit_or (bit_or (bit_or (b5 <<< 40) (b6 <<< 32)) (b7 <<< 24)) (b8 <<< 16)) (b9 <<< 8))
      b10

pub parse_header : Bytes → Result Error RecordHeader
parse_header (b0 ∷ b1 ∷ b2 ∷ b3 ∷ b4 ∷ b5 ∷ b6 ∷ b7 ∷ b8 ∷ b9 ∷ b10 ∷ b11 ∷ b12 ∷ _) = do
  content_type ← content_type_try_from b0
  ok (record {
    content_type = content_type;
    version = u16_from_be_bytes b1 b2;
    epoch = u16_from_be_bytes b3 b4;
    sequence_number = read_sequence b5 b6 b7 b8 b9 b10;
    len = u16_from_be_bytes b11 b12;
  })
parse_header _ = err (crypto "DTLS record header is truncated")

unfoldable pub sequence_bytes : ℕ → Bytes
sequence_bytes s =
    as_u8 (s >>> 40)
    ∷ as_u8 (s >>> 32)
    ∷ as_u8 (s >>> 24)
    ∷ as_u8 (s >>> 16)
    ∷ as_u8 (s >>> 8)
    ∷ as_u8 s
    ∷ []

pub encode_header : RecordHeader → Bytes
unfolding sequence_bytes
encode_header h =
    content_type_as_u8 h.content_type ∷ u16_to_be_bytes h.version
    ++ u16_to_be_bytes h.epoch
    ++ sequence_bytes h.sequence_number
    ++ u16_to_be_bytes h.len

pub aead_additional_data : RecordHeader → ℕ → Bytes
unfolding sequence_bytes
aead_additional_data h plaintext_len =
    u16_to_be_bytes h.epoch
    ++ (sequence_bytes h.sequence_number
        ++ (content_type_as_u8 h.content_type
            ∷ (u16_to_be_bytes h.version ++ u16_to_be_bytes plaintext_len)))

pub record DtlsRecord : Type 0 where
  pub header : RecordHeader
  pub payload : Bytes

-- `DtlsRecord::new`
unfoldable pub new_record : ContentType → ℕ → ℕ → Bytes → Result Error DtlsRecord
new_record content_type epoch sequence_number payload = do
  guard (leb (length payload) 0xffff) (crypto "DTLS record payload is too long")
  ok (record {
    header = record {
      content_type = content_type;
      version = dtls_1_2_version;
      epoch = epoch;
      sequence_number = sequence_number;
      len = length payload;
    };
    payload = payload;
  })

pub encode : DtlsRecord → Result Error Bytes
encode r = do
  guard (length r.payload == r.header.len)
      (crypto "DTLS record header length does not match payload")
  ok (encode_header r.header ++ r.payload)

-- One round of the loop of `parse_datagram`. `end` is at most 13 + 65535: no overflow.
pub parse_one : Bytes → Result Error (DtlsRecord × Bytes)
parse_one bytes = do
  header ← parse_header bytes
  guard (leb (header_len + header.len) (length bytes)) (crypto "DTLS record payload is truncated")
  ok (
    record { header = header; payload = take header.len (drop header_len bytes) },
    drop (header_len + header.len) bytes,
  )

pub parse_loop : ℕ → Bytes → List DtlsRecord → Result Error (List DtlsRecord)
parse_loop fuel [] records = ok records
parse_loop zero (b ∷ bs) records = stuck
parse_loop (suc fuel) (b ∷ bs) records = do
  (r, rest) ← parse_one (b ∷ bs)
  parse_loop fuel rest (records ++ (r ∷ []))

-- Every record takes 13 bytes at least.
pub parse_datagram : Bytes → Result Error (List DtlsRecord)
parse_datagram bytes = parse_loop (length bytes) bytes []

pub encode_loop : List DtlsRecord → Bytes → Result Error Bytes
encode_loop [] datagram = ok datagram
encode_loop (r ∷ records) datagram = do bytes ← encode r; encode_loop records (datagram ++ bytes)

pub encode_datagram : List DtlsRecord → Result Error Bytes
encode_datagram records = encode_loop records []
