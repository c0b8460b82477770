-- ===== src/Dtls/Message.antt =====
-- crates/meshcop-dtls/src/handshake.rs, the whole message: its fragments, its transcript form, and
-- the records that carry unfragmented messages.
pub mod Fragments
pub mod Packed
pub mod Whole
mod Examples
use meshcop_rs.Base.{
  ℕ, zero, suc, ◌+◌, ◌*◌, ◌%◌, max, Bool, true, false, Option, none, some, List, [], ◌∷◌, ◌++◌,
  ◌&&◌, leb, ltb, ◌==◌, if◌then◌else◌, length, take, drop, Result, ok, err, stuck, ◌>>=◌, ◌>>◌,
  guard, ok_or,
}
use meshcop_rs.Base.Bytes.{Bytes}
use meshcop_rs.Dtls.Error.{Error, crypto}
use meshcop_rs.Dtls.Handshake.{
  HandshakeType, HandshakeHeader, HandshakeFragment, max_u24, header_len, handshake_type_as_u8,
  encode_header, parse_fragment, encode_fragment,
}
use meshcop_rs.Dtls.Record.{ContentType, DtlsRecord, content_type_as_u8}
use meshcop_rs.Dtls.Record

pub record HandshakeMessage : Type 0 where
  pub message_type : HandshakeType
  pub message_seq : ℕ
  pub payload : Bytes

abbrev pub as_u32 : ℕ → ℕ
as_u32 v = v % 0x1_0000_0000

-- `slice::chunks` of the standard library; each chunk takes a byte at least.
unfoldable pub chunk_loop : ℕ → ℕ → Bytes → List Bytes
chunk_loop fuel n [] = []
chunk_loop zero n (x ∷ xs) = []
chunk_loop (suc fuel) n (x ∷ xs) = take n (x ∷ xs) ∷ chunk_loop fuel n (drop n (x ∷ xs))

unfoldable pub chunks : ℕ → Bytes → List Bytes
chunks n xs = chunk_loop (length xs) n xs

-- The fragment at `offset` of a message of `total` bytes.
unfoldable pub fragment_at : HandshakeMessage → ℕ → ℕ → Bytes → HandshakeFragment
fragment_at m total offset piece = record {
  header = record {
    message_type = m.message_type;
    len = total;
    message_seq = m.message_seq;
    fragment_offset = offset;
    fragment_length = as_u32 (length piece);
  };
  fragment = piece;
}

-- The `for` loop: `idx * max_fragment_len` is at most the payload's length, so `checked_mul` does
-- not overflow.
unfoldable pub fragment_loop : HandshakeMessage → ℕ → ℕ → List Bytes → List HandshakeFragment
fragment_loop m n idx [] = []
fragment_loop m n idx (piece ∷ pieces) =
    fragment_at m (as_u32 (length m.payload)) (as_u32 (idx * n)) piece
    ∷ fragment_loop m n (idx + 1) pieces

unfoldable pub or_empty_fragment :
    HandshakeMessage → List HandshakeFragment → List HandshakeFragment
or_empty_fragment m [] = fragment_at m 0 0 [] ∷ []
or_empty_fragment m (f ∷ fs) = f ∷ fs

unfoldable pub fragment : HandshakeMessage → ℕ → Result Error (List HandshakeFragment)
fragment m max_fragment_len =
    if max_fragment_len == 0
    then err (crypto "maximum handshake fragment length must be nonzero")
    else if ltb max_u24 (length m.payload)
    then err (crypto "DTLS handshake message exceeds 24-bit length")
    else ok (
        or_empty_fragment m
          (fragment_loop m max_fragment_len 0 (chunks max_fragment_len m.payload)))

pub first : List HandshakeFragment → Option HandshakeFragment
first [] = none
first (f ∷ fs) = some f

pub encode : HandshakeMessage → Result Error Bytes
encode m = do
  fragments ← fragment m (max (length m.payload) 1)
  f ← ok_or (first fragments) (crypto "missing handshake fragment")
  encode_fragment f

-- `u32::try_from(self.payload.len())`
pub u32_len : HandshakeMessage → Result Error ℕ
u32_len m =
    if leb (length m.payload) 0xffff_ffff
    then ok (length m.payload)
    else err (crypto "DTLS handshake message exceeds 24-bit length")

pub transcript_bytes : HandshakeMessage → Result Error Bytes
transcript_bytes m = do
  len ← u32_len m
  fragment_length ← u32_len m
  header ← encode_header (record {
    message_type = m.message_type;
    len = len;
    message_seq = m.message_seq;
    fragment_offset = 0;
    fragment_length = fragment_length;
  })
  ok (header ++ m.payload)

pub record HandshakeTranscript : Type 0 where
  pub bytes : Bytes

pub new_transcript : HandshakeTranscript
new_transcript = record { bytes = [] }

-- On an error the transcript is not changed.
pub push_transcript : HandshakeTranscript → HandshakeMessage → Result Error HandshakeTranscript
push_transcript t m = do bytes ← transcript_bytes m; ok (record { bytes = t.bytes ++ bytes })

-- `record.header.content_type != ContentType::Handshake`
pub is_handshake : DtlsRecord → Bool
is_handshake r = content_type_as_u8 r.header.content_type == content_type_as_u8 Record.handshake

pub is_whole : HandshakeFragment → Bool
is_whole f = f.header.fragment_offset == 0 && f.header.fragment_length == f.header.len

pub message_of : HandshakeFragment → HandshakeMessage
message_of f = record {
  message_type = f.header.message_type;
  message_seq = f.header.message_seq;
  payload = f.fragment;
}

pub parse_unfragmented_handshake_record : DtlsRecord → HandshakeType → Result Error HandshakeMessage
parse_unfragmented_handshake_record r expected_type = do
  guard (is_handshake r) (crypto "DTLS record is not a handshake record")
  f ← parse_fragment r.payload
  guard (header_len + length f.fragment == length r.payload)
      (crypto "DTLS record contains trailing handshake bytes")
  guard (handshake_type_as_u8 f.header.message_type == handshake_type_as_u8 expected_type)
      (crypto "unexpected DTLS handshake type")
  guard (is_whole f) (crypto "DTLS handshake message is fragmented")
  ok (message_of f)

pub messages_loop : ℕ → Bytes → List HandshakeMessage → Result Error (List HandshakeMessage)
messages_loop fuel [] messages = ok messages
messages_loop zero (b ∷ bs) messages = stuck
messages_loop (suc fuel) (b ∷ bs) messages = do
  f ← parse_fragment (b ∷ bs)
  guard (is_whole f) (crypto "DTLS handshake message is fragmented")
  messages_loop fuel (drop (header_len + length f.fragment) (b ∷ bs))
      (messages ++ (message_of f ∷ []))

-- Every message takes twelve bytes at least.
pub parse_unfragmented_handshake_messages : DtlsRecord → Result Error (List HandshakeMessage)
parse_unfragmented_handshake_messages r = do
  guard (is_handshake r) (crypto "DTLS record is not a handshake record")
  messages_loop (length r.payload) r.payload []
