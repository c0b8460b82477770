-- ===== src/Dtls/Record/Header.antt =====
-- The record header's layout.
use meshcop_rs.Base.{
  ℕ, ◌+◌, ◌*◌, ◌^◌, ◌<◌, ◌≡◌, [], ◌∷◌, ◌++◌, arith, ok, stuck, ◌≢◌, refl, ap, ◌∙◌, take, length,
  ◌≤◌,
}
use meshcop_rs.Base.Bits.{bit_or_disjoint, ◌<<<◌, ◌>>>◌}
use meshcop_rs.Base.Bytes.{Bytes, as_u8, IsByte, IsBytes, IsU16}
use native.Mathlib.Nat.{one-le-pow}
use Prim.Native.Nat.{bit_or}
use meshcop_rs.Dtls.Record.{
  ContentType, change_cipher_spec, content_type_as_u8, content_type_try_from, RecordHeader,
  read_sequence, parse_header, sequence_bytes, encode_header, header_len,
}

pub content_type_try_from-as_u8 :
    (c : ContentType) → content_type_try_from (content_type_as_u8 c) ≡ ok c
unfolding content_type_try_from content_type_as_u8
content_type_try_from-as_u8 change_cipher_spec = refl
content_type_try_from-as_u8 _ = refl

join :
    (k m q b : ℕ)
    → 2 ^ m ≡ 256 * 2 ^ k
    → IsByte b
    → bit_or (q <<< m) (b <<< k) ≡ (q * 256 + b) <<< k
join k m q b e h =
    omega (
      arith,
      bit_or_disjoint m q (b <<< k) (grind (arith, one-le-pow k 2)),
      ap (λ (t : ℕ). q * t) e,
    )

pub read_sequence-sum :
    (b5 b6 b7 b8 b9 b10 : ℕ)
    → IsByte b5
    → IsByte b6
    → IsByte b7
    → IsByte b8
    → IsByte b9
    → IsByte b10
    → read_sequence b5 b6 b7 b8 b9 b10
      ≡ ((((b5 * 256 + b6) * 256 + b7) * 256 + b8) * 256 + b9) * 256 + b10
unfolding read_sequence
read_sequence-sum b5 b6 b7 b8 b9 b10 h5 h6 h7 h8 h9 h10 =
    rw
      (
        join 32 40 b5 b6 refl h6,
        join 24 32 (b5 * 256 + b6) b7 refl h7,
        join 16 24 ((b5 * 256 + b6) * 256 + b7) b8 refl h8,
        join 8 16 (((b5 * 256 + b6) * 256 + b7) * 256 + b8) b9 refl h9,
      )
      (bit_or_disjoint 8 ((((b5 * 256 + b6) * 256 + b7) * 256 + b8) * 256 + b9) b10 h10)

abbrev pub IsU48 : ℕ → Type 0
IsU48 v = v < 0x1_0000_0000_0000

-- The six bytes that are written for a 48-bit number, lowest last.
read_sequence-split :
    (s : ℕ)
    → IsU48 s
    → read_sequence
        (as_u8 (s >>> 40))
        (as_u8 (s >>> 32))
        (as_u8 (s >>> 24))
        (as_u8 (s >>> 16))
        (as_u8 (s >>> 8))
        (as_u8 s)
      ≡ s
read_sequence-split s h =
    read_sequence-sum _ _ _ _ _ _ (omega arith) (omega arith) (omega arith) (omega arith)
      (omega arith) (omega arith)
    ∙ omega arith

-- A header whose numbers fit their fields on the wire.
pub record IsHeader (h : RecordHeader) : Type 0 where
  pub version_fits : IsU16 h.version
  pub epoch_fits : IsU16 h.epoch
  pub sequence_fits : IsU48 h.sequence_number
  pub len_fits : IsU16 h.len

-- The header that was encoded is parsed back, whatever follows it.
pub parse_header-encode_header :
    (h : RecordHeader) (rest : Bytes) → IsHeader h → parse_header (encode_header h ++ rest) ≡ ok h
unfolding parse_header encode_header sequence_bytes
parse_header-encode_header h rest fits =
    rw (content_type_try_from-as_u8 h.content_type)
      (ground (arith, read_sequence-split h.sequence_number))

content_type_as_u8-try_from :
    (b : ℕ) (c : ContentType) → content_type_try_from b ≡ ok c → content_type_as_u8 c ≡ b
unfolding content_type_try_from content_type_as_u8
content_type_as_u8-try_from b c e = ground arith

sequence_bytes-read_sequence :
    (b5 b6 b7 b8 b9 b10 : ℕ)
    → IsByte b5
    → IsByte b6
    → IsByte b7
    → IsByte b8
    → IsByte b9
    → IsByte b10
    → IsU48 (read_sequence b5 b6 b7 b8 b9 b10)
      × (sequence_bytes (read_sequence b5 b6 b7 b8 b9 b10) ≡ b5 ∷ b6 ∷ b7 ∷ b8 ∷ b9 ∷ b10 ∷ [])
unfolding sequence_bytes
sequence_bytes-read_sequence b5 b6 b7 b8 b9 b10 h5 h6 h7 h8 h9 h10 =
    rw (read_sequence-sum b5 b6 b7 b8 b9 b10 h5 h6 h7 h8 h9 h10) (omega arith, ground arith)

-- A header that was parsed from bytes fits the wire, and encoding it gives the bytes back.
pub encode_header-parse_header :
    (bytes : Bytes) (h : RecordHeader)
    → IsBytes bytes
    → parse_header bytes ≡ ok h
    → IsHeader h × (encode_header h ≡ take header_len bytes) × (13 ≤ length bytes)
unfolding parse_header encode_header
encode_header-parse_header
      (b0 ∷ b1 ∷ b2 ∷ b3 ∷ b4 ∷ b5 ∷ b6 ∷ b7 ∷ b8 ∷ b9 ∷ b10 ∷ b11 ∷ b12 ∷ rest) h p e =
    ground (
      arith,
      content_type_as_u8-try_from b0 h.content_type,
      sequence_bytes-read_sequence b5 b6 b7 b8 b9 b10,
    )
encode_header-parse_header _ h p e = cc

content_type_try_from-ne-stuck : (b : ℕ) → content_type_try_from b ≢ stuck
unfolding content_type_try_from
content_type_try_from-ne-stuck b = ground arith

pub parse_header-ne-stuck : (bytes : Bytes) → parse_header bytes ≢ stuck
unfolding parse_header
parse_header-ne-stuck (b0 ∷ b1 ∷ b2 ∷ b3 ∷ b4 ∷ b5 ∷ b6 ∷ b7 ∷ b8 ∷ b9 ∷ b10 ∷ b11 ∷ b12 ∷ rest) =
    ground (arith, content_type_try_from-ne-stuck b0)
parse_header-ne-stuck _ = λ e. cc
