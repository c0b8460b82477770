-- ===== src/Dtls/Handshake/Header.antt =====
-- The handshake header's layout.
use meshcop_rs.Base.{
  ℕ, ◌+◌, ◌*◌, ◌/◌, ◌^◌, ◌≤◌, ◌≡◌, ◌≢◌, refl, ◌∙◌, [], ◌∷◌, ◌++◌, arith, ok, stuck, ◌>>◌, length,
  take, Result-cases, inl, inr,
}
use meshcop_rs.Base.Bits.{bit_or_disjoint, ◌<<<◌}
use meshcop_rs.Base.Bytes.{
  Bytes, as_u8, IsByte, IsBytes, IsU16, IsU24, u16_to_be_bytes, u16_from_be_bytes,
}
use meshcop_rs.Dtls.Handshake.{
  HandshakeType, hello_request, read_u24, write_u24, handshake_type_as_u8, handshake_type_try_from,
  HandshakeHeader, validate, parse_header, encode_header,
}

pub handshake_type_try_from-as_u8 :
    (t : HandshakeType) → handshake_type_try_from (handshake_type_as_u8 t) ≡ ok t
unfolding handshake_type_try_from handshake_type_as_u8
handshake_type_try_from-as_u8 hello_request = refl
handshake_type_try_from-as_u8 _ = refl

handshake_type_as_u8-try_from :
    (b : ℕ) (t : HandshakeType) → handshake_type_try_from b ≡ ok t → handshake_type_as_u8 t ≡ b
unfolding handshake_type_try_from handshake_type_as_u8
handshake_type_as_u8-try_from b t e = ground arith

handshake_type_try_from-ne-stuck : (b : ℕ) → handshake_type_try_from b ≢ stuck
unfolding handshake_type_try_from
handshake_type_try_from-ne-stuck b = ground arith

read_u24-sum : (a b c : ℕ) → IsByte b → IsByte c → read_u24 a b c ≡ a * 65536 + b * 256 + c
unfolding read_u24
read_u24-sum a b c hb hc = rw (bit_or_disjoint 16 a (b <<< 8) (omega arith)) (
    let regroup : a * 2 ^ 16 + b * 2 ^ 8 ≡ (a * 256 + b) <<< 8 = omega arith in
    rw regroup (rw (bit_or_disjoint 8 (a * 256 + b) c hc) (omega arith)))

abbrev pub u24_bytes : ℕ → Bytes
u24_bytes v = as_u8 (v / 65536) ∷ as_u8 (v / 256) ∷ as_u8 v ∷ []

pub write_u24_lem : (v : ℕ) → IsU24 v → write_u24 v ≡ ok (u24_bytes v)
unfolding write_u24
write_u24_lem v h = ground arith

pub read_u24-split :
    (v : ℕ) → IsU24 v → read_u24 (as_u8 (v / 65536)) (as_u8 (v / 256)) (as_u8 v) ≡ v
read_u24-split v h = read_u24-sum _ _ _ (omega arith) (omega arith) ∙ omega arith

u16-split : (v : ℕ) → IsU16 v → u16_from_be_bytes (as_u8 (v / 256)) (as_u8 v) ≡ v
u16-split v h = omega arith

-- A header whose numbers fit the wire, and whose fragment lies inside the message.
pub record IsHeader (h : HandshakeHeader) : Type 0 where
  pub len_fits : IsU24 h.len
  pub seq_fits : IsU16 h.message_seq
  pub inside : h.fragment_offset + h.fragment_length ≤ h.len

pub header_bytes : HandshakeHeader → Bytes
header_bytes h =
    handshake_type_as_u8 h.message_type
    ∷ (u24_bytes h.len
        ++ (u16_to_be_bytes h.message_seq
            ++ (u24_bytes h.fragment_offset ++ u24_bytes h.fragment_length)))

pub length-header_bytes : (h : HandshakeHeader) → length (header_bytes h) ≡ 12
unfolding header_bytes
length-header_bytes h = refl

validate_lem : (h : HandshakeHeader) → IsHeader h → validate h ≡ ok tt
unfolding validate
validate_lem h v = ground arith

pub encode_header-header_bytes :
    (h : HandshakeHeader) → IsHeader h → encode_header h ≡ ok (header_bytes h)
unfolding encode_header header_bytes
encode_header-header_bytes h v = rw (
  validate_lem h v,
  write_u24_lem h.len v.len_fits,
  write_u24_lem h.fragment_offset (omega arith),
  write_u24_lem h.fragment_length (omega arith),
)

pub parse_header-header_bytes :
    (h : HandshakeHeader) (rest : Bytes) → IsHeader h → parse_header (header_bytes h ++ rest) ≡ ok h
unfolding parse_header header_bytes
parse_header-header_bytes h rest v = rw (
  handshake_type_try_from-as_u8 h.message_type,
  read_u24-split h.len v.len_fits,
  read_u24-split h.fragment_offset (omega arith),
  read_u24-split h.fragment_length (omega arith),
  u16-split h.message_seq v.seq_fits,
  validate_lem h v,
)

validate_inverse :
    (h : HandshakeHeader)
    → validate h ≡ ok tt
    → IsU24 h.len × (h.fragment_offset + h.fragment_length ≤ h.len)
unfolding validate
validate_inverse h e = ground arith

validate-ne-stuck : (h : HandshakeHeader) → validate h ≢ stuck
unfolding validate
validate-ne-stuck h = ground arith

u24_bytes-read_u24 :
    (a b c : ℕ) → IsByte a → IsByte b → IsByte c → u24_bytes (read_u24 a b c) ≡ a ∷ b ∷ c ∷ []
u24_bytes-read_u24 a b c ha hb hc = rw (read_u24-sum a b c hb hc) (ground arith)

built : (t : HandshakeType) (b1 b2 b3 b4 b5 b6 b7 b8 b9 b10 b11 : ℕ) → HandshakeHeader
built t b1 b2 b3 b4 b5 b6 b7 b8 b9 b10 b11 = record {
  message_type = t;
  len = read_u24 b1 b2 b3;
  message_seq = u16_from_be_bytes b4 b5;
  fragment_offset = read_u24 b6 b7 b8;
  fragment_length = read_u24 b9 b10 b11;
}

validated : (h k : HandshakeHeader) → (validate h >> ok h) ≡ ok k → (h ≡ k) × (validate h ≡ ok tt)
unfolding validate
validated h k e = ground arith

-- A header that was parsed from bytes fits the wire, and encoding it gives the bytes back.
pub header_bytes-parse_header :
    (bytes : Bytes) (h : HandshakeHeader)
    → IsBytes bytes
    → parse_header bytes ≡ ok h
    → IsHeader h × (header_bytes h ≡ take 12 bytes) × (12 ≤ length bytes)
unfolding parse_header built header_bytes
header_bytes-parse_header (b0 ∷ b1 ∷ b2 ∷ b3 ∷ b4 ∷ b5 ∷ b6 ∷ b7 ∷ b8 ∷ b9 ∷ b10 ∷ b11 ∷ rest) h p
      e =
    elim (Result-cases (handshake_type_try_from b0) (handshake_type_try_from-ne-stuck b0)) [
      | inr (x, q) ↦ ground (arith, q)
      | inl (t, q) ↦
          let (same, valid) =
            validated (built t b1 b2 b3 b4 b5 b6 b7 b8 b9 b10 b11) h (rw q at e) in
          let (fits, inside) = validate_inverse _ valid in
          rw (← same) (
            record { len_fits = fits; seq_fits = omega arith; inside = inside },
            ground (
              arith,
              handshake_type_as_u8-try_from b0 t q,
              u24_bytes-read_u24 b1 b2 b3,
              u24_bytes-read_u24 b6 b7 b8,
              u24_bytes-read_u24 b9 b10 b11,
            ),
            omega arith,
          )
    ]
header_bytes-parse_header _ h p e = cc

pub parse_header-ne-stuck : (bytes : Bytes) → parse_header bytes ≢ stuck
unfolding parse_header built
parse_header-ne-stuck (b0 ∷ b1 ∷ b2 ∷ b3 ∷ b4 ∷ b5 ∷ b6 ∷ b7 ∷ b8 ∷ b9 ∷ b10 ∷ b11 ∷ rest) =
    elim (Result-cases (handshake_type_try_from b0) (handshake_type_try_from-ne-stuck b0)) [
      | inr (x, e) ↦ rw e (λ p. cc)
      | inl (t, e) ↦
          rw e (ground (arith, validate-ne-stuck (built t b1 b2 b3 b4 b5 b6 b7 b8 b9 b10 b11)))
    ]
parse_header-ne-stuck _ = λ e. cc
