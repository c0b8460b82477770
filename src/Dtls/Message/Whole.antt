-- ===== src/Dtls/Message/Whole.antt =====
-- Unfragmented messages: what is sent, what enters the transcript, and what is read back.
use meshcop_rs.Base.{
  ℕ, zero, suc, ◌≤◌, max, ◌≡◌, refl, ap, List, [], ◌∷◌, ◌++◌, append-nil, arith, ok, some, length,
  take_all,
}
use meshcop_rs.Base.Bytes.{Bytes, IsU16}
use native.Mathlib.Nat.{mod-eq_of_lt}
use meshcop_rs.Dtls.Handshake.{HandshakeFragment, max_u24, parse_fragment}
use meshcop_rs.Dtls.Handshake.Header.{encode_header-header_bytes}
use meshcop_rs.Dtls.Handshake.Fragment.{
  IsFragment, wire, length-wire, encode_fragment-wire, parse_fragment-wire,
}
use meshcop_rs.Dtls.Message.{
  HandshakeMessage, chunk_loop, chunks, fragment_at, fragment_loop, or_empty_fragment, fragment,
  first, encode, u32_len, transcript_bytes, HandshakeTranscript, push_transcript, is_handshake,
  is_whole, message_of, parse_unfragmented_handshake_record,
}
use meshcop_rs.Dtls.Record.{DtlsRecord}
use meshcop_rs.Dtls.Record

-- A message whose numbers fit the wire.
pub record IsMessage (m : HandshakeMessage) : Type 0 where
  pub seq_fits : IsU16 m.message_seq
  pub len_fits : length m.payload ≤ max_u24

-- The message as one fragment.
unfoldable pub whole : HandshakeMessage → HandshakeFragment
whole m = record {
  header = record {
    message_type = m.message_type;
    len = length m.payload;
    message_seq = m.message_seq;
    fragment_offset = 0;
    fragment_length = length m.payload;
  };
  fragment = m.payload;
}

pub whole-IsFragment : (m : HandshakeMessage) → IsMessage m → IsFragment (whole m)
unfolding whole
whole-IsFragment m v = record {
  header_fits = record { len_fits = omega arith; seq_fits = v.seq_fits; inside = omega arith };
  len_eq = refl;
}

first-fragments :
    (m : HandshakeMessage) (xs : Bytes) (k n : ℕ)
    → m.payload ≡ xs
    → length xs ≤ n
    → length xs ≤ k
    → length xs ≤ max_u24
    → first (or_empty_fragment m (fragment_loop m n 0 (chunk_loop k n xs))) ≡ some (whole m)
unfolding first or_empty_fragment fragment_loop chunk_loop fragment_at whole
first-fragments m [] k n e h g f = ground (arith, e)
first-fragments m (x ∷ xs) zero n e h g f = absurd (omega arith)
first-fragments m (x ∷ xs) (suc k) n e h g f = ground (
  arith,
  e,
  take_all n (x ∷ xs) h,
  mod-eq_of_lt {n = length (x ∷ xs)} {m = 0x1_0000_0000} (omega arith),
)

pub encode-whole : (m : HandshakeMessage) → IsMessage m → encode m ≡ ok (wire (whole m))
unfolding encode
encode-whole m v = rw fragments (rw one (encode_fragment-wire (whole m) (whole-IsFragment m v)))
  where
    list : List HandshakeFragment
    list = or_empty_fragment m (
        fragment_loop m (max (length m.payload) 1) 0
          (chunk_loop (length m.payload) (max (length m.payload) 1) m.payload))

    fragments : fragment m (max (length m.payload) 1) ≡ ok list
    fragments = unfold fragment chunks in ground (arith, v.len_fits)

    one : first list ≡ some (whole m)
    one =
        first-fragments m m.payload (length m.payload) _ refl (omega arith) (omega arith) v.len_fits

pub transcript_bytes-whole :
    (m : HandshakeMessage) → IsMessage m → transcript_bytes m ≡ ok (wire (whole m))
unfolding transcript_bytes u32_len whole wire
transcript_bytes-whole m v =
    ground (arith, encode_header-header_bytes (whole m).header (whole-IsFragment m v).header_fits)

-- The transcript hashes exactly the bytes of the unfragmented message on the wire.
pub push_transcript-encode :
    (t : HandshakeTranscript) (m : HandshakeMessage)
    → IsMessage m
    → (bytes : Bytes) × (encode m ≡ ok bytes)
      × (push_transcript t m ≡ ok (record { bytes = t.bytes ++ bytes }))
unfolding push_transcript
push_transcript-encode t m v =
    (wire (whole m), encode-whole m v, rw (transcript_bytes-whole m v) refl)

-- A message that was encoded into the payload of a handshake record is read back from it.
pub parse_unfragmented-encode :
    (m : HandshakeMessage) (r : DtlsRecord)
    → IsMessage m
    → r.header.content_type ≡ Record.handshake
    → encode m ≡ ok r.payload
    → parse_unfragmented_handshake_record r m.message_type ≡ ok m
unfolding parse_unfragmented_handshake_record
parse_unfragmented-encode m r v c e =
    let sent : r.payload ≡ wire (whole m) = cc (encode-whole m v) in
    let read : parse_fragment r.payload ≡ ok (whole m) =
      rw (sent, ← append-nil (wire (whole m)))
        (parse_fragment-wire (whole m) [] (whole-IsFragment m v)) in
    unfold is_handshake is_whole message_of whole in
    ground (arith, c, read, ap length sent, length-wire (whole m))
