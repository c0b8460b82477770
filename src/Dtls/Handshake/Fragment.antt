-- ===== src/Dtls/Handshake/Fragment.antt =====
-- One handshake fragment on the wire.
use meshcop_rs.Base.{
  ℕ, ◌+◌, ◌≤◌, ◌≡◌, refl, sym, ◌++◌, append_assoc, arith, ok, err, Result, leb, leb→le, length,
  take, drop, length-append, length-take, length-drop, take-append_eq, drop-append_eq,
  take-append-drop, Result-cases, Bool-cases, inl, inr, ◌⊎◌, drop-drop,
}
use meshcop_rs.Base.Bytes.{Bytes, IsBytes}
use meshcop_rs.Dtls.Error.{Error, crypto}
use meshcop_rs.Dtls.Handshake.{HandshakeFragment, parse_header, parse_fragment, encode_fragment}
use meshcop_rs.Dtls.Handshake.Header.{
  IsHeader, header_bytes, length-header_bytes, encode_header-header_bytes,
  parse_header-header_bytes, header_bytes-parse_header, parse_header-ne-stuck,
}

-- A fragment whose header fits the wire and states the fragment's length.
pub record IsFragment (f : HandshakeFragment) : Type 0 where
  pub header_fits : IsHeader f.header
  pub len_eq : f.header.fragment_length ≡ length f.fragment

unfoldable pub wire : HandshakeFragment → Bytes
wire f = header_bytes f.header ++ f.fragment

pub length-wire : (f : HandshakeFragment) → length (wire f) ≡ 12 + length f.fragment
unfolding wire
length-wire f =
    omega (arith, length-append (header_bytes f.header) f.fragment, length-header_bytes f.header)

pub encode_fragment-wire : (f : HandshakeFragment) → IsFragment f → encode_fragment f ≡ ok (wire f)
unfolding encode_fragment wire
encode_fragment-wire f v =
    rw (encode_header-header_bytes f.header v.header_fits) (ground (arith, v.len_eq))

-- A fragment that was encoded is parsed back, whatever follows it.
pub parse_fragment-wire :
    (f : HandshakeFragment) (rest : Bytes) → IsFragment f → parse_fragment (wire f ++ rest) ≡ ok f
unfolding parse_fragment wire
parse_fragment-wire f rest v =
    let front = header_bytes f.header in
    let back = f.fragment ++ rest in
    rw (append_assoc front f.fragment rest, parse_header-header_bytes f.header back v.header_fits)
      (ground (
        arith,
        length-append front back,
        length-append f.fragment rest,
        length-header_bytes f.header,
        drop-append_eq 12 front back (sym (length-header_bytes f.header)),
        take-append_eq f.header.fragment_length f.fragment rest v.len_eq,
      ))

-- Either a fragment stands at the front of `bytes`, in as many bytes as `wire` writes, or an error
-- is returned.
unfoldable pub Parsed : Bytes → Result Error HandshakeFragment → Type 0
Parsed bytes r =
    ((f : HandshakeFragment) × (r ≡ ok f)
      × (12 + length f.fragment ≤ length bytes)
      × (f.header.fragment_length ≡ length f.fragment)
      × (IsBytes bytes → IsFragment f × (bytes ≡ wire f ++ drop (12 + length f.fragment) bytes)))
    ⊎ ((e : Error) × (r ≡ err e))

split :
    (bytes : Bytes) (n : ℕ) (front : Bytes)
    → front ≡ take 12 bytes
    → bytes ≡ (front ++ take n (drop 12 bytes)) ++ drop (12 + n) bytes
split bytes n front e = rw (
  e,
  drop-drop (12 + n) 12 n bytes refl,
  append_assoc (take 12 bytes) (take n (drop 12 bytes)) (drop n (drop 12 bytes)),
  take-append-drop n (drop 12 bytes),
  take-append-drop 12 bytes,
)

pub parse_fragment-Parsed : (bytes : Bytes) → Parsed bytes (parse_fragment bytes)
unfolding parse_fragment Parsed wire
parse_fragment-Parsed bytes =
    elim (Result-cases (parse_header bytes) (parse_header-ne-stuck bytes)) [
      | inr (e, x) ↦ inr (e, rw x)
      | inl (h, x) ↦ elim (Bool-cases (leb (12 + h.fragment_length) (length bytes))) [
        | inr short ↦ inr (crypto "DTLS handshake fragment is truncated", rw (x, short))
        | inl fits ↦
            let n : ℕ = h.fragment_length in
            let len : n ≡ length (take n (drop 12 bytes)) =
              omega (arith, length-take n (drop 12 bytes), length-drop 12 bytes, leb→le _ _ fits) in
            inl (
              record { header = h; fragment = take n (drop 12 bytes) },
              rw (x, fits),
              omega (arith, leb→le _ _ fits, len),
              len,
              λ b.
                  let (good, front, _) = header_bytes-parse_header bytes h b x in
                  (
                    record { header_fits = good; len_eq = len },
                    rw (← len) (split bytes n (header_bytes h) front),
                  ),
            )
      ]
    ]
