-- ===== src/Coap/Nibble.antt =====
-- coap.rs, the option header: two nibbles that announce up to two bytes each.
use meshcop_rs.Base.{
  ℕ, ◌+◌, ◌-◌, ◌*◌, ◌/◌, ◌%◌, ◌≤◌, ◌≡◌, inl, inr, [], ◌∷◌, ◌++◌, arith, leb, ltb, true, false,
  Bool-cases, if◌then◌else◌, length, ok, err, append_assoc, ap,
}
use meshcop_rs.Base.Bits.{bit_or_disjoint}
use meshcop_rs.Base.Bytes.{Bytes, IsU16}
use meshcop_rs.Coap.{
  encode_extended_nibble, extended_byte, extended_u16, decode_extended_nibble, encode_option_header,
}
use meshcop_rs.Error.{dataset}
use Prim.Native.Nat.{bit_or}

pub nibble : ℕ → ℕ
nibble v = if leb v 12 then v else if leb v 268 then 13 else 14

pub extra : ℕ → Bytes
extra v =
    if leb v 12
    then []
    else if leb v 268
    then (v - 13) ∷ []
    else ((v - 269) / 256) ∷ ((v - 269) % 256) ∷ []

pub nibble_bounded : (v : ℕ) → nibble v ≤ 14
unfolding nibble
nibble_bounded v = ground arith

encode_extended_nibble-nibble :
    (v : ℕ) → IsU16 v → encode_extended_nibble v ≡ ok (nibble v, extra v)
unfolding encode_extended_nibble nibble extra
encode_extended_nibble-nibble v h = ground arith

-- A number of 16 bits is decoded from the nibble and the bytes that its encoding has, whatever
-- bytes follow, and no others are taken.
pub decode_extended_nibble-encode :
    (v : ℕ) (rest : Bytes)
    → IsU16 v
    → decode_extended_nibble (nibble v) (extra v ++ rest) ≡ ok (v, length (extra v))
unfolding decode_extended_nibble nibble extra extended_byte extended_u16
decode_extended_nibble-encode v rest h = ground arith

unfoldable pub header_bytes : ℕ → ℕ → Bytes
header_bytes delta len = (nibble delta * 16 + nibble len) ∷ (extra delta ++ extra len)

pub joined : (a b : ℕ) → a ≤ 15 → b ≤ 15 → bit_or (a * 16 % 256) b ≡ a * 16 + b
joined a b h k =
    let e : a * 16 % 256 ≡ a * 16 = omega arith in rw e (bit_or_disjoint 4 a b (omega arith))

pub encode_option_header-bytes :
    (delta len : ℕ) (out : Bytes)
    → IsU16 delta
    → encode_option_header delta len out ≡ (
        if leb len 0xffff
        then ok (out ++ header_bytes delta len)
        else err (dataset "CoAP option too long"))
unfolding encode_option_header header_bytes
encode_option_header-bytes delta len out h = elim (Bool-cases (leb len 0xffff)) [
  | inl fits ↦
      let small : IsU16 len = ground arith in
      let test : ltb len 0x1_0000 ≡ true = ground arith in
      rw
        (
          fits,
          test,
          encode_extended_nibble-nibble delta h,
          encode_extended_nibble-nibble len small,
          joined (nibble delta) (nibble len) (omega (arith, nibble_bounded delta))
              (omega (arith, nibble_bounded len)),
        )
        (ap ok (flat out (nibble delta * 16 + nibble len) (extra delta) (extra len)))
  | inr long ↦
      let test : ltb len 0x1_0000 ≡ false = ground arith in
      rw (long, encode_extended_nibble-nibble delta h, test)
]
  where
    flat :
        (out : Bytes) (b : ℕ) (xs ys : Bytes)
        → ((out ++ (b ∷ [])) ++ xs) ++ ys ≡ out ++ (b ∷ (xs ++ ys))
    flat out b xs ys = simp (append_assoc)
