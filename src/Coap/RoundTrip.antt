-- ===== src/Coap/RoundTrip.antt =====
-- coap.rs, `CoapMessage::encode` against the wire format, and decoding what it wrote.
use meshcop_rs.Base.{
  ℕ, ◌+◌, ◌*◌, ◌/◌, ◌%◌, ◌^◌, ◌≤◌, ◌<◌, ◌≡◌, refl, sym, ap, ◌∙◌, Bool, true, false, Bool-cases, inl,
  inr, List, [], ◌∷◌, ◌++◌, append-nil, append_assoc, arith, leb, length, All, length-append,
  take-append, drop-append, ok, err, ◌&&◌, ◌>>=◌, if◌then◌else◌,
}
use meshcop_rs.Base.Bytes.{Bytes, IsU16}
use meshcop_rs.Base.Bits.{bit_and_mask, bit_or_disjoint}
use meshcop_rs.Coap.{
  CoapOption, CoapType, confirmable, non_confirmable, acknowledgement, reset, CoapMessage,
  coap_type_as_u8, coap_type_try_from, first_byte, with_payload, encode, decode, sorted_options,
}
use meshcop_rs.Coap.Options.{
  Ascending, all_fit, options_bytes, payload_bytes, bytes_or_too_long, encode_options-bytes,
  decode_options-bytes,
}
use meshcop_rs.Coap.Sorting.{
  Numbered, SortsTo, Ascending-Numbered, sorted_options-Ascending, sorted_options-id,
  sorted_options-SortsTo, all_fit-sorted_options,
}
use meshcop_rs.Error.{dataset}
use Prim.Native.Nat.{bit_and}

-- The version 1, the type and the token's length.
pub type_byte : CoapType → ℕ → ℕ
type_byte ty token_len = 64 + coap_type_as_u8 ty * 16 + token_len

first_byte-type_byte : (ty : CoapType) (n : ℕ) → n ≤ 8 → first_byte ty n ≡ type_byte ty n
unfolding first_byte type_byte coap_type_as_u8
first_byte-type_byte confirmable n h = ground (arith, bit_or_disjoint 4 4 (n % 256))
first_byte-type_byte non_confirmable n h = ground (arith, bit_or_disjoint 4 5 (n % 256))
first_byte-type_byte acknowledgement n h = ground (arith, bit_or_disjoint 4 6 (n % 256))
first_byte-type_byte reset n h = ground (arith, bit_or_disjoint 4 7 (n % 256))

pub head_bytes : CoapMessage → Bytes
head_bytes m =
    type_byte m.ty (length m.token)
    ∷ m.code.byte
    ∷ m.message_id / 256
    ∷ m.message_id % 256
    ∷ m.token

pub wire : CoapMessage → Bytes
wire m = head_bytes m ++ (options_bytes 0 (sorted_options m.options) ++ payload_bytes m.payload)

with_payload-payload_bytes :
    (out payload : Bytes) → with_payload out payload ≡ out ++ payload_bytes payload
unfolding with_payload payload_bytes
with_payload-payload_bytes out [] = sym (append-nil out)
with_payload-payload_bytes out (b ∷ bs) = append_assoc out (0xff ∷ []) (b ∷ bs)

finished :
    (fits : Bool) (head options payload : Bytes)
    → (bytes_or_too_long fits (head ++ options) >>= λ out. ok (with_payload out payload))
      ≡ bytes_or_too_long fits (head ++ (options ++ payload_bytes payload))
finished true head options payload = ap ok (
    with_payload-payload_bytes (head ++ options) payload
    ∙ append_assoc head options (payload_bytes payload))
finished false head options payload = refl

all_fit_small : (os : List CoapOption) → All (λ o. length o.value ≤ 65_535) os → all_fit os ≡ true
unfolding all_fit
all_fit_small [] h = refl
all_fit_small (o ∷ os) h = let fit = h.0 in ground (arith, all_fit_small os h.1)

-- A message that a Rust value of the type can hold, as far as the codec depends on it.
abbrev pub IsMessage : CoapMessage → Type 0
IsMessage m = IsU16 m.message_id × All Numbered m.options

-- For a message whose identifier and option numbers have 16 bits, `encode` refuses a token of more
-- than 8 bytes and else an option value of more than 65535 bytes; every other message has the wire
-- format of RFC 7252: the header, the token, the options by number and the payload behind 0xff.
pub encode-wire :
    (m : CoapMessage)
    → IsMessage m
    → encode m ≡ (
        if leb (length m.token) 8
        then bytes_or_too_long (all_fit m.options) (wire m)
        else err (dataset "CoAP token length > 8"))
unfolding encode wire head_bytes
encode-wire m h = elim (Bool-cases (leb (length m.token) 8)) [
  | inr long ↦ rw long
  | inl short ↦
      let asc = sorted_options-Ascending m.options h.1 in
      let byte : m.message_id / 256 % 256 ≡ m.message_id / 256 = omega arith in
      rw
        (
          short,
          first_byte-type_byte m.ty (length m.token) (ground arith),
          byte,
          encode_options-bytes (sorted_options m.options) 0 _ asc,
          all_fit-sorted_options m.options,
        )
        (finished (all_fit m.options) (head_bytes m) (options_bytes 0 (sorted_options m.options))
          m.payload)
]

decode_type : (ty : CoapType) → coap_type_try_from (coap_type_as_u8 ty) ≡ ok ty
unfolding coap_type_try_from coap_type_as_u8
decode_type confirmable = refl
decode_type non_confirmable = refl
decode_type acknowledgement = refl
decode_type reset = refl

coap_type_as_u8_bounded : (ty : CoapType) → coap_type_as_u8 ty < 4
unfolding coap_type_as_u8
coap_type_as_u8_bounded confirmable = omega arith
coap_type_as_u8_bounded non_confirmable = omega arith
coap_type_as_u8_bounded acknowledgement = omega arith
coap_type_as_u8_bounded reset = omega arith

-- The message with other options.
abbrev pub reordered : CoapMessage → List CoapOption → CoapMessage
reordered m options = record m { options = options }

decode-wire :
    (m : CoapMessage)
    → IsMessage m
    → length m.token ≤ 8
    → all_fit m.options ≡ true
    → decode (wire m) ≡ ok (reordered m (sorted_options m.options))
unfolding decode wire head_bytes type_byte
decode-wire m h short fits =
    let n = length m.token in
    let t = coap_type_as_u8 m.ty in
    let tail : Bytes = options_bytes 0 (sorted_options m.options) ++ payload_bytes m.payload in
    let four = coap_type_as_u8_bounded m.ty in
    let version : (64 + t * 16 + n) / 2 ^ 6 ≡ 1 = omega (arith, four) in
    let low : bit_and (64 + t * 16 + n) 0x0f ≡ n =
      omega (arith, bit_and_mask 4 (64 + t * 16 + n)) in
    let kind : bit_and ((64 + t * 16 + n) / 2 ^ 4) 0x03 ≡ t =
      omega (arith, four, bit_and_mask 2 ((64 + t * 16 + n) / 2 ^ 4)) in
    let test : (leb n 8 && leb n (length (m.token ++ tail))) ≡ true =
      ground (arith, length-append m.token tail) in
    let id : m.message_id / 256 * 256 + m.message_id % 256 ≡ m.message_id = omega arith in
    rw (
      version,
      low,
      test,
      kind,
      decode_type m.ty,
      drop-append m.token tail,
      decode_options-bytes (sorted_options m.options) (length tail) m.payload 0 []
          (sorted_options-Ascending m.options h.1) (all_fit-sorted_options m.options ∙ fits)
          (omega arith),
      take-append m.token tail,
      id,
    )

-- A message with an identifier and option numbers of 16 bits, a token of at most 8 bytes and option
-- values of at most 65535 bytes is encoded, and decoding the encoding gives it back, with the same
-- options in the order of their numbers; those of one number keep their order.
pub decode-encode :
    (m : CoapMessage)
    → IsMessage m
    → length m.token ≤ 8
    → All (λ o. length o.value ≤ 65_535) m.options
    → (bytes : Bytes) × (options : List CoapOption) × (encode m ≡ ok bytes)
      × (decode bytes ≡ ok (reordered m options))
      × SortsTo m.options options
decode-encode m h short small =
    let test : leb (length m.token) 8 ≡ true = ground arith in
    let fits = all_fit_small m.options small in
    let encoded : encode m ≡ ok (wire m) = rw (encode-wire m h, test, fits) in
    (
      wire m,
      sorted_options m.options,
      encoded,
      decode-wire m h short fits,
      sorted_options-SortsTo m.options h.1,
    )

-- A message with an identifier of 16 bits, option numbers of 16 bits that ascend, a token of at most
-- 8 bytes and option values of at most 65535 bytes is encoded and decoded to itself.
pub decode-encode-Ascending :
    (m : CoapMessage)
    → IsU16 m.message_id
    → Ascending 0 m.options
    → length m.token ≤ 8
    → all_fit m.options ≡ true
    → (bytes : Bytes) × (encode m ≡ ok bytes) × (decode bytes ≡ ok m)
decode-encode-Ascending m h asc short fits =
    let numbered = Ascending-Numbered 0 m.options asc in
    let test : leb (length m.token) 8 ≡ true = ground arith in
    (
      wire m,
      rw (encode-wire m (h, numbered), test, fits) refl,
      decode-wire m (h, numbered) short fits
          ∙ ap (λ os. ok (reordered m os)) (sorted_options-id m.options asc),
    )
