-- ===== src/Coap/Options.antt =====
-- coap.rs, the options of a message: the loops of `encode` and `decode`.
use meshcop_rs.Base.{
  ℕ, zero, suc, ◌+◌, ◌-◌, ◌*◌, ◌/◌, ◌^◌, ◌≤◌, ◌<◌, ◌≡◌, ◌≢◌, refl, sym, ap, ◌∙◌, Bool, true, false,
  Bool-cases, inl, inr, List, [], ◌∷◌, ◌++◌, append-nil, append_assoc, arith, leb, ltb, ◌==◌,
  if◌then◌else◌, length, length-append, take-append, drop-append, Result, ok, err,
}
use meshcop_rs.Base.Bytes.{Bytes, IsU16}
use meshcop_rs.Base.Bits.{bit_and_mask}
use meshcop_rs.Coap.{CoapOption, encode_options, decode_option, decode_options}
use meshcop_rs.Coap.Nibble.{
  nibble, extra, header_bytes, nibble_bounded, decode_extended_nibble-encode,
  encode_option_header-bytes,
}
use meshcop_rs.Error.{Error, dataset}
use Prim.Native.Nat.{bit_and}

-- The numbers are of 16 bits and do not fall, from `last` on.
unfoldable pub Ascending : ℕ → List CoapOption → Type 0
Ascending last [] = Unit {0}
Ascending last (o ∷ os) = (last ≤ o.number) × IsU16 o.number × Ascending o.number os

-- Every value has a length of 16 bits.
unfoldable pub all_fit : List CoapOption → Bool
all_fit [] = true
all_fit (o ∷ os) = if leb (length o.value) 0xffff then all_fit os else false

pub option_bytes : ℕ → CoapOption → Bytes
option_bytes last o = header_bytes (o.number - last) (length o.value) ++ o.value

unfoldable pub options_bytes : ℕ → List CoapOption → Bytes
options_bytes last [] = []
options_bytes last (o ∷ os) = option_bytes last o ++ options_bytes o.number os

abbrev pub bytes_or_too_long : Bool → Bytes → Result Error Bytes
bytes_or_too_long true out = ok out
bytes_or_too_long false out = err (dataset "CoAP option too long")

pub encode_options-bytes :
    (os : List CoapOption) (last : ℕ) (out : Bytes)
    → Ascending last os
    → encode_options os last out ≡ bytes_or_too_long (all_fit os) (out ++ options_bytes last os)
unfolding encode_options Ascending all_fit option_bytes options_bytes
encode_options-bytes [] last out h = ap ok (sym (append-nil out))
encode_options-bytes (o ∷ os) last out h =
    let test : leb last o.number ≡ true = ground arith in
    let header = encode_option_header-bytes (o.number - last) (length o.value) out (omega arith) in
    elim (Bool-cases (leb (length o.value) 0xffff)) [
      | inr long ↦ rw (test, header, long)
      | inl fits ↦
          rw (test, header, fits)
            (encode_options-bytes os o.number _ h.2
              ∙ ap (bytes_or_too_long (all_fit os)) (simp append_assoc))
    ]

decode_option-bytes :
    (last : ℕ) (o : CoapOption) (rest : Bytes)
    → last ≤ o.number
    → IsU16 o.number
    → length o.value < 0x1_0000
    → decode_option
        (nibble (o.number - last) * 16 + nibble (length o.value))
        ((extra (o.number - last) ++ extra (length o.value)) ++ (o.value ++ rest))
        last
      ≡ ok (o, rest)
unfolding decode_option
decode_option-bytes last o rest h k l =
    let delta = o.number - last in
    let len = length o.value in
    let high : (nibble delta * 16 + nibble len) / 2 ^ 4 ≡ nibble delta =
      omega (arith, nibble_bounded len) in
    let low : bit_and (nibble delta * 16 + nibble len) 0x0f ≡ nibble len =
      omega (arith, nibble_bounded len, bit_and_mask 4 (nibble delta * 16 + nibble len)) in
    let whole : (extra delta ++ extra len) ++ (o.value ++ rest)
        ≡ extra delta ++ (extra len ++ (o.value ++ rest)) =
      append_assoc (extra delta) (extra len) (o.value ++ rest) in
    let back : last + delta ≡ o.number = omega arith in
    let fits : leb len (length (o.value ++ rest)) ≡ true =
      ground (arith, length-append o.value rest) in
    let bounded : ltb o.number 0x1_0000 ≡ true = ground arith in
    rw (
      whole,
      high,
      low,
      decode_extended_nibble-encode delta (extra len ++ (o.value ++ rest)) (omega arith),
      drop-append (extra delta) (extra len ++ (o.value ++ rest)),
      decode_extended_nibble-encode len (o.value ++ rest) l,
      drop-append (extra len) (o.value ++ rest),
      fits,
      back,
      bounded,
      take-append o.value rest,
      drop-append o.value rest,
    )

unfoldable pub payload_bytes : Bytes → Bytes
payload_bytes [] = []
payload_bytes (b ∷ bs) = 0xff ∷ b ∷ bs

-- The loop that meets an option takes it.
pub decode_options-step :
    (fuel first : ℕ) (after : Bytes) (last : ℕ) (done : List CoapOption) {o : CoapOption}
    {rest : Bytes}
    → first ≢ 0xff
    → decode_option first after last ≡ ok (o, rest)
    → decode_options (suc fuel) (first ∷ after) last done
      ≡ decode_options fuel rest o.number (done ++ (o ∷ []))
unfolding decode_options
decode_options-step fuel first after last done ne e =
    let test : (first == 0xff) ≡ false = ground arith in rw (test, e)

decode_options-payload :
    (fuel : ℕ) (payload : Bytes) (last : ℕ) (done : List CoapOption)
    → length (payload_bytes payload) ≤ fuel
    → decode_options fuel (payload_bytes payload) last done ≡ ok (done, payload)
unfolding decode_options payload_bytes
decode_options-payload fuel [] last done h = refl
decode_options-payload zero (b ∷ bs) last done h = absurd (omega arith)
decode_options-payload (suc fuel) (b ∷ bs) last done h = refl

pub decode_options-bytes :
    (os : List CoapOption) (fuel : ℕ) (payload : Bytes) (last : ℕ) (done : List CoapOption)
    → Ascending last os
    → all_fit os ≡ true
    → length (options_bytes last os ++ payload_bytes payload) ≤ fuel
    → decode_options fuel (options_bytes last os ++ payload_bytes payload) last done
      ≡ ok (done ++ os, payload)
unfolding Ascending all_fit option_bytes options_bytes header_bytes
decode_options-bytes [] fuel payload last done h fit k =
    decode_options-payload fuel payload last done k
    ∙ ap (λ (os : List CoapOption). ok (os, payload)) (sym (append-nil done))
decode_options-bytes (o ∷ os) zero payload last done h fit k = absurd (omega arith)
decode_options-bytes (o ∷ os) (suc fuel) payload last done h fit k =
    let next : Bytes = options_bytes o.number os ++ payload_bytes payload in
    let split : (((extra (o.number - last) ++ extra (length o.value)) ++ o.value)
            ++ options_bytes o.number os)
          ++ payload_bytes payload
        ≡ (extra (o.number - last) ++ extra (length o.value)) ++ (o.value ++ next) =
      simp append_assoc in
    let small : length o.value < 0x1_0000 = ground arith in
    let fits : all_fit os ≡ true = ground arith in
    rw split (
      decode_options-step fuel _ _ last done
        (λ e. omega (arith, e, nibble_bounded (o.number - last), nibble_bounded (length o.value)))
        (decode_option-bytes last o next h.0 h.1 small)
      ∙ decode_options-bytes os fuel payload o.number (done ++ (o ∷ [])) h.2 fits (
          shorter (extra (o.number - last) ++ extra (length o.value)) o.value
            (options_bytes o.number os) (payload_bytes payload) k)
      ∙ ap (λ (l : List CoapOption). ok (l, payload)) (append_assoc done (o ∷ []) os))
  where
    shorter :
        (a b c d : Bytes) → suc (length (((a ++ b) ++ c) ++ d)) ≤ suc fuel → length (c ++ d) ≤ fuel
    shorter a b c d k =
        omega (arith, length-append ((a ++ b) ++ c) d, length-append (a ++ b) c, length-append c d)
