-- ===== src/Coap/Decoding.antt =====
-- coap.rs, `CoapMessage::decode` on any input, well formed or not.
use meshcop_rs.Base.{
  ℕ, zero, suc, ◌+◌, ◌*◌, ◌≤◌, ◌<◌, ◌≡◌, ◌≢◌, ◌⊎◌, refl, sym, ap, ◌∙◌, true, false, Bool-cases, inl,
  inr, List, [], ◌∷◌, ◌++◌, append-nil, append_assoc, arith, leb, ltb, ◌==◌, length, All-drop, take,
  drop, length-take, length-drop, Result, ok, err, Result-cases, ◌&&◌,
}
use meshcop_rs.Base.Bytes.{Bytes, IsU16, IsBytes}
use meshcop_rs.Base.Bits.{◌>>>◌}
use meshcop_rs.Coap.{
  CoapType, CoapMessage, CoapOption, coap_type_try_from, encode, decode, extended_byte,
  extended_u16, decode_extended_nibble, decode_option, decode_options,
}
use meshcop_rs.Coap.Options.{Ascending, all_fit, decode_options-step}
use meshcop_rs.Coap.RoundTrip.{decode-encode-Ascending}
use meshcop_rs.Error.{Error, dataset}
use Prim.Native.Nat.{bit_and}

abbrev Extension : Bytes → Result Error (ℕ × ℕ) → Type 0
Extension bytes r =
    ((v : ℕ) × (used : ℕ) × (r ≡ ok (v, used)) × (IsBytes bytes → IsU16 v))
    ⊎ ((e : Error) × (r ≡ err e))

extended_byte-Extension : (bytes : Bytes) → Extension bytes (extended_byte bytes)
unfolding extended_byte
extended_byte-Extension [] = inr (_, refl)
extended_byte-Extension (b ∷ bs) = inl (b + 13, 1, refl, λ h. omega arith)

extended_u16-Extension : (bytes : Bytes) → Extension bytes (extended_u16 bytes)
unfolding extended_u16
extended_u16-Extension [] = inr (_, refl)
extended_u16-Extension (a ∷ []) = inr (_, refl)
extended_u16-Extension (a ∷ b ∷ bs) = elim (Bool-cases (ltb (a * 256 + b + 269) 0x1_0000)) [
  | inl fits ↦ inl (a * 256 + b + 269, 2, rw fits, λ h. ground arith)
  | inr over ↦ inr (dataset "CoAP option extension overflow", rw over)
]

decode_extended_nibble-Extension :
    (n : ℕ) (bytes : Bytes) → Extension bytes (decode_extended_nibble n bytes)
unfolding decode_extended_nibble
decode_extended_nibble-Extension n bytes = elim (Bool-cases (leb n 12)) [
  | inl short ↦ inl (n, 0, rw short, λ h. ground arith)
  | inr long ↦ elim (Bool-cases (n == 13)) [
    | inl one ↦ rw (long, one) (extended_byte-Extension bytes)
    | inr more ↦ elim (Bool-cases (n == 14)) [
      | inl two ↦ rw (long, more, two) (extended_u16-Extension bytes)
      | inr reserved ↦ inr (dataset "reserved CoAP option nibble", rw (long, more, reserved))
    ]
  ]
]

-- What a round gives: an option, whose number does not fall and has 16 bits, or an error.
Taken : Bytes → ℕ → Result Error (CoapOption × Bytes) → Type 0
Taken bytes last r =
    ((o : CoapOption) × (rest : Bytes) × (r ≡ ok (o, rest))
      × (length rest ≤ length bytes)
      × (last ≤ o.number)
      × IsU16 o.number
      × (IsBytes bytes → (length o.value < 0x1_0000) × IsBytes rest))
    ⊎ ((e : Error) × (r ≡ err e))

decode_option-Taken :
    (first : ℕ) (after : Bytes) (last : ℕ) → Taken after last (decode_option first after last)
unfolding decode_option Taken
decode_option-Taken first after last = elim (decode_extended_nibble-Extension (first >>> 4) after) [
  | inr (e, x) ↦ inr (e, rw x)
  | inl (delta, used, x, _) ↦
      elim (decode_extended_nibble-Extension (bit_and first 0x0f) (drop used after)) [
        | inr (e, y) ↦ inr (e, rw (x, y))
        | inl (len, used', y, small) ↦
            let body : Bytes = drop used' (drop used after) in
            elim (Bool-cases (leb len (length body))) [
              | inr short ↦ inr (dataset "CoAP option value is truncated", rw (x, y, short))
              | inl fits ↦ elim (Bool-cases (ltb (last + delta) 0x1_0000)) [
                | inr over ↦ inr (dataset "CoAP option number overflow", rw (x, y, fits, over))
                | inl in_range ↦ inl (
                  record { number = last + delta; value = take len body },
                  drop len body,
                  rw (x, y, fits, in_range),
                  omega (
                    arith,
                    length-drop len body,
                    length-drop used' (drop used after),
                    length-drop used after,
                  ),
                  omega arith,
                  ground arith,
                  λ h.
                      let h' = All-drop (λ b. b < 256) used after h in
                      (
                        omega (arith, length-take len body, small h'),
                        All-drop (λ b. b < 256) len body
                            (All-drop (λ b. b < 256) used' (drop used after) h'),
                      ),
                )
              ]
            ]
      ]
]

-- What the loop returns on a fuel that covers the input.
Loops : Bytes → ℕ → List CoapOption → Result Error (List CoapOption × Bytes) → Type 0
Loops bytes last done r =
    ((more : List CoapOption) × (payload : Bytes) × (r ≡ ok (done ++ more, payload))
      × Ascending last more
      × (IsBytes bytes → all_fit more ≡ true))
    ⊎ ((e : Error) × (r ≡ err e))

coap_type_try_from-cases :
    (v : ℕ)
    → ((ty : CoapType) × (coap_type_try_from v ≡ ok ty))
      ⊎ ((e : Error) × (coap_type_try_from v ≡ err e))
unfolding coap_type_try_from
coap_type_try_from-cases v = elim (Result-cases (coap_type_try_from v) (λ e. ground arith)) [
  | inl (ty, e) ↦ inl (ty, e)
  | inr (error, e) ↦ inr (error, e)
]

decode_options-error :
    (fuel first : ℕ) (after : Bytes) (last : ℕ) (done : List CoapOption) {e : Error}
    → first ≢ 0xff
    → decode_option first after last ≡ err e
    → decode_options (suc fuel) (first ∷ after) last done ≡ err e
unfolding decode_options
decode_options-error fuel first after last done ne x =
    let test : (first == 0xff) ≡ false = ground arith in rw (test, x)

decode_options-Loops :
    (fuel : ℕ) (bytes : Bytes) (last : ℕ) (done : List CoapOption)
    → length bytes ≤ fuel
    → Loops bytes last done (decode_options fuel bytes last done)
unfolding Loops Taken Ascending all_fit
decode_options-Loops fuel [] last done h =
    unfold decode_options in
    inl ([], [], ap (λ (os : List CoapOption). ok (os, [])) (sym (append-nil done)), tt, λ _. refl)
decode_options-Loops zero (b ∷ bs) last done h = absurd (omega arith)
decode_options-Loops (suc fuel) (b ∷ bs) last done h = elim (Bool-cases (b == 0xff)) [
  | inl marker ↦
      unfold decode_options in
      rw marker (
        inl (
          [],
          bs,
          ap (λ (os : List CoapOption). ok (os, bs)) (sym (append-nil done)),
          tt,
          λ _. refl,
        ))
  | inr option ↦
      let ne : b ≢ 0xff = λ e. ground arith in
      elim (decode_option-Taken b bs last) [
        | inr (e, x) ↦ inr (e, decode_options-error fuel b bs last done ne x)
        | inl (o, rest, x, shorter, grows, small, bounds) ↦
            elim (decode_options-Loops fuel rest o.number (done ++ (o ∷ [])) (omega arith)) [
              | inr (e, y) ↦ inr (e, decode_options-step fuel b bs last done ne x ∙ y)
              | inl (more, payload, y, asc, fit) ↦ inl (
                o ∷ more,
                payload,
                decode_options-step fuel b bs last done ne x
                    ∙ y
                    ∙ ap (λ (os : List CoapOption). ok (os, payload))
                        (append_assoc done (o ∷ []) more),
                (grows, small, asc),
                λ k.
                    let fits : leb (length o.value) 0xffff ≡ true =
                      ground (arith, (bounds k.1).0) in
                    rw (fits, fit (bounds k.1).1),
              )
            ]
      ]
]

-- `decode` ends on every input, with a message or an error. A message has a token of at most 8
-- bytes and ascending options; decoded from bytes it has an identifier of 16 bits and option values
-- of at most 65535 bytes.
pub decode_total :
    (bytes : Bytes)
    → ((m : CoapMessage) × (decode bytes ≡ ok m)
        × (length m.token ≤ 8)
        × Ascending 0 m.options
        × (IsBytes bytes → IsU16 m.message_id × (all_fit m.options ≡ true)))
      ⊎ ((e : Error) × (decode bytes ≡ err e))
unfolding decode Loops
decode_total [] = inr (_, refl)
decode_total (b0 ∷ []) = inr (_, refl)
decode_total (b0 ∷ b1 ∷ []) = inr (_, refl)
decode_total (b0 ∷ b1 ∷ b2 ∷ []) = inr (_, refl)
decode_total (b0 ∷ b1 ∷ b2 ∷ b3 ∷ after) = elim (Bool-cases ((b0 >>> 6) == 1)) [
  | inr version ↦ inr (dataset "unsupported CoAP version", rw version)
  | inl version ↦
      let n = bit_and b0 0x0f in
      elim (Bool-cases (leb n 8 && leb n (length after))) [
        | inr long ↦ inr (dataset "invalid CoAP token length", rw (version, long))
        | inl short ↦ elim (coap_type_try_from-cases (bit_and (b0 >>> 4) 0x03)) [
          | inr (e, x) ↦ inr (e, rw (version, short, x))
          | inl (ty, x) ↦
              elim (decode_options-Loops (length (drop n after)) (drop n after) 0 []
                (omega arith)) [
                  | inr (e, y) ↦ inr (e, rw (version, short, x, y))
                  | inl (options, payload, y, asc, fit) ↦ inl (
                    record {
                      ty = ty;
                      code = record { byte = b1 };
                      message_id = b2 * 256 + b3;
                      token = take n after;
                      options = options;
                      payload = payload;
                    },
                    rw (version, short, x, y),
                    ground (arith, length-take n after),
                    asc,
                    λ h. (omega arith, fit (All-drop (λ b. b < 256) n after h.1.1.1.1)),
                  )
                ]
        ]
      ]
]

-- A message decoded from bytes has an encoding, which decodes to the same message.
pub encode-decode :
    (bytes : Bytes) (m : CoapMessage)
    → IsBytes bytes
    → decode bytes ≡ ok m
    → (canonical : Bytes) × (encode m ≡ ok canonical) × (decode canonical ≡ ok m)
encode-decode bytes m h x = elim (decode_total bytes) [
  | inr (e, y) ↦ absurd (ground arith)
  | inl (m', y, short, asc, bounds) ↦
      let same : m ≡ m' = ground arith in
      rw same (decode-encode-Ascending m' (bounds h).0 asc short (bounds h).1)
]
