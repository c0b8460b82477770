-- ===== src/Dtls/Message/Packed.antt =====
-- Several unfragmented messages in one record.
use meshcop_rs.Base.{
  ℕ, zero, suc, ◌+◌, ◌≤◌, ◌≡◌, ◌≢◌, refl, sym, ap, ap₂, ◌∙◌, true, List, [], ◌∷◌, ◌++◌, append-nil,
  append_assoc, arith, ok, stuck, length, drop, All, length-append, length-drop, drop-append_eq,
  inl, inr, Bool-cases,
}
use meshcop_rs.Base.Bytes.{Bytes}
use meshcop_rs.Dtls.Handshake.{HandshakeFragment, parse_fragment}
use meshcop_rs.Dtls.Handshake.Fragment.{
  wire, length-wire, parse_fragment-wire, parse_fragment-Parsed, Parsed,
}
use meshcop_rs.Dtls.Message.{
  HandshakeMessage, is_handshake, is_whole, message_of, messages_loop,
  parse_unfragmented_handshake_messages,
}
use meshcop_rs.Dtls.Message.Whole.{IsMessage, whole, whole-IsFragment}
use meshcop_rs.Dtls.Record.{DtlsRecord, content_type_as_u8}
use meshcop_rs.Dtls.Record

pub packed : List HandshakeMessage → Bytes
packed [] = []
packed (m ∷ ms) = wire (whole m) ++ packed ms

-- One round of the loop.
messages_loop-step :
    (fuel : ℕ) (bytes : Bytes) (done : List HandshakeMessage) (f : HandshakeFragment)
    → bytes ≢ []
    → parse_fragment bytes ≡ ok f
    → is_whole f ≡ true
    → messages_loop (suc fuel) bytes done
      ≡ messages_loop fuel (drop (12 + length f.fragment) bytes) (done ++ (message_of f ∷ []))
unfolding messages_loop
messages_loop-step fuel [] done f n e w = absurd (n refl)
messages_loop-step fuel (b ∷ bs) done f n e w = rw (e, w)

wire-ne-nil : (f : HandshakeFragment) (rest : Bytes) → wire f ++ rest ≢ []
wire-ne-nil f rest e =
    absurd (omega (arith, ap length e, length-append (wire f) rest, length-wire f))

messages_loop-packed :
    (ms : List HandshakeMessage) (fuel : ℕ) (done : List HandshakeMessage)
    → All IsMessage ms
    → length (packed ms) ≤ fuel
    → messages_loop fuel (packed ms) done ≡ ok (done ++ ms)
unfolding packed
messages_loop-packed [] fuel done v h = unfold messages_loop in ap ok (sym (append-nil done))
messages_loop-packed (m ∷ ms) zero done v h =
    absurd (omega (arith, length-append (wire (whole m)) (packed ms), length-wire (whole m)))
messages_loop-packed (m ∷ ms) (suc fuel) done v h =
    messages_loop-step fuel _ done (whole m) (wire-ne-nil (whole m) (packed ms))
      (parse_fragment-wire (whole m) (packed ms) (whole-IsFragment m v.0)) whole_is_whole
    ∙ ap₂ (messages_loop fuel)
        (drop-append_eq (12 + length (whole m).fragment) (wire (whole m)) (packed ms)
          (sym (length-wire (whole m))))
        (ap (λ x. done ++ (x ∷ [])) same)
    ∙ messages_loop-packed ms fuel (done ++ (m ∷ [])) v.1
        (omega (arith, length-append (wire (whole m)) (packed ms), length-wire (whole m)))
    ∙ ap ok (append_assoc done (m ∷ []) ms)
  where
    same : message_of (whole m) ≡ m
    same = unfold message_of whole in refl

    whole_is_whole : is_whole (whole m) ≡ true
    whole_is_whole = unfold is_whole whole in ground arith

pub is_handshake_lem :
    (r : DtlsRecord) → r.header.content_type ≡ Record.handshake → is_handshake r ≡ true
unfolding is_handshake
is_handshake_lem r c = rw c (ground arith)

-- Messages that were packed one after the other into a handshake record are all read back, in
-- order.
pub parse_messages-packed :
    (ms : List HandshakeMessage) (r : DtlsRecord)
    → All IsMessage ms
    → r.header.content_type ≡ Record.handshake
    → r.payload ≡ packed ms
    → parse_unfragmented_handshake_messages r ≡ ok ms
unfolding parse_unfragmented_handshake_messages
parse_messages-packed ms r v c e =
    rw (is_handshake_lem r c, e) (messages_loop-packed ms (length (packed ms)) [] v (omega arith))

messages_loop-ne-stuck :
    (fuel : ℕ) (bytes : Bytes) (done : List HandshakeMessage)
    → length bytes ≤ fuel
    → messages_loop fuel bytes done ≢ stuck
unfolding messages_loop Parsed
messages_loop-ne-stuck fuel [] done h = λ e. cc
messages_loop-ne-stuck zero (b ∷ bs) done h = absurd (omega arith)
messages_loop-ne-stuck (suc fuel) (b ∷ bs) done h = elim (parse_fragment-Parsed (b ∷ bs)) [
  | inr (e, x) ↦ rw x (λ p. cc)
  | inl (f, x, size, _, _) ↦ elim (Bool-cases (is_whole f)) [
    | inr part ↦ rw (x, part) (λ p. cc)
    | inl all ↦
        rw (x, all)
          (messages_loop-ne-stuck fuel (drop (12 + length f.fragment) (b ∷ bs)) _
            (omega (arith, length-drop (12 + length f.fragment) (b ∷ bs))))
  ]
]

-- Reading messages ends on every record.
pub parse_messages-ne-stuck : (r : DtlsRecord) → parse_unfragmented_handshake_messages r ≢ stuck
unfolding parse_unfragmented_handshake_messages
parse_messages-ne-stuck r = elim (Bool-cases (is_handshake r)) [
  | inl e ↦ rw e (messages_loop-ne-stuck (length r.payload) r.payload [] (omega arith))
  | inr e ↦ rw e (λ p. cc)
]
