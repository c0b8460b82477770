-- ===== src/Dtls/Flight/Recognition.antt =====
-- flight.rs: which datagrams are taken for a client's last flight.
use meshcop_rs.Base.{
  ◌≡◌, refl, ◌∙◌, Bool, true, Bool-cases, inl, inr, List, [], ◌∷◌, ◌++◌, arith, ◌==◌, All,
}
use meshcop_rs.Dtls.Record.{DtlsRecord, content_type_as_u8}
use meshcop_rs.Dtls.Record
use meshcop_rs.Dtls.Message.{HandshakeMessage}
use meshcop_rs.Dtls.Message.Whole.{IsMessage}
use meshcop_rs.Dtls.Message.Packed.{packed, parse_messages-packed, is_handshake_lem}
use meshcop_rs.Dtls.Flight.{
  any, is_client_key_exchange, carries_key_exchange, is_finished_record, is_client_finished_flight,
}

any-append {ℓ} :
    {A : Type ℓ} (test : A → Bool) (xs : List A) (y : A) (ys : List A)
    → test y ≡ true
    → any test (xs ++ (y ∷ ys)) ≡ true
unfolding any
any-append test [] y ys h = rw h refl
any-append test (x ∷ xs) y ys h = elim (Bool-cases (test x)) [
  | inl here ↦ rw here refl
  | inr skip ↦ rw skip (any-append test xs y ys h)
]

-- A plaintext handshake record is one of the flight exactly if its messages, packed one after the
-- other, include a ClientKeyExchange.
pub is_finished_record-packed :
    (ms : List HandshakeMessage) (r : DtlsRecord)
    → All IsMessage ms
    → r.header.content_type ≡ Record.handshake
    → r.header.epoch ≡ 0
    → r.payload ≡ packed ms
    → is_finished_record r ≡ any is_client_key_exchange ms
unfolding is_finished_record carries_key_exchange
is_finished_record-packed ms r v c zero_epoch e =
    let test : (r.header.epoch == 0) ≡ true = ground arith in
    rw (test, is_handshake_lem r c, parse_messages-packed ms r v c e) refl

-- A datagram with a plaintext handshake record of messages that fit the wire, one of which is a
-- ClientKeyExchange, is taken for the client's last flight, wherever the record stands and whatever
-- it packs besides.
pub is_client_finished_flight-packed :
    (before after : List DtlsRecord) (ms : List HandshakeMessage) (r : DtlsRecord)
    → All IsMessage ms
    → r.header.content_type ≡ Record.handshake
    → r.header.epoch ≡ 0
    → r.payload ≡ packed ms
    → any is_client_key_exchange ms ≡ true
    → is_client_finished_flight (before ++ (r ∷ after)) ≡ true
unfolding is_client_finished_flight
is_client_finished_flight-packed before after ms r v c z e h =
    any-append is_finished_record before r after (is_finished_record-packed ms r v c z e ∙ h)
