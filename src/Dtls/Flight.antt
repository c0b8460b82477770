-- ===== src/Dtls/Flight.antt =====
-- crates/meshcop-dtls/src/flight.rs: what servers do to a flight before they send it again.
pub mod Renumbering
pub mod Recognition
mod Examples
use meshcop_rs.Base.{
  ℕ, ◌+◌, ◌%◌, ◌^◌, Bool, true, false, List, [], ◌∷◌, ◌==◌, ◌&&◌, ◌||◌, if◌then◌else◌, Result, ok,
  err, stuck,
}
use meshcop_rs.Dtls.Error.{Error}
use meshcop_rs.Dtls.Record.{DtlsRecord, RecordHeader}
use meshcop_rs.Dtls.Handshake.{client_key_exchange, handshake_type_as_u8}
use meshcop_rs.Dtls.Message.{HandshakeMessage, is_handshake, parse_unfragmented_handshake_messages}

-- The number, and the counter behind it: `wrapping_add` on a u64.
pub take_record_sequence : ℕ → ℕ × ℕ
take_record_sequence next_sequence = (next_sequence, (next_sequence + 1) % 2 ^ 64)

pub with_sequence : DtlsRecord → ℕ → DtlsRecord
with_sequence r sequence = record {
  header = record {
    content_type = r.header.content_type;
    version = r.header.version;
    epoch = r.header.epoch;
    sequence_number = sequence;
    len = r.header.len;
  };
  payload = r.payload;
}

-- The record as the round leaves it, and the counter.
pub renumber_one : DtlsRecord → ℕ → DtlsRecord × ℕ
unfolding take_record_sequence
renumber_one r next_sequence =
    if r.header.epoch == 0
    then (
      with_sequence r (take_record_sequence next_sequence).0,
      (take_record_sequence next_sequence).1,
    )
    else (r, next_sequence)

pub renumber_epoch_zero_flight : List DtlsRecord → ℕ → List DtlsRecord × ℕ
renumber_epoch_zero_flight [] next_sequence = ([], next_sequence)
renumber_epoch_zero_flight (r ∷ records) next_sequence =
    let (r', next) = renumber_one r next_sequence in
    let (rest, last) = renumber_epoch_zero_flight records next in (r' ∷ rest, last)

pub any {ℓ} : {A : Type ℓ} → (A → Bool) → List A → Bool
any test [] = false
any test (x ∷ xs) = test x || any test xs

pub is_client_key_exchange : HandshakeMessage → Bool
is_client_key_exchange m =
    handshake_type_as_u8 m.message_type == handshake_type_as_u8 client_key_exchange

-- `is_ok_and`
pub carries_key_exchange : Result Error (List HandshakeMessage) → Bool
carries_key_exchange (ok messages) = any is_client_key_exchange messages
carries_key_exchange (err e) = false
carries_key_exchange stuck = false

pub is_finished_record : DtlsRecord → Bool
is_finished_record r =
    if r.header.epoch == 0 && is_handshake r
    then carries_key_exchange (parse_unfragmented_handshake_messages r)
    else r.header.epoch == 1 && is_handshake r

pub is_client_finished_flight : List DtlsRecord → Bool
is_client_finished_flight records = any is_finished_record records
