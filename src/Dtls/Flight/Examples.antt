-- ===== src/Dtls/Flight/Examples.antt =====
-- Runs of flight.rs, and the theorems at concrete inputs.
use meshcop_rs.Base.{ℕ, ◌+◌, ◌≡◌, refl, true, List, [], ◌∷◌, ◌++◌, map, arith, length}
use meshcop_rs.Base.Bytes.{Bytes}
use meshcop_rs.Dtls.Record.{DtlsRecord}
use meshcop_rs.Dtls.Record
use meshcop_rs.Dtls.Handshake.{client_key_exchange, handshake_type_as_u8}
use meshcop_rs.Dtls.Message.{HandshakeMessage}
use meshcop_rs.Dtls.Message.Packed.{packed}
use meshcop_rs.Dtls.Flight.{
  any, is_client_key_exchange, is_client_finished_flight, renumber_epoch_zero_flight, renumber_one,
  take_record_sequence, with_sequence,
}
use meshcop_rs.Dtls.Flight.Renumbering.{
  plaintext_records, numbers_from, sequence_of, renumber-numbers_from,
}
use meshcop_rs.Dtls.Flight.Recognition.{is_client_finished_flight-packed}

abbrev key_exchange : HandshakeMessage
key_exchange = record { message_type = client_key_exchange; message_seq = 2; payload = 7 ∷ [] }

abbrev numbered : ℕ → ℕ → Bytes → DtlsRecord
numbered epoch sequence_number payload = record {
  header = record {
    content_type = Record.handshake;
    version = 0xfefd;
    epoch = epoch;
    sequence_number = sequence_number;
    len = length payload;
  };
  payload = payload;
}

abbrev flight : List DtlsRecord
flight = numbered 0 2 (1 ∷ []) ∷ numbered 0 3 (2 ∷ []) ∷ numbered 1 0 (3 ∷ []) ∷ []

renumber_epoch_zero_flight-flight :
    renumber_epoch_zero_flight flight 9
    ≡ (numbered 0 9 (1 ∷ []) ∷ numbered 0 10 (2 ∷ []) ∷ numbered 1 0 (3 ∷ []) ∷ [], 11)
unfolding renumber_epoch_zero_flight renumber_one take_record_sequence with_sequence
renumber_epoch_zero_flight-flight = refl

plaintext-flight : 9 + length (plaintext_records flight) ≡ 11
unfolding plaintext_records
plaintext-flight = refl

renumber-numbers_from_example :
    (map sequence_of (plaintext_records (renumber_epoch_zero_flight flight 9).0)
      ≡ numbers_from 9 (plaintext_records flight))
    × ((renumber_epoch_zero_flight flight 9).1 ≡ 9 + length (plaintext_records flight))
renumber-numbers_from_example = renumber-numbers_from flight 9 (omega (arith, plaintext-flight))

has_key_exchange : any is_client_key_exchange (key_exchange ∷ []) ≡ true
unfolding any is_client_key_exchange handshake_type_as_u8
has_key_exchange = refl

is_client_finished_flight-packed_example :
    is_client_finished_flight
      ((numbered 1 5 [] ∷ []) ++ (numbered 0 4 (packed (key_exchange ∷ [])) ∷ []))
    ≡ true
is_client_finished_flight-packed_example =
    is_client_finished_flight-packed (numbered 1 5 [] ∷ []) [] (key_exchange ∷ [])
      (numbered 0 4 (packed (key_exchange ∷ []))) (omega arith) refl refl refl has_key_exchange
