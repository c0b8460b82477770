-- ===== src/Dtls/Message/Examples.antt =====
-- Runs of the message codec, and the theorems at concrete inputs.
use meshcop_rs.Base.{◌≡◌, List, [], ◌∷◌, arith, ok}
use meshcop_rs.Base.Bytes.{Bytes}
use meshcop_rs.Dtls.Handshake.{HandshakeFragment, finished, client_hello}
use meshcop_rs.Dtls.Message.{HandshakeMessage, fragment}
use meshcop_rs.Dtls.Message.Fragments.{Splits, fragment-Splits}
use meshcop_rs.Dtls.Message.Whole.{IsMessage}
use meshcop_rs.Dtls.Record.{DtlsRecord}
use meshcop_rs.Dtls.Record

abbrev short : HandshakeMessage
short = record { message_type = finished; message_seq = 3; payload = 1 ∷ 2 ∷ 3 ∷ 4 ∷ 5 ∷ [] }

abbrev empty : HandshakeMessage
empty = record { message_type = client_hello; message_seq = 0; payload = [] }

abbrev carrying : Bytes → DtlsRecord
carrying bytes = record {
  header = record {
    content_type = Record.handshake;
    version = 0xfefd;
    epoch = 1;
    sequence_number = 0;
    len = 17;
  };
  payload = bytes;
}

short-IsMessage : IsMessage short
short-IsMessage = omega arith

fragment-Splits_example :
    (fs : List HandshakeFragment) × (fragment short 2 ≡ ok fs) × Splits short 2 0 fs
fragment-Splits_example = fragment-Splits short 2 (omega arith) (omega arith)
