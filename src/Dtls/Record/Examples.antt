-- ===== src/Dtls/Record/Examples.antt =====
-- Runs of record.rs, and the theorems at concrete inputs.
use meshcop_rs.Base.{◌≡◌, refl, [], ◌∷◌, arith, All, ok, err}
use meshcop_rs.Base.Bytes.{Bytes}
use meshcop_rs.Dtls.Error.{crypto}
use meshcop_rs.Dtls.Record.{
  DtlsRecord, handshake, alert, content_type_as_u8, content_type_try_from, read_sequence,
  parse_header, encode_header, encode, parse_one, parse_loop, parse_datagram, encode_loop,
  encode_datagram,
}
use meshcop_rs.Dtls.Record.Datagram.{IsRecord, parse_datagram-encode_datagram}

abbrev hello : DtlsRecord
hello = record {
  header = record {
    content_type = handshake;
    version = 0xfefd;
    epoch = 0;
    sequence_number = 0x0102_0304_0506;
    len = 2;
  };
  payload = 7 ∷ 8 ∷ [];
}

abbrev warning : DtlsRecord
warning = record {
  header = record {
    content_type = alert;
    version = 0xfefd;
    epoch = 1;
    sequence_number = 9;
    len = 0;
  };
  payload = [];
}

abbrev hello_bytes : Bytes
hello_bytes = 22 ∷ 0xfe ∷ 0xfd ∷ 0 ∷ 0 ∷ 1 ∷ 2 ∷ 3 ∷ 4 ∷ 5 ∷ 6 ∷ 0 ∷ 2 ∷ 7 ∷ 8 ∷ []

encode_hello : encode_datagram (hello ∷ []) ≡ ok hello_bytes
unfolding encode_datagram encode_loop encode encode_header content_type_as_u8
encode_hello = refl

parse_hello : parse_datagram hello_bytes ≡ ok (hello ∷ [])
unfolding parse_datagram parse_loop parse_one parse_header content_type_try_from read_sequence
parse_hello = refl

parse_truncated :
    parse_datagram (22 ∷ 0xfe ∷ 0xfd ∷ 0 ∷ 0 ∷ 1 ∷ 2 ∷ 3 ∷ 4 ∷ 5 ∷ 6 ∷ 0 ∷ 2 ∷ 7 ∷ [])
    ≡ err (crypto "DTLS record payload is truncated")
unfolding parse_datagram parse_loop parse_one parse_header content_type_try_from read_sequence
parse_truncated = refl

both-IsRecord : All IsRecord (hello ∷ warning ∷ [])
both-IsRecord = omega arith

parse_datagram-encode_datagram_example :
    (bytes : Bytes) × (encode_datagram (hello ∷ warning ∷ []) ≡ ok bytes)
    × (parse_datagram bytes ≡ ok (hello ∷ warning ∷ []))
parse_datagram-encode_datagram_example =
    parse_datagram-encode_datagram (hello ∷ warning ∷ []) both-IsRecord
