-- ===== src/Error.antt =====
-- crates/meshcop/src/error.rs: the crate's error type, less the errors of the hex and I/O
-- libraries and of the session. The texts are those of the source; one that the source formats
-- with a number in it has a constructor of its own, with the number.
use Prim.Native.Nat.{ℕ}
use mathlib.Core.Option.{Option}
use Prim.Native.String.{String}
use meshcop_rs.Tlv.{TlvError}
use meshcop_rs.Dtls.Error as Dtls

pub data Error : Type 0 where
  configuration dataset crypto timeout invalid_state unsupported : String → Error
  tlv : TlvError → Error
  dtls : Dtls.Error → Error
  petition_rejected : Option String → Error
  session_closed : Error
  -- "expected CoAP Changed response" with the code that came.
  expected_changed : ℕ → Error
  -- "expected {} bytes, got {}"
  expected_bytes : ℕ → ℕ → Error
  -- "{address} is not an IPv6 multicast address"
  not_multicast : ℕ → Error
  -- "missing {name} TLV"
  missing_tlv : String → Error
  -- "JOIN_FIN.req missing {name} TLV" and "JOIN_FIN.req {name} TLV is not UTF-8"
  join_fin_missing join_fin_not_utf8 : String → Error
