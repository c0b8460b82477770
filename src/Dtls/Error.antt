-- ===== src/Dtls/Error.antt =====
-- crates/meshcop-dtls/src/error.rs. The texts are those of the source; the one that the source
-- formats with a number in it has a constructor of its own, with the number.
use Prim.Native.Nat.{ℕ}
use Prim.Native.String.{String}

pub data Error : Type 0 where
  crypto invalid_state timeout : String → Error
  crypto_over_limit : ℕ → Error
  peer_closed : Error
  -- "{field} exceeds 255 bytes" and "{field} exceeds 65535 bytes"
  over_255 over_65535 : String → Error
