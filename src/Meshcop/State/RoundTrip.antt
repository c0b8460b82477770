-- ===== src/Meshcop/State/RoundTrip.antt =====
-- parsers.rs: the State TLV of a payload that was built as a TLV set.
use meshcop_rs.Base.{◌≡◌, refl, some, [], ◌∷◌, arith, All, ok}
use meshcop_rs.Base.Bytes.{Bytes}
use meshcop_rs.Tlv.{TlvSet, set_last, last_value}
use meshcop_rs.Tlv
use meshcop_rs.Tlv.RoundTrip.{Fits, parse-encode}
use meshcop_rs.Tlv.Values.{last_value-set_last, set_last-Fits}
use meshcop_rs.Meshcop.State.{
  MeshcopState, reject, pending, accept, to_wire, from_wire, state_of_value, transpose_state,
  parse_state, tlv_state,
}

from_wire-to_wire : (s : MeshcopState) → from_wire (to_wire s) ≡ ok s
unfolding from_wire to_wire
from_wire-to_wire reject = refl
from_wire-to_wire pending = refl
from_wire-to_wire accept = refl

-- A set whose values have at most 65535 bytes, in which the State TLV was set last to a state, is
-- encoded into a payload from which parse_state reads that state, whatever the set held before.
pub parse_state-set_last :
    (set : TlvSet) (s : MeshcopState)
    → All Fits set.entries
    → (payload : Bytes) × (Tlv.encode (set_last set tlv_state (to_wire s ∷ [])) ≡ ok payload)
      × (parse_state payload ≡ ok (some s))
unfolding parse_state transpose_state state_of_value
parse_state-set_last set s h =
    let changed : TlvSet = set_last set tlv_state (to_wire s ∷ []) in
    let (payload, encoded, parsed) =
      parse-encode changed (set_last-Fits set tlv_state (to_wire s ∷ []) (omega arith) h) in
    let value : last_value changed tlv_state ≡ some (to_wire s ∷ []) =
      last_value-set_last set tlv_state (to_wire s ∷ []) tlv_state in
    (payload, encoded, rw (parsed, value, from_wire-to_wire s) refl)
