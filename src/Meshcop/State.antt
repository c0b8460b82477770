-- ===== src/Meshcop/State.antt =====
-- crates/meshcop/src/meshcop/parsers.rs, types.rs and util.rs: the State TLV, and the writers of
-- single TLVs.
pub mod RoundTrip
mod Examples
use meshcop_rs.Base.{
  ℕ, ◌%◌, ◌/◌, Bool, true, false, not, ◌&&◌, Option, none, some, List, [], ◌∷◌, ◌++◌, ◌==◌,
  if◌then◌else◌, Result, ok, err, stuck, ◌>>=◌, ◌>>◌, guard, map_err, length,
}
use meshcop_rs.Base.Bytes.{Bytes, as_u8, u16_to_be_bytes}
use meshcop_rs.Coap.{CoapMessage, changed_code}
use meshcop_rs.Error.{Error, dataset, expected_changed, tlv}
use meshcop_rs.Tlv.{TlvEntry, TlvSet, last_value, encode_entry, written}
use meshcop_rs.Tlv

pub data MeshcopState : Type 0 where
  reject pending accept : MeshcopState

pub to_wire : MeshcopState → ℕ
to_wire reject = 0xff
to_wire pending = 0x00
to_wire accept = 0x01

pub from_wire : ℕ → Result Error MeshcopState
from_wire value =
    if value == 0xff
    then ok reject
    else if value == 0x00
    then ok pending
    else if value == 0x01
    then ok accept
    else err (dataset "invalid MeshCoP State TLV value")

abbrev pub tlv_state : ℕ
tlv_state = 16

-- The closure in `parse_state`.
pub state_of_value : Bytes → Result Error MeshcopState
state_of_value (b ∷ []) = from_wire b
state_of_value _ = err (dataset "State TLV must be 1 byte")

-- `Option::map` and `transpose`.
pub transpose_state : Option Bytes → Result Error (Option MeshcopState)
transpose_state none = ok none
transpose_state (some value) = do state ← state_of_value value; ok (some state)

pub parse_state : Bytes → Result Error (Option MeshcopState)
parse_state payload = do
  tlvs ← map_err tlv (Tlv.parse payload)
  transpose_state (last_value tlvs tlv_state)

pub is_none : Option MeshcopState → Bool
is_none none = true
is_none (some s) = false

unfoldable pub parse_state_response : CoapMessage → Bool → Result Error (Option MeshcopState)
parse_state_response response state_mandatory = do
  guard (response.code.byte == changed_code.byte) (expected_changed response.code.byte)
  state ← parse_state response.payload
  guard (not (state_mandatory && is_none state)) (dataset "missing MeshCoP State TLV")
  ok state

unfoldable pub append_tlv : Bytes → ℕ → Bytes → Result Error Bytes
append_tlv out ty value =
    map_err tlv (written (encode_entry (record { ty = ty; value = value }) out))

unfoldable pub append_u8 : Bytes → ℕ → ℕ → Result Error Bytes
append_u8 out ty value = append_tlv out ty (value ∷ [])

unfoldable pub append_u16 : Bytes → ℕ → ℕ → Result Error Bytes
append_u16 out ty value = append_tlv out ty (u16_to_be_bytes value)

-- `u32::to_be_bytes`
pub append_u32 : Bytes → ℕ → ℕ → Result Error Bytes
append_u32 out ty value =
    append_tlv out ty (u16_to_be_bytes (value / 0x1_0000) ++ u16_to_be_bytes (value % 0x1_0000))
