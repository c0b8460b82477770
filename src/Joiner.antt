-- ===== src/Joiner.antt =====
-- crates/meshcop/src/commissioner/joiner.rs: the table of enabled joiners, the JOIN_FIN.req of a
-- joiner, and how a session opens the protected records of its joiner. A text is the list of its
-- UTF-8 bytes, a joiner ID a list of 8 bytes.
pub mod Table
pub mod Replays
mod Examples
use meshcop_rs.Base.{
  ℕ, ◌<◌, Bool, true, false, not, List, [], ◌∷◌, ◌++◌, ◌==◌, if◌then◌else◌, Option, none, some,
  Result, ok, err, stuck, ◌>>=◌, ok_or, map_err, transpose_map,
}
use meshcop_rs.Base.Bytes.{Bytes, bytes_eq}
use meshcop_rs.Base.Utf8.{from_utf8}
use meshcop_rs.Coap.{CoapMessage}
use meshcop_rs.Dtls.Protection.{Ccm, RecordProtectionKey, open_aes_128_ccm_8_record}
use meshcop_rs.Dtls.Record.{DtlsRecord}
use meshcop_rs.Dtls.Replay.{ReplayWindow, has_seen, mark_seen}
use meshcop_rs.Error.{Error, tlv, dtls, invalid_state, join_fin_missing, join_fin_not_utf8}
use meshcop_rs.Meshcop.State.{tlv_state}
use meshcop_rs.Steering.{compute_joiner_id, local_external_addr_mask}
use meshcop_rs.Tlv.{TlvSet, last_value}
use meshcop_rs.Tlv
use mathlib.Core.Option
use Prim.Native.Nat.{bit_xor}
use Prim.Native.String.{String}

pub joiner_id_from_iid : Bytes → Bytes
joiner_id_from_iid [] = []
joiner_id_from_iid (b ∷ bs) = bit_xor b local_external_addr_mask ∷ bs

pub record StaticJoinerHandler : Type 0 where
  pub wildcard_pskd : Option Bytes
  pub by_joiner_id : List (Bytes × Bytes)

abbrev pub new_handler : StaticJoinerHandler
new_handler = record { wildcard_pskd = none; by_joiner_id = [] }

pub enable_all : StaticJoinerHandler → Bytes → StaticJoinerHandler
enable_all h pskd = record { wildcard_pskd = some pskd; by_joiner_id = h.by_joiner_id }

-- `retain(|(id, _)| id != joiner_id)`
pub without_joiner : Bytes → List (Bytes × Bytes) → List (Bytes × Bytes)
without_joiner joiner_id [] = []
without_joiner joiner_id (entry ∷ entries) =
    let rest = without_joiner joiner_id entries in
    if not (bytes_eq entry.0 joiner_id) then entry ∷ rest else rest

pub enable_joiner_id : StaticJoinerHandler → Bytes → Bytes → StaticJoinerHandler
enable_joiner_id h joiner_id pskd = record {
  wildcard_pskd = h.wildcard_pskd;
  by_joiner_id = without_joiner joiner_id h.by_joiner_id ++ ((joiner_id, pskd) ∷ []);
}

pub enable_eui64 : (Bytes → Bytes) → StaticJoinerHandler → ℕ → Bytes → StaticJoinerHandler
enable_eui64 sha256 h eui64 pskd = enable_joiner_id h (compute_joiner_id sha256 eui64) pskd

pub disable_joiner_id : StaticJoinerHandler → Bytes → StaticJoinerHandler
disable_joiner_id h joiner_id = record {
  wildcard_pskd = h.wildcard_pskd;
  by_joiner_id = without_joiner joiner_id h.by_joiner_id;
}

pub disable_all : StaticJoinerHandler → StaticJoinerHandler
disable_all h = record { wildcard_pskd = none; by_joiner_id = h.by_joiner_id }

pub find_pskd : Bytes → List (Bytes × Bytes) → Option Bytes
find_pskd joiner_id [] = none
find_pskd joiner_id (entry ∷ entries) =
    if bytes_eq entry.0 joiner_id then some entry.1 else find_pskd joiner_id entries

-- `or_else`
pub or_wildcard : Option Bytes → Option Bytes → Option Bytes
or_wildcard none wildcard = wildcard
or_wildcard (some pskd) wildcard = some pskd

pub joiner_pskd : StaticJoinerHandler → Bytes → Option Bytes
unfolding or_wildcard
joiner_pskd h joiner_id = or_wildcard (find_pskd joiner_id h.by_joiner_id) h.wildcard_pskd

pub record JoinerFinalizeInfo : Type 0 where
  pub vendor_name : Bytes
  pub vendor_model : Bytes
  pub vendor_sw_version : Bytes
  pub vendor_stack_version : Bytes
  pub provisioning_url : Option Bytes
  pub vendor_data : Option Bytes

-- The two closures.
pub required : TlvSet → ℕ → String → Result Error Bytes
required tlvs ty name = ok_or (last_value tlvs ty) (join_fin_missing name)

pub utf8 : Bytes → String → Result Error Bytes
utf8 value name = ok_or (from_utf8 value) (join_fin_not_utf8 name)

pub from_payload : Bytes → Result Error JoinerFinalizeInfo
from_payload payload = do
  tlvs ← map_err tlv (Tlv.parse payload)
  _ ← required tlvs tlv_state "State"
  value ← required tlvs 33 "Vendor Name"
  vendor_name ← utf8 value "Vendor Name"
  value ← required tlvs 34 "Vendor Model"
  vendor_model ← utf8 value "Vendor Model"
  value ← required tlvs 35 "Vendor SW Version"
  vendor_sw_version ← utf8 value "Vendor SW Version"
  vendor_stack_version ← required tlvs 37 "Vendor Stack Version"
  provisioning_url ←
      transpose_map (λ (url : Bytes). utf8 url "Provisioning URL") (last_value tlvs 32)
  ok (record {
    vendor_name = vendor_name;
    vendor_model = vendor_model;
    vendor_sw_version = vendor_sw_version;
    vendor_stack_version = vendor_stack_version;
    provisioning_url = provisioning_url;
    vendor_data = last_value tlvs 36;
  })

pub parse_join_fin : CoapMessage → Result Error JoinerFinalizeInfo
parse_join_fin request = from_payload request.payload

-- The fields of `JoinerSession` that opening a record uses: of the key material the client's write
-- key and IV.
pub record JoinerSession : Type 0 where
  pub key_material : Option (RecordProtectionKey × Bytes)
  pub replay_window : ReplayWindow

pub key_material_required : JoinerSession → Result Error (RecordProtectionKey × Bytes)
key_material_required s = ok_or s.key_material (invalid_state "joiner key material is not derived")

pub marked_seen : JoinerSession → ℕ → JoinerSession
marked_seen s sequence_number = record {
  key_material = s.key_material;
  replay_window = mark_seen s.replay_window sequence_number;
}

-- What the opening gave: only a plaintext marks the number.
pub opened_as : JoinerSession → ℕ → Result Error Bytes → JoinerSession × Result Error (Option Bytes)
unfolding marked_seen
opened_as s sequence_number (ok plaintext) = (marked_seen s sequence_number, ok (some plaintext))
opened_as s sequence_number (err e) = (s, err e)
opened_as s sequence_number stuck = (s, stuck)

module _ (ccm : Ccm) where
  pub open_with_keys : JoinerSession → DtlsRecord → Result Error Bytes
  unfolding key_material_required
  open_with_keys s r = do
    keys ← key_material_required s
    map_err dtls (open_aes_128_ccm_8_record ccm r keys.0 keys.1)

  pub open_record : JoinerSession → DtlsRecord → JoinerSession × Result Error (Option Bytes)
  open_record s r =
      if has_seen s.replay_window r.header.sequence_number
      then (s, ok none)
      else opened_as s r.header.sequence_number (open_with_keys s r)
