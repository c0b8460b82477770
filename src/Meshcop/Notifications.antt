-- ===== src/Meshcop/Notifications.antt =====
-- crates/meshcop/src/meshcop/parsers.rs: what a commissioner receives.
pub mod Payload
pub mod Relayed
pub mod Masks
mod Examples
use meshcop_rs.Base.{
  ℕ, ◌%◌, ◌/◌, Bool, true, false, not, List, [], ◌∷◌, ◌++◌, ◌==◌, if◌then◌else◌, Option, none, some,
  Result, ok, err, stuck, ◌>>=◌, ◌>>◌, guard, ok_or, map_err, transpose_map, length,
}
use meshcop_rs.Base.Address.{from_octets}
use meshcop_rs.Base.Bytes.{Bytes, bytes_eq, u16_from_be_bytes}
use meshcop_rs.Base.Utf8.{from_utf8}
use meshcop_rs.Coap.{CoapMessage}
use meshcop_rs.Coap.Uri.{uri_path}
use meshcop_rs.Dataset.{read_array}
use meshcop_rs.Dataset.ChannelMask.{ChannelMaskEntry, parse_all}
use meshcop_rs.Error.{Error, dataset, tlv, missing_tlv}
use meshcop_rs.Meshcop.Constants.{
  tlv_ipv6_address, tlv_udp_encapsulation, tlv_commissioner_session_id, tlv_commissioner_id,
  tlv_channel_mask, tlv_pan_id, tlv_energy_list, tlv_joiner_udp_port, tlv_joiner_router_locator,
  tlv_joiner_iid, tlv_joiner_dtls_encapsulation, uri_udp_rx, uri_mgmt_dataset_changed,
  uri_mgmt_panid_conflict, uri_mgmt_ed_report, uri_diag_get_answer, uri_relay_rx,
}
use meshcop_rs.Meshcop.State.{MeshcopState, parse_state, parse_state_response}
use meshcop_rs.Tlv.{TlvSet, last_value}
use meshcop_rs.Tlv
use meshcop_rs.Tlv.Reading.{read_u16}
use meshcop_rs.Wire.{u32_from_be_bytes}
use Prim.Native.Nat.{bit_or}
use Prim.Native.String.{String}

pub record UdpRx : Type 0 where
  pub source_address : ℕ
  pub source_port : ℕ
  pub destination_port : ℕ
  pub payload : Bytes

unfoldable pub required_tlv : TlvSet → ℕ → String → Result Error Bytes
required_tlv tlvs ty name = ok_or (last_value tlvs ty) (missing_tlv name)

-- `== Some(path)`
unfoldable pub is_path : Bytes → Option Bytes → Bool
is_path path none = false
is_path path (some actual) = bytes_eq actual path

-- The ports in front of the datagram.
unfoldable pub udp_rx_of : Bytes → Bytes → Result Error (Option UdpRx)
udp_rx_of octets (a ∷ b ∷ c ∷ d ∷ rest) = ok (
    some (record {
      source_address = from_octets octets;
      source_port = u16_from_be_bytes a b;
      destination_port = u16_from_be_bytes c d;
      payload = rest;
    }))
udp_rx_of octets _ = err (dataset "UDP Encapsulation TLV must carry source and destination ports")

-- The payload of a message to the path of UDP_RX.
unfoldable pub udp_rx_payload : Bytes → Result Error (Option UdpRx)
unfolding required_tlv udp_rx_of
udp_rx_payload payload = do
  tlvs ← map_err tlv (Tlv.parse payload)
  address ← required_tlv tlvs tlv_ipv6_address "IPv6 Address"
  guard (length address == 16) (dataset "IPv6 Address TLV must be 16 bytes")
  encapsulation ← required_tlv tlvs tlv_udp_encapsulation "UDP Encapsulation"
  udp_rx_of address encapsulation

unfoldable pub parse_udp_rx : CoapMessage → Result Error (Option UdpRx)
parse_udp_rx m = do
  path ← uri_path m
  if is_path uri_udp_rx path then udp_rx_payload m.payload else ok none

pub record MeshcopPetitionResponse : Type 0 where
  pub state : MeshcopState
  pub session_id : Option ℕ
  pub existing_commissioner_id : Option Bytes

unfoldable pub parse_petition_response : CoapMessage → Result Error MeshcopPetitionResponse
parse_petition_response response = do
  _ ← parse_state_response response true
  tlvs ← map_err tlv (Tlv.parse response.payload)
  found ← parse_state response.payload
  state ← ok_or found (dataset "missing petition State TLV")
  session_id ← map_err tlv (transpose_map read_u16 (last_value tlvs tlv_commissioner_session_id))
  existing ←
      transpose_map
        (λ (value : Bytes). ok_or (from_utf8 value) (dataset "Commissioner ID TLV is not UTF-8"))
        (last_value tlvs tlv_commissioner_id)
  ok (record { state = state; session_id = session_id; existing_commissioner_id = existing })

pub mask_of_entry : Bytes → Option ℕ → Result Error (Option ℕ)
mask_of_entry (a ∷ b ∷ c ∷ d ∷ []) none = ok (some (bit_or 0 (u32_from_be_bytes a b c d)))
mask_of_entry (a ∷ b ∷ c ∷ d ∷ []) (some mask) = ok (some (bit_or mask (u32_from_be_bytes a b c d)))
mask_of_entry _ mask = err (dataset "page-0 channel mask must be 4 bytes")

-- The loop over the entries, with the mask of page 0 so far.
pub page_zero_mask : List ChannelMaskEntry → Option ℕ → Result Error (Option ℕ)
unfolding mask_of_entry
page_zero_mask [] mask = ok mask
page_zero_mask (entry ∷ entries) mask =
    (if entry.page == 0 then mask_of_entry entry.mask mask else ok mask) >>= λ mask'.
    page_zero_mask entries mask'

pub channel_mask_from_value : Bytes → Result Error ℕ
channel_mask_from_value value = do
  entries ← parse_all value
  mask ← page_zero_mask entries none
  ok_or mask (dataset "no page-0 channel mask entry")

-- Diagnostic data is what their decoder gives.
module _ (NetDiagData : Type 0) (decode : Bytes → Result Error NetDiagData) where
  pub data MeshcopNotification : Type 0 where
    dataset_changed : MeshcopNotification
    diag_get_answer : NetDiagData → MeshcopNotification
    pan_id_conflict : ℕ → ℕ → MeshcopNotification
    energy_report : ℕ → Bytes → MeshcopNotification
    relay_rx : ℕ → ℕ → Bytes → Bytes → MeshcopNotification

  pub conflict_payload : Bytes → Result Error (Option MeshcopNotification)
  conflict_payload payload = do
    tlvs ← map_err tlv (Tlv.parse payload)
    value ← required_tlv tlvs tlv_channel_mask "Channel Mask"
    channel_mask ← channel_mask_from_value value
    value ← required_tlv tlvs tlv_pan_id "PAN ID"
    pan_id ← map_err tlv (read_u16 value)
    ok (some (pan_id_conflict channel_mask pan_id))

  pub report_payload : Bytes → Result Error (Option MeshcopNotification)
  report_payload payload = do
    tlvs ← map_err tlv (Tlv.parse payload)
    channel_mask ← transpose_map channel_mask_from_value (last_value tlvs tlv_channel_mask)
    ok (
        some (
          energy_report (elim channel_mask [ none ↦ 0 | some mask ↦ mask ])
            (elim (last_value tlvs tlv_energy_list) [ none ↦ [] | some energies ↦ energies ])))

  pub answer_payload : Bytes → Result Error (Option MeshcopNotification)
  answer_payload payload = do
    data_of_answer ← decode payload
    ok (some (diag_get_answer data_of_answer))

  unfoldable pub relay_payload : Bytes → Result Error (Option MeshcopNotification)
  relay_payload payload = do
    tlvs ← map_err tlv (Tlv.parse payload)
    value ← required_tlv tlvs tlv_joiner_udp_port "Joiner UDP Port"
    joiner_udp_port ← map_err tlv (read_u16 value)
    value ← required_tlv tlvs tlv_joiner_router_locator "Joiner Router Locator"
    joiner_router_locator ← map_err tlv (read_u16 value)
    value ← required_tlv tlvs tlv_joiner_iid "Joiner IID"
    joiner_iid ← read_array 8 value
    relayed ← required_tlv tlvs tlv_joiner_dtls_encapsulation "Joiner DTLS Encapsulation"
    ok (some (relay_rx joiner_udp_port joiner_router_locator joiner_iid relayed))

  pub notification_at : Bytes → Bytes → Result Error (Option MeshcopNotification)
  notification_at path payload =
      if bytes_eq path uri_mgmt_dataset_changed
      then ok (some dataset_changed)
      else if bytes_eq path uri_mgmt_panid_conflict
      then conflict_payload payload
      else if bytes_eq path uri_mgmt_ed_report
      then report_payload payload
      else if bytes_eq path uri_diag_get_answer
      then answer_payload payload
      else if bytes_eq path uri_relay_rx
      then relay_payload payload
      else ok none

  pub parse_notification : CoapMessage → Result Error (Option MeshcopNotification)
  unfolding notification_at
  parse_notification m = uri_path m >>= λ path. elim path [
    | none ↦ ok none
    | some actual ↦ notification_at actual m.payload
  ]
