-- ===== src/Meshcop/Requests.antt =====
-- crates/meshcop/src/meshcop/builders.rs: the requests of a commissioner. A text is the list of its
-- UTF-8 bytes, an IPv6 address its number.
use meshcop_rs.Base.{
  ℕ, Bool, not, List, [], ◌∷◌, ◌++◌, ◌==◌, if◌then◌else◌, none, some, Result, ok, ◌>>=◌, ◌>>◌,
  guard,
}
use meshcop_rs.Base.Address.{octets, is_multicast}
use meshcop_rs.Base.Bytes.{Bytes}
use meshcop_rs.Coap.{CoapMessage, CoapType, confirmable, non_confirmable, is_empty}
use meshcop_rs.Coap.Uri.{post_request}
use meshcop_rs.Dataset.{OperationalDataset, to_bytes, pending_timestamp}
use meshcop_rs.Dataset.ChannelMask.{encode_all}
use meshcop_rs.Dataset.Time.{to_value}
use meshcop_rs.Error.{Error, dataset, not_multicast}
use meshcop_rs.Meshcop.Constants.{
  CommissionerOperation, operation_uri_path, tlv_commissioner_id, tlv_commissioner_session_id,
  tlv_get, tlv_secure_dissemination, tlv_channel_mask, tlv_count, tlv_period, tlv_pan_id,
  tlv_scan_duration, tlv_network_name, network_diag_tlv_type_list,
  thread_tlv_commissioner_session_id, thread_tlv_timeout, thread_tlv_ipv6_addresses,
  uri_petitioning, uri_keep_alive, uri_mgmt_sec_pending_set, uri_mgmt_announce_begin,
  uri_mgmt_panid_query, uri_mgmt_ed_scan, uri_mgmt_net_migrate, uri_mlr,
}
use meshcop_rs.Meshcop.Flags.{network_diag_tlv_types}
use meshcop_rs.Meshcop.State.{
  accept, reject, to_wire, tlv_state, append_tlv, append_u8, append_u16, append_u32,
}
use meshcop_rs.Wire.{u32_to_be_bytes}

pub petition_request : ℕ → Bytes → Bytes → Result Error CoapMessage
petition_request message_id token commissioner_id = do
  payload ← append_tlv [] tlv_commissioner_id commissioner_id
  post_request confirmable message_id token uri_petitioning payload

pub keep_alive_request : ℕ → Bytes → ℕ → Bool → Result Error CoapMessage
keep_alive_request message_id token session_id keep_alive = do
  payload ← append_tlv [] tlv_state (to_wire (if keep_alive then accept else reject) ∷ [])
  payload ← append_u16 payload tlv_commissioner_session_id session_id
  post_request confirmable message_id token uri_keep_alive payload

pub dataset_get_request : CommissionerOperation → ℕ → Bytes → Bytes → Result Error CoapMessage
dataset_get_request operation message_id token get_tlv_types = do
  payload ← (if not (is_empty get_tlv_types) then append_tlv [] tlv_get get_tlv_types else ok [])
  post_request confirmable message_id token (operation_uri_path operation) payload

pub dataset_set_request :
    CommissionerOperation → ℕ → Bytes → ℕ → OperationalDataset → Result Error CoapMessage
dataset_set_request operation message_id token session_id d = do
  payload ← append_u16 [] tlv_commissioner_session_id session_id
  bytes ← to_bytes d
  post_request confirmable message_id token (operation_uri_path operation) (payload ++ bytes)

-- The timestamp, where the dataset has one.
pub pending_timestamp_value : OperationalDataset → Result Error Bytes
pending_timestamp_value d = do
  found ← pending_timestamp d
  ok (elim found [ none ↦ [] | some t ↦ to_value t ])

pub secure_pending_set_request :
    ℕ → Bytes → ℕ → ℕ → Bytes → OperationalDataset → Result Error CoapMessage
unfolding pending_timestamp_value
secure_pending_set_request message_id token session_id max_retrieval_timer retrieval_uri d = do
  timestamp ← pending_timestamp_value d
  payload ← append_u16 [] tlv_commissioner_session_id session_id
  payload ←
      append_tlv payload tlv_secure_dissemination
        (timestamp ++ u32_to_be_bytes max_retrieval_timer ++ retrieval_uri)
  bytes ← to_bytes d
  post_request confirmable message_id token uri_mgmt_sec_pending_set (payload ++ bytes)

-- A nonzero mask of channels on page 0.
unfoldable pub channel_mask_value : ℕ → Result Error Bytes
channel_mask_value channel_mask = do
  guard (not (channel_mask == 0)) (dataset "channel mask must not be zero")
  encode_all (record { page = 0; mask = u32_to_be_bytes channel_mask } ∷ [])

-- `if confirmable { .. } else { .. }`
pub coap_type_of : Bool → CoapType
coap_type_of is_confirmable = if is_confirmable then confirmable else non_confirmable

pub announce_begin_request : ℕ → Bytes → ℕ → ℕ → ℕ → ℕ → Bool → Result Error CoapMessage
announce_begin_request message_id token session_id channel_mask count period_ms is_confirmable = do
  payload ← append_u16 [] tlv_commissioner_session_id session_id
  mask ← channel_mask_value channel_mask
  payload ← append_tlv payload tlv_channel_mask mask
  payload ← append_u8 payload tlv_count count
  payload ← append_u16 payload tlv_period period_ms
  post_request (coap_type_of is_confirmable) message_id token uri_mgmt_announce_begin payload

pub pan_id_query_request : ℕ → Bytes → ℕ → ℕ → ℕ → Bool → Result Error CoapMessage
pan_id_query_request message_id token session_id channel_mask pan_id is_confirmable = do
  payload ← append_u16 [] tlv_commissioner_session_id session_id
  mask ← channel_mask_value channel_mask
  payload ← append_tlv payload tlv_channel_mask mask
  payload ← append_u16 payload tlv_pan_id pan_id
  post_request (coap_type_of is_confirmable) message_id token uri_mgmt_panid_query payload

pub record EnergyScanRequest : Type 0 where
  pub channel_mask : ℕ
  pub count : ℕ
  pub period_ms : ℕ
  pub scan_duration_ms : ℕ
  pub is_confirmable : Bool

pub energy_scan_request : ℕ → Bytes → ℕ → EnergyScanRequest → Result Error CoapMessage
energy_scan_request message_id token session_id scan = do
  payload ← append_u16 [] tlv_commissioner_session_id session_id
  mask ← channel_mask_value scan.channel_mask
  payload ← append_tlv payload tlv_channel_mask mask
  payload ← append_u8 payload tlv_count scan.count
  payload ← append_u16 payload tlv_period scan.period_ms
  payload ← append_u16 payload tlv_scan_duration scan.scan_duration_ms
  post_request (coap_type_of scan.is_confirmable) message_id token uri_mgmt_ed_scan payload

pub session_command_request :
    CommissionerOperation → ℕ → Bytes → ℕ → Bool → Result Error CoapMessage
session_command_request operation message_id token session_id is_confirmable = do
  payload ← append_u16 [] tlv_commissioner_session_id session_id
  post_request (coap_type_of is_confirmable) message_id token (operation_uri_path operation) payload

pub migrate_request : ℕ → Bytes → ℕ → Bytes → Bool → Result Error CoapMessage
migrate_request message_id token session_id designated_network is_confirmable = do
  payload ← append_u16 [] tlv_commissioner_session_id session_id
  payload ← append_tlv payload tlv_network_name designated_network
  post_request (coap_type_of is_confirmable) message_id token uri_mgmt_net_migrate payload

pub diagnostic_request : CommissionerOperation → ℕ → Bytes → ℕ → Bool → Result Error CoapMessage
diagnostic_request operation message_id token diag_data_flags is_confirmable = do
  payload ← append_tlv [] network_diag_tlv_type_list (network_diag_tlv_types diag_data_flags)
  post_request (coap_type_of is_confirmable) message_id token (operation_uri_path operation) payload

-- The loop over the addresses, in front of which `raw_addresses` has been collected.
unfoldable pub multicast_addresses : List ℕ → Bytes → Result Error Bytes
multicast_addresses [] raw_addresses = ok raw_addresses
multicast_addresses (address ∷ addresses) raw_addresses = do
  guard (is_multicast (octets address)) (not_multicast address)
  multicast_addresses addresses (raw_addresses ++ octets address)

pub multicast_listener_request : ℕ → Bytes → ℕ → List ℕ → ℕ → Result Error CoapMessage
multicast_listener_request message_id token session_id addresses timeout = do
  guard (not (is_empty addresses)) (dataset "multicast listener request needs at least one address")
  raw_addresses ← multicast_addresses addresses []
  payload ← append_u16 [] thread_tlv_commissioner_session_id session_id
  payload ← append_u32 payload thread_tlv_timeout timeout
  payload ← append_tlv payload thread_tlv_ipv6_addresses raw_addresses
  post_request confirmable message_id token uri_mlr payload
