-- ===== src/Dataset.antt =====
-- crates/meshcop/src/dataset.rs: the operational dataset, a TLV set with typed accessors, and the
-- values of its TLVs. Zeroizing on drop is left out.
pub mod Time
pub mod Policy
pub mod ChannelMask
pub mod Accessors
mod Examples
use meshcop_rs.Base.{
  ℕ, ◌/◌, ◌%◌, ◌==◌, Bool, Option, none, some, List, [], ◌∷◌, ◌++◌, if◌then◌else◌, length, Result,
  ok, err, stuck, ◌>>=◌, ◌>>◌, guard, map_err, transpose_map,
}
use meshcop_rs.Base.Bytes.{Bytes, u16_from_be_bytes, u16_to_be_bytes}
use meshcop_rs.Dataset.ChannelMask.{ChannelMaskEntry, parse_all}
use meshcop_rs.Dataset.Policy.{SecurityPolicy, parse_policy}
use meshcop_rs.Dataset.Time.{Timestamp, parse_timestamp}
use meshcop_rs.Error.{Error, dataset, expected_bytes, tlv}
use meshcop_rs.Tlv.{TlvEntry, TlvSet, last_value, retain_ne}
use meshcop_rs.Tlv
use meshcop_rs.Tlv.Reading
use meshcop_rs.Base.Utf8.{from_utf8}
use meshcop_rs.Base.{ok_or}

abbrev pub tlv_channel : ℕ
tlv_channel = 0x00

abbrev pub tlv_pan_id : ℕ
tlv_pan_id = 0x01

abbrev pub tlv_extended_pan_id : ℕ
tlv_extended_pan_id = 0x02

abbrev pub tlv_network_name : ℕ
tlv_network_name = 0x03

abbrev pub tlv_pskc : ℕ
tlv_pskc = 0x04

abbrev pub tlv_network_key : ℕ
tlv_network_key = 0x05

abbrev pub tlv_mesh_local_prefix : ℕ
tlv_mesh_local_prefix = 0x07

abbrev pub tlv_security_policy : ℕ
tlv_security_policy = 0x0c

abbrev pub tlv_active_timestamp : ℕ
tlv_active_timestamp = 0x0e

abbrev pub tlv_pending_timestamp : ℕ
tlv_pending_timestamp = 0x33

abbrev pub tlv_delay_timer : ℕ
tlv_delay_timer = 0x34

abbrev pub tlv_channel_mask : ℕ
tlv_channel_mask = 0x35

-- `Dataset`, which the active and the pending dataset are.
pub record OperationalDataset : Type 0 where
  pub tlvs : TlvSet

pub from_bytes : Bytes → Result Error OperationalDataset
from_bytes bytes = do tlvs ← map_err tlv (Tlv.parse bytes); ok (record { tlvs = tlvs })

pub to_bytes : OperationalDataset → Result Error Bytes
to_bytes d = map_err tlv (Tlv.encode d.tlvs)

pub raw : OperationalDataset → ℕ → Option Bytes
raw d ty = last_value d.tlvs ty

pub remove_all : OperationalDataset → ℕ → OperationalDataset
remove_all d ty = record { tlvs = record { entries = retain_ne ty d.tlvs.entries } }

pub set_raw : OperationalDataset → ℕ → Bytes → OperationalDataset
unfolding remove_all
set_raw d ty value = record {
  tlvs = Tlv.push (remove_all d ty).tlvs (record { ty = ty; value = value });
}

pub pskc : OperationalDataset → Option Bytes
pskc d = raw d tlv_pskc

pub text_of_value : Bytes → Result Error Bytes
text_of_value value = ok_or (from_utf8 value) (dataset "network name is not UTF-8")

pub network_name : OperationalDataset → Result Error (Option Bytes)
network_name d = transpose_map text_of_value (raw d tlv_network_name)

pub record Channel : Type 0 where
  pub page : ℕ
  pub channel : ℕ

pub parse_channel : Bytes → Result Error Channel
parse_channel (page ∷ hi ∷ lo ∷ []) = ok (record { page = page; channel = u16_from_be_bytes hi lo })
parse_channel _ = err (dataset "channel TLV must be 3 bytes")

pub channel_to_value : Channel → Bytes
channel_to_value c = c.page ∷ u16_to_be_bytes c.channel

pub channel : OperationalDataset → Result Error (Option Channel)
channel d = transpose_map parse_channel (raw d tlv_channel)

unfoldable pub read_array : ℕ → Bytes → Result Error Bytes
read_array n value = if length value == n then ok value else err (expected_bytes n (length value))

pub pan_id : OperationalDataset → Result Error (Option ℕ)
pan_id d = map_err tlv (transpose_map Reading.read_u16 (raw d tlv_pan_id))

pub extended_pan_id : OperationalDataset → Result Error (Option Bytes)
extended_pan_id d = transpose_map (read_array 8) (raw d tlv_extended_pan_id)

pub network_key : OperationalDataset → Result Error (Option Bytes)
network_key d = transpose_map (read_array 16) (raw d tlv_network_key)

pub mesh_local_prefix : OperationalDataset → Result Error (Option Bytes)
mesh_local_prefix d = transpose_map (read_array 8) (raw d tlv_mesh_local_prefix)

pub active_timestamp : OperationalDataset → Result Error (Option Timestamp)
active_timestamp d = transpose_map parse_timestamp (raw d tlv_active_timestamp)

pub pending_timestamp : OperationalDataset → Result Error (Option Timestamp)
pending_timestamp d = transpose_map parse_timestamp (raw d tlv_pending_timestamp)

pub delay_timer : OperationalDataset → Result Error (Option ℕ)
delay_timer d = map_err tlv (transpose_map Reading.read_u32 (raw d tlv_delay_timer))

pub security_policy : OperationalDataset → Result Error (Option SecurityPolicy)
security_policy d = transpose_map parse_policy (raw d tlv_security_policy)

pub channel_mask : OperationalDataset → Result Error (Option (List ChannelMaskEntry))
channel_mask d = transpose_map parse_all (raw d tlv_channel_mask)
