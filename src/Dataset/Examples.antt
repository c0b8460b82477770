-- ===== src/Dataset/Examples.antt =====
-- Runs of dataset.rs on a part of its unit tests' dataset, and the theorems at concrete inputs.
use meshcop_rs.Base.{ℕ, ◌≡◌, refl, some, List, [], ◌∷◌, arith, ok, err, ◌==◌, if◌then◌else◌}
use meshcop_rs.Base.Bytes.{Bytes}
use meshcop_rs.Error.{dataset, expected_bytes}
use meshcop_rs.Dataset.{
  OperationalDataset, Channel, from_bytes, to_bytes, raw, set_raw, channel, channel_to_value,
  active_timestamp, pending_timestamp, security_policy, channel_mask, tlv_channel,
  tlv_active_timestamp, tlv_pending_timestamp, tlv_security_policy, tlv_channel_mask, read_array,
}
use meshcop_rs.Dataset.Accessors.{raw-set_raw, accessors-to_value}
use meshcop_rs.Dataset.ChannelMask.{ChannelMaskEntry, parse_all, encode_all, encode_all-parse_all}
use meshcop_rs.Dataset.Policy.{
  SecurityPolicy, HasVersion, v5, set_version_threshold_for_routing, policy_to_value,
  version_threshold-set_version,
}
use meshcop_rs.Dataset.Time.{Timestamp, to_value}

-- The channel 25 and the PAN ID 0x0b76.
abbrev two_entries : OperationalDataset
two_entries = record {
  tlvs = record {
    entries =
        record { ty = 0; value = 0 ∷ 0 ∷ 25 ∷ [] }
        ∷ record { ty = 1; value = 0x0b ∷ 0x76 ∷ [] }
        ∷ [];
  };
}

short_key : read_array 16 (1 ∷ 2 ∷ []) ≡ err (expected_bytes 16 2)
unfolding read_array
short_key = refl

abbrev mask : List ChannelMaskEntry
mask = record { page = 0; mask = 0x00 ∷ 0x1f ∷ 0xff ∷ 0xe0 ∷ [] } ∷ []

abbrev mask_bytes : Bytes
mask_bytes = 0 ∷ 4 ∷ 0x00 ∷ 0x1f ∷ 0xff ∷ 0xe0 ∷ []

parse_all-mask : parse_all mask_bytes ≡ ok mask
unfolding parse_all
parse_all-mask = refl

encode_all-mask : encode_all mask ≡ ok mask_bytes
unfolding encode_all
encode_all-mask = refl

truncated_mask :
    parse_all (0 ∷ 4 ∷ 0x00 ∷ []) ≡ err (dataset "channel mask entry value is truncated")
unfolding parse_all
truncated_mask = refl

encode_all-parse_all_example : encode_all mask ≡ ok mask_bytes
encode_all-parse_all_example = encode_all-parse_all mask_bytes mask (omega arith) parse_all-mask

raw-set_raw_example :
    (bytes : Bytes) × (after : OperationalDataset) × (to_bytes
        (set_raw two_entries 1 (0x12 ∷ 0x34 ∷ []))
      ≡ ok bytes)
    × (from_bytes bytes ≡ ok after)
    × ((other : ℕ)
        → raw after other ≡ (if 1 == other then some (0x12 ∷ 0x34 ∷ []) else raw two_entries other))
raw-set_raw_example = raw-set_raw two_entries 1 (0x12 ∷ 0x34 ∷ []) (omega arith) (omega arith)

abbrev channel_11 : Channel
channel_11 = record { page = 0; channel = 11 }

abbrev noon : Timestamp
noon = record { raw = 0x1_0000 }

abbrev policy : SecurityPolicy
policy = record { rotation_time = 672; flags = record { bits = 0xfff8 } }

accessors-to_value_example :
    (channel (set_raw two_entries tlv_channel (channel_to_value channel_11)) ≡ ok (some channel_11))
    × (active_timestamp (set_raw two_entries tlv_active_timestamp (to_value noon)) ≡ ok (some noon))
    × (pending_timestamp (set_raw two_entries tlv_pending_timestamp (to_value noon))
        ≡ ok (some noon))
    × (security_policy (set_raw two_entries tlv_security_policy (policy_to_value policy))
        ≡ ok (some policy))
    × (channel_mask (set_raw two_entries tlv_channel_mask mask_bytes) ≡ ok (some mask))
accessors-to_value_example =
    accessors-to_value two_entries channel_11 noon policy mask mask_bytes (omega arith)
      (omega arith) (omega arith) (omega arith) (omega arith) encode_all-mask

version_threshold-set_version_example :
    HasVersion
      (record { bits = 0xfff8 })
      v5
      (set_version_threshold_for_routing (record { bits = 0xfff8 }) v5)
version_threshold-set_version_example =
    version_threshold-set_version (record { bits = 0xfff8 }) (omega arith) v5
