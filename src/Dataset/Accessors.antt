-- ===== src/Dataset/Accessors.antt =====
-- dataset.rs: what the accessors read after a value was set and the dataset went over the wire.
use meshcop_rs.Base.{
  ℕ, ◌<◌, ◌^◌, ◌≡◌, refl, some, List, arith, length, All, ok, ◌==◌, if◌then◌else◌,
}
use meshcop_rs.Base.Bytes.{Bytes, IsU16}
use meshcop_rs.Tlv.{set_last}
use meshcop_rs.Tlv.RoundTrip.{Fits, parse-encode}
use meshcop_rs.Tlv.Values.{last_value-set_last, set_last-Fits, push-retain_ne}
use meshcop_rs.Dataset.Time.{Timestamp, to_value, parse_timestamp-to_value}
use meshcop_rs.Dataset.Policy.{SecurityPolicy, policy_to_value, parse_policy-policy_to_value}
use meshcop_rs.Dataset.ChannelMask.{
  ChannelMaskEntry, HasEncoding, encode_all, parse_all, parse_all-encode_all,
}
use meshcop_rs.Dataset.{
  OperationalDataset, from_bytes, to_bytes, raw, set_raw, Channel, parse_channel, channel_to_value,
  channel, active_timestamp, pending_timestamp, security_policy, channel_mask, tlv_channel,
  tlv_active_timestamp, tlv_pending_timestamp, tlv_security_policy, tlv_channel_mask,
}

raw-set_raw_self :
    (d : OperationalDataset) (ty : ℕ) (value : Bytes) → raw (set_raw d ty value) ty ≡ some value
unfolding raw set_raw
raw-set_raw_self d ty value =
    rw (push-retain_ne d.tlvs ty value) (ground (arith, last_value-set_last d.tlvs ty value ty))

-- A dataset whose values have at most 65535 bytes, with a further value of such a length set, goes
-- over the wire: the bytes are parsed, the type has the new value and every other type its old one.
pub raw-set_raw :
    (d : OperationalDataset) (ty : ℕ) (value : Bytes)
    → All Fits d.tlvs.entries
    → length value < 0x1_0000
    → (bytes : Bytes) × (after : OperationalDataset) × (to_bytes (set_raw d ty value) ≡ ok bytes)
      × (from_bytes bytes ≡ ok after)
      × ((other : ℕ) → raw after other ≡ (if ty == other then some value else raw d other))
unfolding to_bytes from_bytes set_raw raw
raw-set_raw d ty value fit short =
    let fits = set_last-Fits d.tlvs ty value short fit in
    let (bytes, encoded, parsed) = parse-encode (set_last d.tlvs ty value) fits in
    (
      bytes,
      record { tlvs = set_last d.tlvs ty value },
      rw (push-retain_ne d.tlvs ty value, encoded) refl,
      rw parsed refl,
      λ other. last_value-set_last d.tlvs ty value other,
    )

parse_channel-channel_to_value :
    (c : Channel) → IsU16 c.channel → parse_channel (channel_to_value c) ≡ ok c
unfolding parse_channel channel_to_value
parse_channel-channel_to_value c h = ground arith

-- What was set in the form that `to_value` gives is read back by the accessor of its type: the
-- channel, the active and the pending timestamp, the security policy and the channel mask, for
-- values within their widths.
pub accessors-to_value :
    (d : OperationalDataset) (c : Channel) (t : Timestamp) (p : SecurityPolicy)
    (m : List ChannelMaskEntry) (mask : Bytes)
    → IsU16 c.channel
    → t.raw < 2 ^ 64
    → IsU16 p.rotation_time
    → IsU16 p.flags.bits
    → All HasEncoding m
    → encode_all m ≡ ok mask
    → (channel (set_raw d tlv_channel (channel_to_value c)) ≡ ok (some c))
      × (active_timestamp (set_raw d tlv_active_timestamp (to_value t)) ≡ ok (some t))
      × (pending_timestamp (set_raw d tlv_pending_timestamp (to_value t)) ≡ ok (some t))
      × (security_policy (set_raw d tlv_security_policy (policy_to_value p)) ≡ ok (some p))
      × (channel_mask (set_raw d tlv_channel_mask mask) ≡ ok (some m))
unfolding channel active_timestamp pending_timestamp security_policy channel_mask
accessors-to_value d c t p m mask hc ht hr hp hm e =
    let mask_back : parse_all mask ≡ ok m =
      let (value, encoded, parsed) = parse_all-encode_all m hm in
      let same : mask ≡ value = ground arith in rw same parsed in
    (
      rw (raw-set_raw_self d tlv_channel (channel_to_value c), parse_channel-channel_to_value c hc)
          refl,
      rw (raw-set_raw_self d tlv_active_timestamp (to_value t), parse_timestamp-to_value t ht) refl,
      rw (raw-set_raw_self d tlv_pending_timestamp (to_value t), parse_timestamp-to_value t ht)
          refl,
      rw
          (
            raw-set_raw_self d tlv_security_policy (policy_to_value p),
            parse_policy-policy_to_value p hr hp,
          )
          refl,
      rw (raw-set_raw_self d tlv_channel_mask mask, mask_back) refl,
    )
