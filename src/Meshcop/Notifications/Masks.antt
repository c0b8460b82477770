-- ===== src/Meshcop/Notifications/Masks.antt =====
-- builders.rs and parsers.rs: the channel mask of a request, in the commissioner's parser of
-- notifications.
use meshcop_rs.Base.{ℕ, ◌<◌, ◌≡◌, ◌≢◌, ap, ◌∙◌, ◌==◌, false, [], ◌∷◌, arith, ok, ◌^◌, ◌/◌, ◌%◌}
use meshcop_rs.Base.Bits.{bit_or_comm, bit_or-zero_fuel}
use meshcop_rs.Base.Bytes.{Bytes, as_u8}
use meshcop_rs.Dataset.ChannelMask.{ChannelMaskEntry, parse_all-encode_all}
use meshcop_rs.Meshcop.Notifications.{mask_of_entry, page_zero_mask, channel_mask_from_value}
use meshcop_rs.Meshcop.Requests.{channel_mask_value}
use meshcop_rs.Wire.{u32_to_be_bytes, u32_from_be_bytes}
use Prim.Native.Nat.{bit_or}

bit_or-zero : (v : ℕ) → bit_or 0 v ≡ v
bit_or-zero v = bit_or_comm 0 v ∙ bit_or-zero_fuel v v (omega arith)

-- A mask of 32 bits that is not zero is put into a Channel Mask value, from which the parser of
-- notifications reads the same mask.
pub channel_mask_from_value-channel_mask_value :
    (mask : ℕ)
    → mask ≢ 0
    → mask < 2 ^ 32
    → (value : Bytes) × (channel_mask_value mask ≡ ok value)
      × (channel_mask_from_value value ≡ ok mask)
unfolding channel_mask_value channel_mask_from_value page_zero_mask mask_of_entry
channel_mask_from_value-channel_mask_value mask nonzero h =
    let entry : ChannelMaskEntry = record { page = 0; mask = u32_to_be_bytes mask } in
    let (value, encoded, parsed) = parse_all-encode_all (entry ∷ []) (omega arith, tt) in
    let four : u32_from_be_bytes (as_u8 (mask / 65536 / 256)) (as_u8 (mask / 65536))
          (as_u8 (mask % 65536 / 256)) (as_u8 (mask % 65536))
        ≡ mask =
      omega arith in
    let test : (mask == 0) ≡ false = ground arith in
    (value, rw test encoded, rw parsed (ap ok (bit_or-zero _ ∙ four)))
