-- ===== src/Steering.antt =====
-- crates/meshcop/src/crypto/pskc.rs: the joiner ID and the steering data, a Bloom filter over two
-- checksums of it. The hash function SHA-256 is a parameter.
pub mod Membership
mod Examples
use meshcop_rs.Base.{
  ℕ, zero, suc, ◌+◌, ◌-◌, ◌*◌, ◌/◌, ◌%◌, ◌^◌, Bool, true, false, not, ◌&&◌, List, [], ◌∷◌, ◌++◌,
  ◌==◌, if◌then◌else◌, length, take, set, replicate, get_elem?, Option, none, some,
}
use meshcop_rs.Base.Bits.{◌<<<◌}
use meshcop_rs.Base.Bytes.{Bytes}
use meshcop_rs.Wire.{u64_to_be_bytes}
use Prim.Native.Nat.{bit_and, bit_or, bit_xor}

abbrev pub max_steering_data_len : ℕ
max_steering_data_len = 16

abbrev pub joiner_id_len : ℕ
joiner_id_len = 8

abbrev pub local_external_addr_mask : ℕ
local_external_addr_mask = 1 <<< 1

-- One of the eight rounds for a byte.
pub crc_round : ℕ → ℕ → ℕ
crc_round poly crc =
    if not (bit_and crc 0x8000 == 0)
    then bit_xor ((crc <<< 1) % 2 ^ 16) poly
    else (crc <<< 1) % 2 ^ 16

pub crc_rounds : ℕ → ℕ → ℕ → ℕ
crc_rounds zero poly crc = crc
crc_rounds (suc n) poly crc = crc_rounds n poly (crc_round poly crc)

pub crc_loop : ℕ → ℕ → Bytes → ℕ
unfolding crc_rounds crc_round
crc_loop poly crc [] = crc
crc_loop poly crc (byte ∷ bytes) =
    crc_loop poly (crc_rounds 8 poly (bit_xor crc (byte <<< 8))) bytes

pub crc16 : ℕ → Bytes → ℕ
unfolding crc_loop
crc16 poly bytes = crc_loop poly 0 bytes

-- `out[i] |= v`, for an index in bounds.
pub or_at : Bytes → ℕ → ℕ → Bytes
or_at [] i v = []
or_at (b ∷ bs) zero v = bit_or b v ∷ bs
or_at (b ∷ bs) (suc i) v = b ∷ or_at bs i v

-- Callers pass a digit below eight times the length, so the subtraction does not wrap.
pub set_bit : Bytes → ℕ → Bytes
set_bit out digit = or_at out (length out - 1 - digit / 8) (1 <<< (digit % 8))

pub compute_bloom_filter : Bytes → Bytes → Bytes
compute_bloom_filter out input =
    let num_bits : ℕ = length out * 8 in
    let ccitt : ℕ = crc16 0x1021 input % num_bits in
    let ansi : ℕ = crc16 0x8005 input % num_bits in set_bit (set_bit out ccitt) ansi

-- `resize` and `fill` give so many zeros.
pub cleared : Bytes → Bytes
cleared steering_data =
    if not (length steering_data == max_steering_data_len)
    then replicate max_steering_data_len 0
    else steering_data

pub add_joiner_to_steering_data : Bytes → Bytes → Bytes
add_joiner_to_steering_data steering_data joiner_id =
    compute_bloom_filter (cleared steering_data) joiner_id

module _ (sha256 : Bytes → Bytes) where
  pub compute_joiner_id : ℕ → Bytes
  compute_joiner_id eui64 =
      or_at (take joiner_id_len (sha256 (u64_to_be_bytes eui64))) 0 local_external_addr_mask
