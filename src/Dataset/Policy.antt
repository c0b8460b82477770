-- ===== src/Dataset/Policy.antt =====
-- dataset.rs, `SecurityPolicy` and its flags, whose bits 13 to 15 are a protocol version; a set
-- legacy-routers flag stands for the versions 1 and 2 in their place.
use meshcop_rs.Base.{
  ℕ, ◌+◌, ◌-◌, ◌*◌, ◌/◌, ◌%◌, ◌^◌, ◌<◌, ◌≡◌, ◌≢◌, refl, Bool, true, false, ◌==◌, [], ◌∷◌, ◌++◌,
  arith, Result, ok, err, if◌then◌else◌,
}
use meshcop_rs.Base.Bits.{
  ◌<<<◌, ◌>>>◌, bit_or_disjoint, bit_and_mask, bit_and_low, bit_or_low, bit_and_shifted,
  bit_or-zero_fuel, bit_or_comm,
}
use meshcop_rs.Base.Bytes.{Bytes, IsU16, u16_from_be_bytes, u16_to_be_bytes}
use meshcop_rs.Error.{Error, dataset}
use Prim.Native.Nat.{bit_and, bit_or}

-- The newtype that `impl_bitflag_newtype!` (crates/meshcop/src/flags.rs) declares.
pub record SecurityPolicyFlags : Type 0 where
  pub bits : ℕ

pub record SecurityPolicy : Type 0 where
  pub rotation_time : ℕ
  pub flags : SecurityPolicyFlags

pub parse_policy : Bytes → Result Error SecurityPolicy
parse_policy (a ∷ b ∷ c ∷ d ∷ []) = ok (record {
  rotation_time = u16_from_be_bytes a b;
  flags = record { bits = u16_from_be_bytes c d };
})
parse_policy _ = err (dataset "security policy TLV must be 4 bytes")

pub policy_to_value : SecurityPolicy → Bytes
policy_to_value p = u16_to_be_bytes p.rotation_time ++ u16_to_be_bytes p.flags.bits

abbrev pub legacy_routers_enabled : ℕ
legacy_routers_enabled = 0x0004

abbrev pub version_threshold_mask : ℕ
version_threshold_mask = 0xe000

pub contains : SecurityPolicyFlags → ℕ → Bool
contains flags mask = bit_and flags.bits mask == mask

pub data ThreadProtocolVersion : Type 0 where
  v1_or_2 v3 v4 v5 v6 v7 v8 v9 v10 : ThreadProtocolVersion

pub from_bits : ℕ → ThreadProtocolVersion
from_bits bits =
    let low = bit_and bits 0x07 in
    if low == 0
    then v3
    else if low == 1
    then v4
    else if low == 2
    then v5
    else if low == 3
    then v6
    else if low == 4
    then v7
    else if low == 5
    then v8
    else if low == 6
    then v9
    else v10

pub to_bits : ThreadProtocolVersion → ℕ
to_bits v1_or_2 = 7
to_bits v10 = 7
to_bits v3 = 0
to_bits v4 = 1
to_bits v5 = 2
to_bits v6 = 3
to_bits v7 = 4
to_bits v8 = 5
to_bits v9 = 6

pub version_threshold_for_routing : SecurityPolicyFlags → ThreadProtocolVersion
unfolding contains
version_threshold_for_routing flags =
    if contains flags legacy_routers_enabled
    then v1_or_2
    else from_bits (bit_and flags.bits version_threshold_mask >>> 13)

-- `!x` on a u16.
abbrev complement : ℕ → ℕ
complement x = 0xffff - x

pub with_version : SecurityPolicyFlags → ThreadProtocolVersion → SecurityPolicyFlags
with_version flags version =
    let unlegacy = bit_and flags.bits (complement legacy_routers_enabled) in
    let cleared = bit_and unlegacy (complement version_threshold_mask) in
    record { bits = bit_or cleared ((to_bits version <<< 13) % 2 ^ 16) }

pub set_version_threshold_for_routing :
    SecurityPolicyFlags → ThreadProtocolVersion → SecurityPolicyFlags
set_version_threshold_for_routing flags v1_or_2 = record {
  bits = bit_or flags.bits legacy_routers_enabled;
}
set_version_threshold_for_routing flags version = with_version flags version

-- The legacy-routers flag, and a number without it.
bit_and-legacy : (f : ℕ) → bit_and f 0x0004 ≡ f / 4 % 2 * 4
bit_and-legacy f = omega (arith, bit_and_low f 4, bit_and_low (f / 2) 2, bit_and_mask 1 (f / 2 / 2))

bit_and-unlegacy : (f : ℕ) → IsU16 f → bit_and f 0xfffb ≡ f / 8 * 8 + f % 4
bit_and-unlegacy f h = omega (
  arith,
  bit_and_low f 0xfffb,
  bit_and_low (f / 2) 0x7ffd,
  bit_and_low (f / 2 / 2) 0x3ffe,
  bit_and_mask 13 (f / 2 / 2 / 2),
)

bit_and-threshold : (f : ℕ) → IsU16 f → bit_and f 0xe000 ≡ f / 2 ^ 13 * 2 ^ 13
bit_and-threshold f h = omega (arith, bit_and_shifted 13 f 7, bit_and_mask 3 (f / 2 ^ 13))

to_bits_bounded : (v : ThreadProtocolVersion) → to_bits v < 8
unfolding to_bits
to_bits_bounded v1_or_2 = omega arith
to_bits_bounded _ = omega arith

from_bits-to_bits : (v : ThreadProtocolVersion) → v ≢ v1_or_2 → from_bits (to_bits v) ≡ v
unfolding from_bits to_bits
from_bits-to_bits v1_or_2 h = absurd (h refl)
from_bits-to_bits _ h = refl

-- The flags after a version was written into their upper digits.
with_version-bits :
    (flags : SecurityPolicyFlags) (v : ThreadProtocolVersion)
    → IsU16 flags.bits
    → (with_version flags v).bits
      ≡ to_bits v * 2 ^ 13 + (flags.bits / 8 * 8 + flags.bits % 4) % 2 ^ 13
unfolding with_version
with_version-bits flags v h =
    let unlegacy = bit_and-unlegacy flags.bits h in
    let cleared = bit_and_mask 13 (flags.bits / 8 * 8 + flags.bits % 4) in
    let fits : to_bits v * 2 ^ 13 % 2 ^ 16 ≡ to_bits v * 2 ^ 13 =
      omega (arith, to_bits_bounded v) in
    let low = (flags.bits / 8 * 8 + flags.bits % 4) % 2 ^ 13 in
    rw (unlegacy, cleared, fits, bit_or_comm low (to_bits v * 2 ^ 13))
      (bit_or_disjoint 13 (to_bits v) low (omega arith))

-- What the flags are after a version was set, bit 2 being that of the legacy routers.
abbrev pub HasVersion : SecurityPolicyFlags → ThreadProtocolVersion → SecurityPolicyFlags → Type 0
HasVersion flags v after =
    (version_threshold_for_routing after ≡ v)
    × (after.bits % 4 ≡ flags.bits % 4)
    × (after.bits / 8 % 2 ^ 10 ≡ flags.bits / 8 % 2 ^ 10)
    × IsU16 after.bits

module _ (flags : SecurityPolicyFlags) (h : IsU16 flags.bits) where
  with_version-HasVersion :
      (v : ThreadProtocolVersion) → v ≢ v1_or_2 → HasVersion flags v (with_version flags v)
  unfolding version_threshold_for_routing
  with_version-HasVersion v ne =
      let small = to_bits_bounded v in
      let bits : (with_version flags v).bits
          ≡ to_bits v * 2 ^ 13 + (flags.bits / 8 * 8 + flags.bits % 4) % 2 ^ 13 =
        with_version-bits flags v h in
      let fits : IsU16 (with_version flags v).bits = omega arith in
      let modern : (bit_and (with_version flags v).bits 4 == 4) ≡ false =
        ground (arith, bit_and-legacy (with_version flags v).bits) in
      let high : bit_and (with_version flags v).bits 0xe000 / 2 ^ 13 ≡ to_bits v =
        omega (arith, bit_and-threshold (with_version flags v).bits fits) in
      (rw (modern, high) (from_bits-to_bits v ne), omega arith, omega arith, fits)

  legacy-HasVersion : HasVersion flags v1_or_2 (record { bits = bit_or flags.bits 0x0004 })
  unfolding version_threshold_for_routing
  legacy-HasVersion =
      let f = flags.bits in
      let bits : bit_or f 4 ≡ f / 8 * 8 + 4 + f % 4 = omega (
        arith,
        bit_or_low f 4,
        bit_or_low (f / 2) 2,
        bit_or_low (f / 2 / 2) 1,
        bit_or-zero_fuel (f / 2 / 2 / 2) (f / 2 / 2 / 2),
      ) in
      let legacy : (bit_and (bit_or f 4) 4 == 4) ≡ true =
        ground (arith, bit_and-legacy (bit_or f 4)) in
      (rw legacy refl, omega arith, omega arith, omega arith)

  -- For flags of 16 bits and every version, the version that was set is the version that is read,
  -- the bits 0, 1 and 3 to 12 keep their values, and the flags stay within 16 bits.
  pub version_threshold-set_version :
      (v : ThreadProtocolVersion) → HasVersion flags v (set_version_threshold_for_routing flags v)
  unfolding set_version_threshold_for_routing
  version_threshold-set_version v1_or_2 = legacy-HasVersion
  version_threshold-set_version v3 = with_version-HasVersion v3 (λ e. cc)
  version_threshold-set_version v4 = with_version-HasVersion v4 (λ e. cc)
  version_threshold-set_version v5 = with_version-HasVersion v5 (λ e. cc)
  version_threshold-set_version v6 = with_version-HasVersion v6 (λ e. cc)
  version_threshold-set_version v7 = with_version-HasVersion v7 (λ e. cc)
  version_threshold-set_version v8 = with_version-HasVersion v8 (λ e. cc)
  version_threshold-set_version v9 = with_version-HasVersion v9 (λ e. cc)
  version_threshold-set_version v10 = with_version-HasVersion v10 (λ e. cc)

pub parse_policy-policy_to_value :
    (p : SecurityPolicy)
    → IsU16 p.rotation_time
    → IsU16 p.flags.bits
    → parse_policy (policy_to_value p) ≡ ok p
unfolding parse_policy policy_to_value
parse_policy-policy_to_value p h k = ground arith
