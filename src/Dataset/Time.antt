-- ===== src/Dataset/Time.antt =====
-- dataset.rs, `Timestamp`: 48 bits of seconds, 15 of ticks and one that says authoritative.
use meshcop_rs.Base.{
  ℕ, ◌+◌, ◌*◌, ◌/◌, ◌%◌, ◌^◌, ◌<◌, ◌≡◌, refl, Bool, true, false, ◌==◌, arith, Result, ok, ◌>>=◌,
  map_err,
}
use meshcop_rs.Base.Bits.{◌<<<◌, ◌>>>◌, bit_or_disjoint, bit_and_mask, bit_and_low}
use meshcop_rs.Base.Bytes.{Bytes}
use meshcop_rs.Error.{Error, tlv}
use meshcop_rs.Tlv.Reading
use meshcop_rs.Wire.{u64_to_be_bytes, read_u64-to_be_bytes}
use Prim.Native.Nat.{bit_and, bit_or}

pub record Timestamp : Type 0 where
  pub raw : ℕ

-- `u64::from` of a Boolean.
pub bool_as_u64 : Bool → ℕ
bool_as_u64 true = 1
bool_as_u64 false = 0

pub from_components : ℕ → ℕ → Bool → Timestamp
unfolding bool_as_u64
from_components seconds ticks authoritative = record {
  raw =
      bit_or (bit_or ((seconds <<< 16) % 2 ^ 64) (bit_and ticks 0x7fff <<< 1))
        (bool_as_u64 authoritative);
}

pub parse_timestamp : Bytes → Result Error Timestamp
parse_timestamp value = do raw ← map_err tlv (Reading.read_u64 value); ok (record { raw = raw })

pub seconds : Timestamp → ℕ
seconds t = t.raw >>> 16

pub ticks : Timestamp → ℕ
ticks t = (bit_and t.raw 0xfffe >>> 1) % 2 ^ 16

pub authoritative : Timestamp → Bool
authoritative t = bit_and t.raw 1 == 1

pub to_value : Timestamp → Bytes
to_value t = u64_to_be_bytes t.raw

bool_as_u64_bounded : (a : Bool) → bool_as_u64 a < 2
unfolding bool_as_u64
bool_as_u64_bounded true = omega arith
bool_as_u64_bounded false = omega arith

from_components-raw :
    (s t : ℕ) (a : Bool)
    → s < 2 ^ 48
    → t < 2 ^ 15
    → (from_components s t a).raw ≡ s * 2 ^ 16 + t * 2 + bool_as_u64 a
unfolding from_components
from_components-raw s t a k h =
    let keeps : s * 2 ^ 16 % 2 ^ 64 ≡ s * 2 ^ 16 = omega arith in
    let masked : bit_and t 0x7fff ≡ t = omega (arith, bit_and_mask 15 t) in
    let first : bit_or (s * 2 ^ 16) (t * 2) ≡ s * 2 ^ 16 + t * 2 =
      bit_or_disjoint 16 s (t * 2) (omega arith) in
    let even : s * 2 ^ 16 + t * 2 ≡ (s * 2 ^ 15 + t) * 2 = omega arith in
    let second = bit_or_disjoint 1 (s * 2 ^ 15 + t) (bool_as_u64 a) (bool_as_u64_bounded a) in
    rw (keeps, masked, first, even) second

bool_as_u64-eq : (a : Bool) → (bool_as_u64 a == 1) ≡ a
unfolding bool_as_u64
bool_as_u64-eq true = refl
bool_as_u64-eq false = refl

-- A timestamp of 48 bits of seconds and 15 bits of ticks gives its components back.
pub from_components-components :
    (s t : ℕ) (a : Bool)
    → s < 2 ^ 48
    → t < 2 ^ 15
    → (seconds (from_components s t a) ≡ s)
      × (ticks (from_components s t a) ≡ t)
      × (authoritative (from_components s t a) ≡ a)
unfolding seconds ticks authoritative
from_components-components s t a k h =
    let bit = bool_as_u64_bounded a in
    let r = s * 2 ^ 16 + t * 2 + bool_as_u64 a in
    let half : bit_and r 0xfffe ≡ r / 2 % 2 ^ 15 * 2 =
      omega (arith, bit_and_low r 0xfffe, bit_and_mask 15 (r / 2)) in
    let low : bit_and r 1 ≡ bool_as_u64 a = omega (arith, bit_and_mask 1 r) in
    rw (from_components-raw s t a k h) (omega arith, omega (arith, half), rw low (bool_as_u64-eq a))

-- The eight bytes of a timestamp of 64 bits are parsed back.
pub parse_timestamp-to_value :
    (t : Timestamp) → t.raw < 2 ^ 64 → parse_timestamp (to_value t) ≡ ok t
unfolding parse_timestamp to_value Reading.read_u64
parse_timestamp-to_value t h = rw (read_u64-to_be_bytes t.raw h) refl
