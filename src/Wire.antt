-- ===== src/Wire.antt =====
-- crates/meshcop/src/wire.rs: the readers of integers of a fixed width.
use meshcop_rs.Base.{
  ◌/◌, ◌%◌, ◌^◌, ◌<◌, ◌≡◌, ◌++◌, arith, ap, ℕ, ◌+◌, ◌*◌, Option, none, some, [], ◌∷◌,
}
use meshcop_rs.Base.Bytes.{Bytes, u16_from_be_bytes, u16_to_be_bytes}

-- `u32::from_be_bytes` and `u64::from_be_bytes`.
abbrev pub u32_from_be_bytes : ℕ → ℕ → ℕ → ℕ → ℕ
u32_from_be_bytes a b c d = u16_from_be_bytes a b * 0x1_0000 + u16_from_be_bytes c d

abbrev pub u64_from_be_bytes : ℕ → ℕ → ℕ → ℕ → ℕ → ℕ → ℕ → ℕ → ℕ
u64_from_be_bytes a b c d e f g h =
    u32_from_be_bytes a b c d * 0x1_0000_0000 + u32_from_be_bytes e f g h

unfoldable pub read_u16 : Bytes → Option ℕ
read_u16 (a ∷ b ∷ []) = some (u16_from_be_bytes a b)
read_u16 _ = none

unfoldable pub read_u32 : Bytes → Option ℕ
read_u32 (a ∷ b ∷ c ∷ d ∷ []) = some (u32_from_be_bytes a b c d)
read_u32 _ = none

unfoldable pub read_u64 : Bytes → Option ℕ
read_u64 (a ∷ b ∷ c ∷ d ∷ e ∷ f ∷ g ∷ h ∷ []) = some (u64_from_be_bytes a b c d e f g h)
read_u64 _ = none

-- `u32::to_be_bytes` and `u64::to_be_bytes`.
abbrev pub u32_to_be_bytes : ℕ → Bytes
u32_to_be_bytes v = u16_to_be_bytes (v / 0x1_0000) ++ u16_to_be_bytes (v % 0x1_0000)

abbrev pub u64_to_be_bytes : ℕ → Bytes
u64_to_be_bytes v = u32_to_be_bytes (v / 0x1_0000_0000) ++ u32_to_be_bytes (v % 0x1_0000_0000)

pub read_u16-to_be_bytes : (v : ℕ) → v < 2 ^ 16 → read_u16 (u16_to_be_bytes v) ≡ some v
unfolding read_u16
read_u16-to_be_bytes v h = let e : v / 256 % 256 * 256 + v % 256 ≡ v = omega arith in ap some e

pub read_u32-to_be_bytes : (v : ℕ) → v < 2 ^ 32 → read_u32 (u32_to_be_bytes v) ≡ some v
unfolding read_u32
read_u32-to_be_bytes v h = ap some (omega arith)

pub read_u64-to_be_bytes : (v : ℕ) → v < 2 ^ 64 → read_u64 (u64_to_be_bytes v) ≡ some v
unfolding read_u64
read_u64-to_be_bytes v h = ap some (omega arith)
