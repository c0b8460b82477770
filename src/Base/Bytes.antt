-- ===== src/Base/Bytes.antt =====
-- Bytes and the big-endian integers of the standard library. A `u8`, `u16`, `u32` or `u64` is a
-- number with a bound; a slice of bytes is a list.
use Prim.Native.Nat.{ℕ, zero, suc, ◌+◌, ◌*◌, ◌/◌, ◌%◌, ◌<◌, bit_or}
use mathlib.Core.Path.{◌≡◌, refl}
use mathlib.Core.Bool.{Bool, true, false, ◌&&◌}
use mathlib.Core.Logic.{inl, inr}
use native.Mathlib.Omega.{arith}
use meshcop_rs.Base.Tests.{◌==◌, ==_refl, Bool-cases}
use mathlib.Core.List.{List, [], ◌∷◌}
use meshcop_rs.Base.Bits.{◌<<<◌, bit_or_disjoint}
use meshcop_rs.Base.Lists.{All}

abbrev pub Bytes : Type 0
Bytes = List ℕ

abbrev pub IsByte : ℕ → Type 0
IsByte b = b < 256

abbrev pub IsU16 : ℕ → Type 0
IsU16 v = v < 0x1_0000

abbrev pub IsU24 : ℕ → Type 0
IsU24 v = v < 0x100_0000

abbrev pub IsBytes : Bytes → Type 0
IsBytes = All IsByte

-- `as u8` keeps the lowest eight digits.
abbrev pub as_u8 : ℕ → ℕ
as_u8 v = v % 256

-- `u16::from_be_bytes` and `u16::to_be_bytes`.
abbrev pub u16_from_be_bytes : ℕ → ℕ → ℕ
u16_from_be_bytes a b = a * 256 + b

abbrev pub u16_to_be_bytes : ℕ → Bytes
u16_to_be_bytes v = as_u8 (v / 256) ∷ as_u8 v ∷ []

-- Two and three bytes joined by shifts and `|`.
pub or_two : (a b : ℕ) → IsByte b → bit_or (a <<< 8) b ≡ a * 256 + b
or_two a b h = bit_or_disjoint 8 a b h

-- The byte at a place, or 0.
unfoldable pub byte_at : Bytes → ℕ → ℕ
byte_at [] i = 0
byte_at (b ∷ bs) zero = b
byte_at (b ∷ bs) (suc i) = byte_at bs i

-- `==` on byte vectors.
unfoldable pub bytes_eq : Bytes → Bytes → Bool
bytes_eq [] [] = true
bytes_eq (a ∷ xs) (b ∷ ys) = a == b && bytes_eq xs ys
bytes_eq _ _ = false

pub bytes_eq-true : (a b : Bytes) → bytes_eq a b ≡ true → a ≡ b
unfolding bytes_eq
bytes_eq-true [] [] e = refl
bytes_eq-true [] (y ∷ b) e = cc
bytes_eq-true (x ∷ a) [] e = cc
bytes_eq-true (x ∷ a) (y ∷ b) e = elim (Bool-cases (bytes_eq a b)) [
  | inl t ↦ ground (arith, bytes_eq-true a b t)
  | inr f ↦ absurd (ground arith)
]

pub bytes_eq_refl : (a : Bytes) → bytes_eq a a ≡ true
unfolding bytes_eq
bytes_eq_refl [] = refl
bytes_eq_refl (x ∷ a) = rw (==_refl x, bytes_eq_refl a) refl
