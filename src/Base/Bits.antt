-- ===== src/Base/Bits.antt =====
-- The digits of `|`, `&`, `<<` and `>>` as the wire codecs and the replay window use them.
-- `bit x i` is the digit of weight `2 ^ i`.
use Prim.Native.Nat.{
  ℕ, zero, suc, ◌+◌, ◌-◌, ◌*◌, ◌/◌, ◌%◌, ◌^◌, ◌≤◌, ◌<◌, min, max, bit_and, bit_or, digits,
  bit_and-bitwise, bit_or-bitwise,
}
use mathlib.Core.Path.{◌≡◌, refl, ap}
use native.Mathlib.Nat.{pow-suc, div-div-eq-div-mul, div-add-mod, one-le-pow}
use native.Mathlib.Omega.{arith}

infixl 75 ◌<<<◌ ◌>>>◌
abbrev pub ◌<<<◌ : ℕ → ℕ → ℕ
x <<< k = x * 2 ^ k

abbrev pub ◌>>>◌ : ℕ → ℕ → ℕ
x >>> k = x / 2 ^ k

module _ (end : ℕ → ℕ) (op : ℕ → ℕ → ℕ) where
  -- A number has at most as many binary digits as its value, so more fuel changes nothing.
  enough : (k l a b : ℕ) → a ≤ k → a ≤ l → digits end op k a b ≡ digits end op l a b
  enough zero zero zero b p q = refl
  enough zero (suc l) zero b p q = refl
  enough (suc k) zero zero b p q = refl
  enough (suc k) (suc l) zero b p q = refl
  enough zero l (suc a) b p q = absurd (omega arith)
  enough (suc k) zero (suc a) b p q = absurd (omega arith)
  enough (suc k) (suc l) (suc a) b p q =
      ap (λ (t : ℕ). t * 2 + op (suc a % 2) (b % 2))
        (enough k l (suc a / 2) (b / 2) (omega arith) (omega arith))

-- The lowest digit, and the digits above it.
pub bit_or_low : (a b : ℕ) → bit_or a b ≡ bit_or (a / 2) (b / 2) * 2 + max (a % 2) (b % 2)
bit_or_low zero b = omega (arith, bit_or-bitwise 0 b, bit_or-bitwise 0 (b / 2))
bit_or_low (suc a) b = omega (
  arith,
  bit_or-bitwise (suc a) b,
  bit_or-bitwise (suc a / 2) (b / 2),
  enough (λ y. y) max a (suc a / 2) (suc a / 2) (b / 2) (omega arith) (omega arith),
)

pub bit_and_low : (a b : ℕ) → bit_and a b ≡ bit_and (a / 2) (b / 2) * 2 + min (a % 2) (b % 2)
bit_and_low zero b = omega (arith, bit_and-bitwise 0 b, bit_and-bitwise 0 (b / 2))
bit_and_low (suc a) b = omega (
  arith,
  bit_and-bitwise (suc a) b,
  bit_and-bitwise (suc a / 2) (b / 2),
  enough (λ y. 0) min a (suc a / 2) (suc a / 2) (b / 2) (omega arith) (omega arith),
)

abbrev pub bit : ℕ → ℕ → ℕ
bit x i = x / 2 ^ i % 2

pub bit-suc : (x i : ℕ) → bit x (suc i) ≡ bit (x / 2) i
bit-suc x i =
    omega (arith, div-div-eq-div-mul x 2 (2 ^ i), pow-suc 2 i, ap (λ (t : ℕ). x / t) (two-pow i))
  where
    two-pow : (i : ℕ) → 2 ^ suc i ≡ 2 * 2 ^ i
    two-pow i = omega (arith, pow-suc 2 i)

-- `|` works on each digit alone.
pub bit-bit_or : (i a b : ℕ) → bit (bit_or a b) i ≡ max (bit a i) (bit b i)
bit-bit_or zero a b = omega (arith, bit_or_low a b)
bit-bit_or (suc i) a b = omega (
  arith,
  bit-suc (bit_or a b) i,
  bit-suc a i,
  bit-suc b i,
  bit-bit_or i (a / 2) (b / 2),
  ap (λ (t : ℕ). bit t i) (halves a b),
)
  where
    halves : (a b : ℕ) → bit_or a b / 2 ≡ bit_or (a / 2) (b / 2)
    halves a b = omega (arith, bit_or_low a b)

pub bit_or-zero_fuel : (k a : ℕ) → a ≤ k → bit_or a 0 ≡ a
bit_or-zero_fuel k zero h = refl
bit_or-zero_fuel zero (suc a) h = absurd (omega arith)
bit_or-zero_fuel (suc k) (suc a) h =
    omega (arith, bit_or_low (suc a) 0, bit_or-zero_fuel k (suc a / 2) (omega arith))

bit_and-zero_fuel : (k a : ℕ) → a ≤ k → bit_and a 0 ≡ 0
bit_and-zero_fuel k zero h = refl
bit_and-zero_fuel zero (suc a) h = absurd (omega arith)
bit_and-zero_fuel (suc k) (suc a) h =
    omega (arith, bit_and_low (suc a) 0, bit_and-zero_fuel k (suc a / 2) (omega arith))

pub two-pow-suc : (k : ℕ) → 2 ^ suc k ≡ 2 * 2 ^ k
two-pow-suc k = omega (arith, pow-suc 2 k)

pub mul-two-pow-suc : (q k : ℕ) → q * 2 ^ suc k ≡ q * 2 ^ k * 2
mul-two-pow-suc q k = rw (two-pow-suc k) (omega arith)

-- `(q << k) | r` is a sum where `r` has at most `k` digits.
pub bit_or_disjoint : (k q r : ℕ) → r < 2 ^ k → bit_or (q <<< k) r ≡ q * 2 ^ k + r
bit_or_disjoint zero q r h = ground (arith, bit_or-zero_fuel q q)
bit_or_disjoint (suc k) q r h = ground (
  arith,
  bit_or_low (q * 2 ^ suc k) r,
  mul-two-pow-suc q k,
  two-pow-suc k,
  bit_or_disjoint k q (r / 2),
)

pub mod-two-pow-suc : (x k : ℕ) → x % 2 ^ suc k ≡ x / 2 % 2 ^ k * 2 + x % 2
mod-two-pow-suc x k = rw (two-pow-suc k) (
    omega (
      arith,
      div-add-mod x (2 * 2 ^ k),
      div-add-mod (x / 2) (2 ^ k),
      ap (λ (t : ℕ). 2 ^ k * t) (div-div-eq-div-mul x 2 (2 ^ k)),
    ))

-- `x & (2 ^ k - 1)` is the remainder by `2 ^ k`.
pub bit_and_mask : (k x : ℕ) → bit_and x (2 ^ k - 1) ≡ x % 2 ^ k
bit_and_mask zero x = omega (arith, bit_and-zero_fuel x x (omega arith))
bit_and_mask (suc k) x = omega (
  arith,
  bit_and_low x (2 ^ suc k - 1),
  mod-two-pow-suc x k,
  bit_and_mask k (x / 2),
  two-pow-suc k,
  one-le-pow k 2,
  ap (λ (t : ℕ). bit_and (x / 2) t) (halved k),
)
  where
    halved : (k : ℕ) → (2 ^ suc k - 1) / 2 ≡ 2 ^ k - 1
    halved k = omega (arith, two-pow-suc k, one-le-pow k 2)

-- A mask with `k` zeros at its end works on the digits above them.
pub bit_and_shifted : (k x c : ℕ) → bit_and x (c * 2 ^ k) ≡ bit_and (x / 2 ^ k) c * 2 ^ k
bit_and_shifted zero x c =
    let e : c * 2 ^ 0 ≡ c = omega arith in
    let f : x / 2 ^ 0 ≡ x = omega arith in rw (e, f) (omega arith)
bit_and_shifted (suc k) x c =
    let half : c * 2 ^ suc k / 2 ≡ c * 2 ^ k = omega (arith, mul-two-pow-suc c k) in
    let even : c * 2 ^ suc k % 2 ≡ 0 = omega (arith, mul-two-pow-suc c k) in
    let above : x / 2 / 2 ^ k ≡ x / 2 ^ suc k =
      omega (arith, div-div-eq-div-mul x 2 (2 ^ k), ap (λ (t : ℕ). x / t) (two-pow-suc k)) in
    omega (
      arith,
      bit_and_low x (c * 2 ^ suc k),
      ap (λ (t : ℕ). bit_and (x / 2) t) half,
      bit_and_shifted k (x / 2) c,
      ap (λ (t : ℕ). bit_and t c * 2 ^ k) above,
      mul-two-pow-suc (bit_and (x / 2 ^ suc k) c) k,
    )

bit_or_comm_fuel : (k a b : ℕ) → a ≤ k → bit_or a b ≡ bit_or b a
bit_or_comm_fuel k zero b h = omega (arith, bit_or-zero_fuel b b, bit_or-bitwise 0 b)
bit_or_comm_fuel zero (suc a) b h = absurd (omega arith)
bit_or_comm_fuel (suc k) (suc a) b h = omega (
  arith,
  bit_or_low (suc a) b,
  bit_or_low b (suc a),
  bit_or_comm_fuel k (suc a / 2) (b / 2) (omega arith),
)

pub bit_or_comm : (a b : ℕ) → bit_or a b ≡ bit_or b a
bit_or_comm a b = bit_or_comm_fuel a a b (omega arith)
