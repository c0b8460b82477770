-- ===== src/Dtls/Replay/Digits.antt =====
-- What shifting and setting do to the digits of the window's `seen`.
use meshcop_rs.Base.{
  ℕ, zero, suc, ◌-◌, ◌*◌, ◌/◌, ◌%◌, ◌^◌, ◌<◌, ◌≡◌, refl, sym, ◌∙◌, ap, arith, ltb, ◌==◌,
  if◌then◌else◌,
}
use meshcop_rs.Base.Bits.{
  bit, bit-suc, bit_or_low, two-pow-suc, mul-two-pow-suc, mod-two-pow-suc, ◌<<<◌,
}
use Prim.Native.Nat.{bit_or}

pub bit-zero : (i : ℕ) → bit 0 i ≡ 0
bit-zero zero = refl
bit-zero (suc i) = bit-suc 0 i ∙ bit-zero i

pub bit_shifted : (x k i : ℕ) → bit (x <<< k) i ≡ (if ltb i k then 0 else bit x (i - k))
bit_shifted x zero i = ground (arith, ap (λ (t : ℕ). bit t i) (x_one x))
  where
    x_one : (x : ℕ) → x * 1 ≡ x
    x_one x = omega arith
bit_shifted x (suc k) zero = ground (arith, mul-two-pow-suc x k)
bit_shifted x (suc k) (suc i) =
    ground
      (arith, bit-suc (x * 2 ^ suc k) i, ap (λ (t : ℕ). bit t i) (halved x k), bit_shifted x k i)
  where
    halved : (x k : ℕ) → x * 2 ^ suc k / 2 ≡ x * 2 ^ k
    halved x k = omega (arith, mul-two-pow-suc x k)

pub bit_one : (i : ℕ) → bit 1 i ≡ (if i == 0 then 1 else 0)
bit_one zero = refl
bit_one (suc i) = ground (arith, bit-suc 1 i, bit-zero i)

-- `1 << k` has the one digit `k`.
pub bit_one_shifted : (k i : ℕ) → bit (1 <<< k) i ≡ (if k == i then 1 else 0)
bit_one_shifted k i = ground (arith, bit_shifted 1 k i, bit_one (i - k))

-- Dropping the digits from `k` on keeps those below.
pub bit_truncated : (x k i : ℕ) → i < k → bit (x % 2 ^ k) i ≡ bit x i
bit_truncated x zero i h = absurd (omega arith)
bit_truncated x (suc k) zero h = omega (arith, mod-two-pow-suc x k)
bit_truncated x (suc k) (suc i) h =
    bit-suc (x % 2 ^ suc k) i
    ∙ ap (λ (t : ℕ). bit t i) (halved x k)
    ∙ bit_truncated (x / 2) k i (omega arith)
    ∙ sym (bit-suc x i)
  where
    halved : (x k : ℕ) → x % 2 ^ suc k / 2 ≡ x / 2 % 2 ^ k
    halved x k = omega (arith, mod-two-pow-suc x k)

pub bit_or-lt : (k a b : ℕ) → a < 2 ^ k → b < 2 ^ k → bit_or a b < 2 ^ k
bit_or-lt zero a b h g = ground (arith, no_digits a b)
  where
    no_digits : (a b : ℕ) → a < 1 → b < 1 → bit_or a b ≡ 0
    no_digits zero zero h g = refl
    no_digits zero (suc b) h g = absurd (omega arith)
    no_digits (suc a) b h g = absurd (omega arith)
bit_or-lt (suc k) a b h g = omega (
  arith,
  bit_or_low a b,
  two-pow-suc k,
  bit_or-lt k (a / 2) (b / 2) (omega (arith, two-pow-suc k)) (omega (arith, two-pow-suc k)),
)
