-- ===== src/Steering/Membership.antt =====
-- pskc.rs: which digits of the steering data a joiner sets.
use meshcop_rs.Base.{
  ℕ, zero, suc, ◌-◌, ◌*◌, ◌/◌, ◌%◌, ◌^◌, ◌<◌, ◌≡◌, refl, ap, ◌∙◌, true, false, Bool-cases, inl, inr,
  ◌==◌, ◌||◌, if◌then◌else◌, [], ◌∷◌, arith, length, replicate,
}
use meshcop_rs.Base.Bits.{◌<<<◌, bit, bit-suc, bit-bit_or, two-pow-suc}
use meshcop_rs.Base.Bytes.{Bytes, byte_at}
use meshcop_rs.Steering.{
  crc16, or_at, set_bit, compute_bloom_filter, cleared, add_joiner_to_steering_data,
}
use Prim.Native.Nat.{bit_or}

-- The digits of steering data count from the end of its last byte.
pub digit_at : Bytes → ℕ → ℕ
digit_at data' k = bit (byte_at data' (length data' - 1 - k / 8)) (k % 8)

length-or_at : (bs : Bytes) (i v : ℕ) → length (or_at bs i v) ≡ length bs
unfolding or_at
length-or_at [] i v = refl
length-or_at (b ∷ bs) zero v = refl
length-or_at (b ∷ bs) (suc i) v = ap suc (length-or_at bs i v)

byte_at-or_at :
    (bs : Bytes) (i v j : ℕ)
    → i < length bs
    → byte_at (or_at bs i v) j ≡ (if i == j then bit_or (byte_at bs j) v else byte_at bs j)
unfolding or_at byte_at
byte_at-or_at [] i v j h = absurd (omega arith)
byte_at-or_at (b ∷ bs) zero v zero h = refl
byte_at-or_at (b ∷ bs) zero v (suc j) h = ground arith
byte_at-or_at (b ∷ bs) (suc i) v zero h = ground arith
byte_at-or_at (b ∷ bs) (suc i) v (suc j) h = ground (arith, byte_at-or_at bs i v j)

bit-zero : (n : ℕ) → bit 0 n ≡ 0
bit-zero zero = refl
bit-zero (suc n) = bit-suc 0 n ∙ bit-zero n

-- A power of two has one digit.
bit-two-pow : (m n : ℕ) → bit (2 ^ m) n ≡ (if m == n then 1 else 0)
bit-two-pow zero zero = refl
bit-two-pow zero (suc n) = ground (arith, bit-suc 1 n, bit-zero n)
bit-two-pow (suc m) zero = ground (arith, two-pow-suc m)
bit-two-pow (suc m) (suc n) =
    let half : 2 ^ suc m / 2 ≡ 2 ^ m = omega (arith, two-pow-suc m) in
    ground (arith, bit-suc (2 ^ suc m) n, ap (λ (t : ℕ). bit t n) half, bit-two-pow m n)

digit_at-set_bit :
    (out : Bytes) (d k : ℕ)
    → d < length out * 8
    → k < length out * 8
    → digit_at (set_bit out d) k ≡ (if d == k then 1 else digit_at out k)
unfolding set_bit digit_at
digit_at-set_bit out d k h h' =
    let i = length out - 1 - d / 8 in
    let j = length out - 1 - k / 8 in
    let m = d % 8 in
    let n = k % 8 in
    let one : 1 <<< m ≡ 2 ^ m = omega arith in
    let inside : i < length out = omega arith in
    let at_j = byte_at-or_at out i (2 ^ m) j inside in
    let mixed = bit-bit_or n (byte_at out j) (2 ^ m) in
    let single = bit-two-pow m n in
    rw (one, length-or_at out i (2 ^ m), at_j)
      (elim (Bool-cases (i == j)) [
        | inr apart ↦ let ne : (d == k) ≡ false = ground arith in rw (apart, ne) refl
        | inl same ↦ elim (Bool-cases (m == n)) [
          | inl digit ↦
              let eq : (d == k) ≡ true = ground arith in
              let set_digit : bit (2 ^ m) n ≡ 1 = single ∙ rw digit refl in
              rw (same, eq) (omega (arith, mixed, set_digit))
          | inr other ↦
              let ne : (d == k) ≡ false = ground arith in
              let clear : bit (2 ^ m) n ≡ 0 = single ∙ rw other refl in
              rw (same, ne) (omega (arith, mixed, clear))
        ]
      ])

length-set_bit : (out : Bytes) (d : ℕ) → length (set_bit out d) ≡ length out
unfolding set_bit
length-set_bit out d = length-or_at out _ _

length-cleared : (s : Bytes) → length (cleared s) ≡ 16
unfolding cleared
length-cleared s = elim (Bool-cases (length s == 16)) [
  | inl full ↦ rw full (ground arith)
  | inr other ↦ rw other refl
]

cleared_full : (s : Bytes) → length s ≡ 16 → cleared s ≡ s
unfolding cleared
cleared_full s h = let test : (length s == 16) ≡ true = ground arith in rw test refl

-- The two digits of a joiner.
pub ccitt_digit : Bytes → ℕ
ccitt_digit joiner_id = crc16 0x1021 joiner_id % 128

pub ansi_digit : Bytes → ℕ
ansi_digit joiner_id = crc16 0x8005 joiner_id % 128

add_joiner-set_bit :
    (s joiner_id : Bytes)
    → add_joiner_to_steering_data s joiner_id
      ≡ set_bit (set_bit (cleared s) (ccitt_digit joiner_id)) (ansi_digit joiner_id)
unfolding add_joiner_to_steering_data compute_bloom_filter ccitt_digit ansi_digit
add_joiner-set_bit s joiner_id = rw (length-cleared s) refl

digits_small : (joiner_id : Bytes) → (ccitt_digit joiner_id < 128) × (ansi_digit joiner_id < 128)
unfolding ccitt_digit ansi_digit
digits_small joiner_id = (omega arith, omega arith)

digit_at-add_to_cleared :
    (s joiner_id : Bytes)
    → let after = add_joiner_to_steering_data s joiner_id in
      (length after ≡ 16)
      × ((k : ℕ)
          → k < 128
          → digit_at after k ≡ (
              if ccitt_digit joiner_id == k || ansi_digit joiner_id == k
              then 1
              else digit_at (cleared s) k))
digit_at-add_to_cleared s joiner_id =
    let len = length-cleared s in
    let c = ccitt_digit joiner_id in
    let a = ansi_digit joiner_id in
    let first = set_bit (cleared s) c in
    let len' : length first ≡ 16 = length-set_bit (cleared s) c ∙ len in
    let small = digits_small joiner_id in
    rw (add_joiner-set_bit s joiner_id) (
      length-set_bit first a ∙ len',
      λ k below.
          digit_at-set_bit first a k (omega arith) (omega arith)
          ∙ ground (arith, digit_at-set_bit (cleared s) c k (omega arith) (omega arith)),
    )

byte_at-zeros : (n i : ℕ) → byte_at (replicate n 0) i ≡ 0
unfolding byte_at
byte_at-zeros zero i = refl
byte_at-zeros (suc n) zero = refl
byte_at-zeros (suc n) (suc i) = byte_at-zeros n i

digit_at-cleared :
    (s : Bytes) (k : ℕ) → digit_at (cleared s) k ≡ (if length s == 16 then digit_at s k else 0)
unfolding cleared
digit_at-cleared s k = elim (Bool-cases (length s == 16)) [
  | inl full ↦ rw full refl
  | inr other ↦
      let zeros : Bytes = replicate 16 0 in
      unfold digit_at in rw (other, byte_at-zeros 16 (length zeros - 1 - k / 8)) (bit-zero (k % 8))
]

-- Adding a joiner leaves 16 bytes, in which the two digits that its checksums name are set and
-- every other digit is as it was, or 0 where the data did not have 16 bytes.
pub digit_at-add_joiner :
    (s joiner_id : Bytes)
    → let after = add_joiner_to_steering_data s joiner_id in
      (length after ≡ 16)
      × ((k : ℕ)
          → k < 128
          → digit_at after k ≡ (
              if ccitt_digit joiner_id == k || ansi_digit joiner_id == k
              then 1
              else if length s == 16
              then digit_at s k
              else 0))
digit_at-add_joiner s joiner_id =
    let (len, digits) = digit_at-add_to_cleared s joiner_id in
    (len, λ k below. digits k below ∙ ground (arith, digit_at-cleared s k))

-- A device takes itself for a member if both its digits are set.
abbrev pub IsMember : Bytes → Bytes → Type 0
IsMember joiner_id s =
    (digit_at s (ccitt_digit joiner_id) ≡ 1) × (digit_at s (ansi_digit joiner_id) ≡ 1)

-- No joiner is lost: one that was added is a member, and whoever was a member of steering data of
-- 16 bytes stays one when others are added.
pub IsMember-add_joiner :
    (s joiner_id other : Bytes)
    → IsMember joiner_id (add_joiner_to_steering_data s joiner_id)
      × (length s ≡ 16
          → IsMember other s
          → IsMember other (add_joiner_to_steering_data s joiner_id))
IsMember-add_joiner s joiner_id other =
    let (len, digits) = digit_at-add_to_cleared s joiner_id in
    let small = digits_small joiner_id in
    let small' = digits_small other in
    (
      (
        digits (ccitt_digit joiner_id) small.0 ∙ ground arith,
        digits (ansi_digit joiner_id) small.1 ∙ ground arith,
      ),
      λ full member.
          let kept : cleared s ≡ s = cleared_full s full in
          (
            digits (ccitt_digit other) small'.0 ∙ rw kept (ground (arith, member.0)),
            digits (ansi_digit other) small'.1 ∙ rw kept (ground (arith, member.1)),
          ),
    )
