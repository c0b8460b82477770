-- ===== src/Steering/Examples.antt =====
-- Runs of pskc.rs on the vectors of its unit tests, and the theorems at concrete inputs.
use meshcop_rs.Base.{ℕ, ◌<◌, ◌≡◌, replicate, refl, [], ◌∷◌, length, ◌==◌, ◌||◌, if◌then◌else◌}
use meshcop_rs.Base.Bytes.{Bytes}
use meshcop_rs.Steering.{
  crc16, add_joiner_to_steering_data, compute_bloom_filter, cleared, set_bit, or_at,
  compute_joiner_id,
}
use meshcop_rs.Steering.Membership.{
  digit_at, ccitt_digit, ansi_digit, IsMember, digit_at-add_joiner, IsMember-add_joiner,
}

abbrev joiner : Bytes
joiner = 0xd6 ∷ 0x5e ∷ 0x64 ∷ 0xfa ∷ 0x83 ∷ 0xf8 ∷ 0x1c ∷ 0xf7 ∷ []

abbrev other_joiner : Bytes
other_joiner = 1 ∷ 2 ∷ 3 ∷ 4 ∷ 5 ∷ 6 ∷ 7 ∷ 8 ∷ []

abbrev check : Bytes
check = 0x31 ∷ 0x32 ∷ 0x33 ∷ 0x34 ∷ 0x35 ∷ 0x36 ∷ 0x37 ∷ 0x38 ∷ 0x39 ∷ []

xmodem : crc16 0x1021 check ≡ 0x31c3
unfolding crc16
xmodem = refl

buypass : crc16 0x8005 check ≡ 0xfee8
unfolding crc16
buypass = refl

filter_of_joiner :
    add_joiner_to_steering_data [] joiner
    ≡ 0 ∷ 0 ∷ 0 ∷ 0 ∷ 0 ∷ 0 ∷ 0 ∷ 0 ∷ 0 ∷ 0 ∷ 0 ∷ 0 ∷ 0 ∷ 0 ∷ 0 ∷ 0x12 ∷ []
unfolding add_joiner_to_steering_data compute_bloom_filter cleared crc16 set_bit or_at
filter_of_joiner = refl

local_digit_set :
    compute_joiner_id (λ _. 0xd1 ∷ 0xa5 ∷ 0xf9 ∷ 0x98 ∷ 0xfa ∷ 0x6e ∷ 0xd8 ∷ 0x2d ∷ 0 ∷ []) 7
    ≡ 0xd3 ∷ 0xa5 ∷ 0xf9 ∷ 0x98 ∷ 0xfa ∷ 0x6e ∷ 0xd8 ∷ 0x2d ∷ []
unfolding compute_joiner_id or_at
local_digit_set = refl

-- Steering data that admits everybody.
abbrev everybody : Bytes
everybody = replicate 16 0xff

digit_at-add_joiner_example :
    (length (add_joiner_to_steering_data everybody joiner) ≡ 16)
    × ((k : ℕ)
        → k < 128
        → digit_at (add_joiner_to_steering_data everybody joiner) k ≡ (
            if ccitt_digit joiner == k || ansi_digit joiner == k
            then 1
            else if length everybody == 16
            then digit_at everybody k
            else 0))
digit_at-add_joiner_example = digit_at-add_joiner everybody joiner

IsMember-add_joiner_example :
    IsMember joiner (add_joiner_to_steering_data [] joiner)
    × (length {A = ℕ} [] ≡ 16
        → IsMember other_joiner []
        → IsMember other_joiner (add_joiner_to_steering_data [] joiner))
IsMember-add_joiner_example = IsMember-add_joiner [] joiner other_joiner
