-- ===== src/Dtls/Replay.antt =====
-- crates/meshcop-dtls/src/replay.rs: the anti-replay window. Digit `i` of `seen` stands for the
-- sequence number `newest - i`.
pub mod Branches
pub mod Digits
pub mod History
pub mod Marks
mod Examples
use meshcop_rs.Base.{
  ℕ, ◌+◌, ◌-◌, ◌%◌, ◌^◌, Bool, false, ◌||◌, Option, none, some, ltb, leb, ◌==◌, if◌then◌else◌,
}
use meshcop_rs.Base.Bits.{◌<<<◌, ◌>>>◌}
use Prim.Native.Nat.{bit_and, bit_or}

-- `u64::BITS`
abbrev pub width : ℕ
width = 64

pub record ReplayWindow : Type 0 where
  pub newest_sequence : Option ℕ
  pub seen : ℕ

pub new : ReplayWindow
new = record { newest_sequence = none; seen = 0 }

pub has_seen : ReplayWindow → ℕ → Bool
has_seen w sequence = elim w.newest_sequence [
  | none ↦ false
  | some newest ↦
      let offset = newest - sequence in
      if ltb newest sequence
      then false
      else leb width offset || (bit_and (w.seen >>> offset) 1 == 1)
]

-- `<<` on a `u64` drops the digits from 64 on; `1 << offset` has an offset below 64.
pub mark_seen : ReplayWindow → ℕ → ReplayWindow
mark_seen w sequence = elim w.newest_sequence [
  | none ↦ record { newest_sequence = some sequence; seen = 1 }
  | some newest ↦
      let shift = sequence - newest in
      let offset = newest - sequence in
      if ltb newest sequence
      then record {
        newest_sequence = some sequence;
        seen = if leb width shift then 1 else bit_or ((w.seen <<< shift) % 2 ^ 64) 1;
      }
      else if ltb offset width
      then record w { seen = bit_or w.seen (1 <<< offset) }
      else w
]
