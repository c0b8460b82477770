-- ===== src/Dtls/Replay/Branches.antt =====
-- `has_seen` and `mark_seen` branch by branch.
use meshcop_rs.Base.{
  ℕ, ◌-◌, ◌%◌, ◌^◌, ◌≤◌, ◌<◌, ◌≡◌, arith, false, ◌||◌, none, some, ltb, leb, ◌==◌, if◌then◌else◌,
}
use meshcop_rs.Base.Bits.{bit, bit_and_mask, ◌<<<◌, ◌>>>◌}
use meshcop_rs.Dtls.Replay.{ReplayWindow, has_seen, mark_seen}
use Prim.Native.Nat.{bit_or}

-- The window whose newest number is `s`.
abbrev pub slid : ℕ → ℕ → ReplayWindow
slid s seen = record { newest_sequence = some s; seen = seen }

pub mark_first : (w : ReplayWindow) (s : ℕ) → w.newest_sequence ≡ none → mark_seen w s ≡ slid s 1
unfolding mark_seen
mark_first w s e = ground arith

-- The branches of `mark_seen` on a window that has a newest number `n`.
module _ (w : ReplayWindow) (n s : ℕ) (known : w.newest_sequence ≡ some n) where
  pub mark_far : n < s → 64 ≤ s - n → mark_seen w s ≡ slid s 1
  unfolding mark_seen
  mark_far lt far = ground arith

  pub mark_near :
      n < s → s - n < 64 → mark_seen w s ≡ slid s (bit_or ((w.seen <<< (s - n)) % 2 ^ 64) 1)
  unfolding mark_seen
  mark_near lt near = ground arith

  pub mark_within :
      s ≤ n → n - s < 64 → mark_seen w s ≡ record w { seen = bit_or w.seen (1 <<< (n - s)) }
  unfolding mark_seen
  mark_within le near = ground arith

  pub mark_too_old : s ≤ n → 64 ≤ n - s → mark_seen w s ≡ w
  unfolding mark_seen
  mark_too_old le far = ground arith

pub has_seen_known :
    (w : ReplayWindow) (n t : ℕ)
    → w.newest_sequence ≡ some n
    → has_seen w t ≡ (if ltb n t then false else (leb 64 (n - t) || (bit w.seen (n - t) == 1)))
unfolding has_seen
has_seen_known w n t e = ground (arith, bit_and_mask 1 (w.seen >>> (n - t)))
