-- ===== src/Dtls/Replay/Marks.antt =====
-- One mark on any window, whatever its history.
use meshcop_rs.Base.{
  ℕ, ◌-◌, ◌%◌, ◌^◌, ◌≤◌, ◌<◌, ◌≡◌, refl, ap, arith, true, false, ◌||◌, some, ltb, leb, ◌==◌,
  if◌then◌else◌, Option-cases, inl, inr,
}
use meshcop_rs.Base.Bits.{bit, bit-bit_or, ◌<<<◌}
use meshcop_rs.Dtls.Replay.{ReplayWindow, has_seen, mark_seen}
use meshcop_rs.Dtls.Replay.Branches.{
  slid, mark_first, mark_far, mark_near, mark_within, mark_too_old, has_seen_known,
}
use meshcop_rs.Dtls.Replay.Digits.{bit_shifted, bit_one_shifted, bit_truncated}
use native.Mathlib.Decide.{dec_lt}
use Prim.Native.Nat.{bit_or}

-- `seen` after the window slid by less than its width.
abbrev near_seen : ReplayWindow → ℕ → ℕ → ℕ
near_seen w n s = bit_or ((w.seen <<< (s - n)) % 2 ^ 64) 1

abbrev filled : ReplayWindow → ℕ → ℕ → ReplayWindow
filled w n s = record w { seen = bit_or w.seen (1 <<< (n - s)) }

-- A number that was just marked is seen, whatever the window held.
pub has_seen-mark_seen_self : (w : ReplayWindow) (s : ℕ) → has_seen (mark_seen w s) s ≡ true
has_seen-mark_seen_self w s = elim (Option-cases w.newest_sequence) [
  | inl e ↦ rw (mark_first w s e) (rw (has_seen_known (slid s 1) s s refl) (ground arith))
  | inr (n, e) ↦ elim (dec_lt n s) [
    | yes lt ↦ elim (dec_lt (s - n) 64) [
      | yes near ↦ rw (mark_near w n s e lt near) (
          rw (has_seen_known (slid s (near_seen w n s)) s s refl)
            (ground (arith, bit-bit_or (s - s) ((w.seen <<< (s - n)) % 2 ^ 64) 1)))
      | no far ↦
          rw (mark_far w n s e lt (omega arith))
            (rw (has_seen_known (slid s 1) s s refl) (ground arith))
    ]
    | no ge ↦ elim (dec_lt (n - s) 64) [
      | yes near ↦ rw (mark_within w n s e (omega arith) near) (
          rw (has_seen_known (filled w n s) n s e) (
            ground
              (arith, bit-bit_or (n - s) w.seen (1 <<< (n - s)), bit_one_shifted (n - s) (n - s))))
      | no far ↦
          rw (mark_too_old w n s e (omega arith) (omega arith))
            (rw (has_seen_known w n s e) (ground arith))
    ]
  ]
]

-- The four branches of `mark_seen`, for a number `t` that was seen before.
module _ (w : ReplayWindow) (n s t : ℕ) (e : w.newest_sequence ≡ some n)
    (h : (if ltb n t then false else (leb 64 (n - t) || (bit w.seen (n - t) == 1))) ≡ true) where
  mono_far : n < s → 64 ≤ s - n → has_seen (mark_seen w s) t ≡ true
  mono_far lt far =
      rw (mark_far w n s e lt far) (rw (has_seen_known (slid s 1) s t refl) (ground arith))

  mono_near : n < s → s - n < 64 → has_seen (mark_seen w s) t ≡ true
  mono_near lt near = rw (mark_near w n s e lt near) (
      rw (has_seen_known (slid s (near_seen w n s)) s t refl) (elim (dec_lt (s - t) 64) [
        | yes inside ↦
            let below : t ≤ n = ground arith in
            let same : (s - t) - (s - n) ≡ n - t = omega arith in
            ground (
              arith,
              bit-bit_or (s - t) ((w.seen <<< (s - n)) % 2 ^ 64) 1,
              bit_truncated (w.seen <<< (s - n)) 64 (s - t) inside,
              bit_shifted w.seen (s - n) (s - t),
              ap (λ (i : ℕ). bit w.seen i) same,
            )
        | no outside ↦ ground arith
      ]))

  mono_within : s ≤ n → n - s < 64 → has_seen (mark_seen w s) t ≡ true
  mono_within le near = rw (mark_within w n s e le near) (
      rw (has_seen_known (filled w n s) n t e)
        (ground (arith, bit-bit_or (n - t) w.seen (1 <<< (n - s)))))

  mono_too_old : s ≤ n → 64 ≤ n - s → has_seen (mark_seen w s) t ≡ true
  mono_too_old le far = rw (mark_too_old w n s e le far) (rw (has_seen_known w n t e) h)

-- A number that was seen stays seen, whatever is marked after it.
pub has_seen-mark_seen_mono :
    (w : ReplayWindow) (s t : ℕ) → has_seen w t ≡ true → has_seen (mark_seen w s) t ≡ true
has_seen-mark_seen_mono w s t h = elim (Option-cases w.newest_sequence) [
  | inl e ↦ unfold has_seen in ground arith
  | inr (n, e) ↦
      let before = rw (has_seen_known w n t e) at h in
      elim (dec_lt n s) [
        | yes lt ↦ elim (dec_lt (s - n) 64) [
          | yes near ↦ mono_near w n s t e before lt near
          | no far ↦ mono_far w n s t e before lt (omega arith)
        ]
        | no ge ↦ elim (dec_lt (n - s) 64) [
          | yes near ↦ mono_within w n s t e before (omega arith) near
          | no far ↦ mono_too_old w n s t e before (omega arith) (omega arith)
        ]
      ]
]
