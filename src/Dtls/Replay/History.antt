-- ===== src/Dtls/Replay/History.antt =====
-- The window against the list of all the numbers that were marked, the latest first.
use meshcop_rs.Base.{
  ℕ, ◌+◌, ◌-◌, ◌%◌, ◌^◌, ◌≤◌, ◌<◌, max, ◌≡◌, refl, ◌∙◌, ap, arith, Bool, false, ◌||◌, Option, none,
  some, List, [], ◌∷◌, All, ltb, leb, ltb→le, ◌==◌, if◌then◌else◌, Bool-cases, inl, inr,
}
use meshcop_rs.Base.Bits.{bit, bit-bit_or, ◌<<<◌}
use meshcop_rs.Dtls.Replay.{ReplayWindow, new, has_seen, mark_seen}
use meshcop_rs.Dtls.Replay.Branches.{mark_far, mark_near, mark_within, mark_too_old, has_seen_known}
use meshcop_rs.Dtls.Replay.Digits.{bit_shifted, bit_one, bit_one_shifted, bit_truncated}
use native.Mathlib.Decide.{dec_lt}
use Prim.Native.Nat.{bit_or}

pub contains : List ℕ → ℕ → Bool
contains [] x = false
contains (m ∷ ms) x = m == x || contains ms x

abbrev pub later : Option ℕ → ℕ → ℕ
later none s = s
later (some n) s = max n s

pub maximum? : List ℕ → Option ℕ
maximum? [] = none
maximum? (m ∷ ms) = some (later (maximum? ms) m)

-- The window after a history of marks.
unfoldable pub marked : List ℕ → ReplayWindow
marked [] = new
marked (m ∷ ms) = mark_seen (marked ms) m

contains_above : (n x : ℕ) (ms : List ℕ) → All (λ m. m ≤ n) ms → n < x → contains ms x ≡ false
unfolding contains
contains_above n x [] h lt = refl
contains_above n x (m ∷ ms) h lt = ground (arith, contains_above n x ms)

All-le_mono : (a b : ℕ) (ms : List ℕ) → a ≤ b → All (λ m. m ≤ a) ms → All (λ m. m ≤ b) ms
All-le_mono a b [] h k = tt
All-le_mono a b (m ∷ ms) h k = (omega arith, All-le_mono a b ms h k.1)

-- The digits up to `n` and below 64 say what the history contains.
abbrev Records : List ℕ → ℕ → ℕ → Type 0
Records ms n seen = (i : ℕ) → i < 64 → i ≤ n → bit seen i ≡ (if contains ms (n - i) then 1 else 0)

record Follows (ms : List ℕ) (n : ℕ) (w : ReplayWindow) : Type 0 where
  pub newest : w.newest_sequence ≡ some n
  pub bounded : All (λ m. m ≤ n) ms
  pub digits : Records ms n w.seen

first_Records : (s : ℕ) → Records (s ∷ []) s 1
unfolding contains
first_Records s i h le = ground (arith, bit_one i)

jump_Records :
    (s n : ℕ) (ms : List ℕ) → All (λ m. m ≤ n) ms → n < s → 64 ≤ s - n → Records (s ∷ ms) s 1
unfolding contains
jump_Records s n ms b lt far i h le = ground (arith, bit_one i, contains_above n (s - i) ms b)

slide_Records :
    (s n seen : ℕ) (ms : List ℕ)
    → All (λ m. m ≤ n) ms
    → n < s
    → s - n < 64
    → Records ms n seen
    → Records (s ∷ ms) s (bit_or ((seen <<< (s - n)) % 2 ^ 64) 1)
unfolding contains
slide_Records s n seen ms b lt near r i h le = elim (Bool-cases (ltb i (s - n))) [
  | inl gap ↦ ground (arith, digits, bit_one i, contains_above n (s - i) ms b)
  | inr old ↦
      let same : n - (i - (s - n)) ≡ s - i = omega (arith, ltb→le i (s - n) old) in
      ground (arith, digits, bit_one i, r (i - (s - n)), ap (contains ms) same)
]
  where
    digits :
        bit (bit_or ((seen <<< (s - n)) % 2 ^ 64) 1) i
        ≡ max (if ltb i (s - n) then 0 else bit seen (i - (s - n))) (bit 1 i)
    digits =
        bit-bit_or i ((seen <<< (s - n)) % 2 ^ 64) 1
        ∙ ap (λ (t : ℕ). max t (bit 1 i))
            (bit_truncated (seen <<< (s - n)) 64 i h ∙ bit_shifted seen (s - n) i)

fill_Records :
    (s n seen : ℕ) (ms : List ℕ)
    → s ≤ n
    → Records ms n seen
    → Records (s ∷ ms) n (bit_or seen (1 <<< (n - s)))
unfolding contains
fill_Records s n seen ms le r i h k =
    ground (arith, bit-bit_or i seen (1 <<< (n - s)), bit_one_shifted (n - s) i, r i)

keep_Records :
    (s n seen : ℕ) (ms : List ℕ) → s ≤ n → 64 ≤ n - s → Records ms n seen → Records (s ∷ ms) n seen
unfolding contains
keep_Records s n seen ms le far r i h k = ground (arith, r i)

first_Follows : (s : ℕ) → Follows (s ∷ []) s (mark_seen new s)
unfolding mark_seen new
first_Follows s = record { newest = refl; bounded = (omega arith, tt); digits = first_Records s }

module _ (w : ReplayWindow) (n s : ℕ) (ms : List ℕ) (f : Follows ms n w) where
  newer-Follows : n < s → Follows (s ∷ ms) s (mark_seen w s)
  newer-Follows lt = elim (dec_lt (s - n) 64) [
    | yes near ↦ rw (mark_near w n s f.newest lt near) (record {
      newest = refl;
      bounded = all;
      digits = slide_Records s n w.seen ms f.bounded lt near f.digits;
    })
    | no far ↦ rw (mark_far w n s f.newest lt (omega arith)) (record {
      newest = refl;
      bounded = all;
      digits = jump_Records s n ms f.bounded lt (omega arith);
    })
  ]
    where
      all : All (λ m. m ≤ s) (s ∷ ms)
      all = (omega arith, All-le_mono n s ms (omega arith) f.bounded)

  older-Follows : s ≤ n → Follows (s ∷ ms) n (mark_seen w s)
  older-Follows le = elim (dec_lt (n - s) 64) [
    | yes near ↦ rw (mark_within w n s f.newest le near) (record {
      newest = f.newest;
      bounded = (le, f.bounded);
      digits = fill_Records s n w.seen ms le f.digits;
    })
    | no far ↦ rw (mark_too_old w n s f.newest le (omega arith)) (record {
      newest = f.newest;
      bounded = (le, f.bounded);
      digits = keep_Records s n w.seen ms le (omega arith) f.digits;
    })
  ]

  mark_seen-Follows : Follows (s ∷ ms) (max n s) (mark_seen w s)
  mark_seen-Follows = elim (dec_lt n s) [
    | yes lt ↦ let top : max n s ≡ s = omega arith in rw top (newer-Follows lt)
    | no ge ↦ let top : max n s ≡ n = omega arith in rw top (older-Follows (omega arith))
  ]

marked-Follows : (ms : List ℕ) (n : ℕ) → maximum? ms ≡ some n → Follows ms n (marked ms)
unfolding marked maximum?
marked-Follows [] n e = cc
marked-Follows (s ∷ []) n e = let same : n ≡ s = ground arith in rw same (first_Follows s)
marked-Follows (s ∷ m ∷ ms) n e =
    let top : ℕ = later (maximum? ms) m in
    let same : n ≡ max top s = ground arith in
    rw same (mark_seen-Follows (marked (m ∷ ms)) top s (m ∷ ms) (marked-Follows (m ∷ ms) top refl))

-- What the window answers: a number counts as seen when it was marked, or when it is 64 or more
-- behind the newest that was.
pub seen_by : List ℕ → ℕ → Bool
seen_by ms s = elim (maximum? ms) [ none ↦ false | some n ↦ contains ms s || leb (s + 64) n ]

has_seen-Follows :
    (s n : ℕ) (ms : List ℕ) (w : ReplayWindow)
    → Follows ms n w
    → has_seen w s ≡ (contains ms s || leb (s + 64) n)
has_seen-Follows s n ms w f = rw (has_seen_known w n s f.newest) (elim (dec_lt n s) [
  | yes lt ↦ ground (arith, f.newest, contains_above n s ms f.bounded)
  | no ge ↦
      let same : n - (n - s) ≡ s = omega arith in
      ground (arith, f.newest, f.digits (n - s), ap (contains ms) same)
])

-- After any history of marks, in any order and with repetitions, `has_seen` answers for every
-- number exactly as the whole history does: it was marked, or it is too old to tell.
pub has_seen-marked : (ms : List ℕ) (s : ℕ) → has_seen (marked ms) s ≡ seen_by ms s
unfolding seen_by
has_seen-marked [] s = unfold has_seen new marked maximum? in refl
has_seen-marked (m ∷ ms) s =
    unfold maximum? in
    has_seen-Follows s _ (m ∷ ms) (marked (m ∷ ms))
      (marked-Follows (m ∷ ms) _ (unfold maximum? in refl))
