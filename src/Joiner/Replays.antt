-- ===== src/Joiner/Replays.antt =====
-- joiner.rs, replay.rs and record_protection.rs together: the records that a session opens.
use meshcop_rs.Base.{
  ℕ, ◌≡◌, ◌≢◌, refl, ap, ◌∙◌, Bool, true, false, Bool-cases, inl, inr, List, [], ◌∷◌, All, arith,
  Result, ok, err, stuck, Option, none, some, if◌then◌else◌,
}
use meshcop_rs.Base.Bytes.{Bytes}
use meshcop_rs.Dtls.Protection.{Ccm}
use meshcop_rs.Dtls.Record.{DtlsRecord}
use meshcop_rs.Dtls.Replay.{has_seen, mark_seen}
use meshcop_rs.Dtls.Replay.Marks.{has_seen-mark_seen_self, has_seen-mark_seen_mono}
use meshcop_rs.Error.{Error}
use meshcop_rs.Joiner.{JoinerSession, open_record, opened_as, open_with_keys, marked_seen}

-- The number of a record that gave a plaintext, in front of those of the later ones.
pub with_number : ℕ → Result Error (Option Bytes) → List ℕ → List ℕ
with_number n (ok (some plaintext)) later = n ∷ later
with_number n _ later = later

pub NoRepeat : List ℕ → Type 0
NoRepeat [] = Unit {0}
NoRepeat (n ∷ later) = All (λ m. m ≢ n) later × NoRepeat later

module _ (ccm : Ccm) where
  -- The numbers of the records that a session opens, of those that reach it.
  pub accepted : List DtlsRecord → JoinerSession → List ℕ
  accepted [] s = []
  accepted (r ∷ rs) s =
      let (after, result) = open_record ccm s r in
      with_number r.header.sequence_number result (accepted rs after)

  abbrev Unseen : JoinerSession → List ℕ → Type 0
  Unseen s ns = All (λ n. has_seen s.replay_window n ≡ false) ns

  -- What the window does not know behind a mark, it did not know before, and it is not the mark.
  unmarked :
      (s : JoinerSession) (n : ℕ) (later : List ℕ)
      → Unseen (marked_seen s n) later
      → Unseen s later × All (λ m. m ≢ n) later
  unfolding marked_seen
  unmarked s n [] h = (tt, tt)
  unmarked s n (m ∷ later) h =
      let (unseen, differ) = unmarked s n later h.1 in
      (
        (
          elim (Bool-cases (has_seen s.replay_window m)) [
            | inr f ↦ f
            | inl t ↦
                let still = has_seen-mark_seen_mono s.replay_window n m t in absurd (ground arith)
          ],
          unseen,
        ),
        (
          λ e.
              let marked : has_seen (mark_seen s.replay_window n) m ≡ true =
                ap (has_seen (mark_seen s.replay_window n)) e
                ∙ has_seen-mark_seen_self s.replay_window n in
              absurd (ground arith),
          differ,
        ),
      )

  abbrev Sound : JoinerSession → List ℕ → Type 0
  Sound s ns = NoRepeat ns × Unseen s ns

  Sound-with_number :
      (s : JoinerSession) (n : ℕ) (rs : List DtlsRecord) (seen : Bool) (got : Result Error Bytes)
      → has_seen s.replay_window n ≡ seen
      → Sound s (accepted rs s)
      → Sound (marked_seen s n) (accepted rs (marked_seen s n))
      → (let (after, result) = if seen then (s, ok none) else opened_as s n got in
          Sound s (with_number n result (accepted rs after)))
  unfolding opened_as with_number NoRepeat
  Sound-with_number s n rs true got e same marked = same
  Sound-with_number s n rs false (ok plaintext) e same marked =
      let (unseen, differ) = unmarked s n (accepted rs (marked_seen s n)) marked.1 in
      ((differ, marked.0), (e, unseen))
  Sound-with_number s n rs false (err x) e same marked = same
  Sound-with_number s n rs false stuck e same marked = same

  accepted-Sound : (rs : List DtlsRecord) (s : JoinerSession) → Sound s (accepted rs s)
  unfolding accepted NoRepeat open_record
  accepted-Sound [] s = (tt, tt)
  accepted-Sound (r ∷ rs) s =
      let n : ℕ = r.header.sequence_number in
      Sound-with_number s n rs (has_seen s.replay_window n) (open_with_keys ccm s r) refl
        (accepted-Sound rs s) (accepted-Sound rs (marked_seen s n))

  -- Whatever records reach a session, in whatever order and however often each is sent, and whatever
  -- was marked before, no sequence number gives a plaintext twice, and none that was marked gives one.
  pub accepted-NoRepeat :
      (rs : List DtlsRecord) (s : JoinerSession)
      → NoRepeat (accepted rs s) × All (λ n. has_seen s.replay_window n ≡ false) (accepted rs s)
  accepted-NoRepeat rs s = accepted-Sound rs s
