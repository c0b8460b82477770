-- ===== src/Dtls/Replay/Examples.antt =====
-- The unit tests of replay.rs, and the theorems at concrete inputs.
use meshcop_rs.Base.{◌≡◌, refl, true, false, [], ◌∷◌}
use meshcop_rs.Dtls.Replay.{ReplayWindow, new, has_seen, mark_seen}
use meshcop_rs.Dtls.Replay.History.{marked, seen_by, has_seen-marked}

-- 10, then 12; 11 is not marked.
abbrev gap : ReplayWindow
gap = marked (12 ∷ 10 ∷ [])

gap_answers :
    (has_seen gap 12 ≡ true)
    × (has_seen gap 11 ≡ false)
    × (has_seen gap 10 ≡ true)
    × (has_seen gap 13 ≡ false)
unfolding has_seen mark_seen new marked
gap_answers = (refl, refl, refl, refl)

-- A jump by the whole width leaves the old number too old to tell.
jump_answers :
    (has_seen (marked (65 ∷ 1 ∷ [])) 65 ≡ true)
    × (has_seen (marked (65 ∷ 1 ∷ [])) 1 ≡ true)
    × (has_seen (marked (65 ∷ 1 ∷ [])) 2 ≡ false)
unfolding has_seen mark_seen new marked
jump_answers = (refl, refl, refl)

has_seen-marked_example : has_seen (marked (12 ∷ 10 ∷ [])) 11 ≡ seen_by (12 ∷ 10 ∷ []) 11
has_seen-marked_example = has_seen-marked (12 ∷ 10 ∷ []) 11
