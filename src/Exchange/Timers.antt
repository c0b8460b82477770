-- ===== src/Exchange/Timers.antt =====
-- exchange.rs: `next_deadline` and the timers of the exchanges.
use meshcop_rs.Base.{
  ℕ, ◌≡◌, refl, ◌∙◌, Bool, false, inl, inr, ◌||◌, leb, List, [], ◌∷◌, Option, none, some,
  Option-cases, arith, min,
}
use meshcop_rs.Exchange.{
  Pending, Exchanges, any_pending, timers, minimum, next_deadline, is_retry_due, is_past_deadline,
}

-- One of the timers of an exchange is due.
pub is_due : ℕ → Pending → Bool
is_due now p = is_retry_due now p || is_past_deadline now p

pub any_due : ℕ → List ℕ → Bool
any_due now [] = false
any_due now (t ∷ ts) = leb t now || any_due now ts

pub due : ℕ → Option ℕ → Bool
due now none = false
due now (some t) = leb t now

due-minimum : (now : ℕ) (ts : List ℕ) → due now (minimum ts) ≡ any_due now ts
unfolding due minimum any_due
due-minimum now [] = refl
due-minimum now (t ∷ ts) = go (minimum ts) (due-minimum now ts)
  where
    go :
        (least : Option ℕ)
        → due now least ≡ any_due now ts
        → due now (elim least [ none ↦ some t | some l ↦ some (min t l) ])
          ≡ (leb t now || any_due now ts)
    go none h = ground (arith, h)
    go (some l) h = rw⁻¹ h (ground arith)

any_due-timers :
    (now : ℕ) (ps : List Pending) → any_due now (timers ps) ≡ any_pending (is_due now) ps
unfolding any_due timers any_pending is_due is_retry_due is_past_deadline
any_due-timers now [] = refl
any_due-timers now (p ∷ ps) =
    let rest = any_due-timers now ps in
    elim (Option-cases p.retry_at) [
      | inl none_is ↦ rw (none_is, rest) refl
      | inr (at, some_is) ↦ rw (some_is, rest) (ground arith)
    ]

-- The driver is woken for its exchanges exactly when a timer of one of them is due: the time that
-- `next_deadline` gives has come if and only if some exchange in flight has to be sent again or has
-- passed its deadline.
pub due-next_deadline :
    (x : Exchanges) (now : ℕ) → due now (next_deadline x) ≡ any_pending (is_due now) x.in_flight
unfolding next_deadline
due-next_deadline x now = due-minimum now (timers x.in_flight) ∙ any_due-timers now x.in_flight
