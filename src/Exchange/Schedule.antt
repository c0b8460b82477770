-- ===== src/Exchange/Schedule.antt =====
-- exchange.rs: the retransmissions of an exchange and its deadline.
use meshcop_rs.Base.{ℕ, ◌+◌, ◌*◌, ◌≤◌, ◌<◌, ◌%◌, ◌≡◌, refl, ap, none, some, arith}
use meshcop_rs.Coap.{CoapMessage, confirmable, coap_type_as_u8}
use meshcop_rs.Duplicates.{Destination}
use meshcop_rs.Exchange.{
  Completion, randomized, schedule_timeout, record_retransmission, timeout_of, tracked,
  retransmitted, second,
}
use Prim.Native.String.{String}

module _ (now random : ℕ) (m : CoapMessage) (d : Destination) (label : String)
    (c : Completion) where
  -- A confirmable request is first sent again after a time of 2 to 3 seconds; run then, the timers
  -- set the second retry after twice that time again, at 6 to 9 seconds, which is before the
  -- deadline, and run then, they set no third one.
  pub retransmitted-tracked :
      m.ty ≡ confirmable
      → (t : ℕ) × (2 * second ≤ t)
        × (t ≤ 3 * second)
        × (let first = tracked now random m d label c in
            let second_send = retransmitted (now + t) first in
            (first.retry_at ≡ some (now + t))
            × (second_send.retry_at ≡ some (now + t + t * 2))
            × (now + t + t * 2 < first.deadline)
            × ((retransmitted (now + t + t * 2) second_send).retry_at ≡ none))
  unfolding tracked retransmitted randomized schedule_timeout record_retransmission timeout_of
      coap_type_as_u8
  retransmitted-tracked e = rw e (
    2_000_000_000 + random % 1001 * 1_000_000,
    omega arith,
    omega arith,
    (refl, ap some (omega arith), omega arith, refl),
  )
