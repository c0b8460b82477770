-- ===== src/Exchange/Examples.antt =====
-- Runs of exchange.rs on two exchanges, and the theorems at concrete inputs.
use meshcop_rs.Base.{ℕ, ◌+◌, ◌*◌, ◌≤◌, ◌<◌, ◌≡◌, refl, true, false, List, [], ◌∷◌, ◌++◌, none, some}
use meshcop_rs.Base.Bytes.{Bytes, bytes_eq}
use meshcop_rs.Coap.{
  CoapMessage, confirmable, acknowledgement, changed_code, post_code, is_reset_for,
}
use meshcop_rs.Duplicates.{border_agent}
use meshcop_rs.Exchange.{
  petition, caller, resign, Outbound, Pending, Exchanges, tracked, retransmitted, second,
  is_proxied, is_response, is_answered, take_answered, answered_by, take_first, same_route,
  withdraw, withdraw_found, withdraw_in_flight, is_caller, unused_token, is_in_use, assign_identity,
  any_pending, next_deadline,
}
use meshcop_rs.Exchange.Matching.{Answers, take_answered-Answers, take_answered-response}
use meshcop_rs.Exchange.Runs.{Reachable, fresh, sent, Reachable-HasDistinct}
use meshcop_rs.Exchange.Schedule.{retransmitted-tracked}
use meshcop_rs.Exchange.Timers.{due, is_due, due-next_deadline}
use meshcop_rs.Exchange.Tokens.{tokens, IsFresh, HasDistinct, unused_token_total}
use meshcop_rs.Exchange.Withdrawal.{Withdraws, withdraw-Withdraws}

abbrev request : Bytes → CoapMessage
request token = record {
  ty = confirmable;
  code = post_code;
  message_id = 1;
  token = token;
  options = [];
  payload = [];
}

abbrev response : CoapMessage
response = record {
  ty = acknowledgement;
  code = changed_code;
  message_id = 1;
  token = 7 ∷ 7 ∷ 7 ∷ 7 ∷ [];
  options = [];
  payload = [];
}

abbrev outbound : Outbound
outbound = record {
  message = request [];
  destination = border_agent;
  expect_response = true;
  label = "set";
}

abbrev first : Pending
first = tracked 0 500 (request (7 ∷ 7 ∷ 7 ∷ 7 ∷ [])) border_agent "petition" petition

abbrev one : Exchanges
one = record { in_flight = first ∷ []; queued = [] }

one-Reachable : Reachable one
unfolding assign_identity unused_token is_in_use any_pending
one-Reachable =
    sent (record { in_flight = []; queued = [] }) 0 1 0 500 ((7 ∷ 7 ∷ 7 ∷ 7 ∷ []) ∷ []) []
      (request []) (request (7 ∷ 7 ∷ 7 ∷ 7 ∷ [])) border_agent "petition" petition fresh refl

answered : take_answered one response false ≡ (some first, record { in_flight = []; queued = [] })
unfolding take_answered answered_by take_first is_answered same_route is_proxied is_response
    bytes_eq tracked is_reset_for
answered = refl

-- The same message through the proxy matches nothing.
proxied_unanswered : take_answered one response true ≡ (none, one)
unfolding take_answered answered_by take_first is_answered same_route is_proxied is_response
    bytes_eq tracked is_reset_for
proxied_unanswered = refl

-- A token in use is drawn again.
redrawn :
    unused_token ((7 ∷ 7 ∷ 7 ∷ 7 ∷ []) ∷ (1 ∷ 2 ∷ 3 ∷ 4 ∷ []) ∷ []) (first ∷ [])
    ≡ some (1 ∷ 2 ∷ 3 ∷ 4 ∷ [], [])
unfolding unused_token is_in_use any_pending bytes_eq tracked
redrawn = refl

unused : is_in_use (1 ∷ 2 ∷ 3 ∷ 4 ∷ []) (first ∷ []) ≡ false
unfolding is_in_use any_pending bytes_eq tracked
unused = refl

response-is_response : is_response response ≡ true
unfolding is_response
response-is_response = refl

first_token : response.token ≡ first.request.token
unfolding tracked
first_token = refl

first-is_proxied : is_proxied first ≡ false
unfolding is_proxied tracked
first-is_proxied = refl

retransmitted-tracked_example :
    (t : ℕ) × (2 * second ≤ t)
    × (t ≤ 3 * second)
    × (let sent_first = tracked 9 500 (request []) border_agent "petition" petition in
        let sent_again = retransmitted (9 + t) sent_first in
        (sent_first.retry_at ≡ some (9 + t))
        × (sent_again.retry_at ≡ some (9 + t + t * 2))
        × (9 + t + t * 2 < sent_first.deadline)
        × ((retransmitted (9 + t + t * 2) sent_again).retry_at ≡ none))
retransmitted-tracked_example =
    retransmitted-tracked 9 500 (request []) border_agent "petition" petition refl

take_answered-Answers_example :
    Answers response false first
    × (front : List Pending) × (back : List Pending) × (one.in_flight ≡ front ++ (first ∷ back))
    × ([] ≡ front ++ back)
    × ([] ≡ one.queued)
take_answered-Answers_example =
    take_answered-Answers one (record { in_flight = []; queued = [] }) response false first answered

take_answered-response_example :
    take_answered one response (is_proxied first)
    ≡ (some first, record { in_flight = [] ++ []; queued = [] })
take_answered-response_example =
    take_answered-response one response [] first [] one-Reachable refl response-is_response
      first_token

Reachable-HasDistinct_example : HasDistinct (tokens one.in_flight)
Reachable-HasDistinct_example = Reachable-HasDistinct one one-Reachable

-- The caller 3 has a request behind a resignation in the queue, and one in flight.
abbrev busy : Exchanges
busy = record {
  in_flight = tracked 0 500 (request (1 ∷ [])) border_agent "get" (caller 3) ∷ first ∷ [];
  queued = (outbound, resign false) ∷ (outbound, caller 3) ∷ (outbound, caller 4) ∷ [];
}

withdraw-busy : withdraw busy 3 ≡ (
  true,
  record {
    in_flight = busy.in_flight;
    queued = (outbound, resign false) ∷ (outbound, caller 4) ∷ [];
  },
)
unfolding withdraw withdraw_found withdraw_in_flight take_first is_caller
withdraw-busy = refl

withdraw-Withdraws_example : Withdraws 3 busy (withdraw busy 3)
withdraw-Withdraws_example = withdraw-Withdraws busy 3

due-next_deadline_example :
    due 12_000_000_000 (next_deadline one) ≡ any_pending (is_due 12_000_000_000) one.in_flight
due-next_deadline_example = due-next_deadline one 12_000_000_000

unused_token_total_example :
    (token : Bytes) × (rest : List Bytes) × (unused_token
        (((7 ∷ 7 ∷ 7 ∷ 7 ∷ []) ∷ []) ++ ((1 ∷ 2 ∷ 3 ∷ 4 ∷ []) ∷ []))
        (first ∷ [])
      ≡ some (token, rest))
    × IsFresh token (tokens (first ∷ []))
unused_token_total_example =
    unused_token_total ((7 ∷ 7 ∷ 7 ∷ 7 ∷ []) ∷ []) (1 ∷ 2 ∷ 3 ∷ 4 ∷ []) [] (first ∷ []) unused
