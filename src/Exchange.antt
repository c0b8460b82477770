-- ===== src/Exchange.antt =====
-- crates/meshcop/src/commissioner/client/driver/exchange.rs: the outstanding exchanges, without
-- the sending. A time is a number of nanoseconds; a random number is an argument.
pub mod Search
pub mod Schedule
pub mod Matching
pub mod Tokens
pub mod Runs
pub mod Withdrawal
pub mod Timers
mod Examples
use meshcop_rs.Base.{
  ℕ, suc, ◌+◌, ◌*◌, ◌%◌, min, Bool, true, false, not, ◌&&◌, ◌||◌, List, [], ◌∷◌, ◌++◌, ◌==◌, ltb,
  leb, if◌then◌else◌, Option, none, some, map,
}
use meshcop_rs.Base.Bits.{◌>>>◌}
use meshcop_rs.Base.Bytes.{Bytes, bytes_eq}
use meshcop_rs.Coap.{
  CoapType, confirmable, CoapMessage, is_empty_ack_for, is_reset_for, coap_type_as_u8,
}
use meshcop_rs.Duplicates.{Destination, border_agent, mesh}
use mathlib.Core.Option
use Prim.Native.String.{String}

abbrev pub second : ℕ
second = 1_000_000_000

abbrev pub coap_ack_timeout : ℕ
coap_ack_timeout = 2 * second

abbrev pub coap_ack_random_window_millis : ℕ
coap_ack_random_window_millis = 1_000

abbrev pub coap_max_retransmit : ℕ
coap_max_retransmit = 2

abbrev pub max_application_in_flight : ℕ
max_application_in_flight = 1

abbrev pub coap_exchange_timeout : ℕ
coap_exchange_timeout = 12 * second

-- `Duration::MAX`
abbrev pub max_duration : ℕ
max_duration = 18_446_744_073_709_551_615_999_999_999

pub record CoapRetransmitSchedule : Type 0 where
  pub timeout : ℕ
  pub retransmissions : ℕ

-- Its argument is what `rng.next_u32()` returns.
pub randomized : ℕ → CoapRetransmitSchedule
randomized random = record {
  timeout = coap_ack_timeout + random % suc coap_ack_random_window_millis * 1_000_000;
  retransmissions = 0;
}

pub schedule_timeout : CoapRetransmitSchedule → Option ℕ
schedule_timeout s = if ltb s.retransmissions coap_max_retransmit then some s.timeout else none

pub record_retransmission : CoapRetransmitSchedule → CoapRetransmitSchedule
record_retransmission s = record {
  timeout = min (s.timeout * 2) max_duration;
  retransmissions = min (suc s.retransmissions) 255;
}

pub record Outbound : Type 0 where
  pub message : CoapMessage
  pub destination : Destination
  pub expect_response : Bool
  pub label : String

-- A reply channel is left out; the flags say whether there is one.
pub data Completion : Type 0 where
  caller : ℕ → Completion
  petition : Completion
  keep_alive resign : Bool → Completion

pub is_application : Completion → Bool
is_application (caller id) = true
is_application _ = false

pub is_caller : ℕ → Completion → Bool
is_caller id (caller other) = other == id
is_caller id _ = false

pub is_keep_alive : Completion → Bool
is_keep_alive (keep_alive b) = true
is_keep_alive _ = false

pub is_resign : Completion → Bool
is_resign (resign b) = true
is_resign _ = false

pub record Pending : Type 0 where
  pub request : CoapMessage
  pub destination : Destination
  pub label : String
  pub retransmit : Option CoapRetransmitSchedule
  pub retry_at : Option ℕ
  pub deadline : ℕ
  pub completion : Completion

pub is_proxied : Pending → Bool
is_proxied p = elim (p.destination) [ border_agent ↦ false | mesh address port ↦ true ]

pub record Exchanges : Type 0 where
  pub in_flight : List Pending
  pub queued : List (Outbound × Completion)

pub count_application : List Pending → ℕ
unfolding is_application
count_application [] = 0
count_application (p ∷ ps) =
    let rest = count_application ps in if is_application p.completion then suc rest else rest

pub application_in_flight : Exchanges → ℕ
application_in_flight x = count_application x.in_flight

-- `iter().any(..)`
pub any_pending : (Pending → Bool) → List Pending → Bool
any_pending test [] = false
any_pending test (p ∷ ps) = test p || any_pending test ps

pub resigning : Exchanges → Bool
unfolding any_pending is_resign
resigning x = any_pending (λ p. is_resign p.completion) x.in_flight

pub keep_alive_outstanding : Exchanges → Bool
unfolding any_pending is_keep_alive
keep_alive_outstanding x = any_pending (λ p. is_keep_alive p.completion) x.in_flight

-- `position` and `remove`: the first element that passes the test, and the others.
pub take_first {ℓ} : {A : Type ℓ} → (A → Bool) → List A → Option (A × List A)
take_first test [] = none
take_first test (x ∷ xs) =
    let rest = take_first test xs in
    if test x then some (x, xs) else Option.map (λ found. (found.0, x ∷ found.1)) rest

pub withdraw_in_flight : Exchanges → Option (Pending × List Pending) → Bool × Exchanges
withdraw_in_flight x none = (false, x)
withdraw_in_flight x (some (p, others)) = (true, record { in_flight = others; queued = x.queued })

-- What was found in the queue, where only nothing leads on to the search in flight.
pub withdraw_found :
    Exchanges
    → Option ((Outbound × Completion) × List (Outbound × Completion))
    → Option (Pending × List Pending)
    → Bool × Exchanges
unfolding withdraw_in_flight
withdraw_found x none sent = withdraw_in_flight x sent
withdraw_found x (some (entry, others)) sent =
    (true, record { in_flight = x.in_flight; queued = others })

pub withdraw : Exchanges → ℕ → Bool × Exchanges
unfolding withdraw_found
withdraw x id =
    withdraw_found x (take_first (λ (entry : Outbound × Completion). is_caller id entry.1) x.queued)
      (take_first (λ (p : Pending). is_caller id p.completion) x.in_flight)

-- `flat_map` and `flatten`.
pub timers : List Pending → List ℕ
timers [] = []
timers (p ∷ ps) = elim (p.retry_at) [
  | none ↦ p.deadline ∷ timers ps
  | some at ↦ at ∷ p.deadline ∷ timers ps
]

-- `Iterator::min`
pub minimum : List ℕ → Option ℕ
minimum [] = none
minimum (t ∷ ts) = elim (minimum ts) [ none ↦ some t | some least ↦ some (min t least) ]

pub next_deadline : Exchanges → Option ℕ
next_deadline x = minimum (timers x.in_flight)

pub drain : Exchanges → List Completion × Exchanges
drain x = (
  map (λ (p : Pending). p.completion) x.in_flight
      ++ map (λ (entry : Outbound × Completion). entry.1) x.queued,
  record { in_flight = []; queued = [] },
)

-- `Option::and_then`
pub timeout_of : Option CoapRetransmitSchedule → Option ℕ
unfolding schedule_timeout
timeout_of none = none
timeout_of (some schedule) = schedule_timeout schedule

-- The end of `start`: what is tracked for a request that was sent at `now` and expects a response.
pub tracked : ℕ → ℕ → CoapMessage → Destination → String → Completion → Pending
unfolding randomized timeout_of
tracked now random message destination label completion =
    let retransmit : Option CoapRetransmitSchedule =
      if coap_type_as_u8 message.ty == coap_type_as_u8 confirmable
      then some (randomized random)
      else none in
    record {
      request = message;
      destination = destination;
      label = label;
      retransmit = retransmit;
      retry_at = Option.map (λ t. now + t) (timeout_of retransmit);
      deadline = now + coap_exchange_timeout;
      completion = completion;
    }

-- What the timers make of an exchange that was sent again at `now`.
pub retransmitted : ℕ → Pending → Pending
unfolding record_retransmission schedule_timeout
retransmitted now p = elim (p.retransmit) [
  | none ↦ p
  | some schedule ↦ record {
    request = p.request;
    destination = p.destination;
    label = p.label;
    retransmit = some (record_retransmission schedule);
    retry_at = Option.map (λ t. now + t) (schedule_timeout (record_retransmission schedule));
    deadline = p.deadline;
    completion = p.completion;
  }
]

-- `is_some_and(|retry_at| retry_at <= now)`
pub is_retry_due : ℕ → Pending → Bool
is_retry_due now p = elim (p.retry_at) [ none ↦ false | some at ↦ leb at now ]

pub is_past_deadline : ℕ → Pending → Bool
is_past_deadline now p = leb p.deadline now

-- `==` on routes.
pub same_route : Bool → Bool → Bool
same_route true b = b
same_route false b = not b

pub is_acknowledged : CoapMessage → Bool → Pending → Bool
is_acknowledged ack proxied p =
    same_route (is_proxied p) proxied && is_empty_ack_for ack p.request.message_id

-- The `retry_at` of an exchange is cleared.
pub silenced : Pending → Pending
silenced p = record {
  request = p.request;
  destination = p.destination;
  label = p.label;
  retransmit = p.retransmit;
  retry_at = none;
  deadline = p.deadline;
  completion = p.completion;
}

pub silence_first : CoapMessage → Bool → List Pending → Bool × List Pending
silence_first ack proxied [] = (false, [])
silence_first ack proxied (p ∷ ps) =
    let (found, rest) = silence_first ack proxied ps in
    if is_acknowledged ack proxied p then (true, silenced p ∷ ps) else (found, p ∷ rest)

pub acknowledge : Exchanges → CoapMessage → Bool → Bool × Exchanges
acknowledge x ack proxied =
    let (found, in_flight) = silence_first ack proxied x.in_flight in
    (found, record { in_flight = in_flight; queued = x.queued })

pub is_response : CoapMessage → Bool
is_response m = let class : ℕ = m.code.byte >>> 5 in class == 2 || class == 4 || class == 5

pub is_answered : CoapMessage → Bool → Pending → Bool
is_answered response proxied p =
    same_route (is_proxied p) proxied
    && (is_reset_for response p.request.message_id
        || (is_response response && bytes_eq response.token p.request.token))

pub answered_by : Exchanges → Option (Pending × List Pending) → Option Pending × Exchanges
answered_by x none = (none, x)
answered_by x (some (p, others)) = (some p, record { in_flight = others; queued = x.queued })

pub take_answered : Exchanges → CoapMessage → Bool → Option Pending × Exchanges
unfolding answered_by
take_answered x response proxied =
    answered_by x (take_first (is_answered response proxied) x.in_flight)

pub is_in_use : Bytes → List Pending → Bool
unfolding any_pending
is_in_use token in_flight = any_pending (λ p. bytes_eq p.request.token token) in_flight

-- The loop of `unused_token`, over the tokens that the random source will give; `none` is a run
-- that needs more of them.
pub unused_token : List Bytes → List Pending → Option (Bytes × List Bytes)
unused_token [] in_flight = none
unused_token (token ∷ draws) in_flight =
    let rest = unused_token draws in_flight in
    if not (is_in_use token in_flight) then some (token, draws) else rest

-- `next_message_id` is the counter; the result holds the counter after, the message and the draws
-- that are left.
pub assign_identity :
    ℕ → List Bytes → List Pending → CoapMessage → Option (ℕ × CoapMessage × List Bytes)
assign_identity next_message_id draws in_flight m =
    let next : ℕ = suc next_message_id % 0x1_0000 in
    Option.map
      (λ drawn. (
        next,
        record {
          ty = m.ty;
          code = m.code;
          message_id = next;
          token = drawn.0;
          options = m.options;
          payload = m.payload;
        },
        drawn.1,
      ))
      (unused_token draws in_flight)
