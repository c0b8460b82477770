-- ===== src/Duplicates.antt =====
-- crates/meshcop/src/commissioner/client/driver/duplicates.rs: the confirmable messages that were
-- answered, with `Destination` of commissioner/types.rs. A method takes the time at which it is
-- called, in nanoseconds since some start, as its one reading of the clock, and returns the state
-- it leaves.
pub mod Replies
pub mod Copies
mod Examples
use meshcop_rs.Base.{
  ℕ, ◌+◌, ◌-◌, ◌*◌, Bool, true, false, not, Option, none, some, List, [], ◌∷◌, ◌++◌, ◌==◌, ◌&&◌,
  leb, if◌then◌else◌, length,
}
use meshcop_rs.Coap.{CoapMessage}
use mathlib.Core.Option

-- The address is an IPv6 address, a number of 128 bits.
pub data Destination : Type 0 where
  border_agent : Destination
  mesh : ℕ → ℕ → Destination

-- `==` on destinations.
pub destination_eq : Destination → Destination → Bool
destination_eq border_agent border_agent = true
destination_eq (mesh a p) (mesh b q) = a == b && p == q
destination_eq _ _ = false

abbrev pub exchange_lifetime : ℕ
exchange_lifetime = 247 * 1_000_000_000

abbrev pub max_remembered : ℕ
max_remembered = 64

pub record Answered : Type 0 where
  pub origin : Destination
  pub message_id : ℕ
  pub reply : CoapMessage
  pub at : ℕ

pub record AnsweredMessages : Type 0 where
  pub entries : List Answered

abbrev pub new_answered : AnsweredMessages
new_answered = record { entries = [] }

-- `entry.at.elapsed() >= EXCHANGE_LIFETIME`; `elapsed` is zero before `at`.
pub is_expired : ℕ → Answered → Bool
is_expired now entry = leb exchange_lifetime (now - entry.at)

pub drop_expired : ℕ → List Answered → List Answered
drop_expired now [] = []
drop_expired now (entry ∷ entries) =
    let rest = drop_expired now entries in if is_expired now entry then rest else entry ∷ entries

pub forget_expired : ℕ → AnsweredMessages → AnsweredMessages
forget_expired now s = record { entries = drop_expired now s.entries }

pub answers : Destination → ℕ → Answered → Bool
answers origin message_id entry =
    destination_eq entry.origin origin && entry.message_id == message_id

pub find_reply : Destination → ℕ → List Answered → Option Answered
find_reply origin message_id [] = none
find_reply origin message_id (entry ∷ entries) =
    if answers origin message_id entry then some entry else find_reply origin message_id entries

pub reply_to : AnsweredMessages → ℕ → Destination → ℕ → Option CoapMessage × AnsweredMessages
unfolding forget_expired
reply_to s now origin message_id = (
  Option.map (λ entry. entry.reply) (find_reply origin message_id (forget_expired now s).entries),
  forget_expired now s,
)

pub pop_front : List Answered → List Answered
pop_front [] = []
pop_front (entry ∷ entries) = entries

pub make_room : List Answered → List Answered
unfolding pop_front
make_room entries = if length entries == max_remembered then pop_front entries else entries

pub remember : AnsweredMessages → ℕ → Destination → ℕ → CoapMessage → AnsweredMessages
unfolding forget_expired
remember s now origin message_id reply = record {
  entries =
      make_room (forget_expired now s).entries
      ++ (record { origin = origin; message_id = message_id; reply = reply; at = now } ∷ []);
}

pub retain_mesh : List Answered → List Answered
retain_mesh [] = []
retain_mesh (entry ∷ entries) =
    let rest = retain_mesh entries in
    if not (destination_eq entry.origin border_agent) then entry ∷ rest else rest

pub forget_border_agent : AnsweredMessages → AnsweredMessages
forget_border_agent s = record { entries = retain_mesh s.entries }
