-- ===== src/Duplicates/Replies.antt =====
-- duplicates.rs: how many answered messages are remembered, and what a reopened session forgets.
use meshcop_rs.Base.{
  ℕ, ◌≤◌, ◌≡◌, refl, ap, true, false, Bool-cases, inl, inr, Option, none, some, List, [], ◌∷◌,
  arith, ◌==◌, ==_refl, length, length-append,
}
use meshcop_rs.Coap.{CoapMessage}
use meshcop_rs.Duplicates.{
  Destination, border_agent, mesh, destination_eq, max_remembered, Answered, AnsweredMessages,
  is_expired, drop_expired, forget_expired, answers, find_reply, reply_to, pop_front, make_room,
  remember, retain_mesh, forget_border_agent,
}
use mathlib.Core.Option

pub destination_eq_refl : (d : Destination) → destination_eq d d ≡ true
unfolding destination_eq
destination_eq_refl border_agent = refl
destination_eq_refl (mesh a p) = rw (==_refl a, ==_refl p) refl

pub length-drop_expired : (now : ℕ) (es : List Answered) → length (drop_expired now es) ≤ length es
unfolding drop_expired
length-drop_expired now [] = omega arith
length-drop_expired now (e ∷ es) = ground (arith, length-drop_expired now es)

length-make_room : (es : List Answered) → length es ≤ 64 → length (make_room es) ≤ 63
unfolding make_room pop_front
length-make_room [] h = omega arith
length-make_room (e ∷ es) h = ground arith

pub length-retain_mesh : (es : List Answered) → length (retain_mesh es) ≤ length es
unfolding retain_mesh
length-retain_mesh [] = omega arith
length-retain_mesh (e ∷ es) = ground (arith, length-retain_mesh es)

-- A state that the driver can reach by its calls.
pub data Reachable : AnsweredMessages → Type 0 where
  fresh : Reachable (record { entries = [] })
  replied :
      (s : AnsweredMessages) (now : ℕ) (origin : Destination) (message_id : ℕ)
      → Reachable s
      → Reachable (reply_to s now origin message_id).1
  remembered :
      (s : AnsweredMessages) (now : ℕ) (origin : Destination) (message_id : ℕ) (reply : CoapMessage)
      → Reachable s
      → Reachable (remember s now origin message_id reply)
  reopened : (s : AnsweredMessages) → Reachable s → Reachable (forget_border_agent s)

-- However the driver calls it, the record never holds more than 64 answered messages.
pub Reachable-bounded : (s : AnsweredMessages) → Reachable s → length s.entries ≤ 64
unfolding reply_to remember forget_border_agent forget_expired
Reachable-bounded _ fresh = omega arith
Reachable-bounded _ (replied s now origin message_id r) =
    omega (arith, length-drop_expired now s.entries, Reachable-bounded s r)
Reachable-bounded _ (remembered s now origin message_id reply r) =
    let room =
      length-make_room (drop_expired now s.entries)
        (omega (arith, length-drop_expired now s.entries, Reachable-bounded s r)) in
    omega (arith, length-append (make_room (drop_expired now s.entries)) _)
Reachable-bounded _ (reopened s r) =
    omega (arith, length-retain_mesh s.entries, Reachable-bounded s r)

-- A front entry that does not answer is passed over.
pub find_reply-skip :
    (e' : Answered) (es : List Answered) (origin : Destination) (message_id : ℕ)
    → find_reply origin message_id (e' ∷ es) ≡ none
    → (answers origin message_id e' ≡ false) × (find_reply origin message_id es ≡ none)
unfolding find_reply
find_reply-skip e' es origin message_id h = elim (Bool-cases (answers origin message_id e')) [
  | inl here ↦ absurd (ground arith)
  | inr skip ↦ (skip, ground arith)
]

pub find_reply-make_room :
    (origin : Destination) (message_id : ℕ) (es : List Answered)
    → find_reply origin message_id es ≡ none
    → find_reply origin message_id (make_room es) ≡ none
unfolding make_room pop_front
find_reply-make_room origin message_id [] h = h
find_reply-make_room origin message_id (e ∷ es) h =
    elim (Bool-cases (length (e ∷ es) == max_remembered)) [
      | inl full ↦ rw full (find_reply-skip e es origin message_id h).1
      | inr room ↦ rw room h
    ]

pub map-none : (o : Option Answered) → Option.map (λ e. e.reply) o ≡ none → o ≡ none
map-none none h = refl
map-none (some e) h = cc

find_reply-border_agent :
    (message_id : ℕ) (es : List Answered)
    → find_reply border_agent message_id (retain_mesh es) ≡ none
unfolding find_reply retain_mesh
find_reply-border_agent message_id [] = refl
find_reply-border_agent message_id (e ∷ es) =
    let ih = find_reply-border_agent message_id es in
    elim (Bool-cases (destination_eq e.origin border_agent)) [
      | inl agent ↦ rw agent ih
      | inr kept ↦
          let other : answers border_agent message_id e ≡ false = unfold answers in rw kept refl in
          rw (kept, other) ih
    ]

pub find_reply-drop_none :
    (now : ℕ) (origin : Destination) (message_id : ℕ) (es : List Answered)
    → find_reply origin message_id es ≡ none
    → find_reply origin message_id (drop_expired now es) ≡ none
unfolding drop_expired
find_reply-drop_none now origin message_id [] h = h
find_reply-drop_none now origin message_id (e ∷ es) h = elim (Bool-cases (is_expired now e)) [
  | inl gone ↦
      rw gone
        (find_reply-drop_none now origin message_id es (find_reply-skip e es origin message_id h).1)
  | inr kept ↦ rw kept h
]

-- After the session was reopened no message of the border agent is taken for a copy, whatever its
-- identifier and the time.
pub reply_to-forget_border_agent :
    (s : AnsweredMessages) (now message_id : ℕ)
    → (reply_to (forget_border_agent s) now border_agent message_id).0 ≡ none
unfolding reply_to forget_border_agent forget_expired
reply_to-forget_border_agent s now message_id = ap (Option.map (λ (e : Answered). e.reply)) (
    find_reply-drop_none now border_agent message_id (retain_mesh s.entries)
      (find_reply-border_agent message_id s.entries))
