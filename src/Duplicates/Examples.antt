-- ===== src/Duplicates/Examples.antt =====
-- Runs of duplicates.rs, and the theorems at concrete inputs.
use meshcop_rs.Base.{ℕ, ◌+◌, ◌*◌, ◌≡◌, ◌≤◌, refl, none, some, List, [], arith, length, ◌∷◌, All}
use meshcop_rs.Coap.{empty_ack}
use meshcop_rs.Duplicates.{
  AnsweredMessages, border_agent, mesh, new_answered, reply_to, remember, forget_border_agent,
  drop_expired, is_expired, find_reply, answers, destination_eq, make_room,
}
use meshcop_rs.Duplicates.Copies.{
  Call, looked_up, remembered, reopened, IsHarmless, added, run, reply_to-remember,
}
use meshcop_rs.Duplicates.Replies
use meshcop_rs.Duplicates.Replies.{fresh, Reachable-bounded, reply_to-forget_border_agent}

abbrev second : ℕ
second = 1_000_000_000

abbrev one : AnsweredMessages
one = record {
  entries =
      record { origin = mesh 7 61631; message_id = 5; reply = empty_ack 5; at = 10 * second } ∷ [];
}

remember-one : remember new_answered (10 * second) (mesh 7 61631) 5 (empty_ack 5) ≡ one
unfolding remember drop_expired make_room
remember-one = refl

reply_to-one : (reply_to one (256 * second) (mesh 7 61631) 5).0 ≡ some (empty_ack 5)
unfolding reply_to drop_expired is_expired find_reply answers destination_eq
reply_to-one = refl

reply_to-expired : (reply_to one (257 * second) (mesh 7 61631) 5).0 ≡ none
unfolding reply_to drop_expired is_expired find_reply
reply_to-expired = refl

other_reply : (reply_to one (19 * second) (mesh 8 61631) 5).0 ≡ none
unfolding reply_to drop_expired is_expired find_reply answers destination_eq
other_reply = refl

-- Another message is looked up and remembered, a copy is answered, and the session is reopened.
abbrev calls : List Call
calls =
    looked_up (30 * second) border_agent 6
    ∷ remembered (31 * second) border_agent 6 (empty_ack 6)
    ∷ looked_up (40 * second) (mesh 8 61631) 5
    ∷ reopened
    ∷ []

calls-AreHarmless : All (IsHarmless (20 * second + 247 * second) (mesh 8 61631)) calls
unfolding IsHarmless
calls-AreHarmless = (omega arith, (omega arith, (omega arith, ((λ e. cc), tt))))

calls_few : added calls ≤ 63
unfolding added
calls_few = omega arith

reply_to-remember_example :
    let before = (reply_to one (19 * second) (mesh 8 61631) 5).1 in
    let after = run calls (remember before (20 * second) (mesh 8 61631) 5 (empty_ack 5)) in
    (reply_to after (200 * second) (mesh 8 61631) 5).0 ≡ some (empty_ack 5)
reply_to-remember_example =
    reply_to-remember one (19 * second) (20 * second) (200 * second) (mesh 8 61631) 5 (empty_ack 5)
      calls other_reply (omega arith) calls-AreHarmless calls_few

Reachable-bounded_example :
    length (remember new_answered (10 * second) (mesh 7 61631) 5 (empty_ack 5)).entries ≤ 64
Reachable-bounded_example =
    Reachable-bounded (remember new_answered (10 * second) (mesh 7 61631) 5 (empty_ack 5))
      (Replies.remembered new_answered (10 * second) (mesh 7 61631) 5 (empty_ack 5) fresh)

reply_to-forget_border_agent_example :
    (reply_to (forget_border_agent one) (20 * second) border_agent 5).0 ≡ none
reply_to-forget_border_agent_example = reply_to-forget_border_agent one (20 * second) 5
