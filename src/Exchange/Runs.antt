-- ===== src/Exchange/Runs.antt =====
-- exchange.rs: the states of the exchanges that the driver can bring about.
use meshcop_rs.Base.{
  ℕ, ◌≡◌, refl, sym, ap, ◌∙◌, Bool, Bool-cases, inl, inr, List, [], ◌∷◌, ◌++◌, Option, none, some,
  arith, Option-cases,
}
use meshcop_rs.Base.Bytes.{Bytes}
use meshcop_rs.Coap.{CoapMessage}
use meshcop_rs.Duplicates.{Destination}
use meshcop_rs.Exchange.{
  Completion, Outbound, Pending, Exchanges, unused_token, assign_identity, tracked, retransmitted,
  silenced, silence_first, acknowledge, take_first, take_answered, is_answered, is_acknowledged,
  withdraw, withdraw_found, withdraw_in_flight, drain, is_caller,
}
use meshcop_rs.Exchange.Search.{take_first-Splits}
use meshcop_rs.Exchange.Tokens.{
  tokens, IsFresh, HasDistinct, HasDistinct-append_one, HasDistinct-without, unused_token-IsFresh,
  tokens-append,
}
use Prim.Native.String.{String}

-- The driver sends a request under a fresh identity and tracks it, queues requests and takes them
-- off the queue, sends an exchange again or removes it as a timer is due, and does the operations
-- for acknowledgements, answers, withdrawals and the end of a session.
pub data Reachable : Exchanges → Type 0 where
  fresh : Reachable (record { in_flight = []; queued = [] })
  sent :
      (x : Exchanges) (n next now random : ℕ) (draws rest : List Bytes) (m identified : CoapMessage)
      (d : Destination) (label : String) (c : Completion)
      → Reachable x
      → assign_identity n draws x.in_flight m ≡ some (next, identified, rest)
      → Reachable (record {
        in_flight = x.in_flight ++ (tracked now random identified d label c ∷ []);
        queued = x.queued;
      })
  requeued :
      (x : Exchanges) (queue : List (Outbound × Completion))
      → Reachable x
      → Reachable (record { in_flight = x.in_flight; queued = queue })
  resent :
      (x : Exchanges) (now : ℕ) (front : List Pending) (p : Pending) (back : List Pending)
      → Reachable x
      → x.in_flight ≡ front ++ (p ∷ back)
      → Reachable (record { in_flight = front ++ (retransmitted now p ∷ back); queued = x.queued })
  expired :
      (x : Exchanges) (front : List Pending) (p : Pending) (back : List Pending)
      → Reachable x
      → x.in_flight ≡ front ++ (p ∷ back)
      → Reachable (record { in_flight = front ++ back; queued = x.queued })
  acknowledged :
      (x : Exchanges) (ack : CoapMessage) (proxied : Bool)
      → Reachable x
      → Reachable (acknowledge x ack proxied).1
  answered :
      (x : Exchanges) (response : CoapMessage) (proxied : Bool)
      → Reachable x
      → Reachable (take_answered x response proxied).1
  withdrawn : (x : Exchanges) (id : ℕ) → Reachable x → Reachable (withdraw x id).1
  ended : (x : Exchanges) → Reachable x → Reachable (drain x).1

retransmitted-request : (now : ℕ) (p : Pending) → (retransmitted now p).request ≡ p.request
unfolding retransmitted
retransmitted-request now p = elim (Option-cases p.retransmit) [
  | inl none_is ↦ rw none_is refl
  | inr (schedule, some_is) ↦ rw some_is refl
]

tokens-silence_first :
    (ack : CoapMessage) (proxied : Bool) (ps : List Pending)
    → tokens (silence_first ack proxied ps).1 ≡ tokens ps
unfolding tokens silence_first silenced
tokens-silence_first ack proxied [] = refl
tokens-silence_first ack proxied (p ∷ ps) = elim (Bool-cases (is_acknowledged ack proxied p)) [
  | inl here ↦ rw here refl
  | inr elsewhere ↦ rw elsewhere (ap (◌∷◌ p.request.token) (tokens-silence_first ack proxied ps))
]

tokens-around :
    (front : List Pending) (p : Pending) (back : List Pending)
    → tokens (front ++ (p ∷ back)) ≡ tokens front ++ (p.request.token ∷ tokens back)
unfolding tokens
tokens-around front p back = tokens-append front (p ∷ back)

-- Removing an exchange leaves distinct tokens distinct.
without :
    (ps front : List Pending) (p : Pending) (back : List Pending)
    → ps ≡ front ++ (p ∷ back)
    → HasDistinct (tokens ps)
    → HasDistinct (tokens (front ++ back))
without ps front p back e d =
    let split : tokens ps ≡ tokens front ++ (p.request.token ∷ tokens back) =
      ap tokens e ∙ tokens-around front p back in
    let d' : HasDistinct (tokens front ++ (p.request.token ∷ tokens back)) = rw (sym split) d in
    rw (tokens-append front back)
      (HasDistinct-without (tokens front) p.request.token (tokens back) d')

taken :
    (test : Pending → Bool) (ps : List Pending) (p : Pending) (others : List Pending)
    → take_first test ps ≡ some (p, others)
    → HasDistinct (tokens ps)
    → HasDistinct (tokens others)
taken test ps p others e d =
    let (front, back, ps_is, others_is, _, _) = take_first-Splits test ps p others e in
    rw others_is (without ps front p back ps_is d)

ap_token : Option (ℕ × CoapMessage × List Bytes) → Option Bytes
ap_token none = none
ap_token (some (next, m, rest)) = some m.token

some_inj : {a b : Bytes} → some a ≡ some b → a ≡ b
some_inj e = cc

assign_identity-IsFresh :
    (n next : ℕ) (draws rest : List Bytes) (ps : List Pending) (m identified : CoapMessage)
    → assign_identity n draws ps m ≡ some (next, identified, rest)
    → IsFresh identified.token (tokens ps)
unfolding assign_identity ap_token
assign_identity-IsFresh n next draws rest ps m identified e =
    elim (Option-cases (unused_token draws ps)) [
      | inl stuck ↦ absurd (ground arith)
      | inr ((token, left), found) ↦
          let step : ap_token (assign_identity n draws ps m) ≡ some token = rw found refl in
          let same : identified.token ≡ token = some_inj (sym (ap ap_token e) ∙ step) in
          rw same (unused_token-IsFresh draws ps token left found)
    ]

module _ (x : Exchanges) (d : HasDistinct (tokens x.in_flight)) where
  sent-HasDistinct :
      (n next now random : ℕ) (draws rest : List Bytes) (m identified : CoapMessage)
      (destination : Destination) (label : String) (c : Completion)
      → assign_identity n draws x.in_flight m ≡ some (next, identified, rest)
      → HasDistinct
          (tokens (x.in_flight ++ (tracked now random identified destination label c ∷ [])))
  unfolding tokens tracked
  sent-HasDistinct n next now random draws rest m identified destination label c e =
      rw (tokens-append x.in_flight (tracked now random identified destination label c ∷ [])) (
        HasDistinct-append_one (tokens x.in_flight) identified.token d
          (assign_identity-IsFresh n next draws rest x.in_flight m identified e))

  resent-HasDistinct :
      (now : ℕ) (front : List Pending) (p : Pending) (back : List Pending)
      → x.in_flight ≡ front ++ (p ∷ back)
      → HasDistinct (tokens (front ++ (retransmitted now p ∷ back)))
  resent-HasDistinct now front p back e =
      let same : tokens (front ++ (retransmitted now p ∷ back)) ≡ tokens (front ++ (p ∷ back)) =
        rw
          (
            tokens-around front (retransmitted now p) back,
            tokens-around front p back,
            retransmitted-request now p,
          )
          refl in
      rw (same, sym e) d

  answered-HasDistinct :
      (response : CoapMessage) (proxied : Bool)
      → HasDistinct (tokens (take_answered x response proxied).1.in_flight)
  unfolding take_answered
  answered-HasDistinct response proxied =
      elim (Option-cases (take_first (is_answered response proxied) x.in_flight)) [
        | inl none_is ↦ rw none_is d
        | inr ((p, others), found) ↦
            rw found (taken (is_answered response proxied) x.in_flight p others found d)
      ]

  withdrawn-HasDistinct : (id : ℕ) → HasDistinct (tokens (withdraw x id).1.in_flight)
  unfolding withdraw withdraw_found withdraw_in_flight
  withdrawn-HasDistinct id =
      found (take_first (λ (entry : Outbound × Completion). is_caller id entry.1) x.queued)
        (take_first (λ (p : Pending). is_caller id p.completion) x.in_flight) refl
    where
      found :
          (queue : Option ((Outbound × Completion) × List (Outbound × Completion)))
          (here : Option (Pending × List Pending))
          → take_first (λ (p : Pending). is_caller id p.completion) x.in_flight ≡ here
          → HasDistinct (tokens (withdraw_found x queue here).1.in_flight)
      found (some entry) here e = d
      found none none e = d
      found none (some (p, others)) e =
          taken (λ (p : Pending). is_caller id p.completion) x.in_flight p others e d

-- In every state that the driver can bring about, no two exchanges in flight have the same token.
pub Reachable-HasDistinct : (x : Exchanges) → Reachable x → HasDistinct (tokens x.in_flight)
unfolding acknowledge drain tokens HasDistinct
Reachable-HasDistinct _ fresh = tt
Reachable-HasDistinct _ (sent x n next now random draws rest m identified d label c r e) =
    sent-HasDistinct x (Reachable-HasDistinct x r) n next now random draws rest m identified d label
      c e
Reachable-HasDistinct _ (requeued x queue r) = Reachable-HasDistinct x r
Reachable-HasDistinct _ (resent x now front p back r e) =
    resent-HasDistinct x (Reachable-HasDistinct x r) now front p back e
Reachable-HasDistinct _ (expired x front p back r e) =
    without x.in_flight front p back e (Reachable-HasDistinct x r)
Reachable-HasDistinct _ (acknowledged x ack proxied r) =
    rw (tokens-silence_first ack proxied x.in_flight) (Reachable-HasDistinct x r)
Reachable-HasDistinct _ (answered x response proxied r) =
    answered-HasDistinct x (Reachable-HasDistinct x r) response proxied
Reachable-HasDistinct _ (withdrawn x id r) = withdrawn-HasDistinct x (Reachable-HasDistinct x r) id
Reachable-HasDistinct _ (ended x r) = tt
