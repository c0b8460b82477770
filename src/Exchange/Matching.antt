-- ===== src/Exchange/Matching.antt =====
-- exchange.rs: which exchange an answer completes.
use meshcop_rs.Base.{
  ℕ, ◌≡◌, refl, sym, ap, ◌∙◌, Bool, true, false, Bool-cases, inl, inr, ◌⊎◌, List, [], ◌∷◌, ◌++◌,
  Option, none, some, All, arith,
}
use meshcop_rs.Base.Bytes.{Bytes, bytes_eq, bytes_eq_refl, bytes_eq-true}
use meshcop_rs.Coap.{CoapMessage, is_reset_for, is_bare}
use meshcop_rs.Exchange.{
  Pending, Exchanges, take_first, take_answered, answered_by, is_answered, is_proxied, is_response,
  same_route,
}
use meshcop_rs.Exchange.Search.{take_first-Splits, take_first-at}
use meshcop_rs.Exchange.Tokens.{tokens, IsFresh, HasDistinct, HasDistinct-front, tokens-append}
use meshcop_rs.Exchange.Runs.{Reachable, Reachable-HasDistinct}

same_route-true : (a b : Bool) → same_route a b ≡ true → a ≡ b
unfolding same_route
same_route-true true true e = refl
same_route-true true false e = cc
same_route-true false true e = cc
same_route-true false false e = refl

same_route_refl : (a : Bool) → same_route a a ≡ true
unfolding same_route
same_route_refl true = refl
same_route_refl false = refl

-- An answer came on the route of the exchange, and resets its message or carries its token.
abbrev pub Answers : CoapMessage → Bool → Pending → Type 0
Answers response proxied p =
    (is_proxied p ≡ proxied)
    × ((is_reset_for response p.request.message_id ≡ true)
        ⊎ ((is_response response ≡ true) × (response.token ≡ p.request.token)))

is_answered-Answers :
    (response : CoapMessage) (proxied : Bool) (p : Pending)
    → is_answered response proxied p ≡ true
    → Answers response proxied p
unfolding is_answered
is_answered-Answers response proxied p e = elim (Bool-cases (same_route (is_proxied p) proxied)) [
  | inr elsewhere ↦ absurd (ground arith)
  | inl here ↦ (
    same_route-true (is_proxied p) proxied here,
    elim (Bool-cases (is_reset_for response p.request.message_id)) [
      | inl r ↦ inl r
      | inr n ↦ elim (Bool-cases (is_response response)) [
        | inr no_response ↦ absurd (ground arith)
        | inl is ↦ inr (is, bytes_eq-true response.token p.request.token (ground arith))
      ]
    ],
  )
]

-- The exchange that a message completes is one in flight on the route by which the message came,
-- which the message resets or whose token it carries: no message from the proxy completes an
-- exchange with the border agent itself. That exchange alone is removed.
pub take_answered-Answers :
    (x after : Exchanges) (response : CoapMessage) (proxied : Bool) (p : Pending)
    → take_answered x response proxied ≡ (some p, after)
    → Answers response proxied p
      × (front : List Pending) × (back : List Pending) × (x.in_flight ≡ front ++ (p ∷ back))
      × (after.in_flight ≡ front ++ back)
      × (after.queued ≡ x.queued)
unfolding take_answered answered_by
take_answered-Answers x after response proxied p e =
    go (take_first (is_answered response proxied) x.in_flight) refl e
  where
    go :
        (found : Option (Pending × List Pending))
        → take_first (is_answered response proxied) x.in_flight ≡ found
        → answered_by x found ≡ (some p, after)
        → Answers response proxied p
          × (front : List Pending) × (back : List Pending) × (x.in_flight ≡ front ++ (p ∷ back))
          × (after.in_flight ≡ front ++ back)
          × (after.queued ≡ x.queued)
    go none t e' = absurd (cc)
    go (some (q, others)) t e' =
        let found : Path (Option Pending) (some q) (some p) = ap (λ r. r.0) e' in
        let is : q ≡ p = cc in
        let (front, back, xs_is, others_is, passes, _) =
          take_first-Splits (is_answered response proxied) x.in_flight q others t in
        (
          is_answered-Answers response proxied p
              (sym (ap (is_answered response proxied) is) ∙ passes),
          front,
          back,
          xs_is ∙ ap (λ r. front ++ (r ∷ back)) is,
          sym (ap (λ r. r.1.in_flight) e') ∙ others_is,
          sym (ap (λ r. r.1.queued) e'),
        )

-- A response is no Reset.
is_reset_for-response : (m : CoapMessage) (n : ℕ) → is_response m ≡ true → is_reset_for m n ≡ false
unfolding is_response is_reset_for is_bare
is_reset_for-response m n e = ground arith

module _ (response : CoapMessage) (proxied : Bool) (token : Bytes)
    (is : is_response response ≡ true) (e : response.token ≡ token) where
  unanswered :
      (ps : List Pending)
      → IsFresh token (tokens ps)
      → All (λ q. is_answered response proxied q ≡ false) ps
  unfolding tokens IsFresh is_answered
  unanswered [] h = tt
  unanswered (q ∷ ps) h = (
    elim (Bool-cases (bytes_eq response.token q.request.token)) [
      | inl same ↦ absurd (h.0 (sym (bytes_eq-true response.token q.request.token same) ∙ e))
      | inr differs ↦ ground (arith, is_reset_for-response response q.request.message_id is)
    ],
    unanswered ps h.1,
  )

is_answered-own :
    (response : CoapMessage) (p : Pending)
    → is_response response ≡ true
    → response.token ≡ p.request.token
    → is_answered response (is_proxied p) p ≡ true
unfolding is_answered
is_answered-own response p is same =
    let equal : bytes_eq response.token p.request.token ≡ true =
      ap (bytes_eq response.token) (sym same) ∙ bytes_eq_refl response.token in
    ground (
      arith,
      equal,
      same_route_refl (is_proxied p),
      is_reset_for-response response p.request.message_id is,
    )

-- In every state that the driver can bring about, a response that carries the token of an exchange
-- in flight and comes on its route completes that exchange and no other.
pub take_answered-response :
    (x : Exchanges) (response : CoapMessage) (front : List Pending) (p : Pending)
    (back : List Pending)
    → Reachable x
    → x.in_flight ≡ front ++ (p ∷ back)
    → is_response response ≡ true
    → response.token ≡ p.request.token
    → take_answered x response (is_proxied p)
      ≡ (some p, record { in_flight = front ++ back; queued = x.queued })
unfolding take_answered answered_by
take_answered-response x response front p back r e is same =
    let split : tokens x.in_flight ≡ tokens front ++ tokens (p ∷ back) =
      ap tokens e ∙ tokens-append front (p ∷ back) in
    let distinct : HasDistinct (tokens front ++ tokens (p ∷ back)) =
      rw (sym split) (Reachable-HasDistinct x r) in
    let fresh : IsFresh p.request.token (tokens front) =
      HasDistinct-front (tokens front) p.request.token (tokens back) (unfold tokens in distinct) in
    let found : take_first (is_answered response (is_proxied p)) x.in_flight
        ≡ some (p, front ++ back) =
      ap (take_first (is_answered response (is_proxied p))) e
      ∙ take_first-at (is_answered response (is_proxied p)) front p back
          (unanswered response (is_proxied p) p.request.token is same front fresh)
          (is_answered-own response p is same) in
    ap (answered_by x) found
