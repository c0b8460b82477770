-- ===== src/Exchange/Withdrawal.antt =====
-- exchange.rs: what a withdrawal takes from the queue and from the exchanges in flight.
use meshcop_rs.Base.{
  ℕ, ◌≡◌, ◌≢◌, refl, ap, Bool, true, false, List, [], ◌∷◌, ◌++◌, Option, none, some, All, arith,
}
use meshcop_rs.Exchange.{
  Completion, Outbound, Pending, Exchanges, take_first, is_caller, withdraw, withdraw_found,
  withdraw_in_flight,
}
use meshcop_rs.Exchange.Search.{take_first-Splits, take_first-none}

-- A request that is not of the caller `id`.
abbrev NotOf : ℕ → Completion → Type 0
NotOf id c = c ≢ Completion.caller id

is_caller-true : (id : ℕ) (c : Completion) → is_caller id c ≡ true → c ≡ Completion.caller id
unfolding is_caller
is_caller-true id (Completion.caller other) e = ap Completion.caller (ground arith)
is_caller-true id Completion.petition e = cc
is_caller-true id (Completion.keep_alive b) e = cc
is_caller-true id (Completion.resign b) e = cc

is_caller-false : (id : ℕ) (c : Completion) → is_caller id c ≡ false → NotOf id c
is_caller-false id c e is =
    let own : is_caller id (Completion.caller id) ≡ true = unfold is_caller in ground arith in
    let same : is_caller id c ≡ is_caller id (Completion.caller id) = ap (is_caller id) is in cc

module _ {A : Type 0} (completion_of : A → Completion) (id : ℕ) where
  abbrev pub NoneOf : List A → Type 0
  NoneOf xs = All (λ x. NotOf id (completion_of x)) xs

  -- The second list is the first one less its first request of the caller.
  abbrev pub LessFirst : List A → List A → Type 0
  LessFirst xs ys =
      (front : List A) × (y : A) × (back : List A) × (xs ≡ front ++ (y ∷ back))
      × (ys ≡ front ++ back)
      × (completion_of y ≡ Completion.caller id)
      × NoneOf front

  All-NotOf : (xs : List A) → All (λ x. is_caller id (completion_of x) ≡ false) xs → NoneOf xs
  All-NotOf [] h = tt
  All-NotOf (x ∷ xs) h = (is_caller-false id (completion_of x) h.0, All-NotOf xs h.1)

  found-LessFirst :
      (xs : List A) (y : A) (ys : List A)
      → take_first (λ x. is_caller id (completion_of x)) xs ≡ some (y, ys)
      → LessFirst xs ys
  found-LessFirst xs y ys e =
      let (front, back, xs_is, ys_is, passes, before) =
        take_first-Splits (λ x. is_caller id (completion_of x)) xs y ys e in
      (
        front,
        y,
        back,
        xs_is,
        ys_is,
        is_caller-true id (completion_of y) passes,
        All-NotOf front before,
      )

  gone-NoneOf :
      (xs : List A) → take_first (λ x. is_caller id (completion_of x)) xs ≡ none → NoneOf xs
  gone-NoneOf xs e = All-NotOf xs (take_first-none (λ x. is_caller id (completion_of x)) xs e)

abbrev pub queued_by : Outbound × Completion → Completion
queued_by entry = entry.1

abbrev pub sent_by : Pending → Completion
sent_by p = p.completion

-- What a withdrawal for the caller `id` reports and leaves, in its three cases: the caller has a
-- request in the queue, none there but one in flight, or none at all.
pub data Withdraws (id : ℕ) (x : Exchanges) : Bool × Exchanges → Type 0 where
  from_queue :
      (others : List (Outbound × Completion))
      → LessFirst queued_by id x.queued others
      → Withdraws id x (true, record { in_flight = x.in_flight; queued = others })
  from_flight :
      (others : List Pending)
      → NoneOf queued_by id x.queued
      → LessFirst sent_by id x.in_flight others
      → Withdraws id x (true, record { in_flight = others; queued = x.queued })
  unknown : NoneOf queued_by id x.queued → NoneOf sent_by id x.in_flight → Withdraws id x (false, x)

-- A withdrawal removes the first request of its caller from the queue, or where the queue has none
-- the first one in flight, and reports true; without a request of the caller it reports false.
-- Every other request, of whatever kind, stays where it was and in its order.
pub withdraw-Withdraws : (x : Exchanges) (id : ℕ) → Withdraws id x (withdraw x id)
unfolding withdraw withdraw_found withdraw_in_flight
withdraw-Withdraws x id =
    go (take_first (λ entry. is_caller id (queued_by entry)) x.queued)
      (take_first (λ p. is_caller id (sent_by p)) x.in_flight) refl refl
  where
    go :
        (queue : Option ((Outbound × Completion) × List (Outbound × Completion)))
        (here : Option (Pending × List Pending))
        → take_first (λ entry. is_caller id (queued_by entry)) x.queued ≡ queue
        → take_first (λ p. is_caller id (sent_by p)) x.in_flight ≡ here
        → Withdraws id x (withdraw_found x queue here)
    go (some (entry, others)) here e e' =
        from_queue others (found-LessFirst queued_by id x.queued entry others e)
    go none (some (p, others)) e e' =
        from_flight others (gone-NoneOf queued_by id x.queued e)
          (found-LessFirst sent_by id x.in_flight p others e')
    go none none e e' =
        unknown (gone-NoneOf queued_by id x.queued e) (gone-NoneOf sent_by id x.in_flight e')
