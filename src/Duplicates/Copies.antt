-- ===== src/Duplicates/Copies.antt =====
-- duplicates.rs: the reply that the later copies of a message get.
use meshcop_rs.Base.{
  ℕ, suc, ◌+◌, ◌≤◌, ◌<◌, ◌≡◌, ◌≢◌, refl, ap, ◌∙◌, true, false, Bool-cases, inl, inr, none, some,
  List, [], ◌∷◌, ◌++◌, append_assoc, arith, ◌==◌, ==_refl, length, length-append, All,
}
use meshcop_rs.Coap.{CoapMessage}
use meshcop_rs.Duplicates.{
  Destination, border_agent, mesh, destination_eq, max_remembered, Answered, AnsweredMessages,
  is_expired, drop_expired, forget_expired, answers, find_reply, reply_to, pop_front, make_room,
  remember, retain_mesh, forget_border_agent, exchange_lifetime,
}
use meshcop_rs.Duplicates.Replies.{
  destination_eq_refl, length-retain_mesh, find_reply-skip, find_reply-make_room, map-none,
  find_reply-drop_none,
}
use mathlib.Core.Option

-- A call of the driver, with its time where it reads the clock.
pub data Call : Type 0 where
  looked_up : ℕ → Destination → ℕ → Call
  remembered : ℕ → Destination → ℕ → CoapMessage → Call
  reopened : Call

pub step : Call → AnsweredMessages → AnsweredMessages
step (looked_up now origin message_id) s = (reply_to s now origin message_id).1
step (remembered now origin message_id reply) s = remember s now origin message_id reply
step reopened s = forget_border_agent s

pub run : List Call → AnsweredMessages → AnsweredMessages
run [] s = s
run (call ∷ calls) s = run calls (step call s)

-- How many messages the calls add.
unfoldable pub added : List Call → ℕ
added [] = 0
added (looked_up now origin message_id ∷ calls) = added calls
added (remembered now origin message_id reply ∷ calls) = suc (added calls)
added (reopened ∷ calls) = added calls

-- The call is made before the deadline, and is no reopening where the origin is the border agent.
unfoldable pub IsHarmless : ℕ → Destination → Call → Type 0
IsHarmless deadline from (looked_up now origin message_id) = now < deadline
IsHarmless deadline from (remembered now origin message_id reply) = now < deadline
IsHarmless deadline from reopened = from ≢ border_agent

retain_mesh-append :
    (xs ys : List Answered) → retain_mesh (xs ++ ys) ≡ retain_mesh xs ++ retain_mesh ys
unfolding retain_mesh
retain_mesh-append [] ys = refl
retain_mesh-append (x ∷ xs) ys =
    let ih = retain_mesh-append xs ys in
    elim (Bool-cases (destination_eq x.origin border_agent)) [
      | inl agent ↦ rw agent ih
      | inr kept ↦ rw kept (ap (◌∷◌ x) ih)
    ]

find_reply-retain_none :
    (origin : Destination) (message_id : ℕ) (es : List Answered)
    → find_reply origin message_id es ≡ none
    → find_reply origin message_id (retain_mesh es) ≡ none
unfolding retain_mesh find_reply
find_reply-retain_none origin message_id [] h = h
find_reply-retain_none origin message_id (e ∷ es) h =
    let (skip, h') = find_reply-skip e es origin message_id h in
    let ih = find_reply-retain_none origin message_id es h' in
    elim (Bool-cases (destination_eq e.origin border_agent)) [
      | inl agent ↦ rw agent ih
      | inr kept ↦ rw (kept, skip) ih
    ]

added_cons :
    (call : Call) (calls : List Call) → added (call ∷ calls) ≡ added (call ∷ []) + added calls
unfolding added
added_cons (looked_up now origin message_id) calls = omega arith
added_cons (remembered now origin message_id reply) calls = omega arith
added_cons reopened calls = omega arith

not_border_agent : (d : Destination) → d ≢ border_agent → destination_eq d border_agent ≡ false
unfolding destination_eq
not_border_agent border_agent h = absurd (h refl)
not_border_agent (mesh a p) h = refl

module _ (e : Answered) where
  -- The entry is in the list, nothing in front of it answers, and at most `k` entries follow.
  record Holds (k : ℕ) (es : List Answered) : Type 0 where
    before : List Answered
    after : List Answered
    whole : es ≡ before ++ (e ∷ after)
    first : find_reply e.origin e.message_id before ≡ none
    few : length after ≤ k

  retain_mesh-kept :
      (after : List Answered)
      → destination_eq e.origin border_agent ≡ false
      → retain_mesh (e ∷ after) ≡ e ∷ retain_mesh after
  unfolding retain_mesh
  retain_mesh-kept after kept = rw kept refl

  drop_expired-before :
      (now : ℕ) (before after : List Answered)
      → is_expired now e ≡ false
      → find_reply e.origin e.message_id before ≡ none
      → (rest : List Answered) × (drop_expired now (before ++ (e ∷ after)) ≡ rest ++ (e ∷ after))
        × (find_reply e.origin e.message_id rest ≡ none)
  unfolding drop_expired
  drop_expired-before now [] after alive h = ([], rw alive refl, h)
  drop_expired-before now (b ∷ before) after alive h =
      let h' = (find_reply-skip b before e.origin e.message_id h).1 in
      let (rest, dropped, nothing) = drop_expired-before now before after alive h' in
      elim (Bool-cases (is_expired now b)) [
        | inl gone ↦ (rest, rw gone dropped, nothing)
        | inr kept ↦ (b ∷ before, rw kept refl, h)
      ]

  Holds-drop_expired :
      (k now : ℕ) (es : List Answered)
      → is_expired now e ≡ false
      → Holds k es
      → Holds k (drop_expired now es)
  Holds-drop_expired k now es alive h =
      let (rest, dropped, nothing) = drop_expired-before now h.before h.after alive h.first in
      record {
        before = rest;
        after = h.after;
        whole = ap (drop_expired now) h.whole ∙ dropped;
        first = nothing;
        few = h.few;
      }

  Holds-retain_mesh :
      (k : ℕ) (es : List Answered)
      → destination_eq e.origin border_agent ≡ false
      → Holds k es
      → Holds k (retain_mesh es)
  Holds-retain_mesh k es kept h = record {
    before = retain_mesh h.before;
    after = retain_mesh h.after;
    whole =
        ap retain_mesh h.whole
        ∙ retain_mesh-append h.before (e ∷ h.after)
        ∙ ap (λ l. retain_mesh h.before ++ l) (retain_mesh-kept h.after kept);
    first = find_reply-retain_none e.origin e.message_id h.before h.first;
    few = let bound = h.few in omega (arith, length-retain_mesh h.after);
  }

  -- Where fewer than 63 entries follow, the one that makes room is another one.
  make_room-before :
      (before after : List Answered)
      → length after ≤ 62
      → find_reply e.origin e.message_id before ≡ none
      → (rest : List Answered) × (make_room (before ++ (e ∷ after)) ≡ rest ++ (e ∷ after))
        × (find_reply e.origin e.message_id rest ≡ none)
  unfolding make_room pop_front
  make_room-before [] after few h =
      let test : (suc (length after) == max_remembered) ≡ false = ground arith in
      ([], rw test refl, h)
  make_room-before (b ∷ before) after few h =
      elim (Bool-cases (length (b ∷ (before ++ (e ∷ after))) == max_remembered)) [
        | inl full ↦ (before, rw full refl, (find_reply-skip b before e.origin e.message_id h).1)
        | inr room ↦ (b ∷ before, rw room refl, h)
      ]

  Holds-make_room :
      (k : ℕ) (new : Answered) (es : List Answered)
      → k ≤ 62
      → Holds k es
      → Holds (suc k) (make_room es ++ (new ∷ []))
  Holds-make_room k new es small h =
      let bound = h.few in
      let (rest, made, first) = make_room-before h.before h.after (omega arith) h.first in
      record {
        before = rest;
        after = h.after ++ (new ∷ []);
        whole =
            ap (λ l. make_room l ++ (new ∷ [])) h.whole
            ∙ ap (λ l. l ++ (new ∷ [])) made
            ∙ append_assoc rest (e ∷ h.after) (new ∷ []);
        first = first;
        few = omega (arith, length-append h.after (new ∷ []));
      }

  Holds-more : (k n : ℕ) (es : List Answered) → k ≤ n → Holds k es → Holds n es
  Holds-more k n es le h = record {
    before = h.before;
    after = h.after;
    whole = h.whole;
    first = h.first;
    few = let bound = h.few in omega arith;
  }

  alive_at : (now : ℕ) → now < e.at + exchange_lifetime → is_expired now e ≡ false
  unfolding is_expired
  alive_at now soon = ground arith

  find_reply-behind :
      (before after : List Answered)
      → answers e.origin e.message_id e ≡ true
      → find_reply e.origin e.message_id before ≡ none
      → find_reply e.origin e.message_id (before ++ (e ∷ after)) ≡ some e
  unfolding find_reply
  find_reply-behind [] after a h = rw a refl
  find_reply-behind (b ∷ before) after a h =
      let (skip, h') = find_reply-skip b before e.origin e.message_id h in
      rw skip (find_reply-behind before after a h')

  -- Harmless calls keep the entry.
  Holds-step :
      (call : Call) (k : ℕ) (s : AnsweredMessages)
      → IsHarmless (e.at + exchange_lifetime) e.origin call
      → k + added (call ∷ []) ≤ 63
      → Holds k s.entries
      → Holds (k + added (call ∷ [])) (step call s).entries
  unfolding step added IsHarmless reply_to remember forget_expired forget_border_agent
  Holds-step (looked_up now origin message_id) k s soon room h =
      let same : k + 0 ≡ k = omega arith in
      rw same (Holds-drop_expired k now s.entries (alive_at now soon) h)
  Holds-step (remembered now origin message_id reply) k s soon room h =
      let next : k + 1 ≡ suc k = omega arith in
      rw next (
        Holds-make_room k _ (drop_expired now s.entries) (omega arith)
          (Holds-drop_expired k now s.entries (alive_at now soon) h))
  Holds-step reopened k s other room h =
      let same : k + 0 ≡ k = omega arith in
      rw same (Holds-retain_mesh k s.entries (not_border_agent e.origin other) h)

  Holds-run :
      (calls : List Call) (k : ℕ) (s : AnsweredMessages)
      → All (IsHarmless (e.at + exchange_lifetime) e.origin) calls
      → k + added calls ≤ 63
      → Holds k s.entries
      → Holds (k + added calls) (run calls s).entries
  unfolding run
  Holds-run [] k s harmless room h = Holds-more k (k + added []) _ (omega arith) h
  Holds-run (call ∷ calls) k s harmless room h =
      let sum = added_cons call calls in
      let next = Holds-step call k s harmless.0 (omega arith) h in
      let done =
        Holds-run calls (k + added (call ∷ [])) (step call s) harmless.1 (omega arith) next in
      Holds-more (k + added (call ∷ []) + added calls) (k + added (call ∷ calls)) _ (omega arith)
        done

-- A message that had no reply when it was looked up is remembered with one. After any calls within
-- the exchange lifetime from then on that remember at most 63 other messages, and no reopening where
-- the message came from the border agent, a copy of it within that lifetime gets the reply.
pub reply_to-remember :
    (s : AnsweredMessages) (asked now later : ℕ) (origin : Destination) (message_id : ℕ)
    (reply : CoapMessage) (calls : List Call)
    → (reply_to s asked origin message_id).0 ≡ none
    → later < now + 247_000_000_000
    → All (IsHarmless (now + 247_000_000_000) origin) calls
    → added calls ≤ 63
    → let before = (reply_to s asked origin message_id).1 in
      let after = run calls (remember before now origin message_id reply) in
      (reply_to after later origin message_id).0 ≡ some reply
unfolding reply_to remember forget_expired
reply_to-remember s asked now later origin message_id reply calls h soon harmless few =
    let e : Answered = record {
      origin = origin;
      message_id = message_id;
      reply = reply;
      at = now;
    } in
    let test : answers origin message_id e ≡ true =
      unfold answers in rw (destination_eq_refl origin, ==_refl message_id) refl in
    let kept = drop_expired now (drop_expired asked s.entries) in
    let nothing = find_reply-make_room origin message_id kept (
      find_reply-drop_none now origin message_id (drop_expired asked s.entries)
        (map-none (find_reply origin message_id (drop_expired asked s.entries)) h)) in
    let start : Holds e 0 (make_room kept ++ (e ∷ [])) = record {
      before = make_room kept;
      after = [];
      whole = refl;
      first = nothing;
      few = omega arith;
    } in
    let s' : AnsweredMessages = record { entries = make_room kept ++ (e ∷ []) } in
    let later_on = Holds-run e calls 0 s' harmless (omega arith) start in
    let still = Holds-drop_expired e (0 + added calls) later _ (alive_at e later soon) later_on in
    ap (Option.map (λ (x : Answered). x.reply)) (
      ap (find_reply origin message_id) still.whole
      ∙ find_reply-behind e still.before still.after test still.first)
