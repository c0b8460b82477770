-- ===== src/Config/Building.antt =====
-- config.rs: which builders build.
use meshcop_rs.Base.{
  ◌≤◌, ◌≡◌, ◌≢◌, refl, sym, ap, ◌∙◌, true, not, ◌&&◌, ◌==◌, leb, arith, Option, some, ok, >>=-ok,
  guard-ok, ok_or-ok, ◌>>=◌, ◌>>◌, guard, ok_or,
}
use meshcop_rs.Error.{configuration}
use meshcop_rs.Config.{
  CommissionerConfig, CommissionerConfigBuilder, Pskc, validate, build, built,
  min_keepalive_interval, max_keepalive_interval,
}

-- What a configuration has to keep to; the interval is one of 30 to 45 seconds.
pub record IsValid (c : CommissionerConfig) : Type 0 where
  pub slow_enough : 30_000_000_000 ≤ c.keepalive_interval
  pub fast_enough : c.keepalive_interval ≤ 45_000_000_000
  pub has_room : c.event_capacity ≢ 0

-- The configuration has the fields of the builder.
pub record HasFields (b : CommissionerConfigBuilder) (c : CommissionerConfig) : Type 0 where
  pub same_id : c.commissioner_id ≡ b.commissioner_id
  pub same_pskc : b.pskc ≡ some c.pskc
  pub same_interval : c.keepalive_interval ≡ b.keepalive_interval
  pub same_keep_alive : c.keep_alive ≡ b.keep_alive
  pub same_capacity : c.event_capacity ≡ b.event_capacity
  pub same_domain : c.domain_name ≡ b.domain_name
  pub same_ccm : c.enable_ccm ≡ b.enable_ccm

built-HasFields :
    (b : CommissionerConfigBuilder) (p : Pskc) → b.pskc ≡ some p → HasFields b (built b p)
unfolding built
built-HasFields b p has = record {
  same_id = refl;
  same_pskc = has;
  same_interval = refl;
  same_keep_alive = refl;
  same_capacity = refl;
  same_domain = refl;
  same_ccm = refl;
}

validate-IsValid : (c : CommissionerConfig) → validate c ≡ ok tt → IsValid c
unfolding validate
validate-IsValid c e =
    let (interval, rest) =
      guard-ok
        (leb min_keepalive_interval c.keepalive_interval
          && leb c.keepalive_interval max_keepalive_interval)
        (configuration "keepalive interval must be between 30 and 45 seconds")
        (guard (not (c.event_capacity == 0)) (configuration "event capacity must be non-zero")
          >> ok tt)
        e in
    let (capacity, _) =
      guard-ok (not (c.event_capacity == 0)) (configuration "event capacity must be non-zero")
        (ok tt) rest in
    record {
      slow_enough = ground arith;
      fast_enough = ground arith;
      has_room = λ zero_is. absurd (ground arith);
    }

IsValid-validate : (c : CommissionerConfig) → IsValid c → validate c ≡ ok tt
unfolding validate
IsValid-validate c v =
    let slow = v.slow_enough in
    let fast = v.fast_enough in
    let interval : (leb min_keepalive_interval c.keepalive_interval
          && leb c.keepalive_interval max_keepalive_interval)
        ≡ true =
      ground arith in
    let capacity : not (c.event_capacity == 0) ≡ true = ground (arith, v.has_room) in
    rw (interval, capacity) refl

-- What is built has the fields of its builder and is valid: the builder had a PSKc, a keep-alive
-- interval of 30 to 45 seconds and room for an event. Every builder with these builds.
pub build-IsValid :
    (b : CommissionerConfigBuilder)
    → ((c : CommissionerConfig) → build b ≡ ok c → IsValid c × HasFields b c)
      × ((p : Pskc)
          → b.pskc ≡ some p
          → 30_000_000_000 ≤ b.keepalive_interval
          → b.keepalive_interval ≤ 45_000_000_000
          → b.event_capacity ≢ 0
          → (c : CommissionerConfig) × (build b ≡ ok c) × HasFields b c)
unfolding build
build-IsValid b = (
  λ c e.
      let (p, has, rest) =
        >>=-ok (ok_or b.pskc (configuration "a PSKc is required"))
          (λ q. validate (built b q) >>= λ _. ok (built b q)) e in
      let (_, valid, made) = >>=-ok (validate (built b p)) (λ _. ok (built b p)) rest in
      let c_is : built b p ≡ c = cc in
      let fields = built-HasFields b p (ok_or-ok b.pskc (configuration "a PSKc is required") has) in
      rw (sym c_is) (validate-IsValid (built b p) valid, fields),
  λ p has slow fast room.
      let v : IsValid (built b p) =
        unfold built in record { slow_enough = slow; fast_enough = fast; has_room = room } in
      let run =
        ap
          (λ (o : Option Pskc). ok_or o (configuration "a PSKc is required") >>= λ q.
            validate (built b q) >>= λ _. ok (built b q))
          has
        ∙ ap (λ r. r >>= λ _. ok (built b p)) (IsValid-validate (built b p) v) in
      (built b p, run, built-HasFields b p has),
)
