-- ===== src/Config/Examples.antt =====
-- Runs of config.rs, and its theorem at a concrete input.
use meshcop_rs.Base.{◌≤◌, ◌≡◌, ◌≢◌, refl, true, [], ◌∷◌, some, ok, err, replicate}
use meshcop_rs.Error.{configuration}
use meshcop_rs.Config.{
  CommissionerConfig, CommissionerConfigBuilder, Pskc, manual, new_builder, with_pskc,
  with_keepalive_interval, with_event_capacity, build, built, validate,
}
use meshcop_rs.Config.Building.{IsValid, HasFields, build-IsValid}

abbrev key : Pskc
key = record { bytes = replicate 16 7 }

without_pskc : build (new_builder []) ≡ err (configuration "a PSKc is required")
unfolding build new_builder
without_pskc = refl

too_often :
    build (with_keepalive_interval (with_pskc (new_builder []) key) 29_999_999_999)
    ≡ err (configuration "keepalive interval must be between 30 and 45 seconds")
unfolding build new_builder with_pskc with_keepalive_interval validate built
too_often = refl

no_events :
    build (with_event_capacity (with_pskc (new_builder []) key) 0)
    ≡ err (configuration "event capacity must be non-zero")
unfolding build new_builder with_pskc with_event_capacity validate built
no_events = refl

-- Every field differs from its default.
abbrev builder : CommissionerConfigBuilder
builder = record {
  commissioner_id = 1 ∷ [];
  pskc = some key;
  keepalive_interval = 30_000_000_000;
  keep_alive = manual;
  event_capacity = 1;
  domain_name = 2 ∷ [];
  enable_ccm = true;
}

build-IsValid_example :
    ((c : CommissionerConfig) → build builder ≡ ok c → IsValid c × HasFields builder c)
    × ((p : Pskc)
        → builder.pskc ≡ some p
        → 30_000_000_000 ≤ builder.keepalive_interval
        → builder.keepalive_interval ≤ 45_000_000_000
        → builder.event_capacity ≢ 0
        → (c : CommissionerConfig) × (build builder ≡ ok c) × HasFields builder c)
build-IsValid_example = build-IsValid builder
