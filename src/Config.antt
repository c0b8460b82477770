-- ===== src/Config.antt =====
-- crates/meshcop/src/commissioner/config.rs, with pskc_from_active_dataset of crypto/pskc.rs. A time
-- is a number of nanoseconds, a text the list of its bytes. A builder method returns the builder that it leaves.
pub mod Building
mod Examples
use meshcop_rs.Base.{
  ℕ, ◌*◌, Bool, true, false, not, ◌&&◌, [], ◌∷◌, ◌==◌, leb, Option, none, some, Result, ok, err,
  ◌>>=◌, ◌>>◌, guard, ok_or, length,
}
use meshcop_rs.Base.Bytes.{Bytes}
use meshcop_rs.Dataset.{OperationalDataset}
use meshcop_rs.Dataset
use meshcop_rs.Error.{Error, configuration, dataset}

abbrev pub min_keepalive_interval : ℕ
min_keepalive_interval = 30 * 1_000_000_000

abbrev pub max_keepalive_interval : ℕ
max_keepalive_interval = 45 * 1_000_000_000

abbrev pub default_keepalive_interval : ℕ
default_keepalive_interval = 40 * 1_000_000_000

-- "Thread"
abbrev pub default_domain_name : Bytes
default_domain_name = 0x54 ∷ 0x68 ∷ 0x72 ∷ 0x65 ∷ 0x61 ∷ 0x64 ∷ []

abbrev pub default_event_capacity : ℕ
default_event_capacity = 64

pub data KeepAlive : Type 0 where
  automatic manual : KeepAlive

pub record Pskc : Type 0 where
  pub bytes : Bytes

pub pskc_from_active_dataset : OperationalDataset → Result Error Pskc
pskc_from_active_dataset d = do
  value ← ok_or (Dataset.pskc d) (dataset "dataset does not contain PSKc")
  guard (length value == 16) (dataset "PSKc TLV must be 16 bytes")
  ok (record { bytes = value })

pub record CommissionerConfig : Type 0 where
  pub commissioner_id : Bytes
  pub pskc : Pskc
  pub keepalive_interval : ℕ
  pub keep_alive : KeepAlive
  pub event_capacity : ℕ
  pub domain_name : Bytes
  pub enable_ccm : Bool

pub pskc_config : Bytes → Pskc → CommissionerConfig
pskc_config commissioner_id pskc = record {
  commissioner_id = commissioner_id;
  pskc = pskc;
  keepalive_interval = default_keepalive_interval;
  keep_alive = automatic;
  event_capacity = default_event_capacity;
  domain_name = default_domain_name;
  enable_ccm = false;
}

pub config_from_dataset : Bytes → OperationalDataset → Result Error CommissionerConfig
config_from_dataset commissioner_id d = do
  pskc ← pskc_from_active_dataset d
  ok (pskc_config commissioner_id pskc)

pub validate : CommissionerConfig → Result Error (Unit {0})
validate c = do
  guard
      (leb min_keepalive_interval c.keepalive_interval
        && leb c.keepalive_interval max_keepalive_interval)
      (configuration "keepalive interval must be between 30 and 45 seconds")
  guard (not (c.event_capacity == 0)) (configuration "event capacity must be non-zero")
  ok tt

pub record CommissionerConfigBuilder : Type 0 where
  pub commissioner_id : Bytes
  pub pskc : Option Pskc
  pub keepalive_interval : ℕ
  pub keep_alive : KeepAlive
  pub event_capacity : ℕ
  pub domain_name : Bytes
  pub enable_ccm : Bool

pub new_builder : Bytes → CommissionerConfigBuilder
new_builder commissioner_id = record {
  commissioner_id = commissioner_id;
  pskc = none;
  keepalive_interval = default_keepalive_interval;
  keep_alive = automatic;
  event_capacity = default_event_capacity;
  domain_name = default_domain_name;
  enable_ccm = false;
}

pub with_pskc : CommissionerConfigBuilder → Pskc → CommissionerConfigBuilder
with_pskc b p = record b { pskc = some p }

pub from_dataset :
    CommissionerConfigBuilder → OperationalDataset → Result Error CommissionerConfigBuilder
unfolding with_pskc
from_dataset b d = do pskc ← pskc_from_active_dataset d; ok (with_pskc b pskc)

pub with_keepalive_interval : CommissionerConfigBuilder → ℕ → CommissionerConfigBuilder
with_keepalive_interval b interval = record b { keepalive_interval = interval }

pub with_keep_alive : CommissionerConfigBuilder → KeepAlive → CommissionerConfigBuilder
with_keep_alive b k = record b { keep_alive = k }

pub with_event_capacity : CommissionerConfigBuilder → ℕ → CommissionerConfigBuilder
with_event_capacity b capacity = record b { event_capacity = capacity }

pub with_domain_name : CommissionerConfigBuilder → Bytes → CommissionerConfigBuilder
with_domain_name b name = record b { domain_name = name }

pub with_enable_ccm : CommissionerConfigBuilder → Bool → CommissionerConfigBuilder
with_enable_ccm b enabled = record b { enable_ccm = enabled }

pub built : CommissionerConfigBuilder → Pskc → CommissionerConfig
built b p = record {
  commissioner_id = b.commissioner_id;
  pskc = p;
  keepalive_interval = b.keepalive_interval;
  keep_alive = b.keep_alive;
  event_capacity = b.event_capacity;
  domain_name = b.domain_name;
  enable_ccm = b.enable_ccm;
}

pub build : CommissionerConfigBuilder → Result Error CommissionerConfig
build b = do
  p ← ok_or b.pskc (configuration "a PSKc is required")
  _ ← validate (built b p)
  ok (built b p)
