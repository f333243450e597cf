-- ===== src/SmfSim/Config.antt =====
-- smf-sim/src/config.rs: the configuration of the simulator. Reading it from a file is not modelled;
-- the defaults of missing entries are given by name.
use upf_edge.Prelude.{ℕ}

pub record NetworkConfig : Type 0 where
  pub smf_n4_addr : ℕ
  pub smf_n4_port : ℕ
  pub upf_n4_addr : ℕ
  pub upf_n4_port : ℕ
  pub gnb_addr : ℕ
  pub gnb_gtpu_port : ℕ

pub record SessionConfig : Type 0 where
  pub ue_ip_pool_start : ℕ
  pub ue_ip_pool_end : ℕ
  pub gnb_teid_start : ℕ
  pub max_sessions : ℕ

pub record TimingConfig : Type 0 where
  pub heartbeat_interval_sec : ℕ
  pub response_timeout_ms : ℕ
  pub max_retries : ℕ

pub record SimConfig : Type 0 where
  pub network : NetworkConfig
  pub session : SessionConfig
  pub timing : TimingConfig

abbrev pub default_pfcp_port : ℕ
default_pfcp_port = 8805

abbrev pub default_gtpu_port : ℕ
default_gtpu_port = 2152

abbrev pub default_gnb_teid_start : ℕ
default_gnb_teid_start = 0x80000001

abbrev pub default_max_sessions : ℕ
default_max_sessions = 100

abbrev pub default_heartbeat_interval : ℕ
default_heartbeat_interval = 15

abbrev pub default_response_timeout : ℕ
default_response_timeout = 5000

abbrev pub default_max_retries : ℕ
default_max_retries = 3
