-- ===== src/SmfSim.antt =====
-- smf-sim/src: the SMF simulator, the peer of the UPF.
pub mod Config
pub mod Validator
pub mod State
pub mod Transport
pub mod Reports
pub mod Scenario
pub mod Answered
pub mod Keepalive
pub mod Single
pub mod Interactive
use Prim.Native.String.{String}
use upf_edge.Prelude.{ℕ, List}
use upf_edge.Pfcp.Header.{PfcpError}

-- The `anyhow` errors of the simulator.
pub data SimError : Type 0 where
  bad_response : PfcpError → SimError
  type_mismatch seq_mismatch : (expected got : ℕ) → SimError
  ie_missing : List String → SimError
  not_accepted : (cause : ℕ) → SimError
  no_fseid zero_seid no_created_pdr no_fteid zero_teid : SimError
  pool_exhausted send_error recv_error timed_out : SimError
