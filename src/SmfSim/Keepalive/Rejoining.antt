-- ===== src/SmfSim/Keepalive/Rejoining.antt =====
-- The keepalive of smf-sim/src/keepalive.rs against the UPF of upf-edge/src/handle_msg.rs.
use upf_edge.Prelude.{ℕ, ◌+◌, ◌^◌, ◌<◌, ◌≡◌, List, [], ◌∷◌, ◌++◌}
use upf_edge.Bytes.{u32_be}
use upf_edge.ControlPlane.{SocketAddr, World, Env}
use upf_edge.ControlPlane.Node.{associated}
use upf_edge.Pfcp.Builder.Rows.{ie}
use upf_edge.Pfcp.Tlv.{Ie}
use upf_edge.Pfcp.Types.{pfcp_ie_recovery_time_stamp}
use upf_edge.SmfSim.Keepalive.{Keeping, upf_restarted, taken}

abbrev stamp : ℕ → List Ie
stamp ts = ie pfcp_ie_recovery_time_stamp (u32_be ts) ∷ []

-- The UPF with the simulator's association.
abbrev pub rejoined : Env → ℕ → ℕ → SocketAddr → World → World
rejoined env smf_addr my_ts src w = record w { server = associated env smf_addr my_ts src w.server }

-- The simulator and a UPF that has lost its associations.
pub record CanRejoin (smf_addr my_ts : ℕ) (k : Keeping) (w : World) : Type 0 where
  pub smf_addr_fits : smf_addr < 2 ^ 32
  pub my_ts_fits : my_ts < 2 ^ 32
  pub seq : k.next_seq + 1 < 2 ^ 24
  pub upf_ts : w.server.recovery_ts < 2 ^ 32
  pub known_ts : k.upf_ts < 2 ^ 32
  pub associations : w.server.associations ≡ []

module _ (env : Env) (ip port smf_addr my_ts : ℕ) (k : Keeping) (w : World)
    (h : CanRejoin smf_addr my_ts k w) where
  abbrev restarted : Keeping
  restarted = record (taken k) {
    upf_ts = w.server.recovery_ts;
    events = k.events ++ (upf_restarted w.server.recovery_ts ∷ []);
  }
