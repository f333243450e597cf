-- ===== src/ControlPlane/Node.antt =====
-- upf-edge/src/handle_msg.rs: the handlers of node messages, heartbeat and association setup.
use upf_edge.Prelude.{ℕ, Bool, false, Option, none, some, List, [], ◌∷◌, if◌then◌else◌, ◌==◌}
use upf_edge.Bytes.{Bytes}
use upf_edge.Pfcp.Header.{PfcpHeader}
use upf_edge.Pfcp.Messages.{decode_heartbeat, decode_association_setup}
use upf_edge.Pfcp.Build.{build_heartbeat_response, build_association_setup_response}
use upf_edge.ControlPlane.{
  SocketAddr, v4, same_addr, SmfAssociation, active, PfcpServer, Env, Handler, bad_message, ◌>>=◌,
  ◌>>◌, return, from_outcome, asks, on_server, get_assoc, insert_assoc,
}

-- The change to the association of a heartbeat's sender; a new recovery time stamp clears its
-- sessions.
abbrev pub heard : ℕ → ℕ → SmfAssociation → SmfAssociation
heard now recv assoc =
    let alive = record assoc {
      last_activity = now;
      heartbeat = record assoc.heartbeat { last_response = some now; consecutive_failures = 0 };
    } in
    if assoc.recovery_ts == recv
    then alive
    else record alive { sessions = (λ cp_seid. none); recovery_ts = recv }

abbrev pub change_by_addr :
    (SmfAssociation → SmfAssociation)
    → SocketAddr
    → List (ℕ × SmfAssociation)
    → List (ℕ × SmfAssociation)
change_by_addr f src [] = []
change_by_addr f src ((j, a) ∷ rest) =
    if same_addr a.peer_addr src then (j, f a) ∷ rest else (j, a) ∷ change_by_addr f src rest

-- Only a heartbeat with a time stamp and from an IPv4 address counts.
unfoldable pub hear : Env → SocketAddr → Option ℕ → PfcpServer → PfcpServer
hear env (v4 ip port) (some recv) srv = record srv {
  associations = change_by_addr (heard env.now recv) (v4 ip port) srv.associations;
}
hear env src recv srv = srv

unfoldable pub handle_heartbeat : Env → PfcpHeader → Bytes → SocketAddr → Handler Bytes
unfolding hear
handle_heartbeat env header body src = do
  req ← from_outcome bad_message (decode_heartbeat body)
  on_server (hear env src req.recovery_ts)
  recovery_ts ← asks (λ w. w.server.recovery_ts)
  return (build_heartbeat_response header.seq_num recovery_ts)

-- `SmfAssociation::new` and `HeartbeatTracker::new`
abbrev pub new_association : Env → ℕ → SocketAddr → ℕ → SmfAssociation
new_association env node_id peer_addr recovery_ts = record {
  node_id = node_id;
  peer_addr = peer_addr;
  recovery_ts = recovery_ts;
  state = active;
  sessions = λ cp_seid. none;
  last_activity = env.now;
  heartbeat = record {
    next_seq = 200;
    last_sent = none;
    last_response = none;
    consecutive_failures = 0;
  };
}

-- A setup with the time stamp that the association has.
abbrev pub is_duplicate : ℕ → Option SmfAssociation → Bool
is_duplicate recovery_ts none = false
is_duplicate recovery_ts (some existing) = recovery_ts == existing.recovery_ts

abbrev pub associated : Env → ℕ → ℕ → SocketAddr → PfcpServer → PfcpServer
associated env node_id recovery_ts src srv = record srv {
  associations =
      insert_assoc node_id (new_association env node_id src recovery_ts) srv.associations;
  peer_addr = some (v4 node_id 8805);
}

unfoldable pub handle_session_association : Env → PfcpHeader → Bytes → SocketAddr → Handler Bytes
handle_session_association env header body src = do
  req ← from_outcome bad_message (decode_association_setup body)
  existing ← asks (λ w. get_assoc req.node_id w.server.associations)
  on_server (λ srv.
      if is_duplicate req.recovery_ts existing
      then srv
      else associated env req.node_id req.recovery_ts src srv)
  srv ← asks (λ w. w.server)
  return (build_association_setup_response header.seq_num srv.n3_addr srv.recovery_ts)
