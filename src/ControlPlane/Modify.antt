-- ===== src/ControlPlane/Modify.antt =====
-- upf-edge/src/handle_msg.rs: session modification.
use upf_edge.Prelude.{ℕ, Bool, true, false, Option, none, some, List, [], ◌∷◌, ◌==◌, update}
use upf_edge.Bytes.{Bytes}
use upf_edge.Common.{FarValue, SessionInfo, swap_u32, far_key, iface_access}
use upf_edge.Pfcp.Header.{PfcpHeader}
use upf_edge.Pfcp.Ie.{OuterHeaderCreation, ParsedFar, ParsedUrr}
use upf_edge.Pfcp.Messages.{SessionModificationReq, decode_session_modification}
use upf_edge.Pfcp.Build.{build_session_modification_response}
use upf_edge.ControlPlane.{
  SocketAddr, SessionData, UrrConfig, PfcpServer, Env, Handler, bad_message, missing_seid,
  unknown_seid, map_full, ◌>>=◌, ◌>>◌, return, from_outcome, or_fail, asks, on_server, on_maps,
  find_owner, put,
}
use upf_edge.ControlPlane.Establish.{set_config}

abbrev pub retarget_far : OuterHeaderCreation → FarValue → FarValue
retarget_far ohc fv = record fv { gnb_ip = swap_u32 ohc.peer_addr; teid = swap_u32 ohc.teid }

abbrev pub retarget_info : OuterHeaderCreation → SessionInfo → SessionInfo
retarget_info ohc info = record info { gnb_ip = swap_u32 ohc.peer_addr; teid = swap_u32 ohc.teid }

abbrev pub retarget_data : OuterHeaderCreation → Option SessionData → Option SessionData
retarget_data ohc none = none
retarget_data ohc (some d) = some (record d { gnb_ip = ohc.peer_addr; teid = ohc.teid })

abbrev pub retarget_session : ℕ → OuterHeaderCreation → PfcpServer → PfcpServer
retarget_session seid ohc srv = record srv {
  sessions = update srv.sessions seid (retarget_data ohc (srv.sessions seid));
}

unfoldable pub change_far : Env → ℕ → OuterHeaderCreation → Option FarValue → Handler (Unit {0})
change_far env key ohc none = return tt
change_far env key ohc (some fv) = do
  m ← asks (λ w. w.maps)
  far_map ← or_fail (put env.far_room m.far_map key (retarget_far ohc fv)) map_full
  on_maps (λ m. record m { far_map = far_map })

unfoldable pub change_info : Env → ℕ → OuterHeaderCreation → Option SessionInfo → Handler (Unit {0})
change_info env key ohc none = return tt
change_info env key ohc (some info) = do
  m ← asks (λ w. w.maps)
  session_map ← or_fail (put env.session_room m.session_map key (retarget_info ohc info)) map_full
  on_maps (λ m. record m { session_map = session_map })

-- `far.dest_interface == Some(IFACE_ACCESS)`
abbrev pub to_access : Option ℕ → Bool
to_access none = false
to_access (some i) = i == iface_access

-- A new tunnel for the access side also goes into the session.
unfoldable pub change_session : Env → ℕ → ℕ → OuterHeaderCreation → Bool → Handler (Unit {0})
unfolding change_info
change_session env seid ue_ip ohc false = return tt
change_session env seid ue_ip ohc true = do
  m ← asks (λ w. w.maps)
  change_info env (swap_u32 ue_ip) ohc (m.session_map (swap_u32 ue_ip))
  on_server (retarget_session seid ohc)

unfoldable pub update_far :
    Env → ℕ → ℕ → ParsedFar → Option OuterHeaderCreation → Handler (Unit {0})
unfolding change_far change_session
update_far env seid ue_ip far none = return tt
update_far env seid ue_ip far (some ohc) = do
  m ← asks (λ w. w.maps)
  change_far env (far_key seid far.far_id) ohc (m.far_map (far_key seid far.far_id))
  change_session env seid ue_ip ohc (to_access far.dest_interface)

unfoldable pub update_fars : Env → ℕ → ℕ → List ParsedFar → Handler (Unit {0})
unfolding update_far
update_fars env seid ue_ip [] = return tt
update_fars env seid ue_ip (far ∷ fars) = do
  update_far env seid ue_ip far far.outer_header_creation
  update_fars env seid ue_ip fars

abbrev pub update_config : ParsedUrr → UrrConfig → UrrConfig
update_config urr cfg = record cfg {
  measurement_method = urr.measurement_method;
  reporting_triggers = urr.reporting_triggers;
  volume_threshold_total = urr.volume_threshold_total;
  measurement_period = urr.measurement_period;
  threshold_reported = false;
}

abbrev pub change_config : ℕ → ParsedUrr → Option UrrConfig → PfcpServer → PfcpServer
change_config seid urr none srv = srv
change_config seid urr (some cfg) srv = record srv {
  urr_configs = set_config seid urr.urr_id (update_config urr cfg) srv.urr_configs;
}

unfoldable pub update_urrs : ℕ → List ParsedUrr → PfcpServer → PfcpServer
update_urrs seid [] srv = srv
update_urrs seid (urr ∷ urrs) srv =
    update_urrs seid urrs (change_config seid urr (srv.urr_configs seid urr.urr_id) srv)

-- What follows the checks.
unfoldable pub modify : Env → PfcpHeader → SessionModificationReq → ℕ → SessionData → Handler Bytes
unfolding update_fars update_urrs
modify env header req local_seid session = do
  update_fars env local_seid session.ue_ip req.update_fars
  on_server (update_urrs local_seid req.update_urrs)
  return (build_session_modification_response header.seq_num session.cp_seid)

unfoldable pub handle_session_modification : Env → PfcpHeader → Bytes → SocketAddr → Handler Bytes
unfolding find_owner modify
handle_session_modification env header body src = do
  req ← from_outcome bad_message (decode_session_modification body)
  local_seid ← or_fail header.seid missing_seid
  sessions ← asks (λ w. w.server.sessions)
  session ← or_fail (sessions local_seid) (unknown_seid local_seid)
  owner ← find_owner src session.cp_seid
  modify env header req local_seid session
