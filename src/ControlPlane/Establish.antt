-- ===== src/ControlPlane/Establish.antt =====
-- upf-edge/src/handle_msg.rs: session establishment.
use upf_edge.Prelude.{
  ℕ, Bool, false, ◌&&◌, Option, none, some, List, [], ◌∷◌, ◌++◌, map, if◌then◌else◌, ◌==◌, length,
  take, update, min,
}
use upf_edge.Bytes.{Bytes}
use upf_edge.Common.{
  PdrValue, FarValue, SessionInfo, UrrStats, swap_u32, pdr_key, far_key, urr_key,
  max_pdr_per_session,
}
use upf_edge.Pfcp.Header.{PfcpHeader}
use upf_edge.Pfcp.Ie.{OuterHeaderCreation, ParsedPdr, ParsedFar, ParsedUrr}
use upf_edge.Pfcp.Types.{interface_access}
use upf_edge.Pfcp.Messages.{SessionEstablishmentReq, decode_session_establishment}
use upf_edge.Pfcp.Build.{build_session_establishment_response}
use upf_edge.ControlPlane.{
  SocketAddr, SessionData, UrrConfig, PfcpServer, save, setup_ue_route, Env, Handler, bad_message,
  no_ue_ip, no_outer_header, map_full, ◌>>=◌, ◌>>◌, return, from_outcome, or_fail, asks, on_server,
  on_maps, emit, alloc_seid, alloc_teid, change_assoc, find_source, put,
}

-- `iter().find_map(|p| p.ue_ip)`
abbrev pub first_ue_ip : List ParsedPdr → Option ℕ
first_ue_ip [] = none
first_ue_ip (p ∷ ps) = elim p.ue_ip [ some ip ↦ some ip | none ↦ first_ue_ip ps ]

-- `iter().find_map(|f| f.outer_header_creation.as_ref())`
abbrev pub first_outer_header : List ParsedFar → Option OuterHeaderCreation
first_outer_header [] = none
first_outer_header (f ∷ fs) = elim f.outer_header_creation [
  | some ohc ↦ some ohc
  | none ↦ first_outer_header fs
]

-- `[0u32; 8]`, with the first IDs written over it.
abbrev pub pdr_id_array : List ParsedPdr → List ℕ
pdr_id_array pdrs =
    take max_pdr_per_session (map (λ p. p.pdr_id) pdrs ++ (0 ∷ 0 ∷ 0 ∷ 0 ∷ 0 ∷ 0 ∷ 0 ∷ 0 ∷ []))

abbrev pub session_info : ℕ → ℕ → ℕ → ℕ → List ParsedPdr → SessionInfo
session_info seid teid gnb_ip n3_addr pdrs = record {
  seid = seid;
  teid = swap_u32 teid;
  gnb_ip = swap_u32 gnb_ip;
  upf_ip = swap_u32 n3_addr;
  pdr_ids = pdr_id_array pdrs;
  pdr_count = min (length pdrs) max_pdr_per_session;
}

-- `map(..).unwrap_or(0)`
abbrev pub or_zero : {A : Type 0} → Option A → (A → ℕ) → ℕ
or_zero none f = 0
or_zero (some a) f = f a

abbrev pub pdr_value : ℕ → ParsedPdr → PdrValue
pdr_value ue_ip pdr = record {
  precedence = pdr.precedence;
  source_interface = pdr.source_interface;
  ue_ip = swap_u32 ue_ip;
  qfi = 0;
  far_id = or_zero pdr.far_id (λ i. i);
  qer_id = 0;
  urr_id = or_zero pdr.urr_id (λ i. i);
  outer_header_removal = if pdr.outer_header_removal then 1 else 0;
  sdf_proto = or_zero pdr.sdf_filter (λ f. f.proto);
  sdf_src_ip = or_zero pdr.sdf_filter (λ f. swap_u32 f.src_ip);
  sdf_dst_ip = or_zero pdr.sdf_filter (λ f. swap_u32 f.dst_ip);
  sdf_src_port = or_zero pdr.sdf_filter (λ f. f.src_port);
  sdf_dst_port = or_zero pdr.sdf_filter (λ f. f.dst_port);
}

abbrev pub far_value : ℕ → ParsedFar → FarValue
far_value n3_addr far = record {
  apply_action = far.apply_action;
  dst_interface = or_zero far.dest_interface (λ i. i);
  gnb_ip = or_zero far.outer_header_creation (λ o. swap_u32 o.peer_addr);
  teid = or_zero far.outer_header_creation (λ o. swap_u32 o.teid);
  upf_n3_ip = swap_u32 n3_addr;
}

-- `UrrStats::default()`
abbrev pub no_usage : UrrStats
no_usage = record { ul_bytes = 0; ul_packets = 0; dl_bytes = 0; dl_packets = 0 }

unfoldable pub insert_session : Env → ℕ → SessionInfo → Handler (Unit {0})
insert_session env ue_ip info = do
  m ← asks (λ w. w.maps)
  session_map ← or_fail (put env.session_room m.session_map (swap_u32 ue_ip) info) map_full
  on_maps (λ m. record m { session_map = session_map })

unfoldable pub insert_pdr : Env → ℕ → ℕ → ParsedPdr → Handler (Unit {0})
insert_pdr env seid ue_ip pdr = do
  m ← asks (λ w. w.maps)
  pdr_map ←
      or_fail (put env.pdr_room m.pdr_map (pdr_key seid pdr.pdr_id) (pdr_value ue_ip pdr)) map_full
  on_maps (λ m. record m { pdr_map = pdr_map })

unfoldable pub insert_pdrs : Env → ℕ → ℕ → List ParsedPdr → Handler (Unit {0})
unfolding insert_pdr
insert_pdrs env seid ue_ip [] = return tt
insert_pdrs env seid ue_ip (pdr ∷ pdrs) = do
  insert_pdr env seid ue_ip pdr
  insert_pdrs env seid ue_ip pdrs

unfoldable pub insert_far : Env → ℕ → ℕ → ParsedFar → Handler (Unit {0})
insert_far env seid n3_addr far = do
  m ← asks (λ w. w.maps)
  far_map ←
      or_fail (put env.far_room m.far_map (far_key seid far.far_id) (far_value n3_addr far))
        map_full
  on_maps (λ m. record m { far_map = far_map })

unfoldable pub insert_fars : Env → ℕ → ℕ → List ParsedFar → Handler (Unit {0})
unfolding insert_far
insert_fars env seid n3_addr [] = return tt
insert_fars env seid n3_addr (far ∷ fars) = do
  insert_far env seid n3_addr far
  insert_fars env seid n3_addr fars

abbrev pub set_config : ℕ → ℕ → UrrConfig → (ℕ → ℕ → Option UrrConfig) → ℕ → ℕ → Option UrrConfig
set_config seid urr_id cfg configs s u = if s == seid && u == urr_id then some cfg else configs s u

abbrev pub urr_config : Env → ℕ → ℕ → ParsedUrr → UrrConfig
urr_config env seid cp_seid urr = record {
  urr_id = urr.urr_id;
  seid = seid;
  cp_seid = cp_seid;
  measurement_method = urr.measurement_method;
  reporting_triggers = urr.reporting_triggers;
  volume_threshold_total = urr.volume_threshold_total;
  measurement_period = urr.measurement_period;
  last_report = env.now;
  threshold_reported = false;
  ur_seqn = 0;
}

abbrev pub configure : Env → ℕ → ℕ → ParsedUrr → PfcpServer → PfcpServer
configure env seid cp_seid urr srv = record srv {
  urr_configs = set_config seid urr.urr_id (urr_config env seid cp_seid urr) srv.urr_configs;
}

unfoldable pub insert_urr : Env → ℕ → ℕ → ParsedUrr → Handler (Unit {0})
insert_urr env seid cp_seid urr = do
  m ← asks (λ w. w.maps)
  urr_map ← or_fail (put env.urr_room m.urr_map (urr_key seid urr.urr_id) no_usage) map_full
  on_maps (λ m. record m { urr_map = urr_map })
  on_server (configure env seid cp_seid urr)

unfoldable pub insert_urrs : Env → ℕ → ℕ → List ParsedUrr → Handler (Unit {0})
unfolding insert_urr
insert_urrs env seid cp_seid [] = return tt
insert_urrs env seid cp_seid (urr ∷ urrs) = do
  insert_urr env seid cp_seid urr
  insert_urrs env seid cp_seid urrs

-- The session in the server's table and in that of its association, under both SEIDs.
abbrev pub register : ℕ → ℕ → SessionData → PfcpServer → PfcpServer
register node_id seid session srv = record srv {
  sessions = update srv.sessions seid (some session);
  associations =
      change_assoc (λ a. record a { sessions = update a.sessions session.cp_seid (some session) })
        node_id srv.associations;
}

unfoldable pub save_if : Bool → ℕ → SessionData → Handler (Unit {0})
save_if has_store seid session = if has_store then emit (save seid session) else return tt

-- `filter(source_interface == INTERFACE_ACCESS)` and `map`
abbrev pub created_pdrs : ℕ → ℕ → List ParsedPdr → List (ℕ × ℕ × ℕ)
created_pdrs teid n3_addr [] = []
created_pdrs teid n3_addr (p ∷ ps) =
    if p.source_interface == interface_access
    then (p.pdr_id, teid, n3_addr) ∷ created_pdrs teid n3_addr ps
    else created_pdrs teid n3_addr ps

-- What follows the allocation of the local SEID and the TEID.
unfoldable pub establish_as :
    Env → PfcpHeader → SessionEstablishmentReq → ℕ → (local_seid teid : ℕ) → Handler Bytes
unfolding insert_session insert_pdrs insert_fars insert_urrs save_if
establish_as env header req node_id local_seid teid = do
  ue_ip ← or_fail (first_ue_ip req.create_pdrs) no_ue_ip
  gnb_info ← or_fail (first_outer_header req.create_fars) no_outer_header
  n3_addr ← asks (λ w. w.server.n3_addr)
  insert_session env ue_ip (session_info local_seid teid gnb_info.peer_addr n3_addr req.create_pdrs)
  insert_pdrs env local_seid ue_ip req.create_pdrs
  insert_fars env local_seid n3_addr req.create_fars
  insert_urrs env local_seid req.cp_seid req.create_urrs
  let session_data : SessionData = record {
    ue_ip = ue_ip;
    teid = teid;
    gnb_ip = gnb_info.peer_addr;
    cp_seid = req.cp_seid;
  }
  on_server (register node_id local_seid session_data)
  has_store ← asks (λ w. w.server.has_store)
  save_if has_store local_seid session_data
  emit (setup_ue_route ue_ip)
  return (
      build_session_establishment_response header.seq_num req.cp_seid local_seid n3_addr
        (created_pdrs teid n3_addr req.create_pdrs))

-- What follows the decoding and the check of the source.
unfoldable pub establish : Env → PfcpHeader → SessionEstablishmentReq → ℕ → Handler Bytes
unfolding alloc_seid alloc_teid establish_as
establish env header req node_id = do
  local_seid ← alloc_seid
  teid ← alloc_teid
  establish_as env header req node_id local_seid teid

unfoldable pub handle_session_establishment : Env → PfcpHeader → Bytes → SocketAddr → Handler Bytes
unfolding find_source establish
handle_session_establishment env header body src = do
  req ← from_outcome bad_message (decode_session_establishment body)
  assoc ← find_source src
  establish env header req assoc.node_id
