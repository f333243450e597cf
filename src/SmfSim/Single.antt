-- ===== src/SmfSim/Single.antt =====
-- smf-sim/src/main.rs: the commands that send a single message and judge its response. `X` is the world
-- outside of the simulator, which the transport changes, and `my_ts` the result of `recovery_ts`.
pub mod Establishing
use upf_edge.Prelude.{
  ℕ, ◌==◌, bit_or, not, true, false, Option, none, some, List, [], ◌∷◌, Outcome, ok, ◌>>=◌, ◌>>◌,
  fail_if, map_err, if◌then◌else◌,
}
use upf_edge.Bytes.{Bytes}
use upf_edge.ControlPlane.{SocketAddr}
use upf_edge.Pfcp.Builder.{
  PdrParams, FarParams, UrrParams, new, finish, add_node_id_v4, add_fseid, add_create_pdr,
  add_create_far, add_create_urr, add_update_urr,
}
use upf_edge.Pfcp.Header.{new_session_msg, decode}
use upf_edge.Pfcp.Types.{
  pfcp_heartbeat_req, pfcp_association_setup_req, pfcp_session_establishment_req,
  pfcp_session_modification_req, pfcp_session_modification_rsp, pfcp_session_deletion_req,
  interface_access, interface_core, action_forw, action_drop, measurement_method_volum,
  reporting_trigger_volth, reporting_trigger_perio,
}
use upf_edge.SmfSim.{SimError, bad_response, type_mismatch}
use upf_edge.SmfSim.Config.{SimConfig}
use upf_edge.SmfSim.Keepalive.{heartbeat_request}
use upf_edge.SmfSim.Reports.{UsageReport, wait_and_handle_reports}
use upf_edge.SmfSim.Scenario.{Link, association_request, deletion_request}
use upf_edge.SmfSim.Transport.{Arrival}
use upf_edge.SmfSim.Validator.{validate_response, extract_session_info}

-- PDRs that detect the UE's traffic without a CHOOSE: 1 and 3 count it for URR 1, 2 catches the rest.
abbrev pub filtered_pdr : ℕ → PdrParams
filtered_pdr ue_ip = record {
  pdr_id = 1;
  precedence = 100;
  source_interface = interface_access;
  fteid_choose = false;
  ue_ip = some ue_ip;
  far_id = 1;
  urr_id = some 1;
  outer_header_removal = false;
  sdf_filter = some (record { proto = 6; src_ip = 0; dst_ip = 0; src_port = 0; dst_port = 0 });
}

abbrev pub dropping_pdr : ℕ → PdrParams
dropping_pdr ue_ip = record {
  pdr_id = 2;
  precedence = 200;
  source_interface = interface_access;
  fteid_choose = false;
  ue_ip = some ue_ip;
  far_id = 3;
  urr_id = none;
  outer_header_removal = false;
  sdf_filter = none;
}

abbrev pub core_pdr : ℕ → PdrParams
core_pdr ue_ip = record {
  pdr_id = 3;
  precedence = 100;
  source_interface = interface_core;
  fteid_choose = false;
  ue_ip = some ue_ip;
  far_id = 2;
  urr_id = some 1;
  outer_header_removal = false;
  sdf_filter = none;
}

abbrev pub core_far : FarParams
core_far = record {
  far_id = 1;
  apply_action = action_forw;
  dest_interface = interface_core;
  outer_header_creation = none;
}

abbrev pub tunnel_far : (gnb_addr gnb_teid : ℕ) → FarParams
tunnel_far gnb_addr gnb_teid = record {
  far_id = 2;
  apply_action = action_forw;
  dest_interface = interface_access;
  outer_header_creation = some (record { teid = gnb_teid; peer_addr = gnb_addr; port = 2152 });
}

abbrev pub drop_far : FarParams
drop_far = record {
  far_id = 3;
  apply_action = action_drop;
  dest_interface = interface_core;
  outer_header_creation = none;
}

-- `REPORTING_TRIGGER_VOLTH | REPORTING_TRIGGER_PERIO`
abbrev pub volume_urr : (threshold period : Option ℕ) → UrrParams
volume_urr threshold period = record {
  urr_id = 1;
  measurement_method = measurement_method_volum;
  reporting_triggers = bit_or reporting_trigger_volth reporting_trigger_perio;
  volume_threshold_total = threshold;
  measurement_period = period;
}

unfoldable pub establish_request : (smf_addr ue_ip gnb_addr gnb_teid : ℕ) → Bytes
unfolding new add_node_id_v4 add_fseid add_create_pdr add_create_far add_create_urr finish
establish_request smf_addr ue_ip gnb_addr gnb_teid =
    let msg = new (new_session_msg pfcp_session_establishment_req 0 2) in
    let msg = add_node_id_v4 msg smf_addr in
    let msg = add_fseid msg 1 smf_addr in
    let msg = add_create_pdr msg (filtered_pdr ue_ip) in
    let msg = add_create_pdr msg (dropping_pdr ue_ip) in
    let msg = add_create_pdr msg (core_pdr ue_ip) in
    let msg = add_create_far msg core_far in
    let msg = add_create_far msg (tunnel_far gnb_addr gnb_teid) in
    let msg = add_create_far msg drop_far in
    finish (add_create_urr msg (volume_urr (some 10000) (some 30)))

unfoldable modify_request : (seid : ℕ) → (volth period : Option ℕ) → Bytes
unfolding new add_update_urr finish
modify_request seid volth period =
    let msg = new (new_session_msg pfcp_session_modification_req seid 3) in
    finish (add_update_urr msg (volume_urr volth period))

-- The modification looks at nothing but the type of the response.
abbrev check_type : Bytes → Outcome SimError (Unit {0})
check_type rsp = do
  decoded ← map_err bad_response (decode rsp)
  let got = decoded.0.msg_type
  fail_if (not (got == pfcp_session_modification_rsp))
      (type_mismatch pfcp_session_modification_rsp got)

-- What the establishment logs: the UPF's SEID, TEID and address, and the reports of the wait.
pub record Logged : Type 0 where
  pub upf_seid : ℕ
  pub upf_teid : ℕ
  pub upf_n3_addr : ℕ
  pub reports : List UsageReport
  pub replies : List (Bytes × SocketAddr)

-- `arrivals` is what comes while the command waits for `wait` seconds.
abbrev pub waited : ℕ → List Arrival → List UsageReport × List (Bytes × SocketAddr)
waited wait arrivals =
    let heard = wait_and_handle_reports arrivals in if wait == 0 then ([], []) else heard

module _ {X : Type 0} (link : Link X) (my_ts : ℕ) (config : SimConfig) where
  abbrev judge :
      {A : Type 0}
      → (Bytes → Outcome SimError A)
      → Outcome SimError Bytes × X
      → Outcome SimError A × X
  judge check (result, y) = ((do rsp ← result; check rsp), y)

  unfoldable send_heartbeat : X → Outcome SimError (Unit {0}) × X
  unfolding heartbeat_request validate_response
  send_heartbeat x =
      judge (validate_response pfcp_heartbeat_req 1) (link x (heartbeat_request 1 my_ts))

  unfoldable send_association_setup : X → Outcome SimError (Unit {0}) × X
  unfolding association_request validate_response
  send_association_setup x =
      judge (validate_response pfcp_association_setup_req 1)
        (link x (association_request 1 config.network.smf_n4_addr my_ts))

  abbrev established : ℕ → List Arrival → Bytes → Outcome SimError Logged
  established wait arrivals rsp = do
    validate_response pfcp_session_establishment_req 2 rsp
    info ← extract_session_info rsp
    let heard = waited wait arrivals
    ok (record {
      upf_seid = info.0;
      upf_teid = info.1;
      upf_n3_addr = info.2;
      reports = heard.0;
      replies = heard.1;
    })

  unfoldable pub send_session_establishment :
      (ue_ip wait : ℕ) → List Arrival → X → Outcome SimError Logged × X
  unfolding establish_request validate_response extract_session_info wait_and_handle_reports
  send_session_establishment ue_ip wait arrivals x = judge (established wait arrivals) (
      link x (
        establish_request config.network.smf_n4_addr ue_ip config.network.gnb_addr
          config.session.gnb_teid_start))

  unfoldable send_session_modification :
      (seid : ℕ) → (volth period : Option ℕ) → X → Outcome SimError (Unit {0}) × X
  unfolding modify_request decode
  send_session_modification seid volth period x =
      judge check_type (link x (modify_request seid volth period))

  unfoldable send_session_deletion : (upf_seid : ℕ) → X → Outcome SimError (Unit {0}) × X
  unfolding deletion_request validate_response
  send_session_deletion upf_seid x =
      judge (validate_response pfcp_session_deletion_req 99) (link x (deletion_request 99 upf_seid))
