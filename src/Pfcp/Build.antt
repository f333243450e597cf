-- ===== src/Pfcp/Build.antt =====
-- The `build_*` functions of pfcp-common/src/builder.rs.
pub mod Establishment
pub mod Replies
use upf_edge.Prelude.{ℕ, ◌+◌, bit_or, true, false, none, some, List, [], ◌∷◌, ◌++◌}
use upf_edge.Bytes.{Bytes, u32_be, u64_be}
use upf_edge.Pfcp.Builder.{
  MsgBuilder, PdrParams, FarParams, new, finish, append_ie, add_ie, add_node_id_v4, add_cause,
  add_recovery_timestamp, add_fseid, add_up_function_features, add_created_pdr, add_create_pdr,
  add_create_far,
}
use upf_edge.Pfcp.Header.{new_node_msg, new_session_msg}
use upf_edge.Pfcp.Types.{
  pfcp_heartbeat_rsp, pfcp_association_setup_rsp, pfcp_session_establishment_req,
  pfcp_session_establishment_rsp, pfcp_session_modification_rsp, pfcp_session_deletion_rsp,
  pfcp_session_report_req, pfcp_session_report_rsp, cause_request_accepted, interface_access,
  interface_core, action_forw, pfcp_ie_report_type, report_type_usar, pfcp_ie_urr_id,
  pfcp_ie_ur_seqn, pfcp_ie_usage_report_trigger, pfcp_ie_volume_measurement,
  pfcp_ie_usage_report_in_sess_rpt_req, volume_measurement_tovol, volume_measurement_ulvol,
  volume_measurement_dlvol,
}

unfoldable pub build_heartbeat_response : ℕ → ℕ → Bytes
unfolding new add_recovery_timestamp finish
build_heartbeat_response seq_num recovery_ts =
    let msg = new (new_node_msg pfcp_heartbeat_rsp seq_num) in
    finish (add_recovery_timestamp msg recovery_ts)

unfoldable pub build_association_setup_response : ℕ → ℕ → ℕ → Bytes
unfolding new add_node_id_v4 add_cause add_recovery_timestamp add_up_function_features finish
build_association_setup_response seq_num our_addr recovery_ts =
    let msg = new (new_node_msg pfcp_association_setup_rsp seq_num) in
    let msg = add_node_id_v4 msg our_addr in
    let msg = add_cause msg cause_request_accepted in
    let msg = add_recovery_timestamp msg recovery_ts in finish (add_up_function_features msg)

abbrev pub uplink_pdr : ℕ → PdrParams
uplink_pdr ue_ip = record {
  pdr_id = 1;
  precedence = 100;
  source_interface = interface_access;
  fteid_choose = true;
  ue_ip = some ue_ip;
  far_id = 1;
  urr_id = none;
  outer_header_removal = true;
  sdf_filter = none;
}

abbrev pub downlink_pdr : ℕ → PdrParams
downlink_pdr ue_ip = record {
  pdr_id = 2;
  precedence = 100;
  source_interface = interface_core;
  fteid_choose = false;
  ue_ip = some ue_ip;
  far_id = 2;
  urr_id = none;
  outer_header_removal = false;
  sdf_filter = none;
}

abbrev pub uplink_far : FarParams
uplink_far = record {
  far_id = 1;
  apply_action = action_forw;
  dest_interface = interface_core;
  outer_header_creation = none;
}

abbrev pub downlink_far : ℕ → ℕ → FarParams
downlink_far gnb_addr gnb_teid = record {
  far_id = 2;
  apply_action = action_forw;
  dest_interface = interface_access;
  outer_header_creation = some (record { teid = gnb_teid; peer_addr = gnb_addr; port = 2152 });
}

unfoldable pub build_session_establishment_request : ℕ → ℕ → ℕ → ℕ → ℕ → ℕ → Bytes
unfolding new add_node_id_v4 add_fseid add_create_pdr add_create_far finish
build_session_establishment_request seq smf_addr cp_seid ue_ip gnb_addr gnb_teid =
    let msg = new (new_session_msg pfcp_session_establishment_req 0 seq) in
    let msg = add_node_id_v4 msg smf_addr in
    let msg = add_fseid msg cp_seid smf_addr in
    let msg = add_create_pdr msg (uplink_pdr ue_ip) in
    let msg = add_create_pdr msg (downlink_pdr ue_ip) in
    let msg = add_create_far msg uplink_far in
    let msg = add_create_far msg (downlink_far gnb_addr gnb_teid) in finish msg

-- `for &(pdr_id, teid, addr) in created_pdrs`
unfoldable pub add_created_pdrs : MsgBuilder → List (ℕ × ℕ × ℕ) → MsgBuilder
unfolding add_created_pdr
add_created_pdrs msg [] = msg
add_created_pdrs msg ((pdr_id, teid, addr) ∷ pdrs) =
    add_created_pdrs (add_created_pdr msg pdr_id teid addr) pdrs

unfoldable pub build_session_establishment_response : ℕ → ℕ → ℕ → ℕ → List (ℕ × ℕ × ℕ) → Bytes
unfolding new add_node_id_v4 add_cause add_fseid add_created_pdrs finish
build_session_establishment_response seq_num cp_seid our_seid our_addr created_pdrs =
    let msg = new (new_session_msg pfcp_session_establishment_rsp cp_seid seq_num) in
    let msg = add_node_id_v4 msg our_addr in
    let msg = add_cause msg cause_request_accepted in
    let msg = add_fseid msg our_seid our_addr in finish (add_created_pdrs msg created_pdrs)

unfoldable pub build_session_modification_response : ℕ → ℕ → Bytes
unfolding new add_cause finish
build_session_modification_response seq_num seid =
    let msg = new (new_session_msg pfcp_session_modification_rsp seid seq_num) in
    finish (add_cause msg cause_request_accepted)

unfoldable pub build_session_deletion_response : ℕ → ℕ → Bytes
unfolding new add_cause finish
build_session_deletion_response seq_num seid =
    let msg = new (new_session_msg pfcp_session_deletion_rsp seid seq_num) in
    finish (add_cause msg cause_request_accepted)

-- The local `ur` of `build_session_report_request`.
unfoldable pub usage_report : ℕ → ℕ → ℕ → ℕ → ℕ → ℕ → Bytes
unfolding append_ie
usage_report urr_id ur_seqn trigger total_volume ul_volume dl_volume =
    let flags =
      bit_or (bit_or volume_measurement_tovol volume_measurement_ulvol) volume_measurement_dlvol in
    let ur = append_ie [] pfcp_ie_urr_id (u32_be urr_id) in
    let ur = append_ie ur pfcp_ie_ur_seqn (u32_be ur_seqn) in
    let ur = append_ie ur pfcp_ie_usage_report_trigger (trigger ∷ 0x00 ∷ []) in
    let vm = flags ∷ (u64_be total_volume ++ (u64_be ul_volume ++ u64_be dl_volume)) in
    append_ie ur pfcp_ie_volume_measurement vm

unfoldable pub build_session_report_request : ℕ → ℕ → ℕ → ℕ → ℕ → ℕ → ℕ → ℕ → Bytes
unfolding new add_ie usage_report finish
build_session_report_request seq_num cp_seid urr_id ur_seqn trigger total_volume ul_volume
      dl_volume =
    let msg = new (new_session_msg pfcp_session_report_req cp_seid seq_num) in
    let msg = add_ie msg pfcp_ie_report_type (report_type_usar ∷ []) in
    finish (
      add_ie msg pfcp_ie_usage_report_in_sess_rpt_req
        (usage_report urr_id ur_seqn trigger total_volume ul_volume dl_volume))

unfoldable pub build_session_report_response : ℕ → ℕ → Bytes
unfolding new add_cause finish
build_session_report_response seq_num seid =
    let msg = new (new_session_msg pfcp_session_report_rsp seid seq_num) in
    finish (add_cause msg cause_request_accepted)
