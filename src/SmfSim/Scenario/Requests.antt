-- ===== src/SmfSim/Scenario/Requests.antt =====
-- The requests of smf-sim/src/scenario/basic_lifecycle.rs, as upf-edge/src/handle_msg.rs reads them.
use upf_edge.Prelude.{ℕ, ◌^◌, ◌%◌, ◌<◌, ◌≡◌, refl, sym, List, [], ◌∷◌, append-nil, arith, ok, none}
use upf_edge.Bytes.{Bytes, u32_be}
use upf_edge.ControlPlane.{World, SocketAddr, Env}
use upf_edge.ControlPlane.Delete.{handle_session_deletion}
use upf_edge.ControlPlane.Dispatch.{dispatch, handle_message}
use upf_edge.ControlPlane.Establish.{handle_session_establishment}
use upf_edge.ControlPlane.Modify.{handle_session_modification}
use upf_edge.ControlPlane.Node.{handle_session_association}
use upf_edge.Pfcp.Build.Replies.{decode-session_msg, decode-node_msg, session_length, node_length}
use upf_edge.Pfcp.Builder.{new, far_value, forwarding_value}
use upf_edge.Pfcp.Builder.Far.{parsed_far, parse_update_far-far_value}
use upf_edge.Pfcp.Builder.Rows.{ie, add_ies-tlvs}
use upf_edge.Pfcp.Header.{PfcpHeader, new_node_msg, new_session_msg}
use upf_edge.Pfcp.Ie.{parse_node_id, parse_recovery_timestamp}
use upf_edge.Pfcp.Messages.{
  SessionModificationReq, decode_association_setup, decode_session_modification, collect,
}
use upf_edge.Pfcp.Messages.Rows.{request_ies}
use upf_edge.Pfcp.Tlv.{Ie, tlvs}
use upf_edge.Pfcp.Types.{
  pfcp_association_setup_req, pfcp_session_establishment_req, pfcp_session_modification_req,
  pfcp_session_deletion_req, pfcp_ie_node_id, pfcp_ie_recovery_time_stamp, pfcp_ie_update_far,
  pfcp_ie_update_forwarding_parameters,
}
use upf_edge.SmfSim.Scenario.{
  association_request, establishment_request, modification_request, deletion_request, uplink_pdr,
  downlink_pdr, uplink_far, downlink_far,
}
use upf_edge.SmfSim.Validator.Accepting.{walk_back}

-- The headers that are read.
abbrev pub node_header : ℕ → ℕ → Bytes → PfcpHeader
node_header t seq body = record (new_node_msg t seq) { length = node_length body }

abbrev pub session_header : ℕ → ℕ → ℕ → Bytes → PfcpHeader
session_header t seid seq body = record (new_session_msg t (seid % 2 ^ 64) seq) {
  length = session_length body;
}

abbrev association_ies : ℕ → ℕ → List Ie
association_ies smf_addr ts =
    ie pfcp_ie_node_id (0x00 ∷ u32_be smf_addr) ∷ ie pfcp_ie_recovery_time_stamp (u32_be ts) ∷ []

abbrev pub association_body : ℕ → ℕ → Bytes
association_body smf_addr ts = tlvs (association_ies smf_addr ts)

abbrev pub establishment_body : ℕ → ℕ → ℕ → ℕ → ℕ → Bytes
establishment_body smf_addr cp_seid ue_ip gnb_addr gnb_teid = tlvs (
    request_ies smf_addr cp_seid (uplink_pdr ue_ip gnb_addr ∷ downlink_pdr ue_ip gnb_addr ∷ [])
      (uplink_far ∷ downlink_far gnb_addr gnb_teid ∷ []) [])

abbrev modification_ies : ℕ → List Ie
modification_ies gnb_addr =
    ie pfcp_ie_update_far
      (far_value pfcp_ie_update_forwarding_parameters (downlink_far gnb_addr 0xdeadbeef))
    ∷ []

abbrev pub modification_body : ℕ → Bytes
modification_body gnb_addr = tlvs (modification_ies gnb_addr)

module _ (seq : ℕ) (h : seq < 2 ^ 24) (env : Env) (src : SocketAddr) (w : World) where
  pub association_dispatched :
      (smf_addr ts : ℕ)
      → handle_message env (association_request seq smf_addr ts) src w
        ≡ handle_session_association env
            (node_header pfcp_association_setup_req seq (association_body smf_addr ts))
            (association_body smf_addr ts)
            src
            w
  unfolding handle_message dispatch association_request
  association_dispatched smf_addr ts =
      rw
        (
          add_ies-tlvs (new (new_node_msg pfcp_association_setup_req seq))
              (association_ies smf_addr ts),
          decode-node_msg pfcp_association_setup_req seq (association_body smf_addr ts) h,
        )
        refl

  pub establishment_dispatched :
      (smf_addr cp_seid ue_ip gnb_addr gnb_teid : ℕ)
      → let body = establishment_body smf_addr cp_seid ue_ip gnb_addr gnb_teid in
        handle_message env
          (establishment_request seq smf_addr cp_seid ue_ip gnb_addr gnb_teid)
          src
          w
        ≡ handle_session_establishment env
            (session_header pfcp_session_establishment_req 0 seq body)
            body
            src
            w
  unfolding handle_message dispatch establishment_request
  establishment_dispatched smf_addr cp_seid ue_ip gnb_addr gnb_teid =
      rw
        (
          add_ies-tlvs (new (new_session_msg pfcp_session_establishment_req 0 seq)) (
              request_ies smf_addr cp_seid
                (uplink_pdr ue_ip gnb_addr ∷ downlink_pdr ue_ip gnb_addr ∷ [])
                (uplink_far ∷ downlink_far gnb_addr gnb_teid ∷ []) []),
          decode-session_msg pfcp_session_establishment_req 0 seq
              (establishment_body smf_addr cp_seid ue_ip gnb_addr gnb_teid) h,
        )
        refl

  pub modification_dispatched :
      (upf_seid gnb_addr : ℕ)
      → let body = modification_body gnb_addr in
        handle_message env (modification_request seq upf_seid gnb_addr) src w
        ≡ handle_session_modification env
            (session_header pfcp_session_modification_req upf_seid seq body)
            body
            src
            w
  unfolding handle_message dispatch modification_request
  modification_dispatched upf_seid gnb_addr =
      rw
        (
          add_ies-tlvs (new (new_session_msg pfcp_session_modification_req upf_seid seq))
              (modification_ies gnb_addr),
          decode-session_msg pfcp_session_modification_req upf_seid seq (modification_body gnb_addr)
              h,
        )
        refl

  pub deletion_dispatched :
      (upf_seid : ℕ)
      → handle_message env (deletion_request seq upf_seid) src w
        ≡ handle_session_deletion (session_header pfcp_session_deletion_req upf_seid seq []) src w
  unfolding handle_message dispatch deletion_request
  deletion_dispatched upf_seid =
      rw
        (
          sym (append-nil (new (new_session_msg pfcp_session_deletion_req upf_seid seq))),
          decode-session_msg pfcp_session_deletion_req upf_seid seq [] h,
        )
        refl

pub association_read :
    (smf_addr ts : ℕ)
    → smf_addr < 2 ^ 32
    → ts < 2 ^ 32
    → decode_association_setup (association_body smf_addr ts)
      ≡ ok (record { node_id = smf_addr; recovery_ts = ts })
unfolding decode_association_setup parse_node_id parse_recovery_timestamp
association_read smf_addr ts h g =
    rw (walk_back (association_ies smf_addr ts) (omega arith)) (ground arith)

abbrev pub modification_req : ℕ → SessionModificationReq
modification_req gnb_addr = record {
  cp_seid = none;
  smf_addr = none;
  update_fars = parsed_far (downlink_far gnb_addr 0xdeadbeef) ∷ [];
  update_urrs = [];
}

pub modification_read :
    (gnb_addr : ℕ)
    → gnb_addr < 2 ^ 32
    → decode_session_modification (modification_body gnb_addr) ≡ ok (modification_req gnb_addr)
unfolding decode_session_modification collect far_value forwarding_value
modification_read gnb_addr h =
    rw (walk_back (modification_ies gnb_addr) (omega arith))
      (ground (arith, parse_update_far-far_value (downlink_far gnb_addr 0xdeadbeef) (omega arith)))
