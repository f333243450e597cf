-- ===== src/SmfSim/Validator/Extracting.antt =====
-- smf-sim/src/validator.rs against pfcp-common/src/builder.rs: what the simulator takes from the responses.
use upf_edge.Prelude.{ℕ, ◌^◌, ◌<◌, ◌≡◌, ◌≢◌, List, [], ◌∷◌, ◌++◌, arith, ok, All, some}
use upf_edge.Bytes.{u32_be, u64_be, u16_be}
use upf_edge.Pfcp.Build.{build_session_establishment_response, build_association_setup_response}
use upf_edge.Pfcp.Build.Replies.{decode-session_msg, decode-node_msg}
use upf_edge.Pfcp.Builder.{created_pdr_value, new}
use upf_edge.Pfcp.Builder.Rows.{ie, add_ies-tlvs}
use upf_edge.Pfcp.Ie.{parse_fseid, parse_fteid, parse_recovery_timestamp}
use upf_edge.Pfcp.Header.{new_node_msg}
use upf_edge.Pfcp.Messages.{find}
use upf_edge.Pfcp.Tlv.{Ie, items, iter_ies, tlvs}
use upf_edge.Pfcp.Tlv.Walk.{IsIe}
use upf_edge.Pfcp.Types.{
  pfcp_session_establishment_rsp, pfcp_association_setup_rsp, pfcp_ie_pdr_id, pfcp_ie_fteid,
  pfcp_ie_node_id, pfcp_ie_cause, cause_request_accepted, pfcp_ie_recovery_time_stamp,
  pfcp_ie_up_function_features,
}
use upf_edge.SmfSim.Validator.{extract_session_info, extract_recovery_ts}
use upf_edge.SmfSim.Validator.Accepting.{
  walk_back, establishment_ies, establishment_response-tlvs, created_complete,
}

abbrev fteid_ies : ℕ → ℕ → ℕ → List Ie
fteid_ies pdr_id teid addr =
    ie pfcp_ie_pdr_id (u16_be pdr_id) ∷ ie pfcp_ie_fteid (0x02 ∷ (u32_be teid ++ u32_be addr)) ∷ []

created_walk :
    (pdr_id teid addr : ℕ)
    → items (iter_ies (created_pdr_value pdr_id teid addr)) ≡ fteid_ies pdr_id teid addr
unfolding created_pdr_value
created_walk pdr_id teid addr = walk_back (fteid_ies pdr_id teid addr) (omega arith)

fseid_read :
    (seid addr : ℕ)
    → seid < 2 ^ 64
    → addr < 2 ^ 32
    → parse_fseid (0x02 ∷ (u64_be seid ++ u32_be addr)) ≡ ok (seid, addr)
unfolding parse_fseid
fseid_read seid addr h g = ground arith

fteid_read :
    (teid addr : ℕ)
    → teid < 2 ^ 32
    → addr < 2 ^ 32
    → parse_fteid (0x02 ∷ (u32_be teid ++ u32_be addr)) ≡ ok (teid, addr)
unfolding parse_fteid
fteid_read teid addr h g = ground arith

establishment_complete :
    (our_seid our_addr : ℕ) (pdrs : List (ℕ × ℕ × ℕ))
    → All IsIe (establishment_ies our_seid our_addr pdrs)
establishment_complete our_seid our_addr pdrs =
    (omega arith, (omega arith, (omega arith, created_complete pdrs)))

-- From the Session Establishment Response that the builder makes, the simulator takes the UPF's SEID
-- and the TEID and address of the first created PDR, if the sequence number, the SEID, the TEID and
-- the addresses fit their fields and neither the SEID nor the TEID is 0.
pub extract-build_response :
    (seq cp_seid our_seid our_addr pdr_id teid addr : ℕ) (pdrs : List (ℕ × ℕ × ℕ))
    → seq < 2 ^ 24
    → our_seid < 2 ^ 64
    → our_addr < 2 ^ 32
    → teid < 2 ^ 32
    → addr < 2 ^ 32
    → our_seid ≢ 0
    → teid ≢ 0
    → extract_session_info (
        build_session_establishment_response seq cp_seid our_seid our_addr
          ((pdr_id, teid, addr) ∷ pdrs))
      ≡ ok (our_seid, teid, addr)
unfolding extract_session_info find
extract-build_response seq cp_seid our_seid our_addr pdr_id teid addr pdrs hs hu ha ht hb nu nt =
    let created : List (ℕ × ℕ × ℕ) = (pdr_id, teid, addr) ∷ pdrs in
    rw
      (
        establishment_response-tlvs seq cp_seid our_seid our_addr created,
        decode-session_msg pfcp_session_establishment_rsp cp_seid seq
            (tlvs (establishment_ies our_seid our_addr created)) hs,
        walk_back (establishment_ies our_seid our_addr created)
            (establishment_complete our_seid our_addr created),
      )
      (ground (
        arith,
        fseid_read our_seid our_addr hu ha,
        created_walk pdr_id teid addr,
        fteid_read teid addr ht hb,
      ))

-- From the Association Setup Response that the builder makes, the simulator takes the UPF's recovery
-- time stamp, if it and the sequence number fit their fields.
pub extract-recovery_ts :
    (seq our_addr recovery_ts : ℕ)
    → seq < 2 ^ 24
    → recovery_ts < 2 ^ 32
    → extract_recovery_ts (build_association_setup_response seq our_addr recovery_ts)
      ≡ ok (some recovery_ts)
unfolding extract_recovery_ts build_association_setup_response find parse_recovery_timestamp
extract-recovery_ts seq our_addr recovery_ts hs hr =
    let ies : List Ie =
      ie pfcp_ie_node_id (0x00 ∷ u32_be our_addr)
      ∷ ie pfcp_ie_cause (cause_request_accepted ∷ [])
      ∷ ie pfcp_ie_recovery_time_stamp (u32_be recovery_ts)
      ∷ ie pfcp_ie_up_function_features (0x04 ∷ 0x00 ∷ [])
      ∷ [] in
    rw
      (
        add_ies-tlvs (new (new_node_msg pfcp_association_setup_rsp seq)) ies,
        decode-node_msg pfcp_association_setup_rsp seq (tlvs ies) hs,
        walk_back ies (omega arith),
      )
      (ground arith)
