-- ===== src/SmfSim/Validator/Accepting.antt =====
-- smf-sim/src/validator.rs against pfcp-common/src/builder.rs: the responses that the validator accepts.
use upf_edge.Prelude.{
  ℕ, ◌+◌, ◌^◌, ◌<◌, ◌≡◌, refl, ap, ◌∙◌, true, List, [], ◌∷◌, ◌++◌, append-nil, arith, ok, All,
}
use upf_edge.Bytes.{u32_be, u64_be}
use upf_edge.Pfcp.Build.{
  build_heartbeat_response, build_association_setup_response, build_session_establishment_response,
  build_session_modification_response, build_session_deletion_response, add_created_pdrs,
}
use upf_edge.Pfcp.Build.Replies.{decode-session_msg, decode-node_msg}
use upf_edge.Pfcp.Builder.{
  new, finish, MsgBuilder, add_created_pdr, append_ie, add_node_id_v4, add_cause, add_fseid,
  created_pdr_value,
}
use upf_edge.Pfcp.Builder.Rows.{ie, add_ies-tlvs, add_ies}
use upf_edge.Pfcp.Dict.{lookup, missing_from, is_ok, validate}
use upf_edge.Pfcp.Header.{new_session_msg, new_node_msg}
use upf_edge.Pfcp.Messages.{find}
use upf_edge.Pfcp.Tlv.{Ie, items, iter_ies, tlvs}
use upf_edge.Pfcp.Tlv.Walk.{IsIe, items-iter_ies-tlvs}
use upf_edge.Pfcp.Types.{
  pfcp_ie_cause, cause_request_accepted, pfcp_heartbeat_req, pfcp_heartbeat_rsp,
  pfcp_association_setup_req, pfcp_association_setup_rsp, pfcp_session_establishment_req,
  pfcp_session_modification_req, pfcp_session_deletion_req, pfcp_session_establishment_rsp,
  pfcp_session_modification_rsp, pfcp_session_deletion_rsp, pfcp_ie_node_id,
  pfcp_ie_recovery_time_stamp, pfcp_ie_fseid, pfcp_ie_created_pdr, pfcp_ie_up_function_features,
}
use upf_edge.SmfSim.Validator.{validate_response, check_cause}

pub walk_back : (ies : List Ie) → All IsIe ies → items (iter_ies (tlvs ies)) ≡ ies
walk_back ies h = rw (append-nil (tlvs ies)) at (items-iter_ies-tlvs ies [] h tt)

-- The IEs of a response: complete, with the mandatory ones for its type and the cause 'accepted'.
record IsAnswer (rsp_type : ℕ) (ies : List Ie) : Type 0 where
  complete : All IsIe ies
  has_mandatory : is_ok (missing_from ies (lookup rsp_type)) ≡ true
  has_cause : check_cause (find pfcp_ie_cause ies) ≡ ok tt

valid : (t : ℕ) (ies : List Ie) → All IsIe ies → validate t (tlvs ies) ≡ missing_from ies (lookup t)
unfolding validate
valid t ies h = ap (λ l. missing_from l (lookup t)) (walk_back ies h)

session_accepted :
    (t seid seq : ℕ) (ies : List Ie)
    → t < 255
    → seq < 2 ^ 24
    → IsAnswer (t + 1) ies
    → validate_response t seq (finish (new (new_session_msg (t + 1) seid seq) ++ tlvs ies)) ≡ ok tt
unfolding validate_response
session_accepted t seid seq ies ht hs h =
    rw
      (
        decode-session_msg (t + 1) seid seq (tlvs ies) hs,
        valid (t + 1) ies h.complete,
        walk_back ies h.complete,
      )
      (ground (arith, h.has_mandatory, h.has_cause))

node_accepted :
    (t seq : ℕ) (ies : List Ie)
    → t < 255
    → seq < 2 ^ 24
    → IsAnswer (t + 1) ies
    → validate_response t seq (finish (new (new_node_msg (t + 1) seq) ++ tlvs ies)) ≡ ok tt
unfolding validate_response
node_accepted t seq ies ht hs h =
    rw
      (
        decode-node_msg (t + 1) seq (tlvs ies) hs,
        valid (t + 1) ies h.complete,
        walk_back ies h.complete,
      )
      (ground (arith, h.has_mandatory, h.has_cause))

-- The created PDRs of the establishment response.
abbrev pub created_ie : ℕ × ℕ × ℕ → Ie
created_ie (pdr_id, teid, addr) = ie pfcp_ie_created_pdr (created_pdr_value pdr_id teid addr)

abbrev pub created_ies : List (ℕ × ℕ × ℕ) → List Ie
created_ies [] = []
created_ies (p ∷ ps) = created_ie p ∷ created_ies ps

add_created_pdrs-add_ies :
    (msg : MsgBuilder) (pdrs : List (ℕ × ℕ × ℕ))
    → add_created_pdrs msg pdrs ≡ add_ies msg (created_ies pdrs)
unfolding add_created_pdrs add_created_pdr append_ie
add_created_pdrs-add_ies msg [] = refl
add_created_pdrs-add_ies msg ((pdr_id, teid, addr) ∷ pdrs) =
    add_created_pdrs-add_ies (add_created_pdr msg pdr_id teid addr) pdrs

pub created_complete : (pdrs : List (ℕ × ℕ × ℕ)) → All IsIe (created_ies pdrs)
unfolding created_pdr_value
created_complete [] = tt
created_complete ((pdr_id, teid, addr) ∷ pdrs) = (omega arith, created_complete pdrs)

abbrev pub establishment_ies : ℕ → ℕ → List (ℕ × ℕ × ℕ) → List Ie
establishment_ies our_seid our_addr pdrs =
    ie pfcp_ie_node_id (0x00 ∷ u32_be our_addr)
    ∷ ie pfcp_ie_cause (cause_request_accepted ∷ [])
    ∷ ie pfcp_ie_fseid (0x02 ∷ (u64_be our_seid ++ u32_be our_addr))
    ∷ created_ies pdrs

pub establishment_response-tlvs :
    (seq cp_seid our_seid our_addr : ℕ) (pdrs : List (ℕ × ℕ × ℕ))
    → build_session_establishment_response seq cp_seid our_seid our_addr pdrs
      ≡ finish (
          new (new_session_msg pfcp_session_establishment_rsp cp_seid seq)
          ++ tlvs (establishment_ies our_seid our_addr pdrs))
unfolding build_session_establishment_response add_node_id_v4 add_cause add_fseid
establishment_response-tlvs seq cp_seid our_seid our_addr pdrs = ap finish (
    add_created_pdrs-add_ies _ pdrs
    ∙ add_ies-tlvs (new (new_session_msg pfcp_session_establishment_rsp cp_seid seq))
        (establishment_ies our_seid our_addr pdrs))

module _ (seq : ℕ) (hs : seq < 2 ^ 24) where
  pub heartbeat_accepted :
      (recovery_ts : ℕ)
      → validate_response pfcp_heartbeat_req seq (build_heartbeat_response seq recovery_ts) ≡ ok tt
  unfolding build_heartbeat_response lookup find
  heartbeat_accepted recovery_ts =
      let ies : List Ie = ie pfcp_ie_recovery_time_stamp (u32_be recovery_ts) ∷ [] in
      rw (add_ies-tlvs (new (new_node_msg pfcp_heartbeat_rsp seq)) ies) (
        node_accepted pfcp_heartbeat_req seq ies (omega arith) hs
          (record { complete = omega arith; has_mandatory = refl; has_cause = refl }))

  pub association_accepted :
      (our_addr recovery_ts : ℕ)
      → validate_response pfcp_association_setup_req seq
          (build_association_setup_response seq our_addr recovery_ts)
        ≡ ok tt
  unfolding build_association_setup_response lookup find
  association_accepted our_addr recovery_ts =
      let ies : List Ie =
        ie pfcp_ie_node_id (0x00 ∷ u32_be our_addr)
        ∷ ie pfcp_ie_cause (cause_request_accepted ∷ [])
        ∷ ie pfcp_ie_recovery_time_stamp (u32_be recovery_ts)
        ∷ ie pfcp_ie_up_function_features (0x04 ∷ 0x00 ∷ [])
        ∷ [] in
      rw (add_ies-tlvs (new (new_node_msg pfcp_association_setup_rsp seq)) ies) (
        node_accepted pfcp_association_setup_req seq ies (omega arith) hs
          (record { complete = omega arith; has_mandatory = refl; has_cause = refl }))

  pub establishment_accepted :
      (cp_seid our_seid our_addr : ℕ) (pdrs : List (ℕ × ℕ × ℕ))
      → validate_response pfcp_session_establishment_req seq
          (build_session_establishment_response seq cp_seid our_seid our_addr pdrs)
        ≡ ok tt
  unfolding lookup find
  establishment_accepted cp_seid our_seid our_addr pdrs =
      rw (establishment_response-tlvs seq cp_seid our_seid our_addr pdrs) (
        session_accepted pfcp_session_establishment_req cp_seid seq
          (establishment_ies our_seid our_addr pdrs) (omega arith) hs
          (record {
            complete = (omega arith, (omega arith, (omega arith, created_complete pdrs)));
            has_mandatory = refl;
            has_cause = refl;
          }))

  abbrev cause_only : List Ie
  cause_only = ie pfcp_ie_cause (cause_request_accepted ∷ []) ∷ []

  pub modification_accepted :
      (seid : ℕ)
      → validate_response pfcp_session_modification_req seq
          (build_session_modification_response seq seid)
        ≡ ok tt
  unfolding build_session_modification_response lookup find
  modification_accepted seid =
      rw (add_ies-tlvs (new (new_session_msg pfcp_session_modification_rsp seid seq)) cause_only) (
        session_accepted pfcp_session_modification_req seid seq cause_only (omega arith) hs
          (record { complete = omega arith; has_mandatory = refl; has_cause = refl }))

  pub deletion_accepted :
      (seid : ℕ)
      → validate_response pfcp_session_deletion_req seq (build_session_deletion_response seq seid)
        ≡ ok tt
  unfolding build_session_deletion_response lookup find
  deletion_accepted seid =
      rw (add_ies-tlvs (new (new_session_msg pfcp_session_deletion_rsp seid seq)) cause_only) (
        session_accepted pfcp_session_deletion_req seid seq cause_only (omega arith) hs
          (record { complete = omega arith; has_mandatory = refl; has_cause = refl }))
