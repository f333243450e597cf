-- ===== src/Pfcp/Build/Establishment.antt =====
-- The Session Establishment Request from end to end: pfcp-common/src/builder.rs writes it, header.rs
-- and messages.rs read it.
use upf_edge.Prelude.{ℕ, ◌^◌, ◌<◌, some, List, [], ◌∷◌, ◌++◌}
use upf_edge.Bytes.{Bytes, u32_be, u64_be}
use upf_edge.Pfcp.Build.{uplink_pdr, downlink_pdr, uplink_far, downlink_far}
use upf_edge.Pfcp.Builder.{create_pdr_value, far_value}
use upf_edge.Pfcp.Builder.Far.{parsed_far}
use upf_edge.Pfcp.Builder.Pdr.{parsed_pdr}
use upf_edge.Pfcp.Builder.Rows.{ie}
use upf_edge.Pfcp.Messages.{SessionEstablishmentReq}
use upf_edge.Pfcp.Tlv.{Ie}
use upf_edge.Pfcp.Types.{
  pfcp_ie_node_id, pfcp_ie_fseid, pfcp_ie_create_pdr, pfcp_ie_create_far,
  pfcp_ie_forwarding_parameters,
}

module _ (seq smf_addr cp_seid ue_ip gnb_addr gnb_teid : ℕ) where
  abbrev body_ies : List Ie
  body_ies =
      ie pfcp_ie_node_id (0x00 ∷ u32_be smf_addr)
      ∷ ie pfcp_ie_fseid (0x02 ∷ (u64_be cp_seid ++ u32_be smf_addr))
      ∷ ie pfcp_ie_create_pdr (create_pdr_value (uplink_pdr ue_ip))
      ∷ ie pfcp_ie_create_pdr (create_pdr_value (downlink_pdr ue_ip))
      ∷ ie pfcp_ie_create_far (far_value pfcp_ie_forwarding_parameters uplink_far)
      ∷ ie pfcp_ie_create_far
          (far_value pfcp_ie_forwarding_parameters (downlink_far gnb_addr gnb_teid))
      ∷ []

  -- What the peer is to read.
  abbrev pub request : SessionEstablishmentReq
  request = record {
    node_id = some smf_addr;
    cp_seid = cp_seid;
    smf_addr = smf_addr;
    create_pdrs = parsed_pdr (uplink_pdr ue_ip) ∷ parsed_pdr (downlink_pdr ue_ip) ∷ [];
    create_fars = parsed_far uplink_far ∷ parsed_far (downlink_far gnb_addr gnb_teid) ∷ [];
    create_urrs = [];
  }

  -- The numbers fit their fields.
  pub record InRange : Type 0 where
    pub seq_fits : seq < 2 ^ 24
    pub smf_addr_fits : smf_addr < 2 ^ 32
    pub cp_seid_fits : cp_seid < 2 ^ 64
    pub ue_ip_fits : ue_ip < 2 ^ 32
    pub gnb_addr_fits : gnb_addr < 2 ^ 32
    pub gnb_teid_fits : gnb_teid < 2 ^ 32
