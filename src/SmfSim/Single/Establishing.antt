-- ===== src/SmfSim/Single/Establishing.antt =====
-- The establishment of smf-sim/src/main.rs against the UPF of upf-edge/src/handle_msg.rs.
use upf_edge.Prelude.{
  ℕ, ◌^◌, ◌<◌, ◌≡◌, ◌≢◌, refl, ap, ◌∙◌, some, List, [], ◌∷◌, arith, ok, update_self,
}
use upf_edge.Bytes.{Bytes}
use upf_edge.ControlPlane.{v4, SessionData, SmfAssociation, World, Env, find_by_addr}
use upf_edge.ControlPlane.Dispatch.{handle_message, dispatch}
use upf_edge.ControlPlane.Establish.{handle_session_establishment}
use upf_edge.ControlPlane.Establishing.Registered.{establishment_done}
use upf_edge.ControlPlane.Reaches.{IsRoomy}
use upf_edge.Pfcp.Build.{build_session_establishment_response}
use upf_edge.Pfcp.Build.Replies.{decode-session_msg}
use upf_edge.Pfcp.Builder.{PdrParams, FarParams, UrrParams, new}
use upf_edge.Pfcp.Builder.Rows.{add_ies-tlvs}
use upf_edge.Pfcp.Header.{new_session_msg}
use upf_edge.Pfcp.Messages.Rows.{request_of, request_ies, RulesFit, decode-request_ies}
use upf_edge.Pfcp.Tlv.{tlvs}
use upf_edge.Pfcp.Types.{pfcp_session_establishment_req}
use upf_edge.SmfSim.Config.{SimConfig}
use upf_edge.SmfSim.Scenario.Passing.{upf_link, link-accepted}
use upf_edge.SmfSim.Scenario.Requests.{session_header}
use upf_edge.SmfSim.Single.{
  Logged, waited, establish_request, send_session_establishment, filtered_pdr, dropping_pdr,
  core_pdr, core_far, tunnel_far, drop_far, volume_urr,
}
use upf_edge.SmfSim.Transport.{Arrival}
use upf_edge.SmfSim.Validator.Accepting.{establishment_accepted}
use upf_edge.SmfSim.Validator.Extracting.{extract-build_response}

abbrev pdrs : ℕ → List PdrParams
pdrs ue_ip = filtered_pdr ue_ip ∷ dropping_pdr ue_ip ∷ core_pdr ue_ip ∷ []

abbrev fars : (gnb_addr gnb_teid : ℕ) → List FarParams
fars gnb_addr gnb_teid = core_far ∷ tunnel_far gnb_addr gnb_teid ∷ drop_far ∷ []

abbrev urrs : List UrrParams
urrs = volume_urr (some 10000) (some 30) ∷ []

module _ (smf_addr ue_ip gnb_addr gnb_teid : ℕ) where
  abbrev body : Bytes
  body = tlvs (request_ies smf_addr 1 (pdrs ue_ip) (fars gnb_addr gnb_teid) urrs)

  establish-dispatched :
      (env : Env) (ip port : ℕ) (w : World)
      → handle_message env (establish_request smf_addr ue_ip gnb_addr gnb_teid) (v4 ip port) w
        ≡ handle_session_establishment env
            (session_header pfcp_session_establishment_req 0 2 body)
            body
            (v4 ip port)
            w
  unfolding handle_message dispatch establish_request
  establish-dispatched env ip port w =
      rw
        (
          add_ies-tlvs (new (new_session_msg pfcp_session_establishment_req 0 2))
              (request_ies smf_addr 1 (pdrs ue_ip) (fars gnb_addr gnb_teid) urrs),
          decode-session_msg pfcp_session_establishment_req 0 2 body (omega arith),
        )
        refl

  rules-RulesFit :
      smf_addr < 2 ^ 32
      → ue_ip < 2 ^ 32
      → gnb_addr < 2 ^ 32
      → gnb_teid < 2 ^ 32
      → RulesFit smf_addr 1 (pdrs ue_ip) (fars gnb_addr gnb_teid) urrs
  rules-RulesFit hs hu hg ht = omega arith

-- The numbers fit their fields, the SEID and the TEID that the UPF gives are not 0, and the UPF has an
-- association for the source.
pub record CanEstablish (config : SimConfig) (ip port ue_ip : ℕ) (assoc : SmfAssociation)
    (w : World) : Type 0 where
  pub smf_addr : config.network.smf_n4_addr < 2 ^ 32
  pub gnb_addr : config.network.gnb_addr < 2 ^ 32
  pub gnb_teid : config.session.gnb_teid_start < 2 ^ 32
  pub ue_ip_fits : ue_ip < 2 ^ 32
  pub seid : w.server.next_seid < 2 ^ 64
  pub seid_nonzero : w.server.next_seid ≢ 0
  pub teid : w.server.next_teid < 2 ^ 32
  pub teid_nonzero : w.server.next_teid ≢ 0
  pub n3_addr : w.server.n3_addr < 2 ^ 32
  pub association : find_by_addr (v4 ip port) w.server.associations ≡ some assoc

-- What the command logs, and the session that the UPF then has.
abbrev pub logged : World → ℕ → List Arrival → Logged
logged w wait arrivals = record {
  upf_seid = w.server.next_seid;
  upf_teid = w.server.next_teid;
  upf_n3_addr = w.server.n3_addr;
  reports = (waited wait arrivals).0;
  replies = (waited wait arrivals).1;
}

abbrev pub session_for : SimConfig → ℕ → World → SessionData
session_for config ue_ip w = record {
  ue_ip = ue_ip;
  teid = w.server.next_teid;
  gnb_ip = config.network.gnb_addr;
  cp_seid = 1;
}

-- The command that establishes one session, against a UPF that has an association for the source and
-- room in its maps: if the numbers fit their fields and the SEID and TEID it gives are not 0, the
-- command succeeds with the SEID, TEID and address that the UPF gave, and with the reports of the wait;
-- the UPF has the session under the SEID, with CP SEID 1.
pub establishment_sent :
    (env : Env) (ip port my_ts ue_ip wait : ℕ) (config : SimConfig) (arrivals : List Arrival)
    (assoc : SmfAssociation) (w : World)
    → IsRoomy env
    → CanEstablish config ip port ue_ip assoc w
    → (v : World) × (send_session_establishment
          (upf_link env (v4 ip port))
          my_ts
          config
          ue_ip
          wait
          arrivals
          w
        ≡ (ok (logged w wait arrivals), v))
      × (v.server.sessions w.server.next_seid ≡ some (session_for config ue_ip w))
unfolding send_session_establishment
establishment_sent env ip port my_ts ue_ip wait config arrivals assoc w roomy h =
    let smf_addr = config.network.smf_n4_addr in
    let gnb_addr = config.network.gnb_addr in
    let gnb_teid = config.session.gnb_teid_start in
    let seid = w.server.next_seid in
    let teid = w.server.next_teid in
    let n3_addr = w.server.n3_addr in
    let packet = body smf_addr ue_ip gnb_addr gnb_teid in
    let fit =
      rules-RulesFit smf_addr ue_ip gnb_addr gnb_teid h.smf_addr h.ue_ip_fits h.gnb_addr
        h.gnb_teid in
    let created : List (ℕ × ℕ × ℕ) = (1, teid, n3_addr) ∷ (2, teid, n3_addr) ∷ [] in
    let rsp = build_session_establishment_response 2 1 seid n3_addr created in
    let (v, (answer, server, session_map)) =
      establishment_done env (session_header pfcp_session_establishment_req 0 2 packet) packet ip
        port ue_ip w (request_of smf_addr 1 (pdrs ue_ip) (fars gnb_addr gnb_teid) urrs) _ assoc
        roomy (decode-request_ies smf_addr 1 (pdrs ue_ip) (fars gnb_addr gnb_teid) urrs fit) refl
        refl h.association in
    let accepted = establishment_accepted 2 (omega arith) 1 seid n3_addr created in
    (
      v,
      rw
          (
            link-accepted env (v4 ip port) w v (establish_request smf_addr ue_ip gnb_addr gnb_teid)
                rsp pfcp_session_establishment_req 2
                (establish-dispatched smf_addr ue_ip gnb_addr gnb_teid env ip port w ∙ answer)
                accepted,
            accepted,
            extract-build_response 2 1 seid n3_addr 1 teid n3_addr ((2, teid, n3_addr) ∷ [])
                (omega arith) h.seid h.n3_addr h.teid h.n3_addr h.seid_nonzero h.teid_nonzero,
          )
          refl,
      ap (λ srv. srv.sessions seid) server ∙ update_self w.server.sessions seid _,
    )
