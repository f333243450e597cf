-- ===== src/SmfSim/Reports/Delivered.antt =====
-- A usage report on its way from upf-edge/src/urr_reporter.rs to smf-sim/src/main.rs and back.
use upf_edge.Prelude.{ℕ, ◌^◌, ◌<◌, ◌≡◌, refl, some, List, [], ◌∷◌, ◌++◌, arith}
use upf_edge.Bytes.{u32_be, u64_be}
use upf_edge.ControlPlane.{Env, World, SocketAddr, done}
use upf_edge.ControlPlane.Dispatch.{handle_message, dispatch}
use upf_edge.Pfcp.Build.{build_session_report_request, build_session_report_response, usage_report}
use upf_edge.Pfcp.Build.Replies.{decode-session_msg}
use upf_edge.Pfcp.Builder.{new, append_ie}
use upf_edge.Pfcp.Builder.Rows.{ie, add_ies-tlvs}
use upf_edge.Pfcp.Header.{new_session_msg}
use upf_edge.Pfcp.Tlv.{Ie, items, iter_ies, tlvs}
use upf_edge.Pfcp.Types.{
  pfcp_session_report_req, pfcp_session_report_rsp, pfcp_ie_report_type, report_type_usar,
  pfcp_ie_urr_id, pfcp_ie_ur_seqn, pfcp_ie_usage_report_trigger, pfcp_ie_volume_measurement,
  pfcp_ie_usage_report_in_sess_rpt_req, pfcp_ie_cause, cause_request_accepted,
}
use upf_edge.SmfSim.Reports.{UsageReport, handle_report, read_usage_report, reports_in}
use upf_edge.SmfSim.Validator.Accepting.{walk_back}

-- What the reporter sends for one rule.
pub record InRange (seq seid urr_id trigger total ul dl : ℕ) : Type 0 where
  pub seq_fits : seq < 2 ^ 24
  pub seid_fits : seid < 2 ^ 64
  pub urr_id_fits : urr_id < 2 ^ 32
  pub total_fits : total < 2 ^ 64
  pub ul_fits : ul < 2 ^ 64
  pub dl_fits : dl < 2 ^ 64

module _ (seq seid urr_id ur_seqn trigger total ul dl : ℕ) where
  abbrev inner : List Ie
  inner =
      ie pfcp_ie_urr_id (u32_be urr_id)
      ∷ ie pfcp_ie_ur_seqn (u32_be ur_seqn)
      ∷ ie pfcp_ie_usage_report_trigger (trigger ∷ 0x00 ∷ [])
      ∷ ie pfcp_ie_volume_measurement (0x07 ∷ (u64_be total ++ (u64_be ul ++ u64_be dl)))
      ∷ []

  abbrev outer : List Ie
  outer =
      ie pfcp_ie_report_type (report_type_usar ∷ [])
      ∷ ie pfcp_ie_usage_report_in_sess_rpt_req (usage_report urr_id ur_seqn trigger total ul dl)
      ∷ []

  inner_walk : items (iter_ies (usage_report urr_id ur_seqn trigger total ul dl)) ≡ inner
  unfolding usage_report append_ie
  inner_walk = walk_back inner (omega arith)

  outer_walk : items (iter_ies (tlvs outer)) ≡ outer
  unfolding usage_report append_ie
  outer_walk = walk_back outer (omega arith)

  abbrev pub report : UsageReport
  report = record {
    seid = seid;
    urr_id = urr_id;
    trigger = trigger;
    total = total;
    ul = ul;
    dl = dl;
  }

  usage_report_read :
      InRange seq seid urr_id trigger total ul dl
      → read_usage_report seid (usage_report urr_id ur_seqn trigger total ul dl) ≡ report
  unfolding read_usage_report
  usage_report_read h = rw (inner_walk) (ground arith)

  request_handled :
      InRange seq seid urr_id trigger total ul dl
      → handle_report (build_session_report_request seq seid urr_id ur_seqn trigger total ul dl)
        ≡ (report ∷ [], some (build_session_report_response seq seid))
  unfolding handle_report build_session_report_request reports_in
  request_handled h =
      rw
        (
          add_ies-tlvs (new (new_session_msg pfcp_session_report_req seid seq)) outer,
          decode-session_msg pfcp_session_report_req seid seq (tlvs outer) h.seq_fits,
          outer_walk,
        )
        (ground (arith, usage_report_read h))

  response_ignored :
      (env : Env) (src : SocketAddr) (w : World)
      → seq < 2 ^ 24
      → handle_message env (build_session_report_response seq seid) src w ≡ done [] w
  unfolding handle_message dispatch build_session_report_response
  response_ignored env src w h =
      let cause_only : List Ie = ie pfcp_ie_cause (cause_request_accepted ∷ []) ∷ [] in
      rw
        (
          add_ies-tlvs (new (new_session_msg pfcp_session_report_rsp seid seq)) cause_only,
          decode-session_msg pfcp_session_report_rsp seid seq (tlvs cause_only) h,
        )
        refl

  -- From the Session Report Request that the UPF builds, the simulator reads the session, the rule, the
  -- trigger and the three volumes as they were reported, and it answers with the Session Report Response
  -- for the same sequence number and session; the UPF takes that response without an answer of its own
  -- and without a change. The numbers are to fit their fields.
  pub report_delivered :
      (env : Env) (src : SocketAddr) (w : World)
      → InRange seq seid urr_id trigger total ul dl
      → (handle_report (build_session_report_request seq seid urr_id ur_seqn trigger total ul dl)
          ≡ (report ∷ [], some (build_session_report_response seq seid)))
        × (handle_message env (build_session_report_response seq seid) src w ≡ done [] w)
  report_delivered env src w h = (request_handled h, response_ignored env src w h.seq_fits)
