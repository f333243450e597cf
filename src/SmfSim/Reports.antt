-- ===== src/SmfSim/Reports.antt =====
-- smf-sim/src/main.rs: `wait_and_handle_reports`.
pub mod Delivered
use upf_edge.Prelude.{
  ℕ, ◌+◌, ◌*◌, ◌^◌, ◌&&◌, Option, none, some, List, [], ◌∷◌, ◌++◌, ok, err, panic, if◌then◌else◌,
  ◌==◌, leb, length, get_or,
}
use upf_edge.Bytes.{Bytes, u32_from}
use upf_edge.ControlPlane.Delete.{seid_or_zero}
use upf_edge.ControlPlane.{SocketAddr}
use upf_edge.SmfSim.Transport.{Arrival, datagram, failure, sent}
use upf_edge.Pfcp.Build.{build_session_report_response}
use upf_edge.Pfcp.Header.{PfcpHeader, Result, decode}
use upf_edge.Pfcp.Tlv.{Ie, items, iter_ies}
use upf_edge.Pfcp.Types.{
  pfcp_session_report_req, pfcp_ie_usage_report_in_sess_rpt_req, pfcp_ie_urr_id,
  pfcp_ie_usage_report_trigger, pfcp_ie_volume_measurement,
}

-- The values that are logged.
pub record UsageReport : Type 0 where
  pub seid : ℕ
  pub urr_id : ℕ
  pub trigger : ℕ
  pub total : ℕ
  pub ul : ℕ
  pub dl : ℕ

abbrev u64_from : Bytes → ℕ → ℕ
u64_from value i = u32_from value i * 2 ^ 32 + u32_from value (i + 4)

abbrev read_ie : Ie → UsageReport → UsageReport
read_ie ie report =
    if ie.ie_type == pfcp_ie_urr_id && leb 4 (length ie.value)
    then record report { urr_id = u32_from ie.value 0 }
    else if ie.ie_type == pfcp_ie_usage_report_trigger && leb 2 (length ie.value)
    then record report { trigger = get_or ie.value 0 0 }
    else if ie.ie_type == pfcp_ie_volume_measurement && leb 25 (length ie.value)
    then record report {
      total = u64_from ie.value 1;
      ul = u64_from ie.value 9;
      dl = u64_from ie.value 17;
    }
    else report

abbrev read_ies : List Ie → UsageReport → UsageReport
read_ies [] report = report
read_ies (ie ∷ inner) report = read_ies inner (read_ie ie report)

unfoldable pub read_usage_report : ℕ → Bytes → UsageReport
read_usage_report seid value =
    read_ies (items (iter_ies value))
      (record { seid = seid; urr_id = 0; trigger = 0; total = 0; ul = 0; dl = 0 })

unfoldable pub reports_in : ℕ → List Ie → List UsageReport
unfolding read_usage_report
reports_in seid [] = []
reports_in seid (outer ∷ ies) =
    if outer.ie_type == pfcp_ie_usage_report_in_sess_rpt_req
    then read_usage_report seid outer.value ∷ reports_in seid ies
    else reports_in seid ies

abbrev pub handled : Result (PfcpHeader × Bytes) → List UsageReport × Option Bytes
handled (ok (hdr, body)) =
    let seid = seid_or_zero hdr.seid in
    if hdr.msg_type == pfcp_session_report_req
    then (
      reports_in seid (items (iter_ies body)),
      some (build_session_report_response hdr.seq_num seid),
    )
    else ([], none)
handled (err e) = ([], none)
handled panic = ([], none)

-- The reports in a datagram, and the response to it.
unfoldable pub handle_report : Bytes → List UsageReport × Option Bytes
unfolding decode reports_in
handle_report datum = handled (decode datum)

-- The whole wait, over what arrives until its deadline, if every response can be sent.
unfoldable pub wait_and_handle_reports : List Arrival → List UsageReport × List (Bytes × SocketAddr)
unfolding handle_report
wait_and_handle_reports [] = ([], [])
wait_and_handle_reports (failure ∷ arrivals) = ([], [])
wait_and_handle_reports (datagram buf src ∷ arrivals) =
    let (reports, rsp) = handle_report buf in
    let (later, replies) = wait_and_handle_reports arrivals in
    (reports ++ later, sent rsp src replies)
