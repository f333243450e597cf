-- ===== src/ControlPlane/Reporter.antt =====
-- upf-edge/src/urr_reporter.rs: one tick of the usage reporter. Instants are nanoseconds; the order of
-- `totals` is that in which the map gives its entries.
pub mod Once
pub mod Keeping
use upf_edge.Prelude.{
  ℕ, ◌+◌, ◌-◌, ◌*◌, ◌/◌, ◌%◌, ◌^◌, bit_and, bit_or, Bool, true, false, not, ◌&&◌, Option, none,
  some, List, [], ◌∷◌, if◌then◌else◌, leb, ◌==◌,
}
use upf_edge.Bytes.{Bytes}
use upf_edge.Common.{UrrStats}
use upf_edge.Pfcp.Types.{
  reporting_trigger_perio, reporting_trigger_volth, usage_report_trigger_perio,
  usage_report_trigger_volth,
}
use upf_edge.Pfcp.Build.{build_session_report_request}
use upf_edge.DataPlane.Rules.{add_u64}
use upf_edge.ControlPlane.{SocketAddr, UrrConfig, PfcpServer}
use upf_edge.ControlPlane.Establish.{set_config, no_usage}

-- The counters of all CPUs.
unfoldable pub sum_cpus : List UrrStats → UrrStats → UrrStats
sum_cpus [] sum = sum
sum_cpus (v ∷ vs) sum = sum_cpus vs (record {
  ul_bytes = add_u64 sum.ul_bytes v.ul_bytes;
  ul_packets = add_u64 sum.ul_packets v.ul_packets;
  dl_bytes = add_u64 sum.dl_bytes v.dl_bytes;
  dl_packets = add_u64 sum.dl_packets v.dl_packets;
})

abbrev pub from_secs : ℕ → ℕ
from_secs s = s * 10 ^ 9

abbrev reached : Option ℕ → ℕ → Bool
reached none total_vol = false
reached (some th) total_vol = leb th total_vol

abbrev elapsed : Option ℕ → ℕ → Bool
elapsed none since = false
elapsed (some period) since = leb (from_secs period) since

-- The two conditions for a trigger; the first multiplies where the second masks.
unfoldable pub volth_due : ℕ → UrrConfig → Bool
volth_due total_vol cfg =
    not (cfg.reporting_triggers * reporting_trigger_volth % 2 ^ 8 == 0)
    && (reached cfg.volume_threshold_total total_vol && not cfg.threshold_reported)

unfoldable pub perio_due : ℕ → UrrConfig → Bool
perio_due now cfg =
    not (bit_and cfg.reporting_triggers reporting_trigger_perio == 0)
    && elapsed cfg.measurement_period (now - cfg.last_report)

abbrev flag_if : Bool → ℕ → ℕ → ℕ
flag_if due flag trigger = if due then bit_or trigger flag else trigger

-- `trigger`, and the configuration as the two conditions leave it.
unfoldable pub judge_usage : ℕ → ℕ → UrrConfig → ℕ × UrrConfig
unfolding volth_due perio_due
judge_usage now total_vol cfg =
    let volth = volth_due total_vol cfg in
    let perio = perio_due now cfg in
    (
      flag_if perio usage_report_trigger_perio (flag_if volth usage_report_trigger_volth 0),
      record cfg {
        threshold_reported = if volth then true else cfg.threshold_reported;
        last_report = if perio then now else cfg.last_report;
      },
    )

-- `Some` with the request to send.
send_report : ℕ → UrrStats → ℕ → ℕ → ℕ × UrrConfig → PfcpServer → PfcpServer × Option Bytes
send_report total_vol sum seid urr_id (trigger, cfg) srv =
    if trigger == 0
    then (record srv { urr_configs = set_config seid urr_id cfg srv.urr_configs }, none)
    else (
      record srv {
        urr_configs =
            set_config seid urr_id (record cfg { ur_seqn = (cfg.ur_seqn + 1) % 2 ^ 32 })
              srv.urr_configs;
        next_report_seq = (srv.next_report_seq + 1) % 2 ^ 32;
      },
      some (
          build_session_report_request srv.next_report_seq cfg.cp_seid urr_id cfg.ur_seqn trigger
            total_vol sum.ul_bytes sum.dl_bytes),
    )

report_config : ℕ → UrrStats → ℕ → ℕ → Option UrrConfig → PfcpServer → PfcpServer × Option Bytes
unfolding judge_usage send_report
report_config now sum seid urr_id none srv = (srv, none)
report_config now sum seid urr_id (some cfg) srv =
    let total_vol = add_u64 sum.ul_bytes sum.dl_bytes in
    send_report total_vol sum seid urr_id (judge_usage now total_vol cfg) srv

-- The body of the loop over the totals.
unfoldable pub report_one : ℕ → ℕ × UrrStats → PfcpServer → PfcpServer × Option Bytes
unfolding report_config
report_one now (composed_key, sum) srv =
    let seid = composed_key / 2 ^ 16 in
    let urr_id = bit_and composed_key 0xFFFF in
    report_config now sum seid urr_id (srv.urr_configs seid urr_id) srv

abbrev queued : SocketAddr → Option Bytes → List (SocketAddr × Bytes) → List (SocketAddr × Bytes)
queued peer none to_send = to_send
queued peer (some req) to_send = (peer, req) ∷ to_send

report_all :
    ℕ → SocketAddr → List (ℕ × UrrStats) → PfcpServer → PfcpServer × List (SocketAddr × Bytes)
unfolding report_one
report_all now peer [] srv = (srv, [])
report_all now peer (entry ∷ totals) srv =
    let (srv, req) = report_one now entry srv in
    let (srv, to_send) = report_all now peer totals srv in (srv, queued peer req to_send)

total_of : List (ℕ × List UrrStats) → List (ℕ × UrrStats)
unfolding sum_cpus
total_of [] = []
total_of ((key, per_cpu) ∷ entries) = (key, sum_cpus per_cpu no_usage) ∷ total_of entries

report_to :
    ℕ
    → List (ℕ × UrrStats)
    → Option SocketAddr
    → PfcpServer
    → PfcpServer × List (SocketAddr × Bytes)
unfolding report_all
report_to now totals none srv = (srv, [])
report_to now totals (some peer) srv = report_all now peer totals srv

-- The requests to send, from the entries of the usage map.
unfoldable pub tick :
    ℕ → List (ℕ × List UrrStats) → PfcpServer → PfcpServer × List (SocketAddr × Bytes)
unfolding total_of report_to
tick now entries srv = report_to now (total_of entries) srv.peer_addr srv
