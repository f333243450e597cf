-- ===== src/ControlPlane/Reporter/Keeping.antt =====
-- upf-edge/src/urr_reporter.rs: a tick of the reporter leaves the sessions and their SEIDs as they are.
use upf_edge.Prelude.{
  ℕ, ◌/◌, ◌^◌, bit_and, Option, none, some, List, [], ◌∷◌, inl, inr, Bool-cases, ◌==◌,
}
use upf_edge.Common.{UrrStats}
use upf_edge.ControlPlane.{SocketAddr, UrrConfig, PfcpServer}
use upf_edge.ControlPlane.Serving.{IsServing}
use upf_edge.ControlPlane.Reporter.{
  send_report, report_config, report_one, report_all, report_to, tick, total_of,
}

module _ (old : ℕ → Type 0) where
  send_report-IsServing :
      (n total_vol : ℕ) (sum : UrrStats) (seid urr_id trigger : ℕ) (cfg : UrrConfig)
      (srv : PfcpServer)
      → IsServing old n srv
      → IsServing old n (send_report total_vol sum seid urr_id (trigger, cfg) srv).0
  unfolding send_report
  send_report-IsServing n total_vol sum seid urr_id trigger cfg srv h =
      elim (Bool-cases (trigger == 0)) [
        | inl e ↦ rw (e) (record { fresh = record { covered = h.fresh.covered }; most = h.most })
        | inr e ↦ rw (e) (record { fresh = record { covered = h.fresh.covered }; most = h.most })
      ]

  report_config-IsServing :
      (n now : ℕ) (sum : UrrStats) (seid urr_id : ℕ) (cfg : Option UrrConfig) (srv : PfcpServer)
      → IsServing old n srv
      → IsServing old n (report_config now sum seid urr_id cfg srv).0
  unfolding report_config
  report_config-IsServing n now sum seid urr_id none srv h = h
  report_config-IsServing n now sum seid urr_id (some cfg) srv h =
      send_report-IsServing n _ sum seid urr_id _ _ srv h

  report_one-IsServing :
      (n now : ℕ) (entry : ℕ × UrrStats) (srv : PfcpServer)
      → IsServing old n srv
      → IsServing old n (report_one now entry srv).0
  unfolding report_one
  report_one-IsServing n now (key, sum) srv h =
      let seid = key / 2 ^ 16 in
      let urr_id = bit_and key 0xFFFF in
      report_config-IsServing n now sum seid urr_id (srv.urr_configs seid urr_id) srv h

  report_all-IsServing :
      (n now : ℕ) (peer : SocketAddr) (totals : List (ℕ × UrrStats)) (srv : PfcpServer)
      → IsServing old n srv
      → IsServing old n (report_all now peer totals srv).0
  unfolding report_all
  report_all-IsServing n now peer [] srv h = h
  report_all-IsServing n now peer ((key, sum) ∷ totals) srv h =
      report_all-IsServing n now peer totals (report_one now (key, sum) srv).0
        (report_one-IsServing n now (key, sum) srv h)

  report_to-IsServing :
      (n now : ℕ) (totals : List (ℕ × UrrStats)) (peer : Option SocketAddr) (srv : PfcpServer)
      → IsServing old n srv
      → IsServing old n (report_to now totals peer srv).0
  unfolding report_to
  report_to-IsServing n now totals none srv h = h
  report_to-IsServing n now totals (some peer) srv h = report_all-IsServing n now peer totals srv h

  pub tick-IsServing :
      (n now : ℕ) (entries : List (ℕ × List UrrStats)) (srv : PfcpServer)
      → IsServing old n srv
      → IsServing old n (tick now entries srv).0
  unfolding tick
  tick-IsServing n now entries srv h =
      report_to-IsServing n now (total_of entries) srv.peer_addr srv h
