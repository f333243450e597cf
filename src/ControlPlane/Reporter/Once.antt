-- ===== src/ControlPlane/Reporter/Once.antt =====
-- upf-edge/src/urr_reporter.rs: when a usage report is triggered, and how often.
use upf_edge.Prelude.{
  ℕ, ◌+◌, ◌/◌, ◌%◌, ◌≤◌, ◌≢◌, ◌^◌, bit_and, Bool, true, false, not, ◌&&◌, ◌≡◌, ◌↔◌, refl, ◌∙◌,
  Option, none, some, List, [], ◌∷◌, if◌then◌else◌, arith, inl, inr, Bool-cases, ◌==◌, ==_refl,
  get_or,
}
use upf_edge.Bytes.{Bytes}
use upf_edge.Common.{UrrStats}
use upf_edge.DataPlane.Rules.{add_u64}
use upf_edge.Pfcp.Build.{build_session_report_request, usage_report}
use upf_edge.Pfcp.Builder.{append_ie}
use upf_edge.Pfcp.Header.{encode}
use upf_edge.Pfcp.Types.{usage_report_trigger_volth}
use upf_edge.ControlPlane.{UrrConfig, PfcpServer}
use upf_edge.ControlPlane.Reporter.{
  volth_due, perio_due, judge_usage, send_report, report_config, report_one,
}

-- For a rule with a volume threshold, the threshold triggers a report exactly if some reporting trigger
-- below bit 7 is on, whichever it is, the threshold is reached and it has not been reported.
pub volth_due_iff :
    (total_vol th : ℕ) (cfg : UrrConfig)
    → cfg.volume_threshold_total ≡ some th
    → (volth_due total_vol cfg ≡ true)
      ↔ ((cfg.reporting_triggers % 2 ^ 7 ≢ 0) × (th ≤ total_vol) × (cfg.threshold_reported ≡ false))
unfolding volth_due
volth_due_iff total_vol th cfg e = (rw (e) λ h. ground arith, rw (e) λ (a, b, c). ground arith)

-- Byte 45 of a request that is sent is the first of the Usage Report Trigger IE, behind the header and
-- the IEs Report Type, URR ID and UR-SEQN.
abbrev pub carries_volth : Option Bytes → Bool
carries_volth none = false
carries_volth (some req) = not (bit_and (get_or req 45 0) usage_report_trigger_volth == 0)

trigger_byte :
    (seq cp_seid urr_id ur_seqn trigger total ul dl : ℕ)
    → get_or (build_session_report_request seq cp_seid urr_id ur_seqn trigger total ul dl) 45 0
      ≡ trigger
unfolding build_session_report_request usage_report append_ie encode
trigger_byte seq cp_seid urr_id ur_seqn trigger total ul dl = refl

-- The rule of a key of the usage map.
abbrev pub is_rule : ℕ → ℕ → ℕ → Bool
is_rule seid urr_id key = seid == key / 2 ^ 16 && urr_id == bit_and key 0xFFFF

-- How often the volume threshold of a rule is reported, over a sequence of entries that the reporter
-- handles: each with the time of its tick, the key and the counters.
pub volth_reports : (seid urr_id : ℕ) → List (ℕ × ℕ × UrrStats) → PfcpServer → ℕ
volth_reports seid urr_id [] srv = 0
volth_reports seid urr_id ((now, key, sum) ∷ entries) srv =
    let (next, req) = report_one now (key, sum) srv in
    let rest = volth_reports seid urr_id entries next in
    if is_rule seid urr_id key && carries_volth req then rest + 1 else rest

-- The rule's threshold is marked as reported.
record IsMarked (seid urr_id : ℕ) (srv : PfcpServer) : Type 0 where
  config : UrrConfig
  stored : srv.urr_configs seid urr_id ≡ some config
  marked : config.threshold_reported ≡ true

module _ (total_vol : ℕ) (sum : UrrStats) (seid urr_id trigger : ℕ) (cfg : UrrConfig)
    (srv : PfcpServer) where
  sent-volth :
      carries_volth (send_report total_vol sum seid urr_id (trigger, cfg) srv).1 ≡ true
      → (bit_and trigger usage_report_trigger_volth == 0) ≡ false
  unfolding send_report
  sent-volth h = elim (Bool-cases (trigger == 0)) [
    | inl t ↦ ground (arith, rw (t) at h)
    | inr f ↦ ground (
      arith,
      rw
          (
            f,
            trigger_byte srv.next_report_seq cfg.cp_seid urr_id cfg.ur_seqn trigger total_vol
                sum.ul_bytes sum.dl_bytes,
          )
          at h,
    )
  ]

  sent-IsMarked :
      cfg.threshold_reported ≡ true
      → IsMarked seid urr_id (send_report total_vol sum seid urr_id (trigger, cfg) srv).0
  unfolding send_report
  sent-IsMarked h = elim (Bool-cases (trigger == 0)) [
    | inl t ↦
        rw (t)
          (record { config = cfg; stored = rw (==_refl seid, ==_refl urr_id) refl; marked = h })
    | inr f ↦ rw (f) (record {
      config = record cfg { ur_seqn = (cfg.ur_seqn + 1) % 2 ^ 32 };
      stored = rw (==_refl seid, ==_refl urr_id) refl;
      marked = h;
    })
  ]

  sent-others :
      (s u : ℕ)
      → (s == seid && u == urr_id) ≡ false
      → (send_report total_vol sum seid urr_id (trigger, cfg) srv).0.urr_configs s u
        ≡ srv.urr_configs s u
  unfolding send_report
  sent-others s u h = elim (Bool-cases (trigger == 0)) [
    | inl t ↦ rw (t, h) refl
    | inr f ↦ rw (f, h) refl
  ]

not_due :
    (total_vol : ℕ) (cfg : UrrConfig)
    → cfg.threshold_reported ≡ true
    → volth_due total_vol cfg ≡ false
unfolding volth_due
not_due total_vol cfg e = ground arith

judged-due :
    (now total_vol : ℕ) (cfg : UrrConfig)
    → (bit_and (judge_usage now total_vol cfg).0 usage_report_trigger_volth == 0) ≡ false
    → volth_due total_vol cfg ≡ true
unfolding judge_usage
judged-due now total_vol cfg e = elim (Bool-cases (volth_due total_vol cfg)) [
  | inl t ↦ t
  | inr f ↦ elim (Bool-cases (perio_due now cfg)) [
    | inl p ↦ absurd (ground (arith, rw (f, p) at e))
    | inr p ↦ absurd (ground (arith, rw (f, p) at e))
  ]
]

due-reported :
    (now total_vol : ℕ) (cfg : UrrConfig)
    → volth_due total_vol cfg ≡ true
    → (judge_usage now total_vol cfg).1.threshold_reported ≡ true
unfolding judge_usage
due-reported now total_vol cfg e = rw (e) refl

judged-reported :
    (now total_vol : ℕ) (cfg : UrrConfig)
    → cfg.threshold_reported ≡ true
    → (judge_usage now total_vol cfg).1.threshold_reported ≡ true
unfolding judge_usage
judged-reported now total_vol cfg e = rw (not_due total_vol cfg e, e) refl

-- One entry of the rule, and of another.
module _ (now : ℕ) (sum : UrrStats) (seid urr_id : ℕ) (srv : PfcpServer) where
  reported-IsMarked :
      (o : Option UrrConfig)
      → carries_volth (report_config now sum seid urr_id o srv).1 ≡ true
      → IsMarked seid urr_id (report_config now sum seid urr_id o srv).0
  unfolding report_config
  reported-IsMarked none h = absurd (ground (arith, h))
  reported-IsMarked (some cfg) h =
      let total_vol = add_u64 sum.ul_bytes sum.dl_bytes in
      let judged = judge_usage now total_vol cfg in
      sent-IsMarked total_vol sum seid urr_id judged.0 judged.1 srv (
        due-reported now total_vol cfg (
          judged-due now total_vol cfg
            (sent-volth total_vol sum seid urr_id judged.0 judged.1 srv h)))

  config-quiet :
      (cfg : UrrConfig)
      → cfg.threshold_reported ≡ true
      → IsMarked seid urr_id (report_config now sum seid urr_id (some cfg) srv).0
        × (carries_volth (report_config now sum seid urr_id (some cfg) srv).1 ≡ false)
  unfolding report_config
  config-quiet cfg h =
      let total_vol = add_u64 sum.ul_bytes sum.dl_bytes in
      let judged = judge_usage now total_vol cfg in
      (
        sent-IsMarked total_vol sum seid urr_id judged.0 judged.1 srv
            (judged-reported now total_vol cfg h),
        elim (Bool-cases (carries_volth (send_report total_vol sum seid urr_id judged srv).1)) [
          | inl t ↦
              let due =
                judged-due now total_vol cfg
                  (sent-volth total_vol sum seid urr_id judged.0 judged.1 srv t) in
              absurd (ground (arith, due, not_due total_vol cfg h))
          | inr f ↦ f
        ],
      )

  other-kept :
      (s u : ℕ) (o : Option UrrConfig)
      → (s == seid && u == urr_id) ≡ false
      → (report_config now sum seid urr_id o srv).0.urr_configs s u ≡ srv.urr_configs s u
  unfolding report_config
  other-kept s u none h = refl
  other-kept s u (some cfg) h =
      let judged = judge_usage now (add_u64 sum.ul_bytes sum.dl_bytes) cfg in
      sent-others (add_u64 sum.ul_bytes sum.dl_bytes) sum seid urr_id judged.0 judged.1 srv s u h

both : (a b : Bool) → (a && b) ≡ true → (a ≡ true) × (b ≡ true)
both a b h = ground arith

rule_of :
    (seid urr_id key : ℕ)
    → is_rule seid urr_id key ≡ true
    → (seid ≡ key / 2 ^ 16) × (urr_id ≡ bit_and key 0xFFFF)
rule_of seid urr_id key h = ground arith

module _ (seid urr_id now key : ℕ) (sum : UrrStats) (srv : PfcpServer) where
  one-IsMarked :
      is_rule seid urr_id key ≡ true
      → carries_volth (report_one now (key, sum) srv).1 ≡ true
      → IsMarked seid urr_id (report_one now (key, sum) srv).0
  unfolding report_one
  one-IsMarked r h =
      let (es, eu) = rule_of seid urr_id key r in
      rw (es, eu)
        (reported-IsMarked now sum (key / 2 ^ 16) (bit_and key 0xFFFF) srv
          (srv.urr_configs (key / 2 ^ 16) (bit_and key 0xFFFF)) h)

  one-quiet :
      IsMarked seid urr_id srv
      → IsMarked seid urr_id (report_one now (key, sum) srv).0
        × ((is_rule seid urr_id key && carries_volth (report_one now (key, sum) srv).1) ≡ false)
  unfolding report_one
  one-quiet m = elim (Bool-cases (is_rule seid urr_id key)) [
    | inl r ↦
        let (es, eu) = rule_of seid urr_id key r in
        let stored : srv.urr_configs (key / 2 ^ 16) (bit_and key 0xFFFF) ≡ some m.config =
          rw (es, eu) at m.stored in
        let (marked, f) =
          config-quiet now sum (key / 2 ^ 16) (bit_and key 0xFFFF) srv m.config m.marked in
        (rw (es, eu, stored) marked, rw (r, stored) f)
    | inr f ↦ (
      record {
        config = m.config;
        stored =
            other-kept now sum (key / 2 ^ 16) (bit_and key 0xFFFF) srv seid urr_id
              (srv.urr_configs (key / 2 ^ 16) (bit_and key 0xFFFF)) f
            ∙ m.stored;
        marked = m.marked;
      },
      rw (f) refl,
    )
  ]

quiet :
    (seid urr_id : ℕ) (entries : List (ℕ × ℕ × UrrStats)) (srv : PfcpServer)
    → IsMarked seid urr_id srv
    → volth_reports seid urr_id entries srv ≡ 0
unfolding volth_reports
quiet seid urr_id [] srv m = refl
quiet seid urr_id ((now, key, sum) ∷ entries) srv m =
    let (marked, f) = one-quiet seid urr_id now key sum srv m in
    rw (f) (quiet seid urr_id entries (report_one now (key, sum) srv).0 marked)

-- Until the rule is updated, at most one of the requests that the reporter makes for it carries the
-- trigger of the volume threshold, whatever entries it handles, of this rule and of others, at
-- whatever times and with whatever volumes.
pub volth_reported_once :
    (seid urr_id : ℕ) (entries : List (ℕ × ℕ × UrrStats)) (srv : PfcpServer)
    → volth_reports seid urr_id entries srv ≤ 1
unfolding volth_reports
volth_reported_once seid urr_id [] srv = omega arith
volth_reported_once seid urr_id ((now, key, sum) ∷ entries) srv =
    let next = report_one now (key, sum) srv in
    elim (Bool-cases (is_rule seid urr_id key && carries_volth next.1)) [
      | inl t ↦
          let (r, c) = both (is_rule seid urr_id key) (carries_volth next.1) t in
          rw (t, quiet seid urr_id entries next.0 (one-IsMarked seid urr_id now key sum srv r c))
            (omega arith)
      | inr f ↦ rw (f) (volth_reported_once seid urr_id entries next.0)
    ]
