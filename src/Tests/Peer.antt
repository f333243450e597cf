-- ===== src/Tests/Peer.antt =====
-- smf-sim against the UPF: the dictionary, the exchanges and the scenario.
use upf_edge.Prelude.{
  ◌-◌, ◌≤◌, ◌≡◌, ◌≢◌, ◌↔◌, refl, true, false, some, none, [], ◌∷◌, arith, ok, All, if◌then◌else◌,
  ◌==◌, suc, err, ◌∙◌,
}
use upf_edge.Bytes.{Bytes, IsBytes}
use upf_edge.ControlPlane.{v4, PfcpServer, World, done}
use upf_edge.ControlPlane.Dispatch.{handle_message}
use upf_edge.ControlPlane.Node.{associated, handle_session_association}
use upf_edge.ControlPlane.Reporter.{from_secs}
use upf_edge.ControlPlane.Running.{check_keepalive, heartbeat_request, new_server}
use upf_edge.Pfcp.Build.{
  build_session_report_request, build_session_report_response, build_heartbeat_response,
  build_association_setup_response,
}
use upf_edge.Pfcp.Dict.{is_ok, validate, lookup, association_setup_req, is_required}
use upf_edge.Pfcp.Dict.Valid.{HasIe, validate_iff}
use upf_edge.Pfcp.Header.{PfcpHeader, encode, decode}
use upf_edge.Pfcp.Tlv.{items, iter_ies}
use upf_edge.SmfSim.{pool_exhausted}
use upf_edge.SmfSim.Answered.{answer_accepted}
use upf_edge.SmfSim.Config.{
  SessionConfig, SimConfig, default_pfcp_port, default_gtpu_port, default_gnb_teid_start,
  default_max_sessions, default_heartbeat_interval, default_response_timeout, default_max_retries,
}
use upf_edge.SmfSim.Reports.{handle_report}
use upf_edge.SmfSim.Reports.Delivered.{report, report_delivered}
use upf_edge.SmfSim.Scenario.{run, passed, association_request}
use upf_edge.SmfSim.Scenario.Passing.{upf_link}
use upf_edge.SmfSim.Scenario.Passing.Lifecycle.{CanPass, scenario_passes}
use upf_edge.SmfSim.Scenario.Requests.{
  association_body, node_header, association_dispatched, association_read,
}
use upf_edge.SmfSim.State.{SimState, new_state}
use upf_edge.SmfSim.State.Pool.{take_ue_ips, ue_ip_pool}
use upf_edge.SmfSim.Transport.{Network, datagram, handle_unsolicited, send_and_recv}
use upf_edge.SmfSim.Transport.Heartbeat.{heartbeat_exchange}
use upf_edge.SmfSim.Transport.Retries.{
  IsAwaited, IsOfType, send_and_recv-IsBounded, send_and_recv-heard,
}
use upf_edge.SmfSim.Validator.{validate_response}
use upf_edge.Tests.Server.{maps, world, env}
use upf_edge.Tests.Running.{roomy}

abbrev setup_body : Bytes
setup_body = association_body 0x0A00_0002 100

validate_iff_example :
    (is_ok (validate 5 setup_body) ≡ true)
    ↔ All
        (λ s. is_required s.presence ≡ true → HasIe s.ie_type (items (iter_ies setup_body)))
        association_setup_req.ies
unfolding lookup
validate_iff_example = validate_iff 5 association_setup_req setup_body refl

abbrev session_config : SessionConfig
session_config = record {
  ue_ip_pool_start = 0x0A3C_0001;
  ue_ip_pool_end = 0x0A3C_0003;
  gnb_teid_start = default_gnb_teid_start;
  max_sessions = default_max_sessions;
}

abbrev state : SimState
state = new_state 1_700_000_000 session_config

ue_ip_pool_example : take_ue_ips 4 state ≡ err pool_exhausted
ue_ip_pool_example = ue_ip_pool 4 state (omega arith) (omega arith)

report_delivered_example :
    (handle_report (build_session_report_request 1000 77 4 0 2 1500 1000 500)
      ≡ (report 1000 77 4 0 2 1500 1000 500 ∷ [], some (build_session_report_response 1000 77)))
    × (handle_message env (build_session_report_response 1000 77) (v4 0x0A00_0002 8805) world
        ≡ done [] world)
report_delivered_example =
    report_delivered 1000 77 4 0 2 1500 1000 500 env (v4 0x0A00_0002 8805) world (omega arith)

-- A server that has been idle for twenty seconds.
abbrev idle : PfcpServer
idle = record (new_server 1_700_000_000 0 0x0A00_0001 0x0A00_0001) {
  peer_addr = some (v4 0x0A00_0002 8805);
}

heartbeat_exchange_example :
    (from_secs 15 ≤ 20_000_000_000 - 0)
    × (idle.peer_addr ≡ some (v4 0x0A00_0002 8805))
    × (handle_unsolicited 9 (heartbeat_request 1_700_000_020 200)
        ≡ some (build_heartbeat_response 200 9))
    × (handle_message env (build_heartbeat_response 200 9) (v4 0x0A00_0002 8805) world
        ≡ done [] world)
unfolding check_keepalive
heartbeat_exchange_example =
    heartbeat_exchange (from_secs 15) 1_700_000_020 20_000_000_000 200 9 idle
      (heartbeat_request 1_700_000_020 200) (v4 0x0A00_0002 8805) env (v4 0x0A00_0002 8805) world
      (omega arith) refl

abbrev setup : Bytes
setup = association_request 1 0x0A00_0007 100

abbrev setup_answer : Bytes
setup_answer = build_association_setup_response 1 0x0A00_0001 1

-- Nothing arrives in the first attempt; in the second a heartbeat comes before the response.
abbrev network : Network
network = record {
  send_fails = λ i. false;
  arrivals = λ i.
      if i == 1
      then datagram (heartbeat_request 1_700_000_020 200) (v4 0x0A00_0001 8805)
        ∷ datagram setup_answer (v4 0x0A00_0001 8805)
        ∷ []
      else [];
  ntp = 9;
}

abbrev header : PfcpHeader
header = node_header 5 1 (association_body 0x0A00_0007 100)

setup_decoded : decode setup ≡ ok (header, association_body 0x0A00_0007 100)
unfolding decode encode association_request
setup_decoded = refl

send_and_recv-IsBounded_example :
    ((send_and_recv network 3 setup).sends ≤ suc 3)
    × IsAwaited network 6 (suc 3) (send_and_recv network 3 setup).result
send_and_recv-IsBounded_example =
    send_and_recv-IsBounded network 3 setup header (association_body 0x0A00_0007 100) setup_decoded

answer-IsOfType : IsOfType 6 setup_answer
unfolding decode encode build_association_setup_response
answer-IsOfType = (_, _, refl, refl)

send_and_recv-heard_example : (rsp : Bytes) × ((send_and_recv network 3 setup).result ≡ ok rsp)
send_and_recv-heard_example =
    send_and_recv-heard network 3 setup header (association_body 0x0A00_0007 100) setup_answer 1
      (datagram (heartbeat_request 1_700_000_020 200) (v4 0x0A00_0001 8805) ∷ []) []
      (v4 0x0A00_0001 8805) setup_decoded (λ i. refl) (omega arith) refl (tt, tt) answer-IsOfType

-- The world behind the association of a third node.
abbrev joined : World
joined = record world { server = associated env 0x0A00_0007 100 (v4 0x0A00_0007 8805) world.server }

setup_handled : handle_message env setup (v4 0x0A00_0007 8805) world ≡ done setup_answer joined
unfolding handle_session_association
setup_handled =
    association_dispatched 1 (omega arith) env (v4 0x0A00_0007 8805) world 0x0A00_0007 100
    ∙ rw (association_read 0x0A00_0007 100 (omega arith) (omega arith)) refl

answered : ◌≢◌ {A = Bytes} setup_answer []
unfolding build_association_setup_response
answered e = ground (arith, e)

setup-IsBytes : IsBytes setup
unfolding association_request encode
setup-IsBytes = omega arith

answer_accepted_example : validate_response 5 1 setup_answer ≡ ok tt
answer_accepted_example =
    answer_accepted env setup (v4 0x0A00_0007 8805) world joined header
      (association_body 0x0A00_0007 100) setup_answer setup-IsBytes setup_decoded setup_handled
      answered

abbrev pub config : SimConfig
config = record {
  network = record {
    smf_n4_addr = 0x0A00_0002;
    smf_n4_port = 8805;
    upf_n4_addr = 0x0A00_0001;
    upf_n4_port = default_pfcp_port;
    gnb_addr = 0x0A00_0003;
    gnb_gtpu_port = default_gtpu_port;
  };
  session = session_config;
  timing = record {
    heartbeat_interval_sec = default_heartbeat_interval;
    response_timeout_ms = default_response_timeout;
    max_retries = default_max_retries;
  };
}

abbrev pub fresh_upf : World
fresh_upf = record {
  server = new_server 1_700_000_000 0 0x0A00_0001 0x0A00_0001;
  maps = maps;
  effects = [];
}

can_pass : CanPass config 100 state fresh_upf
can_pass = record {
  smf_addr = omega arith;
  gnb_addr = omega arith;
  my_ts_fits = omega arith;
  ue_ip = omega arith;
  pool = omega arith;
  gnb_teid = omega arith;
  cp_seid = omega arith;
  seq = omega arith;
  seid = omega arith;
  seid_nonzero = λ e. omega (arith, e);
  teid = omega arith;
  teid_nonzero = λ e. omega (arith, e);
  n3_addr = omega arith;
  associations = refl;
}

scenario_passes_example :
    (t : SimState) × (v : World) × (run
        (upf_link env (v4 0x0A00_0002 8805))
        config
        100
        3
        1
        state
        fresh_upf
      ≡ passed tt t v)
    × (t.sessions 1 ≡ none)
    × (v.server.sessions 1 ≡ none)
scenario_passes_example =
    scenario_passes env 0x0A00_0002 8805 config 100 3 state fresh_upf roomy can_pass
