-- ===== src/Tests/Sending.antt =====
-- smf-sim: the keepalive and the commands that send a single message, against the UPF.
use upf_edge.Prelude.{◌≡◌, some, List, [], ◌∷◌, arith, Bool-cases, inl, inr, ◌==◌, ==_iff, ok, refl}
use upf_edge.ControlPlane.{v4, World, find_by_addr}
use upf_edge.Pfcp.Build.{build_session_report_request}
use upf_edge.SmfSim.Interactive.{Console, add_session, prepared, handle_async_command}
use upf_edge.SmfSim.Interactive.Commands.{handle_async_command-Safe}
use upf_edge.SmfSim.Interactive.Numbering.{IsNumbered, Safe, state_of}
use upf_edge.SmfSim.State.{insert_session, new_state}
use upf_edge.SmfSim.Keepalive.{Keeping}
use upf_edge.SmfSim.Scenario.Passing.{upf_link}
use upf_edge.SmfSim.Single.{send_session_establishment}
use upf_edge.SmfSim.Single.Establishing.{CanEstablish, logged, session_for, establishment_sent}
use upf_edge.SmfSim.Transport.{Arrival, datagram}
use upf_edge.Tests.Peer.{config}
use upf_edge.Tests.Running.{roomy}
use upf_edge.Tests.Server.{owner, world, env}

-- The UPF was known by the time stamp 7.
abbrev kept : Keeping
kept = record { next_seq = 100; upf_ts = 7; events = [] }

abbrev arrivals : List Arrival
arrivals =
    datagram (build_session_report_request 1000 2 4 0 2 1500 1000 500) (v4 0x0A00_0001 8805) ∷ []

can_establish : CanEstablish config 0x0A00_0002 8805 0x0A3C_0009 owner world
unfolding find_by_addr
can_establish = record {
  smf_addr = omega arith;
  gnb_addr = omega arith;
  gnb_teid = omega arith;
  ue_ip_fits = omega arith;
  seid = omega arith;
  seid_nonzero = λ e. omega (arith, e);
  teid = omega arith;
  teid_nonzero = λ e. omega (arith, e);
  n3_addr = omega arith;
  association = refl;
}

establishment_sent_example :
    (v : World) × (send_session_establishment
        (upf_link env (v4 0x0A00_0002 8805))
        100
        config
        0x0A3C_0009
        30
        arrivals
        world
      ≡ (ok (logged world 30 arrivals), v))
    × (v.server.sessions 2 ≡ some (session_for config 0x0A3C_0009 world))
establishment_sent_example =
    establishment_sent env 0x0A00_0002 8805 100 0x0A3C_0009 30 config arrivals owner world roomy
      can_establish

-- The simulator with the session that has been established.
abbrev console : Console World
console = record {
  state =
      insert_session (prepared 1 0x0A3C_0001 0x8000_0001 0)
        (record (new_state 1_700_000_000 config.session) { next_cp_seid = 2 });
  outside = world;
  events = [];
}

console-IsNumbered : IsNumbered console.state
console-IsNumbered = record {
  own = λ k d e. elim (Bool-cases (1 == k)) [
    | inl t ↦ ground (arith, (==_iff 1 k).0 t, rw (t) at e)
    | inr f ↦ ground (arith, rw (f) at e)
  ];
  allocated = λ k d e. elim (Bool-cases (1 == k)) [
    | inl t ↦ omega (arith, (==_iff 1 k).0 t)
    | inr f ↦ ground (arith, rw (f) at e)
  ];
}

handle_async_command-Safe_example : Safe (add_session 2) console.state (
    state_of (
      handle_async_command
        (upf_link env (v4 0x0A00_0002 8805))
        0x0A00_0002
        0x0A00_0003
        7
        9
        (add_session 2)
        console))
handle_async_command-Safe_example =
    handle_async_command-Safe (upf_link env (v4 0x0A00_0002 8805)) 0x0A00_0002 0x0A00_0003 7 9
      (add_session 2) console console-IsNumbered (omega arith)
