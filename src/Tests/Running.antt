-- ===== src/Tests/Running.antt =====
-- upf-edge: the server from its start, and its handlers where they succeed.
use upf_edge.Prelude.{ℕ, List, ◌<◌, ◌≡◌, ◌↔◌, refl, true, [], ◌∷◌, arith, map}
use upf_edge.Bytes.{Bytes}
use upf_edge.ControlPlane.{v4, SessionData, World, find_by_addr}
use upf_edge.ControlPlane.Dispatch.{handle_message}
use upf_edge.ControlPlane.Establish.{handle_session_establishment}
use upf_edge.ControlPlane.Establishing.Entered.{access_ids, IsEntered, establishment_succeeds}
use upf_edge.Pfcp.Ie.{OuterHeaderCreation}
use upf_edge.Pfcp.Messages.{SessionEstablishmentReq}
use upf_edge.Pfcp.Build.{build_session_establishment_response}
use upf_edge.ControlPlane.Keeps.{Ends, Of}
use upf_edge.ControlPlane.Modify.{handle_session_modification}
use upf_edge.ControlPlane.Modifying.{Owned, owner_modifies}
use upf_edge.ControlPlane.Reaches.{IsRoomy}
use upf_edge.ControlPlane.Running.{System, start_up, receive, on_system, touch_activity, restore}
use upf_edge.ControlPlane.Running.Reach.{Runs, start, touch, handle, IsStored, run_IsCovered}
use upf_edge.ControlPlane.Running.Restore.{restore-IsFresh}
use upf_edge.ControlPlane.Serving.{IsFresh, IsCovered}
use upf_edge.Pfcp.Build.{build_session_modification_response}
use upf_edge.Pfcp.Header.{PfcpHeader, new_session_msg}
use upf_edge.Pfcp.Types.{pfcp_session_establishment_req, pfcp_session_modification_req}
use upf_edge.SmfSim.Scenario.{
  association_request, uplink_pdr, downlink_pdr, uplink_far, downlink_far,
}
use upf_edge.SmfSim.Scenario.Requests.{
  establishment_body, modification_body, modification_req, modification_read,
}
use upf_edge.Pfcp.Messages.Rows.{request_of, decode-request_ies}
use upf_edge.ControlPlane.{done}
use upf_edge.Tests.Server.{session, owner, server, server-IsFresh, maps, world, env}

pub roomy : IsRoomy env
roomy = record { sessions = λ k. refl; pdrs = λ k. refl; fars = λ k. refl; urrs = λ k. refl }

abbrev setup : Bytes
setup = association_request 1 0x0A00_0002 100

abbrev stored : List (ℕ × SessionData)
stored = (3, session) ∷ []

abbrev started : System
started = start_up 1_700_000_000 0 0x0A00_0001 0x0A00_0001 true stored maps

abbrev set_up : System
set_up = receive env setup (v4 0x0A00_0002 8805) (on_system (touch_activity 7) started)

one_datagram : Runs started 1 set_up
one_datagram = handle env setup (v4 0x0A00_0002 8805) (touch 7 start)

run_IsCovered_example :
    IsCovered (IsStored stored) set_up.world.server
    × Ends
        (Of (IsCovered (IsStored stored)))
        (handle_message env setup (v4 0x0A00_0002 8805) set_up.world)
run_IsCovered_example =
    run_IsCovered 1_700_000_000 0 0x0A00_0001 0x0A00_0001 true stored maps 1 set_up env setup
      (v4 0x0A00_0002 8805) one_datagram (omega arith)

restore-IsFresh_example : IsFresh (restore ((3, session) ∷ []) server) ↔ (◌<◌ 3 2 × Unit {0})
restore-IsFresh_example = restore-IsFresh ((3, session) ∷ []) server server-IsFresh

abbrev establishment : PfcpHeader
establishment = new_session_msg pfcp_session_establishment_req 0 9

abbrev wanted : SessionEstablishmentReq
wanted =
    request_of 0x0A00_0002 78
      (uplink_pdr 0x0A3C_0002 0x0A00_0003 ∷ downlink_pdr 0x0A3C_0002 0x0A00_0003 ∷ [])
      (uplink_far ∷ downlink_far 0x0A00_0003 4 ∷ []) []

abbrev gnb : OuterHeaderCreation
gnb = record { teid = 4; peer_addr = 0x0A00_0003; port = 2152 }

establishment_succeeds_example :
    (v : World) × (handle_session_establishment env establishment
        (establishment_body 0x0A00_0002 78 0x0A3C_0002 0x0A00_0003 4)
        (v4 0x0A00_0002 8805)
        world
      ≡ done
          (build_session_establishment_response 9 78 2 0x0A00_0001
            (map (λ id. (id, 1001, 0x0A00_0001)) (access_ids wanted.create_pdrs)))
          v)
    × IsEntered wanted 0x0A3C_0002 gnb owner world v
unfolding find_by_addr
establishment_succeeds_example =
    establishment_succeeds env establishment
      (establishment_body 0x0A00_0002 78 0x0A3C_0002 0x0A00_0003 4) 0x0A00_0002 8805 0x0A3C_0002
      world wanted gnb owner roomy
      (decode-request_ies 0x0A00_0002 78
        (uplink_pdr 0x0A3C_0002 0x0A00_0003 ∷ downlink_pdr 0x0A3C_0002 0x0A00_0003 ∷ [])
        (uplink_far ∷ downlink_far 0x0A00_0003 4 ∷ []) [] (omega arith))
      refl refl refl refl

owner_modifies_example :
    (v : World) × (handle_session_modification env
        (new_session_msg pfcp_session_modification_req 1 9)
        (modification_body 0x0A00_0003)
        (v4 0x0A00_0002 8805)
        world
      ≡ done (build_session_modification_response 9 77) v)
    × Owned 1 world v
unfolding find_by_addr
owner_modifies_example =
    owner_modifies env (new_session_msg pfcp_session_modification_req 1 9)
      (modification_body 0x0A00_0003) 0x0A00_0002 8805 1 world session session
      (modification_req 0x0A00_0003) owner roomy (modification_read 0x0A00_0003 (omega arith)) refl
      refl refl refl
