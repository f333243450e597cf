-- ===== src/Tests/Server.antt =====
-- upf-edge: the handlers and the reporter on a server with two associations and one session.
use upf_edge.Prelude.{
  ℕ, ◌%◌, ◌^◌, ◌≤◌, ◌<◌, ◌≡◌, ◌≢◌, ◌↔◌, ◌&&◌, refl, Bool, true, false, Option, none, some, [], ◌∷◌,
  arith, All, if◌then◌else◌, ◌==◌,
}
use upf_edge.Pfcp.Build.{build_session_deletion_response}
use upf_edge.Common.{UrrStats, SessionInfo, swap_u32, pdr_key, far_key}
use upf_edge.DataPlane.Rules.{Maps}
use upf_edge.Pfcp.Build.{build_session_establishment_request}
use upf_edge.Pfcp.Header.{PfcpHeader, new_session_msg}
use upf_edge.Pfcp.Types.{pfcp_session_modification_req}
use upf_edge.ControlPlane.{
  v4, SessionData, UrrConfig, active, SmfAssociation, PfcpServer, World, Env, find_by_addr, is_some,
  done,
}
use upf_edge.ControlPlane.Establish.{handle_session_establishment}
use upf_edge.ControlPlane.Modify.{handle_session_modification}
use upf_edge.ControlPlane.Delete.{ids_of, clear_maps, handle_session_deletion}
use upf_edge.ControlPlane.Dispatch.{handle_message}
use upf_edge.ControlPlane.Keeps.{Ends, Of}
use upf_edge.ControlPlane.Fresh.{handle_message-IsFresh}
use upf_edge.ControlPlane.Serving.{IsFresh}
use upf_edge.ControlPlane.Rejecting.{Rejects, stranger_rejected, intruder_rejected}
use upf_edge.ControlPlane.Apart.{HasPdr, establish-others}
use upf_edge.ControlPlane.Establish.{establish}
use upf_edge.Pfcp.Messages.{SessionEstablishmentReq}
use upf_edge.ControlPlane.Deleting.{IsDeleted, owner_deletes}
use upf_edge.ControlPlane.Frame.{FarGone, clear_maps-gone, clear_maps-others}
use upf_edge.ControlPlane.Reporter.{volth_due}
use upf_edge.ControlPlane.Reporter.Once.{volth_due_iff, volth_reports, volth_reported_once}

abbrev pub session : SessionData
session = record { ue_ip = 0x0A3C_0001; teid = 1000; gnb_ip = 0x0A00_0003; cp_seid = 77 }

abbrev association_at : ℕ → (ℕ → Option SessionData) → SmfAssociation
association_at ip sessions = record {
  node_id = ip;
  peer_addr = v4 ip 8805;
  recovery_ts = 100;
  state = active;
  sessions = sessions;
  last_activity = 0;
  heartbeat = record {
    next_seq = 200;
    last_sent = none;
    last_response = none;
    consecutive_failures = 0;
  };
}

abbrev pub owner : SmfAssociation
owner = association_at 0x0A00_0002 (λ cp_seid. if cp_seid == 77 then some session else none)

abbrev other : SmfAssociation
other = association_at 0x0A00_0009 (λ cp_seid. none)

abbrev pub server : PfcpServer
server = record {
  n4_addr = 0x0A00_0001;
  n3_addr = 0x0A00_0001;
  recovery_ts = 1;
  associations = (0x0A00_0002, owner) ∷ (0x0A00_0009, other) ∷ [];
  next_seid = 2;
  next_teid = 1001;
  sessions = λ seid. if seid == 1 then some session else none;
  urr_configs = λ seid urr_id. none;
  peer_addr = none;
  last_activity = 0;
  has_store = false;
  next_report_seq = 1000;
}

abbrev info : SessionInfo
info = record {
  seid = 1;
  teid = 0;
  gnb_ip = 0;
  upf_ip = 0;
  pdr_ids = 1 ∷ 2 ∷ 0 ∷ 0 ∷ 0 ∷ 0 ∷ 0 ∷ 0 ∷ [];
  pdr_count = 2;
}

abbrev pub maps : Maps
maps = record {
  session_map = λ ip. some info;
  pdr_map = λ k. none;
  far_map = λ k. none;
  if_index = λ i. none;
  gw_mac = λ i. none;
  stats_map = λ k. none;
  urr_map = λ k. none;
}

abbrev pub world : World
world = record { server = server; maps = maps; effects = [] }

abbrev pub env : Env
env = record {
  now = 5;
  session_room = λ k. true;
  pdr_room = λ k. true;
  far_room = λ k. true;
  urr_room = λ k. true;
}

abbrev modification : PfcpHeader
modification = new_session_msg pfcp_session_modification_req 1 9

below_two :
    (seid : ℕ) (b : Bool)
    → (b ≡ true → seid ≡ 1)
    → is_some (if b then some session else none) ≡ true
    → seid < 2
below_two seid true h g = omega (arith, h refl)
below_two seid false h g = cc

pub server-IsFresh : IsFresh server
server-IsFresh = record { below = λ seid. below_two seid (seid == 1) (λ e. ground arith) }

handle_message-IsFresh_example : Ends (Of IsFresh) (
    handle_message env
      (build_session_establishment_request 5 0x0A00_0002 78 0x0A3C_0002 3 4)
      (v4 0x0A00_0002 8805)
      world)
handle_message-IsFresh_example =
    handle_message-IsFresh env
      (build_session_establishment_request 5 0x0A00_0002 78 0x0A3C_0002 3 4) (v4 0x0A00_0002 8805)
      world server-IsFresh (omega arith)

stranger_rejected_example :
    Rejects (handle_session_establishment env modification [] (v4 0x0A00_0007 8805)) world
    × Rejects (handle_session_modification env modification [] (v4 0x0A00_0007 8805)) world
    × Rejects (handle_session_deletion modification (v4 0x0A00_0007 8805)) world
unfolding find_by_addr
stranger_rejected_example = stranger_rejected env modification [] (v4 0x0A00_0007 8805) world refl

intruder_rejected_example :
    Rejects (handle_session_modification env modification [] (v4 0x0A00_0009 8805)) world
    × Rejects (handle_session_deletion modification (v4 0x0A00_0009 8805)) world
unfolding find_by_addr
intruder_rejected_example =
    intruder_rejected env modification [] (v4 0x0A00_0009 8805) world 1 session other refl refl refl
      refl

-- The maps with a PDR and its FAR.
abbrev stocked : World
stocked = record world {
  maps = record maps {
    pdr_map = λ k.
        if k == pdr_key 1 1
        then some (record {
          precedence = 100;
          source_interface = 0;
          ue_ip = 0;
          qfi = 0;
          far_id = 5;
          qer_id = 0;
          urr_id = 0;
          outer_header_removal = 0;
          sdf_proto = 0;
          sdf_src_ip = 0;
          sdf_dst_ip = 0;
          sdf_src_port = 0;
          sdf_dst_port = 0;
        })
        else none;
  };
}

owner_deletes_example :
    (v : World) × (handle_session_deletion modification (v4 0x0A00_0002 8805) stocked
      ≡ done (build_session_deletion_response 9 1) v)
    × IsDeleted 1 session owner stocked v
unfolding find_by_addr
owner_deletes_example =
    owner_deletes modification 0x0A00_0002 8805 1 stocked session session owner refl refl refl refl
      refl

abbrev establishment : SessionEstablishmentReq
establishment = record {
  node_id = none;
  cp_seid = 78;
  smf_addr = 0x0A00_0002;
  create_pdrs =
      record {
        pdr_id = 1;
        precedence = 100;
        source_interface = 0;
        local_fteid = none;
        ue_ip = some 0x0A3C_0002;
        far_id = some 1;
        urr_id = none;
        outer_header_removal = true;
        sdf_filter = none;
      }
      ∷ [];
  create_fars =
      record {
        far_id = 1;
        apply_action = 2;
        dest_interface = some 0;
        outer_header_creation = some (record { teid = 9; peer_addr = 0x0A00_0003; port = 2152 });
      }
      ∷ [];
  create_urrs = [];
}

establish-others_example :
    Ends
      (HasPdr (pdr_key 1 1) (maps.pdr_map (pdr_key 1 1)))
      (establish env modification establishment 0x0A00_0002 world)
establish-others_example =
    establish-others env modification establishment 0x0A00_0002 world 1 1 (omega arith)
      (omega arith) (λ e. omega (arith, e))

clear_maps-others_example :
    ((clear_maps 1 0x0A3C_0001 maps).pdr_map (pdr_key 2 1) ≡ maps.pdr_map (pdr_key 2 1))
    × ((clear_maps 1 0x0A3C_0001 maps).far_map (far_key 2 1) ≡ maps.far_map (far_key 2 1))
clear_maps-others_example =
    clear_maps-others 1 2 0x0A3C_0001 1 maps (omega arith) (omega arith) (λ e. omega (arith, e))

clear_maps-gone_example :
    All
      (λ id. (clear_maps 1 0x0A3C_0001 maps).pdr_map (pdr_key 1 id) ≡ none)
      (ids_of (maps.session_map (swap_u32 0x0A3C_0001)))
    × All
        (λ id. FarGone (clear_maps 1 0x0A3C_0001 maps) 1 (maps.pdr_map (pdr_key 1 id)))
        (ids_of (maps.session_map (swap_u32 0x0A3C_0001)))
    × ((clear_maps 1 0x0A3C_0001 maps).session_map (swap_u32 0x0A3C_0001) ≡ none)
clear_maps-gone_example = clear_maps-gone 1 0x0A3C_0001 maps

-- A rule that is to report periodically only.
abbrev periodic : UrrConfig
periodic = record {
  urr_id = 4;
  seid = 1;
  cp_seid = 77;
  measurement_method = 2;
  reporting_triggers = 1;
  volume_threshold_total = some 1000;
  measurement_period = some 60;
  last_report = 0;
  threshold_reported = false;
  ur_seqn = 0;
}

volth_due_iff_example :
    (volth_due 1500 periodic ≡ true)
    ↔ ((1 % 2 ^ 7 ≢ 0) × (◌≤◌ 1000 1500) × (periodic.threshold_reported ≡ false))
volth_due_iff_example = volth_due_iff 1500 1000 periodic refl

abbrev usage : ℕ → UrrStats
usage dl_bytes = record { ul_bytes = 0; ul_packets = 0; dl_bytes = dl_bytes; dl_packets = 1 }

abbrev metered : PfcpServer
metered = record server {
  urr_configs = λ seid urr_id. if seid == 1 && urr_id == 4 then some periodic else none;
}

volth_reported_once_example :
    volth_reports 1 4
      ((1, 0x1_0004, usage 500) ∷ (2, 0x1_0004, usage 1500) ∷ (3, 0x1_0004, usage 1600) ∷ [])
      metered
    ≤ 1
volth_reported_once_example =
    volth_reported_once 1 4
      ((1, 0x1_0004, usage 500) ∷ (2, 0x1_0004, usage 1500) ∷ (3, 0x1_0004, usage 1600) ∷ [])
      metered
