-- ===== src/SmfSim/Scenario/Passing/Lifecycle.antt =====
-- The whole scenario of smf-sim/src/scenario/basic_lifecycle.rs, from the association to the deletion.
use upf_edge.Prelude.{
  ℕ, suc, ◌+◌, ◌%◌, ◌^◌, ◌≤◌, ◌<◌, ◌≡◌, ◌≢◌, refl, none, [], ◌∷◌, arith, ok, le→leb, update_self,
}
use upf_edge.Bytes.{Bytes}
use upf_edge.ControlPlane.{v4, SessionData, World, Env}
use upf_edge.ControlPlane.Reaches.{IsRoomy}
use upf_edge.Pfcp.Messages.Rows.{RulesFit}
use upf_edge.Pfcp.Types.{
  pfcp_association_setup_req, pfcp_session_establishment_req, pfcp_session_modification_req,
  pfcp_session_deletion_req,
}
use upf_edge.SmfSim.Config.{SimConfig}
use upf_edge.SmfSim.Scenario.{
  Link, passed, association_request, establishment_request, modification_request, deletion_request,
  associate, establish, modify, delete, run, uplink_pdr, downlink_pdr, uplink_far, downlink_far,
}
use upf_edge.SmfSim.Scenario.Passing.{
  upf_link, link-accepted, associate-done, establish-done, modify-done, delete-done,
  associated_world, Holds,
}
use upf_edge.SmfSim.State.{
  SimState, alloc_ue_ip, alloc_gnb_teid, alloc_cp_seid, next_seq_num, insert_session,
  remove_session,
}
use upf_edge.SmfSim.Validator.{validate_response, extract_session_info}
use upf_edge.SmfSim.Validator.Accepting.{
  association_accepted, establishment_accepted, modification_accepted, deletion_accepted,
}
use upf_edge.SmfSim.Validator.Extracting.{extract-build_response}

-- The state behind one sequence number, and behind the numbers of one session.
abbrev pub numbered : SimState → SimState
numbered s = record s { next_seq = (s.next_seq + 1) % 2 ^ 32 }

abbrev pub provided : SimState → SimState
provided s = record s {
  next_ue_ip = (s.next_ue_ip + 1) % 2 ^ 32;
  next_gnb_teid = (s.next_gnb_teid + 1) % 2 ^ 32;
  next_cp_seid = (s.next_cp_seid + 1) % 2 ^ 64;
}

-- Each part of the scenario, where the transport delivers what the validator accepts.
module _ {X : Type 0} (link : Link X) (config : SimConfig) (my_ts now : ℕ) (s : SimState) (x y : X)
    (rsp : Bytes) where
  associate-passed :
      (tries : ℕ)
      → link x (association_request s.next_seq config.network.smf_n4_addr my_ts) ≡ (ok rsp, y)
      → validate_response pfcp_association_setup_req s.next_seq rsp ≡ ok tt
      → associate link config my_ts now (suc tries) s x ≡ passed tt (numbered s) y
  unfolding associate next_seq_num
  associate-passed tries e h = rw (e, h) refl

  establish-passed :
      (info : ℕ × ℕ × ℕ)
      → s.next_ue_ip ≤ s.ue_ip_end
      → link x (
          establishment_request s.next_seq config.network.smf_n4_addr s.next_cp_seid s.next_ue_ip
            config.network.gnb_addr s.next_gnb_teid)
        ≡ (ok rsp, y)
      → validate_response pfcp_session_establishment_req s.next_seq rsp ≡ ok tt
      → extract_session_info rsp ≡ ok info
      → establish link config my_ts now s x
        ≡ passed
            (s.next_cp_seid, info.0)
            (insert_session
              (record {
                cp_seid = s.next_cp_seid;
                upf_seid = info.0;
                upf_teid = info.1;
                upf_n3_addr = info.2;
                ue_ip = s.next_ue_ip;
                gnb_teid = s.next_gnb_teid;
                created_at = now;
              })
              (numbered (provided s)))
            y
  unfolding establish next_seq_num alloc_ue_ip alloc_gnb_teid alloc_cp_seid
  establish-passed info hp e h g = rw (le→leb s.next_ue_ip s.ue_ip_end hp, e, h, g) refl

  modify-passed :
      (seid : ℕ)
      → link x (modification_request s.next_seq seid config.network.gnb_addr) ≡ (ok rsp, y)
      → validate_response pfcp_session_modification_req s.next_seq rsp ≡ ok tt
      → modify link config my_ts now seid s x ≡ passed tt (numbered s) y
  unfolding modify next_seq_num
  modify-passed seid e h = rw (e, h) refl

  delete-passed :
      (cp_seid seid : ℕ)
      → link x (deletion_request s.next_seq seid) ≡ (ok rsp, y)
      → validate_response pfcp_session_deletion_req s.next_seq rsp ≡ ok tt
      → delete link config my_ts now cp_seid seid s x
        ≡ passed tt (remove_session cp_seid (numbered s)) y
  unfolding delete next_seq_num
  delete-passed cp_seid seid e h = rw (e, h) refl

-- The numbers fit their fields, the counters are not used up, and the UPF has no association yet.
pub record CanPass (config : SimConfig) (my_ts : ℕ) (s : SimState) (w : World) : Type 0 where
  pub smf_addr : config.network.smf_n4_addr < 2 ^ 32
  pub gnb_addr : config.network.gnb_addr < 2 ^ 32
  pub my_ts_fits : my_ts < 2 ^ 32
  pub ue_ip : s.next_ue_ip ≤ s.ue_ip_end
  pub pool : s.ue_ip_end < 2 ^ 32
  pub gnb_teid : s.next_gnb_teid < 2 ^ 32
  pub cp_seid : s.next_cp_seid < 2 ^ 64
  pub seq : s.next_seq + 3 < 2 ^ 24
  pub seid : w.server.next_seid < 2 ^ 64
  pub seid_nonzero : w.server.next_seid ≢ 0
  pub teid : w.server.next_teid < 2 ^ 32
  pub teid_nonzero : w.server.next_teid ≢ 0
  pub n3_addr : w.server.n3_addr < 2 ^ 32
  pub associations : w.server.associations ≡ []

rules_fit :
    (config : SimConfig) (my_ts : ℕ) (s : SimState) (w : World)
    → CanPass config my_ts s w
    → RulesFit config.network.smf_n4_addr s.next_cp_seid
        (uplink_pdr s.next_ue_ip config.network.gnb_addr
          ∷ downlink_pdr s.next_ue_ip config.network.gnb_addr
          ∷ [])
        (uplink_far ∷ downlink_far config.network.gnb_addr s.next_gnb_teid ∷ [])
        []
rules_fit config my_ts s w h = omega arith

-- The state of the simulator behind the establishment.
abbrev pub with_session : ℕ → SimState → (upf_seid upf_teid upf_n3_addr : ℕ) → SimState
with_session now s upf_seid upf_teid upf_n3_addr =
    insert_session
      (record {
        cp_seid = s.next_cp_seid;
        upf_seid = upf_seid;
        upf_teid = upf_teid;
        upf_n3_addr = upf_n3_addr;
        ue_ip = s.next_ue_ip;
        gnb_teid = s.next_gnb_teid;
        created_at = now;
      })
      (numbered (provided s))

-- The parts against the UPF.
module _ (env : Env) (roomy : IsRoomy env) (ip port : ℕ) (config : SimConfig) (my_ts now : ℕ) where
  abbrev link : Link World
  link = upf_link env (v4 ip port)

  abbrev associated : World → World
  associated w =
      associated_world env roomy ip port config.network.smf_n4_addr my_ts config.network.gnb_addr w

  abbrev IsHeld : ℕ → SessionData → World → Type 0
  IsHeld seid session v =
      Holds env roomy ip port config.network.smf_n4_addr my_ts config.network.gnb_addr seid session
        v

  association_passes :
      (s : SimState) (w : World)
      → CanPass config my_ts s w
      → associate link config my_ts now 1 s w ≡ passed tt (numbered s) (associated w)
  association_passes s w h =
      let fits : s.next_seq < 2 ^ 24 = omega (arith, h.seq) in
      let accepted = association_accepted s.next_seq fits w.server.n3_addr w.server.recovery_ts in
      let answer =
        associate-done env roomy ip port config.network.smf_n4_addr my_ts config.network.gnb_addr
          s.next_seq w fits h.smf_addr h.my_ts_fits h.associations in
      associate-passed link config my_ts now s w (associated w) _ 0
        (link-accepted env (v4 ip port) w (associated w) _ _ pfcp_association_setup_req s.next_seq
          answer accepted)
        accepted

  establishment_passes :
      (s : SimState) (w : World)
      → CanPass config my_ts s w
      → (v : World) × (establish link config my_ts now (numbered s) (associated w)
          ≡ passed
              (s.next_cp_seid, w.server.next_seid)
              (with_session now (numbered s) w.server.next_seid w.server.next_teid w.server.n3_addr)
              v)
        × (session : SessionData) × IsHeld w.server.next_seid session v
  establishment_passes s w h =
      let seq : ℕ = (s.next_seq + 1) % 2 ^ 32 in
      let fits : seq < 2 ^ 24 = omega (arith, h.seq) in
      let seid = w.server.next_seid in
      let teid = w.server.next_teid in
      let n3_addr = w.server.n3_addr in
      let accepted =
        establishment_accepted seq fits s.next_cp_seid seid n3_addr ((1, teid, n3_addr) ∷ []) in
      let (v, answer, held) =
        establish-done env roomy ip port config.network.smf_n4_addr my_ts config.network.gnb_addr
          seq s.next_cp_seid s.next_ue_ip s.next_gnb_teid (associated w) fits
          (rules_fit config my_ts s w h) refl in
      (
        v,
        establish-passed link config my_ts now (numbered s) (associated w) v _ (seid, teid, n3_addr)
            h.ue_ip
            (link-accepted env (v4 ip port) (associated w) v _ _ pfcp_session_establishment_req seq
              answer accepted)
            accepted
            (extract-build_response seq s.next_cp_seid seid n3_addr 1 teid n3_addr [] fits h.seid
              h.n3_addr h.teid h.n3_addr h.seid_nonzero h.teid_nonzero),
        _,
        held,
      )

  modification_passes :
      (s : SimState) (seid : ℕ) (session : SessionData) (w : World)
      → s.next_seq < 2 ^ 24
      → config.network.gnb_addr < 2 ^ 32
      → seid < 2 ^ 64
      → IsHeld seid session w
      → (v : World) × (modify link config my_ts now seid s w ≡ passed tt (numbered s) v)
        × IsHeld seid session v
  modification_passes s seid session w hq hg hs h =
      let accepted = modification_accepted s.next_seq hq session.cp_seid in
      let (v, answer, held) =
        modify-done env roomy ip port config.network.smf_n4_addr my_ts config.network.gnb_addr
          s.next_seq seid session w hq hg hs h in
      (
        v,
        modify-passed link config my_ts now s w v _ seid
            (link-accepted env (v4 ip port) w v _ _ pfcp_session_modification_req s.next_seq answer
              accepted)
            accepted,
        held,
      )

  deletion_passes :
      (s : SimState) (cp_seid seid : ℕ) (session : SessionData) (w : World)
      → s.next_seq < 2 ^ 24
      → seid < 2 ^ 64
      → IsHeld seid session w
      → (v : World) × (delete link config my_ts now cp_seid seid s w
          ≡ passed tt (remove_session cp_seid (numbered s)) v)
        × (v.server.sessions seid ≡ none)
  deletion_passes s cp_seid seid session w hq hs h =
      let accepted = deletion_accepted s.next_seq hq seid in
      let (v, answer, gone) =
        delete-done env roomy ip port config.network.smf_n4_addr my_ts config.network.gnb_addr
          s.next_seq seid session w hq hs h in
      (
        v,
        delete-passed link config my_ts now s w v _ cp_seid seid
            (link-accepted env (v4 ip port) w v _ _ pfcp_session_deletion_req s.next_seq answer
              accepted)
            accepted,
        gone,
      )

-- Against a UPF without associations, over a network that delivers, the scenario passes at the first try
-- if the numbers fit their fields, the counters are not used up and no map is full: association,
-- establishment, modification and deletion all are answered as the simulator demands, and in the end
-- the session is gone on both sides.
pub scenario_passes :
    (env : Env) (ip port : ℕ) (config : SimConfig) (my_ts now : ℕ) (s : SimState) (w : World)
    → IsRoomy env
    → CanPass config my_ts s w
    → (t : SimState) × (v : World) × (run (upf_link env (v4 ip port)) config my_ts now 1 s w
        ≡ passed tt t v)
      × (t.sessions s.next_cp_seid ≡ none)
      × (v.server.sessions w.server.next_seid ≡ none)
unfolding run
scenario_passes env ip port config my_ts now s w roomy h =
    let seid = w.server.next_seid in
    let cp_seid = s.next_cp_seid in
    let s2 = with_session now (numbered s) seid w.server.next_teid w.server.n3_addr in
    let e1 = association_passes env roomy ip port config my_ts now s w h in
    let (w2, e2, session, h2) = establishment_passes env roomy ip port config my_ts now s w h in
    let (w3, e3, h3) =
      modification_passes env roomy ip port config my_ts now s2 seid session w2
        (omega (arith, h.seq)) h.gnb_addr h.seid h2 in
    let (w4, e4, gone) =
      deletion_passes env roomy ip port config my_ts now (numbered s2) cp_seid seid session w3
        (omega (arith, h.seq)) h.seid h3 in
    (
      remove_session cp_seid (numbered (numbered s2)),
      w4,
      rw (e1, e2, e3, e4) refl,
      update_self s2.sessions cp_seid none,
      gone,
    )
