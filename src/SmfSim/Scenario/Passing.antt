-- ===== src/SmfSim/Scenario/Passing.antt =====
-- The scenario of smf-sim/src/scenario/basic_lifecycle.rs against the UPF of upf-edge/src/handle_msg.rs.
pub mod Lifecycle
use upf_edge.Prelude.{
  ℕ, ◌+◌, ◌%◌, ◌^◌, ◌≤◌, ◌<◌, ◌≡◌, ◌≢◌, refl, ap, ◌∙◌, true, Option, none, some, List, [], ◌∷◌,
  arith, Outcome, ok, err, ==_refl, update, update_self, All,
}
use upf_edge.Bytes.{Bytes}
use upf_edge.ControlPlane.{
  SocketAddr, v4, SessionData, SmfAssociation, PfcpServer, World, Env, Answer, done, failed,
  crashed, find_by_addr, change_assoc,
}
use upf_edge.ControlPlane.Deleting.{deletion_done}
use upf_edge.ControlPlane.Dispatch.{handle_message}
use upf_edge.ControlPlane.Establishing.Registered.{establishment_done, session_of}
use upf_edge.ControlPlane.Modifying.{owner_modifies, SameSession, Owned}
use upf_edge.ControlPlane.Node.{new_association, handle_session_association}
use upf_edge.ControlPlane.Reaches.{IsRoomy}
use upf_edge.Pfcp.Build.{
  build_association_setup_response, build_session_establishment_response,
  build_session_modification_response, build_session_deletion_response,
}
use upf_edge.Pfcp.Messages.Rows.{request_of, RulesFit, decode-request_ies}
use upf_edge.Pfcp.Types.{
  pfcp_session_establishment_req, pfcp_session_modification_req, pfcp_session_deletion_req,
}
use upf_edge.SmfSim.{timed_out, SimError}
use upf_edge.SmfSim.Scenario.{
  Link, association_request, establishment_request, modification_request, deletion_request,
  uplink_pdr, downlink_pdr, uplink_far, downlink_far,
}
use upf_edge.SmfSim.Scenario.Requests.{
  association_dispatched, association_read, establishment_dispatched, establishment_body,
  modification_dispatched, modification_read, modification_req, modification_body,
  deletion_dispatched, session_header,
}
use upf_edge.SmfSim.Validator.{validate_response}

-- The UPF behind a network that delivers: the response to a request, if there is one, or a timeout.
abbrev pub delivered : Answer Bytes → Outcome SimError Bytes × World
delivered (done [] v) = (err timed_out, v)
delivered (done (b ∷ rsp) v) = (ok (b ∷ rsp), v)
delivered (failed e v) = (err timed_out, v)
delivered (crashed v) = (err timed_out, v)

unfoldable pub upf_link : Env → SocketAddr → Link World
unfolding handle_message
upf_link env src w req = delivered (handle_message env req src w)

delivered-accepted :
    (t seq : ℕ) (rsp : Bytes) (v : World)
    → validate_response t seq rsp ≡ ok tt
    → delivered (done rsp v) ≡ (ok rsp, v)
unfolding validate_response
delivered-accepted t seq [] v h = absurd (ground (arith, h))
delivered-accepted t seq (b ∷ rsp) v h = refl

pub link-accepted :
    (env : Env) (src : SocketAddr) (w v : World) (req rsp : Bytes) (t seq : ℕ)
    → handle_message env req src w ≡ done rsp v
    → validate_response t seq rsp ≡ ok tt
    → upf_link env src w req ≡ (ok rsp, v)
unfolding upf_link
link-accepted env src w v req rsp t seq e h = rw (e) (delivered-accepted t seq rsp v h)

found_again :
    (ip port smf_addr : ℕ) (a : SmfAssociation)
    → a.peer_addr ≡ v4 ip port
    → find_by_addr (v4 ip port) ((smf_addr, a) ∷ []) ≡ some a
unfolding find_by_addr
found_again ip port smf_addr a e = rw (e, ==_refl ip, ==_refl port) refl

abbrev pub with_session : SessionData → SmfAssociation → SmfAssociation
with_session session a = record a { sessions = update a.sessions session.cp_seid (some session) }

change_only :
    (k : ℕ) (a : SmfAssociation) (f : SmfAssociation → SmfAssociation)
    → change_assoc f k ((k, a) ∷ []) ≡ (k, f a) ∷ []
change_only k a f = rw (==_refl k) refl

-- The exchanges at the UPF, one after the other.
module _ (env : Env) (roomy : IsRoomy env) (ip port smf_addr ts gnb_addr : ℕ) where
  abbrev pub src : SocketAddr
  src = v4 ip port

  abbrev pub association : SmfAssociation
  association = new_association env smf_addr src ts

  abbrev pub associated_world : World → World
  associated_world w = record w {
    server = record w.server {
      associations = (smf_addr, association) ∷ [];
      peer_addr = some (v4 smf_addr 8805);
    };
  }

  pub associate-done :
      (seq : ℕ) (w : World)
      → seq < 2 ^ 24
      → smf_addr < 2 ^ 32
      → ts < 2 ^ 32
      → w.server.associations ≡ []
      → handle_message env (association_request seq smf_addr ts) src w
        ≡ done
            (build_association_setup_response seq w.server.n3_addr w.server.recovery_ts)
            (associated_world w)
  unfolding handle_session_association
  associate-done seq w hq hs ht e =
      rw
        (association_dispatched seq hq env src w smf_addr ts, association_read smf_addr ts hs ht, e)
        refl

  -- The session as it is registered, and the association with it.
  abbrev pub registered : (cp_seid ue_ip gnb_teid teid : ℕ) → SessionData
  registered cp_seid ue_ip gnb_teid teid = record {
    ue_ip = ue_ip;
    teid = teid;
    gnb_ip = gnb_addr;
    cp_seid = cp_seid;
  }

  abbrev pub holding : SessionData → SmfAssociation
  holding session = with_session session association

  -- The UPF between establishment and deletion: one association, which holds the session.
  pub record Holds (seid : ℕ) (session : SessionData) (v : World) : Type 0 where
    pub associations : v.server.associations ≡ (smf_addr, holding session) ∷ []
    pub table :
        (d : SessionData) × (v.server.sessions seid ≡ some d) × (d.cp_seid ≡ session.cp_seid)

  pub establish-done :
      (seq cp_seid ue_ip gnb_teid : ℕ) (w : World)
      → seq < 2 ^ 24
      → RulesFit smf_addr cp_seid
          (uplink_pdr ue_ip gnb_addr ∷ downlink_pdr ue_ip gnb_addr ∷ [])
          (uplink_far ∷ downlink_far gnb_addr gnb_teid ∷ [])
          []
      → w.server.associations ≡ (smf_addr, association) ∷ []
      → (v : World) × (handle_message env
            (establishment_request seq smf_addr cp_seid ue_ip gnb_addr gnb_teid)
            src
            w
          ≡ done
              (build_session_establishment_response seq cp_seid w.server.next_seid w.server.n3_addr
                ((1, w.server.next_teid, w.server.n3_addr) ∷ []))
              v)
        × Holds w.server.next_seid (registered cp_seid ue_ip gnb_teid w.server.next_teid) v
  establish-done seq cp_seid ue_ip gnb_teid w hq fit e =
      let pdrs = uplink_pdr ue_ip gnb_addr ∷ downlink_pdr ue_ip gnb_addr ∷ [] in
      let fars = uplink_far ∷ downlink_far gnb_addr gnb_teid ∷ [] in
      let body = establishment_body smf_addr cp_seid ue_ip gnb_addr gnb_teid in
      let session = registered cp_seid ue_ip gnb_teid w.server.next_teid in
      let (v, (answer, server, session_map)) =
        establishment_done env (session_header pfcp_session_establishment_req 0 seq body) body ip
          port ue_ip w (request_of smf_addr cp_seid pdrs fars []) _ association roomy
          (decode-request_ies smf_addr cp_seid pdrs fars [] fit) refl refl
          (rw (e) (found_again ip port smf_addr association refl)) in
      (
        v,
        establishment_dispatched seq hq env src w smf_addr cp_seid ue_ip gnb_addr gnb_teid ∙ answer,
        record {
          associations =
              ap (λ srv. srv.associations) server
              ∙ rw (e) (change_only smf_addr association (with_session session));
          table = (
            _,
            ap (λ srv. srv.sessions w.server.next_seid) server
                ∙ update_self w.server.sessions w.server.next_seid _,
            refl,
          );
        },
      )

  owner_found :
      (seid : ℕ) (session : SessionData) (v : World)
      → Holds seid session v
      → find_by_addr src v.server.associations ≡ some (holding session)
  owner_found seid session v h =
      rw (h.associations) (found_again ip port smf_addr (holding session) refl)

  owns :
      (session : SessionData) (cp_seid : ℕ)
      → cp_seid ≡ session.cp_seid
      → (holding session).sessions cp_seid ≡ some session
  owns session cp_seid e = rw (e) (update_self (λ cp_seid. none) session.cp_seid (some session))

  still_there :
      (d : SessionData) (o : Option SessionData) (cp_seid : ℕ)
      → SameSession (some d) o
      → d.cp_seid ≡ cp_seid
      → (e : SessionData) × (o ≡ some e) × (e.cp_seid ≡ cp_seid)
  still_there d none cp_seid h g = absurd h
  still_there d (some e) cp_seid (a, b) g = (e, refl, b ∙ g)

  pub modify-done :
      (seq seid : ℕ) (session : SessionData) (w : World)
      → seq < 2 ^ 24
      → gnb_addr < 2 ^ 32
      → seid < 2 ^ 64
      → Holds seid session w
      → (v : World) × (handle_message env (modification_request seq seid gnb_addr) src w
          ≡ done (build_session_modification_response seq session.cp_seid) v)
        × Holds seid session v
  modify-done seq seid session w hq hg hs h =
      let (d, there, same) = h.table in
      let body = modification_body gnb_addr in
      let (v, answer, owned) =
        owner_modifies env (session_header pfcp_session_modification_req seid seq body) body ip port
          seid w d session (modification_req gnb_addr) (holding session) roomy
          (modification_read gnb_addr hg) (ap some (omega arith)) there
          (owner_found seid session w h) (owns session d.cp_seid same) in
      (
        v,
        modification_dispatched seq hq env src w seid gnb_addr ∙ rw (same) at answer,
        record {
          associations = owned.associations ∙ h.associations;
          table =
              still_there d (v.server.sessions seid) session.cp_seid (rw (there) at owned.session)
                same;
        },
      )

  pub delete-done :
      (seq seid : ℕ) (session : SessionData) (w : World)
      → seq < 2 ^ 24
      → seid < 2 ^ 64
      → Holds seid session w
      → (v : World) × (handle_message env (deletion_request seq seid) src w
          ≡ done (build_session_deletion_response seq seid) v)
        × (v.server.sessions seid ≡ none)
  delete-done seq seid session w hq hs h =
      let (d, there, same) = h.table in
      let (v, answer, server, maps) =
        deletion_done (session_header pfcp_session_deletion_req seid seq []) ip port seid w d
          session (holding session) (ap some (omega arith)) there (owner_found seid session w h)
          (owns session d.cp_seid same) in
      (
        v,
        deletion_dispatched seq hq env src w seid ∙ answer,
        ap (λ srv. srv.sessions seid) server ∙ update_self w.server.sessions seid none,
      )
