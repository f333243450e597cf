-- ===== src/ControlPlane/Establishing/Registered.antt =====
-- upf-edge/src/handle_msg.rs: an establishment that finds room in the maps succeeds.
use upf_edge.Prelude.{
  ℕ, ◌+◌, ◌%◌, ◌^◌, ◌≡◌, refl, ap, ◌∙◌, Bool, true, false, some, ok, update_self, [], ◌∷◌, ◌++◌,
}
use upf_edge.Bytes.{Bytes}
use upf_edge.Common.{swap_u32}
use upf_edge.Pfcp.Header.{PfcpHeader}
use upf_edge.Pfcp.Ie.{OuterHeaderCreation}
use upf_edge.Pfcp.Messages.{SessionEstablishmentReq, decode_session_establishment}
use upf_edge.Pfcp.Build.{build_session_establishment_response}
use upf_edge.ControlPlane.{
  v4, SessionData, SmfAssociation, PfcpServer, World, Env, Answer, done, setup_ue_route,
  find_by_addr, find_source, alloc_seid, alloc_teid,
}
use upf_edge.ControlPlane.Establish.{
  first_ue_ip, first_outer_header, session_info, register, save_if, created_pdrs, establish_as,
  establish, handle_session_establishment,
}
use upf_edge.ControlPlane.Reaches.{IsRoomy}
use upf_edge.ControlPlane.Establishing.{
  Keeping-trans, reconfigured, with_session, insert_pdrs-Goes, insert_fars-Goes, insert_urrs-Goes,
  insert_session-done,
}

save_if-done :
    (has_store : Bool) (seid : ℕ) (session : SessionData) (w : World)
    → (v : World) × (save_if has_store seid session w ≡ done tt v)
      × (v.server ≡ w.server)
      × (v.maps ≡ w.maps)
unfolding save_if
save_if-done true seid session w = (_, refl, refl, refl)
save_if-done false seid session w = (_, refl, refl, refl)

-- The counters after one session.
abbrev pub counted_up : PfcpServer → PfcpServer
counted_up srv = record srv {
  next_seid = (srv.next_seid + 1) % 2 ^ 64;
  next_teid = (srv.next_teid + 1) % 2 ^ 32;
}

abbrev pub session_of : ℕ → OuterHeaderCreation → SessionEstablishmentReq → ℕ → SessionData
session_of ue_ip gnb req teid = record {
  ue_ip = ue_ip;
  teid = teid;
  gnb_ip = gnb.peer_addr;
  cp_seid = req.cp_seid;
}

-- The response, the server but for the rules of usage, and the session for the data plane.
abbrev pub Established :
    PfcpHeader
    → SessionEstablishmentReq
    → ℕ
    → OuterHeaderCreation
    → SmfAssociation
    → Answer Bytes
    → World
    → World
    → Type 0
Established header req ue_ip gnb assoc answer w v =
    let seid = w.server.next_seid in
    let teid = w.server.next_teid in
    (answer
      ≡ done
          (build_session_establishment_response header.seq_num req.cp_seid seid w.server.n3_addr
            (created_pdrs teid w.server.n3_addr req.create_pdrs))
          v)
    × (v.server
        ≡ reconfigured v.server.urr_configs
            (register assoc.node_id seid (session_of ue_ip gnb req teid) (counted_up w.server)))
    × (v.maps.session_map (swap_u32 ue_ip)
        ≡ some (session_info seid teid gnb.peer_addr w.server.n3_addr req.create_pdrs))

-- What the handler does where the maps have room, in terms of its parts.
pub establishment_done :
    (env : Env) (header : PfcpHeader) (body : Bytes) (ip port ue_ip : ℕ) (w : World)
    (req : SessionEstablishmentReq) (gnb : OuterHeaderCreation) (assoc : SmfAssociation)
    → IsRoomy env
    → decode_session_establishment body ≡ ok req
    → first_ue_ip req.create_pdrs ≡ some ue_ip
    → first_outer_header req.create_fars ≡ some gnb
    → find_by_addr (v4 ip port) w.server.associations ≡ some assoc
    → (v : World) × Established header req ue_ip gnb assoc
        (handle_session_establishment env header body (v4 ip port) w)
        w
        v
unfolding handle_session_establishment establish establish_as find_source alloc_seid alloc_teid
establishment_done env header body ip port ue_ip w req gnb assoc roomy hd hu hg ha =
    let seid = w.server.next_seid in
    let teid = w.server.next_teid in
    let info = session_info seid teid gnb.peer_addr w.server.n3_addr req.create_pdrs in
    let session = session_of ue_ip gnb req teid in
    let w1 : World = with_session ue_ip info (record w { server = counted_up w.server }) in
    let (w2, e2, k2) = insert_pdrs-Goes env roomy seid ue_ip req.create_pdrs w1 in
    let (w3, e3, k3) = insert_fars-Goes env roomy seid w.server.n3_addr req.create_fars w2 in
    let (w4, e4, k4) = insert_urrs-Goes env roomy seid req.cp_seid req.create_urrs w3 in
    let kept = Keeping-trans w1 w3 w4 (Keeping-trans w1 w2 w3 k2 k3) k4 in
    let w5 : World = record w4 { server = register assoc.node_id seid session w4.server } in
    let (w6, e6, ks, km) = save_if-done w5.server.has_store seid session w5 in
    (
      record w6 { effects = w6.effects ++ (setup_ue_route ue_ip ∷ []) },
      (
        rw (hd, ha, hu, hg, insert_session-done env roomy ue_ip info _, e2, e3, e4, e6) refl,
        rw (ks) (ap (register assoc.node_id seid session) kept.server),
        ap (λ m. m.session_map (swap_u32 ue_ip)) km
            ∙ (ap (λ m. m (swap_u32 ue_ip)) kept.session_map
                ∙ update_self w.maps.session_map (swap_u32 ue_ip) (some info)),
      ),
    )
