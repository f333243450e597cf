-- ===== src/ControlPlane/Establishing/Entered.antt =====
-- upf-edge/src/handle_msg.rs: what a successful establishment leaves in the tables and the session map.
use upf_edge.Prelude.{
  ℕ, ◌+◌, ◌%◌, ◌^◌, ◌≡◌, ◌≢◌, refl, ap, ◌∙◌, inl, inr, Bool-cases, some, List, [], ◌∷◌, ◌++◌, map,
  take, length, min, ok, update, update_self, if◌then◌else◌, ◌==◌,
}
use upf_edge.Bytes.{Bytes}
use upf_edge.Common.{swap_u32}
use upf_edge.Pfcp.Header.{PfcpHeader}
use upf_edge.Pfcp.Ie.{OuterHeaderCreation, ParsedPdr}
use upf_edge.Pfcp.Messages.{SessionEstablishmentReq, decode_session_establishment}
use upf_edge.Pfcp.Build.{build_session_establishment_response}
use upf_edge.Pfcp.Types.{interface_access}
use upf_edge.ControlPlane.{v4, SmfAssociation, World, Env, done, find_by_addr, get_assoc}
use upf_edge.ControlPlane.Establish.{
  first_ue_ip, first_outer_header, created_pdrs, handle_session_establishment,
}
use upf_edge.ControlPlane.Establishing.Registered.{establishment_done}
use upf_edge.ControlPlane.Frame.{update-other}
use upf_edge.ControlPlane.Owning.{get-change}
use upf_edge.ControlPlane.Reaches.{IsRoomy}

-- The IDs of the PDRs on the access side, in their order.
pub access_ids : List ParsedPdr → List ℕ
access_ids [] = []
access_ids (p ∷ ps) =
    let rest = access_ids ps in
    if p.source_interface == interface_access then p.pdr_id ∷ rest else rest

created-access_ids :
    (teid n3_addr : ℕ) (pdrs : List ParsedPdr)
    → created_pdrs teid n3_addr pdrs ≡ map (λ id. (id, teid, n3_addr)) (access_ids pdrs)
unfolding access_ids
created-access_ids teid n3_addr [] = refl
created-access_ids teid n3_addr (p ∷ ps) =
    elim (Bool-cases (p.source_interface == interface_access)) [
      | inl t ↦
          rw (t)
            (ap (λ rest. (p.pdr_id, teid, n3_addr) ∷ rest) (created-access_ids teid n3_addr ps))
      | inr f ↦ rw (f) (created-access_ids teid n3_addr ps)
    ]

-- The counters, the tables and the session map with the new session, which has the local SEID and the
-- TEID that were next.
pub record IsEntered (req : SessionEstablishmentReq) (ue_ip : ℕ) (gnb : OuterHeaderCreation)
    (assoc : SmfAssociation) (w v : World) : Type 0 where
  pub next_seid : v.server.next_seid ≡ (w.server.next_seid + 1) % 2 ^ 64
  pub next_teid : v.server.next_teid ≡ (w.server.next_teid + 1) % 2 ^ 32
  pub entered :
      v.server.sessions w.server.next_seid
      ≡ some (record {
        ue_ip = ue_ip;
        teid = w.server.next_teid;
        gnb_ip = gnb.peer_addr;
        cp_seid = req.cp_seid;
      })
  pub others : (s : ℕ) → w.server.next_seid ≢ s → v.server.sessions s ≡ w.server.sessions s
  pub association :
      get_assoc assoc.node_id v.server.associations
      ≡ some (record assoc {
        sessions = update assoc.sessions req.cp_seid (
            some (record {
              ue_ip = ue_ip;
              teid = w.server.next_teid;
              gnb_ip = gnb.peer_addr;
              cp_seid = req.cp_seid;
            }));
      })
  pub mapped :
      v.maps.session_map (swap_u32 ue_ip)
      ≡ some (record {
        seid = w.server.next_seid;
        teid = swap_u32 w.server.next_teid;
        gnb_ip = swap_u32 gnb.peer_addr;
        upf_ip = swap_u32 w.server.n3_addr;
        pdr_ids =
            take 8 (map (λ p. p.pdr_id) req.create_pdrs ++ (0 ∷ 0 ∷ 0 ∷ 0 ∷ 0 ∷ 0 ∷ 0 ∷ 0 ∷ []));
        pdr_count = min (length req.create_pdrs) 8;
      })

-- An establishment from an IPv4 source whose association stands under its node ID succeeds if no map is
-- full, some PDR has a UE address and some FAR an outer header. The response carries the next local
-- SEID, and the next TEID for each PDR on the access side; both counters go up. The session has the UE
-- address, that TEID, the gNB address and the CP SEID; it is entered in the server's table, where the
-- other sessions stay, and in the association under the CP SEID. The session map leads the UE address to
-- the SEID, the TEID, the two addresses and the IDs of the first eight PDRs.
pub establishment_succeeds :
    (env : Env) (header : PfcpHeader) (body : Bytes) (ip port ue_ip : ℕ) (w : World)
    (req : SessionEstablishmentReq) (gnb : OuterHeaderCreation) (assoc : SmfAssociation)
    → IsRoomy env
    → decode_session_establishment body ≡ ok req
    → first_ue_ip req.create_pdrs ≡ some ue_ip
    → first_outer_header req.create_fars ≡ some gnb
    → find_by_addr (v4 ip port) w.server.associations ≡ some assoc
    → get_assoc assoc.node_id w.server.associations ≡ some assoc
    → (v : World) × (handle_session_establishment env header body (v4 ip port) w
        ≡ done
            (build_session_establishment_response header.seq_num req.cp_seid w.server.next_seid
              w.server.n3_addr
              (map (λ id. (id, w.server.next_teid, w.server.n3_addr)) (access_ids req.create_pdrs)))
            v)
      × IsEntered req ue_ip gnb assoc w v
establishment_succeeds env header body ip port ue_ip w req gnb assoc roomy hd hu hg ha hn =
    let seid = w.server.next_seid in
    let (v, (answer, server, mapped)) =
      establishment_done env header body ip port ue_ip w req gnb assoc roomy hd hu hg ha in
    (
      v,
      rw (created-access_ids w.server.next_teid w.server.n3_addr req.create_pdrs) at answer,
      record {
        next_seid = ap (λ srv. srv.next_seid) server;
        next_teid = ap (λ srv. srv.next_teid) server;
        entered = ap (λ srv. srv.sessions seid) server ∙ update_self w.server.sessions seid _;
        others =
            λ s n. ap (λ srv. srv.sessions s) server ∙ update-other w.server.sessions seid s _ n;
        association =
            ap (λ srv. get_assoc assoc.node_id srv.associations) server
            ∙ get-change assoc.node_id _ w.server.associations assoc hn;
        mapped = mapped;
      },
    )
