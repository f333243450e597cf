-- ===== src/ControlPlane/Deleting.antt =====
-- upf-edge/src/handle_msg.rs: a deletion by the owner of the session.
use upf_edge.Prelude.{
  ℕ, ◌≡◌, ◌≢◌, refl, All, update, Bool, true, false, none, some, update_self, ap, ◌∙◌, [], ◌∷◌,
  ◌++◌,
}
use upf_edge.Pfcp.Header.{PfcpHeader}
use upf_edge.Pfcp.Build.{build_session_deletion_response}
use upf_edge.ControlPlane.{
  v4, SessionData, SmfAssociation, World, done, teardown_ue_route, find_by_addr, find_source,
  find_owner, get_assoc,
}
use upf_edge.ControlPlane.Frame.{FarGone, clear_maps-gone, update-other}
use upf_edge.ControlPlane.Owning.{get-change}
use upf_edge.Common.{swap_u32, pdr_key}
use upf_edge.ControlPlane.Delete.{
  unregister, ids_of, clear_maps, delete_if, remove_session, handle_session_deletion,
}

delete_if-done :
    (has_store : Bool) (seid : ℕ) (w : World)
    → (v : World) × (delete_if has_store seid w ≡ done tt v)
      × (v.server ≡ w.server)
      × (v.maps ≡ w.maps)
unfolding delete_if
delete_if-done true seid w = (_, refl, refl, refl)
delete_if-done false seid w = (_, refl, refl, refl)

-- What the handler does for an owner, in terms of its parts.
pub deletion_done :
    (header : PfcpHeader) (ip port seid : ℕ) (w : World) (session registered : SessionData)
    (assoc : SmfAssociation)
    → header.seid ≡ some seid
    → w.server.sessions seid ≡ some session
    → find_by_addr (v4 ip port) w.server.associations ≡ some assoc
    → assoc.sessions session.cp_seid ≡ some registered
    → (v : World) × (handle_session_deletion header (v4 ip port) w
        ≡ done (build_session_deletion_response header.seq_num seid) v)
      × (v.server ≡ unregister assoc.node_id seid session.cp_seid w.server)
      × (v.maps ≡ clear_maps seid session.ue_ip w.maps)
unfolding handle_session_deletion find_owner find_source remove_session
deletion_done header ip port seid w session registered assoc hh hs ha hr =
    let cleared : World = record w {
      server = unregister assoc.node_id seid session.cp_seid w.server;
      maps = clear_maps seid session.ue_ip w.maps;
      effects = w.effects ++ (teardown_ue_route session.ue_ip ∷ []);
    } in
    let (v, e, kept_server, kept_maps) = delete_if-done w.server.has_store seid cleared in
    (v, rw (hh, hs, ha, hr, e) refl, kept_server, kept_maps)

-- The server and the maps without the session. `gone` and `others` are about the server's table, and
-- `listed` and `named` about the PDRs that the session's entry lists and the FARs that these name.
pub record IsDeleted (seid : ℕ) (session : SessionData) (assoc : SmfAssociation) (w v : World)
    : Type 0 where
  pub gone : v.server.sessions seid ≡ none
  pub others : (s : ℕ) → seid ≢ s → v.server.sessions s ≡ w.server.sessions s
  pub association :
      get_assoc assoc.node_id v.server.associations
      ≡ some (record assoc { sessions = update assoc.sessions session.cp_seid none })
  pub listed :
      All
        (λ id. v.maps.pdr_map (pdr_key seid id) ≡ none)
        (ids_of (w.maps.session_map (swap_u32 session.ue_ip)))
  pub named :
      All
        (λ id. FarGone v.maps seid (w.maps.pdr_map (pdr_key seid id)))
        (ids_of (w.maps.session_map (swap_u32 session.ue_ip)))
  pub unmapped : v.maps.session_map (swap_u32 session.ue_ip) ≡ none

-- A deletion from an IPv4 source whose association stands under its node ID and has a session under the
-- CP SEID succeeds: the response is sent for the session, which leaves the server's table and its
-- association, while the other sessions stay in the table; the PDRs that the session lists, the FARs
-- that these name and the session of the UE's address leave the eBPF maps.
pub owner_deletes :
    (header : PfcpHeader) (ip port seid : ℕ) (w : World) (session registered : SessionData)
    (assoc : SmfAssociation)
    → header.seid ≡ some seid
    → w.server.sessions seid ≡ some session
    → find_by_addr (v4 ip port) w.server.associations ≡ some assoc
    → get_assoc assoc.node_id w.server.associations ≡ some assoc
    → assoc.sessions session.cp_seid ≡ some registered
    → (v : World) × (handle_session_deletion header (v4 ip port) w
        ≡ done (build_session_deletion_response header.seq_num seid) v)
      × IsDeleted seid session assoc w v
owner_deletes header ip port seid w session registered assoc hh hs ha hg hr =
    let (v, answer, server, maps) =
      deletion_done header ip port seid w session registered assoc hh hs ha hr in
    let (listed, named, unmapped) = clear_maps-gone seid session.ue_ip w.maps in
    (
      v,
      answer,
      record {
        gone = ap (λ srv. srv.sessions seid) server ∙ update_self w.server.sessions seid none;
        others =
            λ s n. ap (λ srv. srv.sessions s) server ∙ update-other w.server.sessions seid s none n;
        association =
            ap (λ srv. get_assoc assoc.node_id srv.associations) server
            ∙ get-change assoc.node_id
                (λ a. record a { sessions = update a.sessions session.cp_seid none })
                w.server.associations assoc hg;
        listed = rw (maps) listed;
        named = rw (maps) named;
        unmapped = rw (maps) unmapped;
      },
    )
