-- ===== src/ControlPlane/Modifying.antt =====
-- upf-edge/src/handle_msg.rs: a modification by the owner of the session.
use upf_edge.Prelude.{
  ℕ, ◌≡◌, refl, ap, ◌∙◌, Bool, true, false, Option, none, some, List, [], ◌∷◌, ok, update,
  update_self,
}
use upf_edge.Bytes.{Bytes}
use upf_edge.Common.{FarValue, SessionInfo, swap_u32, far_key}
use upf_edge.Pfcp.Header.{PfcpHeader}
use upf_edge.Pfcp.Ie.{OuterHeaderCreation, ParsedFar, ParsedUrr}
use upf_edge.Pfcp.Messages.{SessionModificationReq, decode_session_modification}
use upf_edge.Pfcp.Build.{build_session_modification_response}
use upf_edge.ControlPlane.{
  v4, SessionData, SmfAssociation, PfcpServer, World, Env, done, find_by_addr, find_source,
  find_owner, UrrConfig,
}
use upf_edge.ControlPlane.Modify.{
  retarget_far, retarget_info, retarget_data, retarget_session, change_far, change_info, to_access,
  change_session, update_far, update_fars, change_config, update_urrs, modify,
  handle_session_modification,
}
use upf_edge.ControlPlane.Reaches.{Reaches, then-Reaches, IsRoomy, put-roomy}

-- The same session: there or not, with the UE address and the CP SEID that it had.
abbrev pub SameSession : Option SessionData → Option SessionData → Type 0
SameSession none none = Unit {0}
SameSession none (some e) = ⊥
SameSession (some d) none = ⊥
SameSession (some d) (some e) = (e.ue_ip ≡ d.ue_ip) × (e.cp_seid ≡ d.cp_seid)

SameSession-refl : (o : Option SessionData) → SameSession o o
SameSession-refl none = tt
SameSession-refl (some d) = (refl, refl)

SameSession-trans :
    (o p q : Option SessionData) → SameSession o p → SameSession p q → SameSession o q
SameSession-trans none none none h g = tt
SameSession-trans none none (some e) h g = g
SameSession-trans none (some d) q h g = absurd h
SameSession-trans (some d) none q h g = absurd h
SameSession-trans (some d) (some e) none h g = g
SameSession-trans (some d) (some e) (some f) (a, b) (c, x) = (c ∙ a, x ∙ b)

-- The session keeps its owner.
pub record Owned (seid : ℕ) (w v : World) : Type 0 where
  pub associations : v.server.associations ≡ w.server.associations
  pub session : SameSession (w.server.sessions seid) (v.server.sessions seid)

Owned-trans : (seid : ℕ) (u v w : World) → Owned seid u v → Owned seid v w → Owned seid u w
Owned-trans seid u v w h g = record {
  associations = g.associations ∙ h.associations;
  session = SameSession-trans _ _ _ h.session g.session;
}

retargeted :
    (ohc : OuterHeaderCreation) (o : Option SessionData) → SameSession o (retarget_data ohc o)
retargeted ohc none = tt
retargeted ohc (some d) = (refl, refl)

module _ (env : Env) (roomy : IsRoomy env) (seid ue_ip : ℕ) where
  untouched : (w v : World) → v.server ≡ w.server → Owned seid w v
  untouched w v e = record {
    associations = ap (λ srv. srv.associations) e;
    session = rw (e) (SameSession-refl (w.server.sessions seid));
  }

  change_far-Reaches :
      (key : ℕ) (ohc : OuterHeaderCreation) (fv : Option FarValue) (w : World)
      → Reaches (Owned seid) (change_far env key ohc fv) w
  unfolding change_far
  change_far-Reaches key ohc none w = (w, refl, untouched w w refl)
  change_far-Reaches key ohc (some fv) w =
      let far_map = update w.maps.far_map key (some (retarget_far ohc fv)) in
      let v : World = record w { maps = record w.maps { far_map = far_map } } in
      (
        v,
        rw (put-roomy env.far_room w.maps.far_map key (retarget_far ohc fv) (roomy.fars key)) refl,
        untouched w v refl,
      )

  change_info-Reaches :
      (key : ℕ) (ohc : OuterHeaderCreation) (info : Option SessionInfo) (w : World)
      → Reaches (Owned seid) (change_info env key ohc info) w
  unfolding change_info
  change_info-Reaches key ohc none w = (w, refl, untouched w w refl)
  change_info-Reaches key ohc (some info) w =
      let session_map = update w.maps.session_map key (some (retarget_info ohc info)) in
      let v : World = record w { maps = record w.maps { session_map = session_map } } in
      (
        v,
        rw
            (put-roomy env.session_room w.maps.session_map key (retarget_info ohc info)
              (roomy.sessions key))
            refl,
        untouched w v refl,
      )

  retarget-Owned :
      (ohc : OuterHeaderCreation) (w : World)
      → Owned seid w (record w { server = retarget_session seid ohc w.server })
  retarget-Owned ohc w = record {
    associations = refl;
    session =
        rw (update_self w.server.sessions seid (retarget_data ohc (w.server.sessions seid)))
          (retargeted ohc (w.server.sessions seid));
  }

  change_session-Reaches :
      (ohc : OuterHeaderCreation) (access : Bool) (w : World)
      → Reaches (Owned seid) (change_session env seid ue_ip ohc access) w
  unfolding change_session
  change_session-Reaches ohc false w = (w, refl, untouched w w refl)
  change_session-Reaches ohc true w =
      let (v, e, h) =
        change_info-Reaches (swap_u32 ue_ip) ohc (w.maps.session_map (swap_u32 ue_ip)) w in
      (
        record v { server = retarget_session seid ohc v.server },
        rw (e) refl,
        Owned-trans seid w v _ h (retarget-Owned ohc v),
      )

  update_far-Reaches :
      (far : ParsedFar) (ohc : Option OuterHeaderCreation) (w : World)
      → Reaches (Owned seid) (update_far env seid ue_ip far ohc) w
  unfolding update_far
  update_far-Reaches far none w = (w, refl, untouched w w refl)
  update_far-Reaches far (some ohc) w =
      let key = far_key seid far.far_id in
      let (v, e, h) = change_far-Reaches key ohc (w.maps.far_map key) w in
      let (u, f, g) = change_session-Reaches ohc (to_access far.dest_interface) v in
      (u, rw (e) f, Owned-trans seid w v u h g)

  update_fars-Reaches :
      (fars : List ParsedFar) (w : World) → Reaches (Owned seid) (update_fars env seid ue_ip fars) w
  unfolding update_fars
  update_fars-Reaches [] w = (w, refl, untouched w w refl)
  update_fars-Reaches (far ∷ fars) w =
      then-Reaches (Owned seid) (update_far env seid ue_ip far far.outer_header_creation)
        (update_fars env seid ue_ip fars) w (Owned-trans seid)
        (update_far-Reaches far far.outer_header_creation w) (update_fars-Reaches fars)

abbrev Untouched : PfcpServer → PfcpServer → Type 0
Untouched srv new = (new.associations ≡ srv.associations) × (new.sessions ≡ srv.sessions)

change_config-Untouched :
    (seid : ℕ) (urr : ParsedUrr) (cfg : Option UrrConfig) (srv : PfcpServer)
    → Untouched srv (change_config seid urr cfg srv)
change_config-Untouched seid urr none srv = (refl, refl)
change_config-Untouched seid urr (some cfg) srv = (refl, refl)

update_urrs-Untouched :
    (seid : ℕ) (urrs : List ParsedUrr) (srv : PfcpServer)
    → Untouched srv (update_urrs seid urrs srv)
unfolding update_urrs
update_urrs-Untouched seid [] srv = (refl, refl)
update_urrs-Untouched seid (urr ∷ urrs) srv =
    let cfg = srv.urr_configs seid urr.urr_id in
    let (a, s) = update_urrs-Untouched seid urrs (change_config seid urr cfg srv) in
    let (b, r) = change_config-Untouched seid urr cfg srv in (a ∙ b, s ∙ r)

update_urrs-Owned :
    (seid : ℕ) (urrs : List ParsedUrr) (w : World)
    → Owned seid w (record w { server = update_urrs seid urrs w.server })
update_urrs-Owned seid urrs w =
    let (a, s) = update_urrs-Untouched seid urrs w.server in
    record { associations = a; session = rw (s) (SameSession-refl (w.server.sessions seid)) }

-- A modification from an IPv4 source whose association has a session under the CP SEID succeeds if no
-- map is full, whatever rules it updates: the response is sent for the CP SEID, the session stays under
-- its local SEID with its UE address and CP SEID, and the associations stay as they were.
pub owner_modifies :
    (env : Env) (header : PfcpHeader) (body : Bytes) (ip port seid : ℕ) (w : World)
    (session registered : SessionData) (req : SessionModificationReq) (assoc : SmfAssociation)
    → IsRoomy env
    → decode_session_modification body ≡ ok req
    → header.seid ≡ some seid
    → w.server.sessions seid ≡ some session
    → find_by_addr (v4 ip port) w.server.associations ≡ some assoc
    → assoc.sessions session.cp_seid ≡ some registered
    → (v : World) × (handle_session_modification env header body (v4 ip port) w
        ≡ done (build_session_modification_response header.seq_num session.cp_seid) v)
      × Owned seid w v
unfolding handle_session_modification find_owner find_source modify
owner_modifies env header body ip port seid w session registered req assoc roomy hd hh hs ha hr =
    let (v, e, h) = update_fars-Reaches env roomy seid session.ue_ip req.update_fars w in
    (
      record v { server = update_urrs seid req.update_urrs v.server },
      rw (hd, hh, hs, ha, hr, e) refl,
      Owned-trans seid w v _ h (update_urrs-Owned seid req.update_urrs v),
    )
