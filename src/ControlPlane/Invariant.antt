-- ===== src/ControlPlane/Invariant.antt =====
-- The steps of the handlers of upf-edge/src/handle_msg.rs under an invariant of the server.
use upf_edge.Prelude.{ℕ, Bool, true, false, Option, none, some, List, [], ◌∷◌, update}
use upf_edge.DataPlane.Rules.{Maps}
use upf_edge.Common.{swap_u32, FarValue, SessionInfo}
use upf_edge.Pfcp.Header.{PfcpHeader}
use upf_edge.Pfcp.Ie.{OuterHeaderCreation, ParsedPdr, ParsedFar, ParsedUrr}
use upf_edge.Pfcp.Messages.{SessionEstablishmentReq, SessionModificationReq}
use upf_edge.ControlPlane.{
  SocketAddr, SessionData, UrrConfig, SmfAssociation, PfcpServer, Env, find_source, find_owner,
}
use upf_edge.ControlPlane.Keeps.{
  Keeps, Of, >>=-Keeps, >>-Keeps, return-Keeps, asks-Keeps, or_fail-Keeps, require-Keeps,
  on_maps-Keeps, emit-Keeps, on_server-Keeps,
}
use upf_edge.ControlPlane.Establish.{
  insert_session, insert_pdr, insert_pdrs, insert_far, insert_fars, insert_urr, insert_urrs,
  configure, save_if, register, establish_as,
}
use upf_edge.ControlPlane.Modify.{
  retarget_data, retarget_session, change_far, change_info, change_session, update_far, update_fars,
  change_config, update_urrs, modify,
}
use upf_edge.ControlPlane.Delete.{unregister, delete_if, remove_session}

-- What an invariant of the server has to bear.
pub record Bears (Q : PfcpServer → Type 0) : Type 0 where
  pub configured :
      (srv : PfcpServer) (c : ℕ → ℕ → Option UrrConfig) → Q srv → Q (record srv { urr_configs = c })
  pub associated :
      (srv : PfcpServer) (as' : List (ℕ × SmfAssociation)) (p : Option SocketAddr)
      → Q srv
      → Q (record srv { associations = as'; peer_addr = p })
  pub retargeted :
      (srv : PfcpServer) (seid : ℕ) (ohc : OuterHeaderCreation)
      → Q srv
      → Q (record srv {
        sessions = update srv.sessions seid (retarget_data ohc (srv.sessions seid));
      })
  pub forgotten :
      (srv : PfcpServer) (seid : ℕ)
      → Q srv
      → Q (record srv { sessions = update srv.sessions seid none })

ruleset steps = (
  >>=-Keeps, >>-Keeps, return-Keeps, asks-Keeps, or_fail-Keeps, require-Keeps, on_maps-Keeps,
  emit-Keeps,
)

module _ {Q : PfcpServer → Type 0} (bears : Bears Q) where
  insert_session-Keeps :
      (env : Env) (ue_ip : ℕ) (info : SessionInfo) → Keeps (Of Q) (insert_session env ue_ip info)
  unfolding insert_session
  insert_session-Keeps env ue_ip info = search steps

  insert_pdr-Keeps :
      (env : Env) (seid ue_ip : ℕ) (pdr : ParsedPdr) → Keeps (Of Q) (insert_pdr env seid ue_ip pdr)
  unfolding insert_pdr
  insert_pdr-Keeps env seid ue_ip pdr = search steps

  insert_pdrs-Keeps :
      (env : Env) (seid ue_ip : ℕ) (pdrs : List ParsedPdr)
      → Keeps (Of Q) (insert_pdrs env seid ue_ip pdrs)
  unfolding insert_pdrs
  insert_pdrs-Keeps env seid ue_ip [] = search steps
  insert_pdrs-Keeps env seid ue_ip (pdr ∷ pdrs) =
      >>=-Keeps (insert_pdr-Keeps env seid ue_ip pdr) (λ _. insert_pdrs-Keeps env seid ue_ip pdrs)

  insert_far-Keeps :
      (env : Env) (seid n3_addr : ℕ) (far : ParsedFar)
      → Keeps (Of Q) (insert_far env seid n3_addr far)
  unfolding insert_far
  insert_far-Keeps env seid n3_addr far = search steps

  insert_fars-Keeps :
      (env : Env) (seid n3_addr : ℕ) (fars : List ParsedFar)
      → Keeps (Of Q) (insert_fars env seid n3_addr fars)
  unfolding insert_fars
  insert_fars-Keeps env seid n3_addr [] = search steps
  insert_fars-Keeps env seid n3_addr (far ∷ fars) =
      >>=-Keeps (insert_far-Keeps env seid n3_addr far)
        (λ _. insert_fars-Keeps env seid n3_addr fars)

  insert_urr-Keeps :
      (env : Env) (seid cp_seid : ℕ) (urr : ParsedUrr)
      → Keeps (Of Q) (insert_urr env seid cp_seid urr)
  unfolding insert_urr
  insert_urr-Keeps env seid cp_seid urr =
      let configures : (srv : PfcpServer) → Q srv → Q (configure env seid cp_seid urr srv) =
        λ srv h. bears.configured srv _ h in
      search (steps, on_server-Keeps, configures)

  insert_urrs-Keeps :
      (env : Env) (seid cp_seid : ℕ) (urrs : List ParsedUrr)
      → Keeps (Of Q) (insert_urrs env seid cp_seid urrs)
  unfolding insert_urrs
  insert_urrs-Keeps env seid cp_seid [] = search steps
  insert_urrs-Keeps env seid cp_seid (urr ∷ urrs) =
      >>=-Keeps (insert_urr-Keeps env seid cp_seid urr)
        (λ _. insert_urrs-Keeps env seid cp_seid urrs)

  pub save_if-Keeps :
      (b : Bool) (seid : ℕ) (session : SessionData) → Keeps (Of Q) (save_if b seid session)
  unfolding save_if
  save_if-Keeps true seid session = search steps
  save_if-Keeps false seid session = search steps

  pub delete_if-Keeps : (b : Bool) (seid : ℕ) → Keeps (Of Q) (delete_if b seid)
  unfolding delete_if
  delete_if-Keeps true seid = search steps
  delete_if-Keeps false seid = search steps

  pub change_far-Keeps :
      (env : Env) (key : ℕ) (ohc : OuterHeaderCreation) (far : Option FarValue)
      → Keeps (Of Q) (change_far env key ohc far)
  unfolding change_far
  change_far-Keeps env key ohc none = search steps
  change_far-Keeps env key ohc (some far) = search steps

  pub change_info-Keeps :
      (env : Env) (key : ℕ) (ohc : OuterHeaderCreation) (info : Option SessionInfo)
      → Keeps (Of Q) (change_info env key ohc info)
  unfolding change_info
  change_info-Keeps env key ohc none = search steps
  change_info-Keeps env key ohc (some info) = search steps

  pub change_session-Keeps :
      (env : Env) (seid ue_ip : ℕ) (ohc : OuterHeaderCreation) (b : Bool)
      → Keeps (Of Q) (change_session env seid ue_ip ohc b)
  unfolding change_session
  change_session-Keeps env seid ue_ip ohc false = search steps
  change_session-Keeps env seid ue_ip ohc true =
      >>=-Keeps {A = Maps} (asks-Keeps (λ w. w.maps)) λ m.
        >>-Keeps (change_info-Keeps env (swap_u32 ue_ip) ohc (m.session_map (swap_u32 ue_ip)))
          (on_server-Keeps (retarget_session seid ohc) (λ srv h. bears.retargeted srv seid ohc h))

  pub update_far-Keeps :
      (env : Env) (seid ue_ip : ℕ) (far : ParsedFar) (ohc : Option OuterHeaderCreation)
      → Keeps (Of Q) (update_far env seid ue_ip far ohc)
  unfolding update_far
  update_far-Keeps env seid ue_ip far none = search steps
  update_far-Keeps env seid ue_ip far (some ohc) =
      search (steps, change_far-Keeps, change_session-Keeps)

  pub update_fars-Keeps :
      (env : Env) (seid ue_ip : ℕ) (fars : List ParsedFar)
      → Keeps (Of Q) (update_fars env seid ue_ip fars)
  unfolding update_fars
  update_fars-Keeps env seid ue_ip [] = search steps
  update_fars-Keeps env seid ue_ip (far ∷ fars) =
      >>=-Keeps (update_far-Keeps env seid ue_ip far far.outer_header_creation)
        (λ _. update_fars-Keeps env seid ue_ip fars)

  change_config-kept :
      (seid : ℕ) (urr : ParsedUrr) (cfg : Option UrrConfig) (srv : PfcpServer)
      → Q srv
      → Q (change_config seid urr cfg srv)
  change_config-kept seid urr none srv h = h
  change_config-kept seid urr (some cfg) srv h = bears.configured srv _ h

  update_urrs-kept :
      (seid : ℕ) (urrs : List ParsedUrr) (srv : PfcpServer) → Q srv → Q (update_urrs seid urrs srv)
  unfolding update_urrs
  update_urrs-kept seid [] srv h = h
  update_urrs-kept seid (urr ∷ urrs) srv h =
      update_urrs-kept seid urrs _ (change_config-kept seid urr _ srv h)

  pub find_source-Keeps : (src : SocketAddr) → Keeps (Of Q) (find_source src)
  unfolding find_source
  find_source-Keeps src = search steps

  pub find_owner-Keeps : (src : SocketAddr) (cp_seid : ℕ) → Keeps (Of Q) (find_owner src cp_seid)
  unfolding find_owner
  find_owner-Keeps src cp_seid = search (steps, find_source-Keeps)

  pub modify-Keeps :
      (env : Env) (header : PfcpHeader) (req : SessionModificationReq) (seid : ℕ)
      (session : SessionData)
      → Keeps (Of Q) (modify env header req seid session)
  unfolding modify
  modify-Keeps env header req seid session =
      search (steps, update_fars-Keeps, on_server-Keeps, update_urrs-kept)

  pub remove_session-Keeps :
      (header : PfcpHeader) (seid : ℕ) (session : SessionData) (owner : ℕ)
      → Keeps (Of Q) (remove_session header seid session owner)
  unfolding remove_session
  remove_session-Keeps header seid session owner =
      let removed : (srv : PfcpServer) → Q srv → Q (unregister owner seid session.cp_seid srv) =
        λ srv h. bears.associated _ _ srv.peer_addr (bears.forgotten srv seid h) in
      search (steps, delete_if-Keeps, on_server-Keeps, removed) depth 12

  -- An establishment, if the session may be entered under its local SEID.
  pub establish_as-Keeps :
      (env : Env) (header : PfcpHeader) (req : SessionEstablishmentReq) (node_id seid teid : ℕ)
      → ((srv : PfcpServer) (session : SessionData) → Q srv → Q (register node_id seid session srv))
      → Keeps (Of Q) (establish_as env header req node_id seid teid)
  unfolding establish_as
  establish_as-Keeps env header req node_id seid teid enters =
      search
        (
          steps, insert_session-Keeps, insert_pdrs-Keeps, insert_fars-Keeps, insert_urrs-Keeps,
          save_if-Keeps, on_server-Keeps, enters,
        )
        depth 30 fits 20000
