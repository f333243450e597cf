-- ===== src/ControlPlane/Establishing.antt =====
-- upf-edge/src/handle_msg.rs: how the rules of a session are entered where the maps have room.
pub mod Registered
pub mod Entered
use upf_edge.Prelude.{
  ℕ, ◌+◌, ◌%◌, ◌^◌, ◌≡◌, refl, sym, ap, ◌∙◌, Bool, true, false, Option, none, some, List, [], ◌∷◌,
  ok, update, Option-cases, inl, inr, update_self,
}
use upf_edge.Bytes.{Bytes}
use upf_edge.Common.{SessionInfo, swap_u32, pdr_key, far_key, urr_key}
use upf_edge.Pfcp.Header.{PfcpHeader}
use upf_edge.Pfcp.Ie.{OuterHeaderCreation, ParsedPdr, ParsedFar, ParsedUrr}
use upf_edge.Pfcp.Messages.{SessionEstablishmentReq, decode_session_establishment}
use upf_edge.Pfcp.Build.{build_session_establishment_response}
use upf_edge.ControlPlane.{
  SocketAddr, v4, SessionData, UrrConfig, SmfAssociation, PfcpServer, World, Env, Answer, done,
  Handler, ◌>>◌, find_by_addr, find_source, alloc_seid, alloc_teid, change_assoc, put, put_over,
}
use upf_edge.ControlPlane.Establish.{
  first_ue_ip, first_outer_header, session_info, insert_session, insert_pdr, insert_pdrs,
  insert_far, insert_fars, insert_urr, insert_urrs, pdr_value, far_value, no_usage, configure,
  register, save_if, created_pdrs, establish_as, establish, handle_session_establishment,
}
use upf_edge.ControlPlane.Reaches.{Reaches, then-Reaches, IsRoomy, put-roomy}

abbrev pub reconfigured : (ℕ → ℕ → Option UrrConfig) → PfcpServer → PfcpServer
reconfigured configs srv = record srv { urr_configs = configs }

-- What the rules leave alone: the session map and, but for the rules of usage, the server.
pub record Keeping (w v : World) : Type 0 where
  pub server : v.server ≡ reconfigured v.server.urr_configs w.server
  pub session_map : v.maps.session_map ≡ w.maps.session_map
  pub effects : v.effects ≡ w.effects

abbrev pub Goes : Handler (Unit {0}) → World → Type 0
Goes = Reaches Keeping

pub Keeping-trans : (u v w : World) → Keeping u v → Keeping v w → Keeping u w
Keeping-trans u v w h g = record {
  server = g.server ∙ ap (reconfigured w.server.urr_configs) h.server;
  session_map = g.session_map ∙ h.session_map;
  effects = g.effects ∙ h.effects;
}

abbrev pub with_session : ℕ → SessionInfo → World → World
with_session ue_ip info w = record w {
  maps = record w.maps { session_map = update w.maps.session_map (swap_u32 ue_ip) (some info) };
}

module _ (env : Env) (roomy : IsRoomy env) where
  abbrev with_pdr : ℕ → ℕ → ParsedPdr → World → World
  with_pdr seid ue_ip pdr w = record w {
    maps = record w.maps {
      pdr_map = update w.maps.pdr_map (pdr_key seid pdr.pdr_id) (some (pdr_value ue_ip pdr));
    };
  }

  insert_pdr-Goes :
      (seid ue_ip : ℕ) (pdr : ParsedPdr) (w : World) → Goes (insert_pdr env seid ue_ip pdr) w
  unfolding insert_pdr
  insert_pdr-Goes seid ue_ip pdr w = (
    with_pdr seid ue_ip pdr w,
    rw
        (put-roomy env.pdr_room w.maps.pdr_map (pdr_key seid pdr.pdr_id) (pdr_value ue_ip pdr)
          (roomy.pdrs _))
        refl,
    record { server = refl; session_map = refl; effects = refl },
  )

  pub insert_pdrs-Goes :
      (seid ue_ip : ℕ) (pdrs : List ParsedPdr) (w : World)
      → Goes (insert_pdrs env seid ue_ip pdrs) w
  unfolding insert_pdrs
  insert_pdrs-Goes seid ue_ip [] w =
      (w, refl, record { server = refl; session_map = refl; effects = refl })
  insert_pdrs-Goes seid ue_ip (pdr ∷ pdrs) w =
      then-Reaches Keeping (insert_pdr env seid ue_ip pdr) (insert_pdrs env seid ue_ip pdrs) w
        Keeping-trans (insert_pdr-Goes seid ue_ip pdr w) (insert_pdrs-Goes seid ue_ip pdrs)

  abbrev with_far : ℕ → ℕ → ParsedFar → World → World
  with_far seid n3_addr far w = record w {
    maps = record w.maps {
      far_map = update w.maps.far_map (far_key seid far.far_id) (some (far_value n3_addr far));
    };
  }

  insert_far-Goes :
      (seid n3_addr : ℕ) (far : ParsedFar) (w : World) → Goes (insert_far env seid n3_addr far) w
  unfolding insert_far
  insert_far-Goes seid n3_addr far w = (
    with_far seid n3_addr far w,
    rw
        (put-roomy env.far_room w.maps.far_map (far_key seid far.far_id) (far_value n3_addr far)
          (roomy.fars _))
        refl,
    record { server = refl; session_map = refl; effects = refl },
  )

  pub insert_fars-Goes :
      (seid n3_addr : ℕ) (fars : List ParsedFar) (w : World)
      → Goes (insert_fars env seid n3_addr fars) w
  unfolding insert_fars
  insert_fars-Goes seid n3_addr [] w =
      (w, refl, record { server = refl; session_map = refl; effects = refl })
  insert_fars-Goes seid n3_addr (far ∷ fars) w =
      then-Reaches Keeping (insert_far env seid n3_addr far) (insert_fars env seid n3_addr fars) w
        Keeping-trans (insert_far-Goes seid n3_addr far w) (insert_fars-Goes seid n3_addr fars)

  abbrev with_urr : ℕ → ℕ → ParsedUrr → World → World
  with_urr seid cp_seid urr w = record w {
    maps = record w.maps {
      urr_map = update w.maps.urr_map (urr_key seid urr.urr_id) (some no_usage);
    };
    server = configure env seid cp_seid urr w.server;
  }

  insert_urr-Goes :
      (seid cp_seid : ℕ) (urr : ParsedUrr) (w : World) → Goes (insert_urr env seid cp_seid urr) w
  unfolding insert_urr
  insert_urr-Goes seid cp_seid urr w = (
    with_urr seid cp_seid urr w,
    rw (put-roomy env.urr_room w.maps.urr_map (urr_key seid urr.urr_id) no_usage (roomy.urrs _))
        refl,
    record { server = refl; session_map = refl; effects = refl },
  )

  pub insert_urrs-Goes :
      (seid cp_seid : ℕ) (urrs : List ParsedUrr) (w : World)
      → Goes (insert_urrs env seid cp_seid urrs) w
  unfolding insert_urrs
  insert_urrs-Goes seid cp_seid [] w =
      (w, refl, record { server = refl; session_map = refl; effects = refl })
  insert_urrs-Goes seid cp_seid (urr ∷ urrs) w =
      then-Reaches Keeping (insert_urr env seid cp_seid urr) (insert_urrs env seid cp_seid urrs) w
        Keeping-trans (insert_urr-Goes seid cp_seid urr w) (insert_urrs-Goes seid cp_seid urrs)

  pub insert_session-done :
      (ue_ip : ℕ) (info : SessionInfo) (w : World)
      → insert_session env ue_ip info w ≡ done tt (with_session ue_ip info w)
  unfolding insert_session
  insert_session-done ue_ip info w =
      rw (put-roomy env.session_room w.maps.session_map (swap_u32 ue_ip) info (roomy.sessions _))
        refl
