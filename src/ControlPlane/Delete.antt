-- ===== src/ControlPlane/Delete.antt =====
-- upf-edge/src/handle_msg.rs: session deletion. The hash sets of IDs are lists, since they are only
-- removed one by one.
use upf_edge.Prelude.{ℕ, Bool, Option, none, some, List, [], ◌∷◌, if◌then◌else◌, ◌==◌, update}
use upf_edge.Bytes.{Bytes}
use upf_edge.Common.{PdrValue, SessionInfo, swap_u32, pdr_key, far_key, urr_key}
use upf_edge.DataPlane.Rules.{Maps, slots}
use upf_edge.Pfcp.Header.{PfcpHeader}
use upf_edge.Pfcp.Build.{build_session_deletion_response}
use upf_edge.ControlPlane.{
  SocketAddr, SessionData, PfcpServer, delete, teardown_ue_route, Handler, unknown_seid, ◌>>=◌,
  ◌>>◌, return, or_fail, asks, on_server, on_maps, emit, change_assoc, find_owner,
}

-- `header.seid.unwrap_or(0)`
abbrev pub seid_or_zero : Option ℕ → ℕ
seid_or_zero none = 0
seid_or_zero (some seid) = seid

-- The session out of both tables.
abbrev pub unregister : ℕ → ℕ → ℕ → PfcpServer → PfcpServer
unregister node_id seid cp_seid srv = record srv {
  sessions = update srv.sessions seid none;
  associations =
      change_assoc (λ a. record a { sessions = update a.sessions cp_seid none }) node_id
        srv.associations;
}

-- `pdr_ids[..pdr_count]`
abbrev pub ids_of : Option SessionInfo → List ℕ
ids_of none = []
ids_of (some info) = slots info

-- The FAR and URR IDs of the PDRs that are in the map.
abbrev pub with_far : Option PdrValue → List ℕ → List ℕ
with_far none ids = ids
with_far (some pv) ids = pv.far_id ∷ ids

abbrev pub far_ids : (ℕ → Option PdrValue) → ℕ → List ℕ → List ℕ
far_ids pdr_map seid [] = []
far_ids pdr_map seid (pdr_id ∷ ids) =
    with_far (pdr_map (pdr_key seid pdr_id)) (far_ids pdr_map seid ids)

abbrev pub urr_ids : (ℕ → Option PdrValue) → ℕ → List ℕ → List ℕ
urr_ids pdr_map seid [] = []
urr_ids pdr_map seid (pdr_id ∷ ids) = elim (pdr_map (pdr_key seid pdr_id)) [
  | none ↦ urr_ids pdr_map seid ids
  | some pv ↦
      if pv.urr_id == 0 then urr_ids pdr_map seid ids else pv.urr_id ∷ urr_ids pdr_map seid ids
]

-- `map.remove` of one key after the other
abbrev pub remove_all : {V : Type 0} → (ℕ → ℕ) → List ℕ → (ℕ → Option V) → ℕ → Option V
remove_all key [] m = m
remove_all key (id ∷ ids) m = remove_all key ids (update m (key id) none)

unfoldable pub clear_maps : ℕ → ℕ → Maps → Maps
clear_maps seid ue_ip m =
    let ids = ids_of (m.session_map (swap_u32 ue_ip)) in
    record m {
      pdr_map = remove_all (pdr_key seid) ids m.pdr_map;
      far_map = remove_all (far_key seid) (far_ids m.pdr_map seid ids) m.far_map;
      urr_map = remove_all (urr_key seid) (urr_ids m.pdr_map seid ids) m.urr_map;
      session_map = update m.session_map (swap_u32 ue_ip) none;
    }

unfoldable pub delete_if : Bool → ℕ → Handler (Unit {0})
delete_if has_store seid = if has_store then emit (delete seid) else return tt

-- What follows the checks.
unfoldable pub remove_session : PfcpHeader → ℕ → SessionData → ℕ → Handler Bytes
unfolding clear_maps delete_if
remove_session header seid session owner = do
  on_server (unregister owner seid session.cp_seid)
  on_maps (clear_maps seid session.ue_ip)
  emit (teardown_ue_route session.ue_ip)
  has_store ← asks (λ w. w.server.has_store)
  delete_if has_store seid
  return (build_session_deletion_response header.seq_num seid)

unfoldable pub handle_session_deletion : PfcpHeader → SocketAddr → Handler Bytes
unfolding find_owner remove_session
handle_session_deletion header src = do
  let seid = seid_or_zero header.seid
  sessions ← asks (λ w. w.server.sessions)
  session ← or_fail (sessions seid) (unknown_seid seid)
  owner ← find_owner src session.cp_seid
  remove_session header seid session owner
