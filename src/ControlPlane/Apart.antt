-- ===== src/ControlPlane/Apart.antt =====
-- upf-edge/src/handle_msg.rs: an establishment leaves the rules of the other sessions alone.
use upf_edge.Prelude.{
  ℕ, ◌^◌, ◌<◌, ◌≡◌, ◌≢◌, refl, sym, ap, ◌∙◌, Bool, true, false, Option, none, some, List, [], ◌∷◌,
  inl, inr, Option-cases, update,
}
use upf_edge.Common.{PdrValue, SessionInfo, pdr_key}
use upf_edge.Common.Keys.{pdr_key_injective}
use upf_edge.DataPlane.Rules.{Maps}
use upf_edge.Pfcp.Header.{PfcpHeader}
use upf_edge.Pfcp.Ie.{ParsedPdr, ParsedFar, ParsedUrr}
use upf_edge.Pfcp.Messages.{SessionEstablishmentReq}
use upf_edge.ControlPlane.{
  SessionData, PfcpServer, Effect, World, Env, on_server, on_maps, emit, put_over, put, alloc_seid,
  alloc_teid,
}
use upf_edge.ControlPlane.Establish.{
  pdr_value, insert_session, insert_pdr, insert_pdrs, insert_far, insert_fars, insert_urr,
  insert_urrs, save_if, establish_as, establish,
}
use upf_edge.ControlPlane.Frame.{update-other}
use upf_edge.ControlPlane.Keeps.{
  Ends, Keeps, >>=-Keeps, >>-Keeps, return-Keeps, asks-Keeps, or_fail-Keeps,
}

-- What the PDR map has under a key.
pub record HasPdr (key : ℕ) (v : Option PdrValue) (w : World) : Type 0 where
  pub entry : w.maps.pdr_map key ≡ v

abbrev looked : {V : Type 0} → ℕ → Option (ℕ → Option V) → Option V
looked j none = none
looked j (some map) = map j

put_over-some :
    {V W : Type 0} (old : Option W) (room : Bool) (map map' : ℕ → Option V) (j : ℕ)
    → put_over old room map ≡ some map'
    → map j ≡ map' j
put_over-some (some old) room map map' j e = ap (looked j) e
put_over-some none true map map' j e = ap (looked j) e
put_over-some none false map map' j e = cc

put-other :
    {V : Type 0} (room : ℕ → Bool) (map : ℕ → Option V) (k j : ℕ) (v : V) (map' : ℕ → Option V)
    → put room map k v ≡ some map'
    → k ≢ j
    → map' j ≡ map j
put-other room map k j v map' e apart =
    sym (put_over-some (map k) (room k) (update map k (some v)) map' j e)
    ∙ update-other map k j (some v) apart

module _ {key : ℕ} {v : Option PdrValue} where
  on_server-HasPdr : (f : PfcpServer → PfcpServer) → Keeps (HasPdr key v) (on_server f)
  on_server-HasPdr f = record { kept = λ w h. record { entry = h.entry } }

  emit-HasPdr : (e : Effect) → Keeps (HasPdr key v) (emit e)
  emit-HasPdr e = record { kept = λ w h. record { entry = h.entry } }

  on_maps-HasPdr :
      (f : Maps → Maps)
      → ((m : Maps) → (f m).pdr_map key ≡ m.pdr_map key)
      → Keeps (HasPdr key v) (on_maps f)
  on_maps-HasPdr f same = record { kept = λ w h. record { entry = same w.maps ∙ h.entry } }

  insert_pdr-HasPdr :
      (env : Env) (seid ue_ip : ℕ) (pdr : ParsedPdr)
      → pdr_key seid pdr.pdr_id ≢ key
      → Keeps (HasPdr key v) (insert_pdr env seid ue_ip pdr)
  unfolding insert_pdr
  insert_pdr-HasPdr env seid ue_ip pdr apart = record {
    kept = λ w h.
        elim (Option-cases
          (put env.pdr_room w.maps.pdr_map (pdr_key seid pdr.pdr_id) (pdr_value ue_ip pdr))) [
            | inl e ↦ rw (e) h
            | inr (map', e) ↦ rw (e) (record {
              entry =
                  put-other env.pdr_room w.maps.pdr_map (pdr_key seid pdr.pdr_id) key _ map' e apart
                  ∙ h.entry;
            })
          ];
  }

  ruleset quiet = (
    >>=-Keeps, >>-Keeps, return-Keeps, asks-Keeps, or_fail-Keeps, on_server-HasPdr, emit-HasPdr,
    on_maps-HasPdr,
  )

  insert_session-HasPdr :
      (env : Env) (ue_ip : ℕ) (info : SessionInfo)
      → Keeps (HasPdr key v) (insert_session env ue_ip info)
  unfolding insert_session
  insert_session-HasPdr env ue_ip info = search quiet

  insert_pdrs-HasPdr :
      (env : Env) (seid ue_ip : ℕ) (pdrs : List ParsedPdr)
      → ((id : ℕ) → pdr_key seid id ≢ key)
      → Keeps (HasPdr key v) (insert_pdrs env seid ue_ip pdrs)
  unfolding insert_pdrs
  insert_pdrs-HasPdr env seid ue_ip [] apart = search quiet
  insert_pdrs-HasPdr env seid ue_ip (pdr ∷ pdrs) apart =
      >>=-Keeps (insert_pdr-HasPdr env seid ue_ip pdr (apart pdr.pdr_id))
        (λ _. insert_pdrs-HasPdr env seid ue_ip pdrs apart)

  insert_far-HasPdr :
      (env : Env) (seid n3_addr : ℕ) (far : ParsedFar)
      → Keeps (HasPdr key v) (insert_far env seid n3_addr far)
  unfolding insert_far
  insert_far-HasPdr env seid n3_addr far = search quiet

  insert_fars-HasPdr :
      (env : Env) (seid n3_addr : ℕ) (fars : List ParsedFar)
      → Keeps (HasPdr key v) (insert_fars env seid n3_addr fars)
  unfolding insert_fars
  insert_fars-HasPdr env seid n3_addr [] = search quiet
  insert_fars-HasPdr env seid n3_addr (far ∷ fars) =
      >>=-Keeps (insert_far-HasPdr env seid n3_addr far)
        (λ _. insert_fars-HasPdr env seid n3_addr fars)

  insert_urr-HasPdr :
      (env : Env) (seid cp_seid : ℕ) (urr : ParsedUrr)
      → Keeps (HasPdr key v) (insert_urr env seid cp_seid urr)
  unfolding insert_urr
  insert_urr-HasPdr env seid cp_seid urr = search quiet

  insert_urrs-HasPdr :
      (env : Env) (seid cp_seid : ℕ) (urrs : List ParsedUrr)
      → Keeps (HasPdr key v) (insert_urrs env seid cp_seid urrs)
  unfolding insert_urrs
  insert_urrs-HasPdr env seid cp_seid [] = search quiet
  insert_urrs-HasPdr env seid cp_seid (urr ∷ urrs) =
      >>=-Keeps (insert_urr-HasPdr env seid cp_seid urr)
        (λ _. insert_urrs-HasPdr env seid cp_seid urrs)

  save_if-HasPdr :
      (b : Bool) (seid : ℕ) (session : SessionData) → Keeps (HasPdr key v) (save_if b seid session)
  unfolding save_if
  save_if-HasPdr true seid session = search quiet
  save_if-HasPdr false seid session = search quiet

  establish_as-HasPdr :
      (env : Env) (header : PfcpHeader) (req : SessionEstablishmentReq) (node_id seid teid : ℕ)
      → ((id : ℕ) → pdr_key seid id ≢ key)
      → Keeps (HasPdr key v) (establish_as env header req node_id seid teid)
  unfolding establish_as
  establish_as-HasPdr env header req node_id seid teid apart =
      search
        (
          quiet, insert_session-HasPdr, insert_pdrs-HasPdr, insert_fars-HasPdr, insert_urrs-HasPdr,
          save_if-HasPdr, apart,
        )
        depth 30 fits 20000

-- An establishment, whether it succeeds or fails halfway, leaves every PDR of every other session in the
-- PDR map as it was, if the new SEID and the other one are below 2 ^ 48.
pub establish-others :
    (env : Env) (header : PfcpHeader) (req : SessionEstablishmentReq) (node_id : ℕ) (w : World)
    (other id : ℕ)
    → w.server.next_seid < 2 ^ 48
    → other < 2 ^ 48
    → w.server.next_seid ≢ other
    → Ends
        (HasPdr (pdr_key other id) (w.maps.pdr_map (pdr_key other id)))
        (establish env header req node_id w)
unfolding establish alloc_seid alloc_teid
establish-others env header req node_id w other id h g apart =
    let kept =
      establish_as-HasPdr env header req node_id w.server.next_seid w.server.next_teid
        (λ i e. apart ((pdr_key_injective w.server.next_seid other i id h g).0 e).0) in
    kept.kept _ (record { entry = refl })
