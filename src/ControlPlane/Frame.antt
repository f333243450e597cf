-- ===== src/ControlPlane/Frame.antt =====
-- upf-edge/src/handle_msg.rs: the eBPF maps under a deletion. It takes out the rules of the one session
-- and of no other.
use upf_edge.Prelude.{
  ℕ, ◌^◌, ◌<◌, ◌≡◌, ◌≢◌, refl, true, inl, inr, Bool-cases, Option, none, some, List, [], ◌∷◌, arith,
  update, update_self, All, ◌==◌, ◌∙◌,
}
use upf_edge.Common.{PdrValue, swap_u32, pdr_key, far_key}
use upf_edge.Common.Keys.{pdr_key_injective, far_key_injective}
use upf_edge.DataPlane.Rules.{Maps}
use upf_edge.ControlPlane.Delete.{ids_of, with_far, far_ids, remove_all, clear_maps}

same_id : (a b : ℕ) → (a == b) ≡ true → a ≡ b
same_id a b e = ground arith

pub update-other :
    {V : Type 0} (m : ℕ → Option V) (k j : ℕ) (o : Option V) → k ≢ j → update m k o j ≡ m j
update-other m k j o h = elim (Bool-cases (k == j)) [
  | inl e ↦ elim (h (same_id k j e)) [ ]
  | inr e ↦ rw (e) refl
]

-- What is removed stays out, and other keys are not touched.
remove_all-none :
    {V : Type 0} (key : ℕ → ℕ) (ids : List ℕ) (m : ℕ → Option V) (j : ℕ)
    → m j ≡ none
    → remove_all key ids m j ≡ none
remove_all-none key [] m j h = h
remove_all-none key (id ∷ ids) m j h =
    remove_all-none key ids (update m (key id) none) j
      (elim (Bool-cases (key id == j)) [ inl e ↦ rw (e) refl | inr e ↦ rw (e) h ])

remove_all-other :
    {V : Type 0} (key : ℕ → ℕ) (ids : List ℕ) (m : ℕ → Option V) (j : ℕ)
    → ((id : ℕ) → key id ≢ j)
    → remove_all key ids m j ≡ m j
remove_all-other key [] m j h = refl
remove_all-other key (id ∷ ids) m j h =
    remove_all-other key ids (update m (key id) none) j h ∙ update-other m (key id) j none (h id)

-- For SEIDs below 2 ^ 48, the deletion of one session leaves the PDRs and FARs of every other session
-- in the maps.
pub clear_maps-others :
    (seid other ue_ip id : ℕ) (m : Maps)
    → seid < 2 ^ 48
    → other < 2 ^ 48
    → seid ≢ other
    → ((clear_maps seid ue_ip m).pdr_map (pdr_key other id) ≡ m.pdr_map (pdr_key other id))
      × ((clear_maps seid ue_ip m).far_map (far_key other id) ≡ m.far_map (far_key other id))
unfolding clear_maps
clear_maps-others seid other ue_ip id m h g apart =
    let ids = ids_of (m.session_map (swap_u32 ue_ip)) in
    (
      remove_all-other (pdr_key seid) ids m.pdr_map (pdr_key other id)
          (λ i e. apart ((pdr_key_injective seid other i id h g).0 e).0),
      remove_all-other (far_key seid) (far_ids m.pdr_map seid ids) m.far_map (far_key other id)
          (λ i e. apart ((far_key_injective seid other i id h g).0 e).0),
    )

remove_all_self :
    {V : Type 0} (key : ℕ → ℕ) (ids : List ℕ) (m : ℕ → Option V)
    → All (λ id. remove_all key ids m (key id) ≡ none) ids
remove_all_self key [] m = tt
remove_all_self key (id ∷ ids) m = (
  remove_all-none key ids (update m (key id) none) (key id) (update_self m (key id) none),
  remove_all_self key ids (update m (key id) none),
)

-- The FAR that a PDR of the session names is not in the map.
abbrev pub FarGone : Maps → ℕ → Option PdrValue → Type 0
FarGone m seid none = Unit {0}
FarGone m seid (some pv) = m.far_map (far_key seid pv.far_id) ≡ none

far_gone :
    {R : Type 0} (m : Maps) (seid : ℕ) (pdr : Option PdrValue) (rest : List ℕ)
    → (All (λ far_id. m.far_map (far_key seid far_id) ≡ none) rest → R)
    → All (λ far_id. m.far_map (far_key seid far_id) ≡ none) (with_far pdr rest)
    → FarGone m seid pdr × R
far_gone m seid none rest f h = (tt, f h)
far_gone m seid (some pv) rest f h = (h.0, f h.1)

fars_gone :
    (pdr_map : ℕ → Option PdrValue) (m : Maps) (seid : ℕ) (ids : List ℕ)
    → All (λ far_id. m.far_map (far_key seid far_id) ≡ none) (far_ids pdr_map seid ids)
    → All (λ id. FarGone m seid (pdr_map (pdr_key seid id))) ids
fars_gone pdr_map m seid [] h = tt
fars_gone pdr_map m seid (id ∷ ids) h =
    far_gone m seid (pdr_map (pdr_key seid id)) (far_ids pdr_map seid ids)
      (fars_gone pdr_map m seid ids) h

-- After the deletion, none of the PDRs that the session lists is in the maps, none of the FARs that
-- these PDRs named is, and the data plane no longer finds a session for the UE's address.
pub clear_maps-gone :
    (seid ue_ip : ℕ) (m : Maps)
    → All
        (λ id. (clear_maps seid ue_ip m).pdr_map (pdr_key seid id) ≡ none)
        (ids_of (m.session_map (swap_u32 ue_ip)))
      × All
          (λ id. FarGone (clear_maps seid ue_ip m) seid (m.pdr_map (pdr_key seid id)))
          (ids_of (m.session_map (swap_u32 ue_ip)))
      × ((clear_maps seid ue_ip m).session_map (swap_u32 ue_ip) ≡ none)
unfolding clear_maps
clear_maps-gone seid ue_ip m =
    let ids = ids_of (m.session_map (swap_u32 ue_ip)) in
    (
      remove_all_self (pdr_key seid) ids m.pdr_map,
      fars_gone m.pdr_map (clear_maps seid ue_ip m) seid ids
          (remove_all_self (far_key seid) (far_ids m.pdr_map seid ids) m.far_map),
      update_self m.session_map (swap_u32 ue_ip) none,
    )
