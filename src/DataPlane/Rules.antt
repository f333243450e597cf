-- ===== src/DataPlane/Rules.antt =====
-- upf-edge-ebpf/src/main.rs: the maps, and the rule lookup on them. An eBPF hash map is its lookup;
-- addresses and ports are compared as they lie in memory. Counters are those of one CPU.
pub mod Select
use upf_edge.Prelude.{
  ℕ, ◌+◌, ◌%◌, ◌^◌, bit_and, Bool, true, false, not, ◌&&◌, Option, none, some, List, [], ◌∷◌,
  if◌then◌else◌, ltb, leb, ◌==◌, take, update, min,
}
use upf_edge.Bytes.{Bytes}
use upf_edge.Common.{
  PdrValue, FarValue, SessionInfo, UrrStats, SessionStats, pdr_key, far_key, urr_key,
  max_pdr_per_session, iface_access, iface_core, action_drop, action_forw,
}

pub record Maps : Type 0 where
  pub session_map : ℕ → Option SessionInfo
  pub pdr_map : ℕ → Option PdrValue
  pub far_map : ℕ → Option FarValue
  pub if_index : ℕ → Option ℕ
  pub gw_mac : ℕ → Option Bytes
  pub stats_map : ℕ → Option SessionStats
  pub urr_map : ℕ → Option UrrStats

-- `u32::MAX`
abbrev pub u32_max : ℕ
u32_max = 0xFFFF_FFFF

-- What a packet is matched by.
pub record Flow : Type 0 where
  pub proto : ℕ
  pub src_ip : ℕ
  pub dst_ip : ℕ
  pub src_port : ℕ
  pub dst_port : ℕ

-- `want != 0 && want != have`
abbrev mismatch : ℕ → ℕ → Bool
mismatch want have = not (want == 0) && not (want == have)

unfoldable pub sdf_matches : PdrValue → Flow → Bool
sdf_matches pdr flow =
    if mismatch pdr.sdf_proto flow.proto
    then false
    else if mismatch pdr.sdf_src_ip flow.src_ip
    then false
    else if mismatch pdr.sdf_dst_ip flow.dst_ip
    then false
    else if mismatch pdr.sdf_src_port flow.src_port
    then false
    else if mismatch pdr.sdf_dst_port flow.dst_port
    then false
    else true

-- The PDR IDs that the loops visit: `i` runs below 8 and below `pdr_count`.
abbrev pub slots : SessionInfo → List ℕ
slots session = take (min session.pdr_count max_pdr_per_session) session.pdr_ids

-- `best_far` and `best_precedence`
pub record Best : Type 0 where
  pub far : Option (FarValue × ℕ)
  pub precedence : ℕ

-- What is left of the loop's body behind the lookup of the PDR.
consider_far : Option FarValue → PdrValue → Best → Best
consider_far none pdr best = best
consider_far (some far) pdr best = record {
  far = some (far, pdr.urr_id);
  precedence = pdr.precedence;
}

consider_pdr : Maps → ℕ → ℕ → Flow → Option PdrValue → Best → Best
unfolding consider_far sdf_matches
consider_pdr m seid iface flow none best = best
consider_pdr m seid iface flow (some pdr) best =
    if not (pdr.source_interface == iface)
    then best
    else if not (sdf_matches pdr flow)
    then best
    else if leb best.precedence pdr.precedence
    then best
    else consider_far (m.far_map (far_key seid pdr.far_id)) pdr best

select_loop : Maps → ℕ → ℕ → Flow → List ℕ → Best → Best
unfolding consider_pdr
select_loop m seid iface flow [] best = best
select_loop m seid iface flow (pdr_id ∷ ids) best =
    select_loop m seid iface flow ids
      (consider_pdr m seid iface flow (m.pdr_map (pdr_key seid pdr_id)) best)

-- The FAR of the matching PDR of least precedence, with the PDR's URR ID.
unfoldable pub select_far : Maps → SessionInfo → ℕ → Flow → Option (FarValue × ℕ)
unfolding select_loop
select_far m session iface flow =
    (select_loop m session.seid iface flow (slots session)
      (record { far = none; precedence = u32_max })).far

-- The FAR of a PDR on the given interface, if both are in the maps.
far_of_pdr : Maps → ℕ → ℕ → Option PdrValue → Option FarValue
far_of_pdr m seid iface none = none
far_of_pdr m seid iface (some pdr) =
    if not (pdr.source_interface == iface) then none else m.far_map (far_key seid pdr.far_id)

-- `continue` without a FAR, `return` with one.
first_far_loop : Maps → ℕ → ℕ → List ℕ → Option FarValue
unfolding far_of_pdr
first_far_loop m seid iface [] = none
first_far_loop m seid iface (pdr_id ∷ ids) =
    let rest = first_far_loop m seid iface ids in
    elim (far_of_pdr m seid iface (m.pdr_map (pdr_key seid pdr_id))) [
      | none ↦ rest
      | some far ↦ some far
    ]

unfoldable pub downlink_get_far : Maps → SessionInfo → Option FarValue
unfolding first_far_loop
downlink_get_far m session = first_far_loop m session.seid iface_core (slots session)

unfoldable pub has_action : ℕ → FarValue → Bool
has_action action far = not (bit_and far.apply_action action == 0)

-- The three returns at the end of the body of `uplink_check_far`'s loop.
drops : Option FarValue → Bool
unfolding has_action
drops none = false
drops (some far) =
    if has_action action_drop far then true else if has_action action_forw far then false else true

unfoldable pub uplink_check_far : Maps → SessionInfo → Bool
unfolding first_far_loop drops
uplink_check_far m session = drops (first_far_loop m session.seid iface_access (slots session))

-- `+=` on a `u64` counter
abbrev pub add_u64 : ℕ → ℕ → ℕ
add_u64 a b = (a + b) % 2 ^ 64

unfoldable pub bump_urr : Option UrrStats → ℕ → Bool → UrrStats
bump_urr (some s) pkt_len uplink =
    if uplink
    then record s { ul_packets = add_u64 s.ul_packets 1; ul_bytes = add_u64 s.ul_bytes pkt_len }
    else record s { dl_packets = add_u64 s.dl_packets 1; dl_bytes = add_u64 s.dl_bytes pkt_len }
bump_urr none pkt_len uplink =
    if uplink
    then record { ul_bytes = pkt_len; ul_packets = 1; dl_bytes = 0; dl_packets = 0 }
    else record { ul_bytes = 0; ul_packets = 0; dl_bytes = pkt_len; dl_packets = 1 }

-- A write through the pointer succeeds; whether the map takes a new key is `room`.
abbrev pub written : {V : Type 0} → (ℕ → Bool) → (ℕ → Option V) → ℕ → V → ℕ → Option V
written room map key value = elim (map key) [
  | some old ↦ update map key (some value)
  | none ↦ if room key then update map key (some value) else map
]

unfoldable pub urr_count : (ℕ → Bool) → Maps → ℕ → ℕ → ℕ → Bool → Maps
unfolding bump_urr
urr_count room m seid urr_id pkt_len uplink =
    let key = urr_key seid urr_id in
    if urr_id == 0
    then m
    else record m { urr_map = written room m.urr_map key (bump_urr (m.urr_map key) pkt_len uplink) }
