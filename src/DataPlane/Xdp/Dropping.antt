-- ===== src/DataPlane/Xdp/Dropping.antt =====
-- upf-edge-ebpf/src/main.rs: the programs send on only packets of known sessions that the rules do not
-- drop.
use upf_edge.Prelude.{
  ℕ, ◌≡◌, ◌⊎◌, refl, inl, inr, Bool-cases, ◌==◌, ==_iff, Option, none, some, ltb, bit_and, arith,
}
use upf_edge.Bytes.{Bytes}
use upf_edge.Common.{FarValue, SessionInfo, iface_access, iface_core, action_drop}
use upf_edge.DataPlane.Rules.{Maps, Flow, select_far, has_action}
use upf_edge.DataPlane.Xdp.{
  Verdict, xdp_pass, xdp_drop, Kernel, Run, Step, stop, go, judge, apply_rules,
}
use upf_edge.DataPlane.Xdp.Uplink.{Inner, parse_uplink, match_uplink, forward_uplink, try_n3_uplink}
use upf_edge.DataPlane.Xdp.Downlink.{
  parse_downlink, match_downlink, forward_downlink, try_n6_downlink,
}
use upf_edge.DataPlane.Xdp.Quiet.{Stays, Ends, parse_uplink-IsQuiet, parse_downlink-IsQuiet}

-- The FAR that the rules select, if there is one, does not have the DROP bit.
abbrev pub Permits : Option (FarValue × ℕ) → Type 0
Permits none = Unit {0}
Permits (some (far, urr_id)) = bit_and far.apply_action action_drop ≡ 0

-- A session without PDRs is not judged.
abbrev pub IsAllowed : Maps → SessionInfo → ℕ → Flow → Type 0
IsAllowed m session iface flow = (session.pdr_count ≡ 0) ⊎ Permits (select_far m session iface flow)

-- The maps and the packet are as they were, and the packet is not sent on.
abbrev pub IsLeft : Maps → Bytes → Run → Type 0
IsLeft m packet run = (run.maps ≡ m) × (run.packet ≡ packet) × Stays run.verdict

abbrev Stopped : {A : Type 0} → Step A → Type 0
Stopped m = (v : Verdict) × (m ≡ stop v) × Stays v

judge-cases :
    (o : Option (FarValue × ℕ))
    → Stopped (judge o) ⊎ (((urr_id : ℕ) × (judge o ≡ go urr_id)) × Permits o)
unfolding judge has_action
judge-cases none = inr ((0, refl), tt)
judge-cases (some (far, urr_id)) = elim (Bool-cases (bit_and far.apply_action action_drop == 0)) [
  | inl t ↦ inr ((urr_id, rw (t) refl), (==_iff (bit_and far.apply_action action_drop) 0).0 t)
  | inr f ↦ inl (xdp_drop, rw (f) refl, tt)
]

rules-cases :
    (m : Maps) (session : SessionInfo) (iface : ℕ) (flow : Flow)
    → Stopped (apply_rules m session iface flow)
      ⊎ (((urr_id : ℕ) × (apply_rules m session iface flow ≡ go urr_id))
          × IsAllowed m session iface flow)
unfolding apply_rules
rules-cases m session iface flow = elim (Bool-cases (ltb 0 session.pdr_count)) [
  | inl t ↦ elim (judge-cases (select_far m session iface flow)) [
    | inl (v, e, st) ↦ inl (v, rw (t) e, st)
    | inr ((urr_id, e), p) ↦ inr ((urr_id, rw (t) e), inr p)
  ]
  | inr f ↦ inr ((0, rw (f) refl), inl (ground (arith, f)))
]

-- What an uplink packet must be to be sent on.
abbrev pub UplinkAllowed : Maps → Bytes → Type 0
UplinkAllowed m packet =
    (inner : Inner) × (session : SessionInfo) × (parse_uplink packet ≡ go inner)
    × (m.session_map inner.flow.src_ip ≡ some session)
    × IsAllowed m session iface_access inner.flow

module _ (m : Maps) (packet : Bytes) where
  uplink-session :
      (inner : Inner) (o : Option SessionInfo)
      → parse_uplink packet ≡ go inner
      → m.session_map inner.flow.src_ip ≡ o
      → Stopped (match_uplink m packet) ⊎ UplinkAllowed m packet
  unfolding match_uplink
  uplink-session inner none e es = inl (xdp_pass, rw (e, es) refl, tt)
  uplink-session inner (some session) e es = elim (rules-cases m session iface_access inner.flow) [
    | inl (v, er, st) ↦ inl (v, rw (e, es, er) refl, st)
    | inr (r, allowed) ↦ inr (inner, session, e, es, allowed)
  ]

  uplink-parsed :
      (r : Step Inner)
      → parse_uplink packet ≡ r
      → Ends r
      → Stopped (match_uplink m packet) ⊎ UplinkAllowed m packet
  unfolding match_uplink
  uplink-parsed (stop v) e h = inl (v, rw (e) refl, h)
  uplink-parsed (go inner) e h = uplink-session inner (m.session_map inner.flow.src_ip) e refl

-- The uplink program leaves a packet and the maps as they are and does not send the packet on, unless
-- the packet is a G-PDU whose inner source address has a session, and this session has no PDR or the
-- FAR that its rules select, if any, does not have the DROP bit.
pub uplink_permitted :
    (k : Kernel) (m : Maps) (packet : Bytes)
    → IsLeft m packet (try_n3_uplink k m packet) ⊎ UplinkAllowed m packet
unfolding try_n3_uplink forward_uplink
uplink_permitted k m packet =
    elim (uplink-parsed m packet (parse_uplink packet) refl (parse_uplink-IsQuiet packet).ends) [
      | inl (v, e, st) ↦ inl (rw (e) (refl, refl, st))
      | inr allowed ↦ inr allowed
    ]

abbrev pub DownlinkAllowed : Maps → Bytes → Type 0
DownlinkAllowed m packet =
    (flow : Flow) × (session : SessionInfo) × (parse_downlink packet ≡ go flow)
    × (m.session_map flow.dst_ip ≡ some session)
    × IsAllowed m session iface_core flow

module _ (m : Maps) (packet : Bytes) where
  downlink-session :
      (flow : Flow) (o : Option SessionInfo)
      → parse_downlink packet ≡ go flow
      → m.session_map flow.dst_ip ≡ o
      → Stopped (match_downlink m packet) ⊎ DownlinkAllowed m packet
  unfolding match_downlink
  downlink-session flow none e es = inl (xdp_pass, rw (e, es) refl, tt)
  downlink-session flow (some session) e es = elim (rules-cases m session iface_core flow) [
    | inl (v, er, st) ↦ inl (v, rw (e, es, er) refl, st)
    | inr (r, allowed) ↦ inr (flow, session, e, es, allowed)
  ]

  downlink-parsed :
      (r : Step Flow)
      → parse_downlink packet ≡ r
      → Ends r
      → Stopped (match_downlink m packet) ⊎ DownlinkAllowed m packet
  unfolding match_downlink
  downlink-parsed (stop v) e h = inl (v, rw (e) refl, h)
  downlink-parsed (go flow) e h = downlink-session flow (m.session_map flow.dst_ip) e refl

-- The downlink program leaves a packet and the maps as they are and does not send the packet on, unless
-- the packet is an IPv4 packet whose destination address has a session, and this session has no PDR or
-- the FAR that its rules select, if any, does not have the DROP bit.
pub downlink_permitted :
    (k : Kernel) (m : Maps) (packet : Bytes)
    → IsLeft m packet (try_n6_downlink k m packet) ⊎ DownlinkAllowed m packet
unfolding try_n6_downlink forward_downlink
downlink_permitted k m packet =
    elim (downlink-parsed m packet (parse_downlink packet) refl
      (parse_downlink-IsQuiet packet).ends) [
        | inl (v, e, st) ↦ inl (rw (e) (refl, refl, st))
        | inr allowed ↦ inr allowed
      ]
