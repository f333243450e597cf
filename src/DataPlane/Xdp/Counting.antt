-- ===== src/DataPlane/Xdp/Counting.antt =====
-- upf-edge-ebpf/src/main.rs: which usage counters the programs touch.
use upf_edge.Prelude.{
  ℕ, ◌≡◌, refl, Option, none, some, false, Bool, inl, inr, Bool-cases, length, arith, ◌==◌,
}
use upf_edge.Bytes.{Bytes}
use upf_edge.Common.{UrrStats, SessionInfo, urr_key}
use upf_edge.DataPlane.Rules.{Maps, urr_count, written, bump_urr}
use upf_edge.DataPlane.Xdp.{Kernel, go, stop, Step}
use upf_edge.DataPlane.Xdp.Uplink.{
  Matched, match_uplink, forward_uplink, count_uplink, try_n3_uplink,
}
use upf_edge.DataPlane.Xdp.Downlink.{
  match_downlink, forward_downlink, send_downlink, count_downlink, try_n6_downlink,
}

-- What a reader of the map makes of a missing entry.
abbrev pub ul_packets_of : Option UrrStats → ℕ
ul_packets_of none = 0
ul_packets_of (some s) = s.ul_packets

abbrev pub ul_bytes_of : Option UrrStats → ℕ
ul_bytes_of none = 0
ul_bytes_of (some s) = s.ul_bytes

unfoldable pub UplinkKept : Maps → Maps → ℕ → Type 0
UplinkKept m m' key =
    (ul_packets_of (m'.urr_map key) ≡ ul_packets_of (m.urr_map key))
    × (ul_bytes_of (m'.urr_map key) ≡ ul_bytes_of (m.urr_map key))

bump_urr-kept :
    (old : Option UrrStats) (len : ℕ)
    → (ul_packets_of (some (bump_urr old len false)) ≡ ul_packets_of old)
      × (ul_bytes_of (some (bump_urr old len false)) ≡ ul_bytes_of old)
unfolding bump_urr
bump_urr-kept none len = (refl, refl)
bump_urr-kept (some s) len = (refl, refl)

written-kept :
    {V : Type 0} (f : Option V → ℕ) (room : ℕ → Bool) (map : ℕ → Option V) (k : ℕ) (v : V) (key : ℕ)
    → f (some v) ≡ f (map k)
    → f (written room map k v key) ≡ f (map key)
written-kept f room map k v key h = ground arith

urr_count-kept :
    (room : ℕ → Bool) (m : Maps) (seid urr_id len key : ℕ)
    → UplinkKept m (urr_count room m seid urr_id len false) key
unfolding urr_count UplinkKept
urr_count-kept room m seid urr_id len key =
    let k = urr_key seid urr_id in
    let (packets, bytes) = bump_urr-kept (m.urr_map k) len in
    let p = written-kept ul_packets_of room m.urr_map k _ key packets in
    let b = written-kept ul_bytes_of room m.urr_map k _ key bytes in
    elim (Bool-cases (urr_id == 0)) [ inl e ↦ rw (e) (refl, refl) | inr e ↦ rw (e) (p, b) ]

forward_uplink-kept :
    (k : Kernel) (m : Maps) (packet : Bytes) (matched : Step Matched) (key : ℕ)
    → UplinkKept m (forward_uplink k m packet matched).maps key
unfolding forward_uplink count_uplink UplinkKept
forward_uplink-kept k m packet (stop v) key = (refl, refl)
forward_uplink-kept k m packet (go matched) key =
    urr_count-kept k.urr_room _ matched.session.seid matched.urr_id (length packet) key

send_downlink-kept :
    (k : Kernel) (m : Maps) (packet : Bytes) (session : SessionInfo) (address : Step (ℕ × ℕ))
    → (send_downlink k m packet session address).maps.urr_map ≡ m.urr_map
unfolding send_downlink
send_downlink-kept k m packet session (stop v) = refl
send_downlink-kept k m packet session (go a) = refl

forward_downlink-kept :
    (k : Kernel) (m : Maps) (packet : Bytes) (matched : Step (ℕ × SessionInfo × ℕ))
    → (forward_downlink k m packet matched).maps.urr_map ≡ m.urr_map
unfolding forward_downlink count_downlink
forward_downlink-kept k m packet (stop v) = refl
forward_downlink-kept k m packet (go (key, session, urr_id)) =
    send_downlink-kept k _ packet session _

-- Whatever the uplink program forwards, the uplink counters of every usage report rule stay as they
-- were, read as 0 where the map has no entry.
pub uplink_counts_no_uplink :
    (k : Kernel) (m : Maps) (packet : Bytes) (key : ℕ)
    → UplinkKept m (try_n3_uplink k m packet).maps key
unfolding try_n3_uplink
uplink_counts_no_uplink k m packet key = forward_uplink-kept k m packet (match_uplink m packet) key

-- The downlink program leaves the usage counters alone, whatever it forwards.
pub downlink_counts_no_usage :
    (k : Kernel) (m : Maps) (packet : Bytes) → (try_n6_downlink k m packet).maps.urr_map ≡ m.urr_map
unfolding try_n6_downlink
downlink_counts_no_usage k m packet = forward_downlink-kept k m packet (match_downlink m packet)
