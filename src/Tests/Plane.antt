-- ===== src/Tests/Plane.antt =====
-- upf-edge-ebpf: the two programs on concrete packets.
use upf_edge.Prelude.{
  ℕ, zero, suc, ◌+◌, ◌≡◌, ◌⊎◌, ◌-◌, ◌↔◌, refl, true, none, some, [], ◌∷◌, ◌++◌, arith, drop, take,
  if◌then◌else◌, ◌==◌,
}
use upf_edge.Bytes.{Bytes}
use upf_edge.Common.{PdrValue, FarValue, SessionInfo, iface_access, iface_core, swap_u16}
use upf_edge.DataPlane.Gtpu.{IpHdr, ip_bytes, ip_checksum}
use upf_edge.DataPlane.Gtpu.Checksum.{
  IsIpHdr, IsIntact, ones_sum, word_sum, ip_checksum-complements, checksum_accepted,
}
use upf_edge.DataPlane.Rules.{Maps, Flow, slots, select_far}
use upf_edge.DataPlane.Rules.Select.{Picks, candidates, select_far-Picks}
use upf_edge.DataPlane.Xdp.{Kernel, returned, go}
use upf_edge.DataPlane.Xdp.Uplink.{parse_uplink, decapsulate, try_n3_uplink}
use upf_edge.DataPlane.Xdp.Downlink.{encapsulate, try_n6_downlink}
use upf_edge.DataPlane.Xdp.Tunnel.{HasRoom, ip_flow, tunnel_round_trip}
use upf_edge.DataPlane.Xdp.Dropping.{
  IsLeft, UplinkAllowed, DownlinkAllowed, uplink_permitted, downlink_permitted,
}
use upf_edge.DataPlane.Xdp.Counting.{UplinkKept, uplink_counts_no_uplink, downlink_counts_no_usage}

abbrev header : IpHdr
header = record {
  version_ihl = 0x45;
  tos = 0;
  tot_len = 0x3C00;
  id = 0;
  frag_off = 0;
  ttl = 64;
  protocol = 17;
  check = 0;
  saddr = 0x0100_A8C0;
  daddr = 0x0200_A8C0;
}

header-IsIpHdr : IsIpHdr header
header-IsIpHdr = omega arith

ip_checksum-complements_example :
    ip_checksum header ≡ 0xFFFF - ones_sum (word_sum (ip_bytes header))
ip_checksum-complements_example = ip_checksum-complements header header-IsIpHdr

checksum_accepted_example :
    IsIntact (ip_bytes (record header { check = 0x1234 }))
    ↔ (swap_u16 0x1234 ≡ ip_checksum (record header { check = 0 }))
checksum_accepted_example =
    checksum_accepted header 0x1234 header-IsIpHdr (omega arith) (omega arith)

-- A session with a PDR on each side whose FARs drop.
abbrev session : SessionInfo
session = record {
  seid = 1;
  teid = 0x1000;
  gnb_ip = 0x0300_A8C0;
  upf_ip = 0x0100_A8C0;
  pdr_ids = 1 ∷ 2 ∷ 0 ∷ 0 ∷ 0 ∷ 0 ∷ 0 ∷ 0 ∷ [];
  pdr_count = 2;
}

abbrev pdr_on : ℕ → ℕ → PdrValue
pdr_on iface far_id = record {
  precedence = 100;
  source_interface = iface;
  ue_ip = 0x0100_000A;
  qfi = 0;
  far_id = far_id;
  qer_id = 0;
  urr_id = 4;
  outer_header_removal = 0;
  sdf_proto = 0;
  sdf_src_ip = 0;
  sdf_dst_ip = 0;
  sdf_src_port = 0;
  sdf_dst_port = 0;
}

abbrev far_doing : ℕ → FarValue
far_doing action = record {
  apply_action = action;
  dst_interface = 0;
  gnb_ip = 0x0300_A8C0;
  teid = 0x1000;
  upf_n3_ip = 0x0100_A8C0;
}

abbrev maps_with : ℕ → Maps
maps_with action = record {
  session_map = λ ip. if ip == 0x0100_000A then some session else none;
  pdr_map = λ k.
      if k == 65537
      then some (pdr_on iface_access 1)
      else if k == 65538
      then some (pdr_on iface_core 2)
      else none;
  far_map = λ k. some (far_doing action);
  if_index = λ i. some (i + 3);
  gw_mac = λ i. some (2 ∷ 0 ∷ 0 ∷ 0 ∷ 0 ∷ i ∷ []);
  stats_map = λ k. none;
  urr_map = λ k. none;
}

abbrev zeros : ℕ → Bytes
zeros zero = []
zeros (suc n) = 0 ∷ zeros n

drop-zeros : (n : ℕ) (p : Bytes) → drop n (zeros n ++ p) ≡ p
drop-zeros zero p = refl
drop-zeros (suc n) p = drop-zeros n p

abbrev kernel : Kernel
kernel = record {
  shrink = λ p n. some (drop n p);
  grow = λ p n. some (zeros n ++ p);
  redirect = λ i. 4;
  stats_room = λ k. true;
  urr_room = λ k. true;
}

-- TCP, from 8.8.8.8:443 to 10.0.0.1:5000
abbrev inner_packet : Bytes
inner_packet =
    0x45 ∷ 0 ∷ 0 ∷ 24 ∷ 0 ∷ 0 ∷ 0 ∷ 0 ∷ 64 ∷ 6 ∷ 0 ∷ 0 ∷ 8 ∷ 8 ∷ 8 ∷ 8 ∷ 10 ∷ 0 ∷ 0 ∷ 1 ∷ 1 ∷ 187
    ∷ 19 ∷ 136 ∷ []

abbrev frame : Bytes
frame = 1 ∷ 2 ∷ 3 ∷ 4 ∷ 5 ∷ 6 ∷ 7 ∷ 8 ∷ 9 ∷ 10 ∷ 11 ∷ 12 ∷ 8 ∷ 0 ∷ inner_packet

kernel-HasRoom : HasRoom kernel
kernel-HasRoom = record {
  grown = λ p n. (zeros n ++ p, refl, drop-zeros n p);
  shrunk = λ p n h. refl;
}

tunnel_round_trip_example :
    (out : Bytes) × (encapsulate kernel (maps_with 2) session (0x0300_A8C0, 0x1000) frame
      ≡ (returned 4, out))
    × (parse_uplink out ≡ go (record { outer_total = 58; flow = ip_flow inner_packet }))
    × (decapsulate kernel (maps_with 2) 58 out ≡ (
      returned 4,
      (2 ∷ 0 ∷ 0 ∷ 0 ∷ 0 ∷ 0 ∷ []) ++ (take 6 frame ++ (0x08 ∷ 0x00 ∷ inner_packet)),
    ))
tunnel_round_trip_example =
    tunnel_round_trip kernel (maps_with 2) session (0x0300_A8C0, 0x1000) frame
      (2 ∷ 0 ∷ 0 ∷ 0 ∷ 0 ∷ 1 ∷ []) (2 ∷ 0 ∷ 0 ∷ 0 ∷ 0 ∷ 0 ∷ []) 3 4 kernel-HasRoom (omega arith)
      refl refl refl refl refl

abbrev frame_flow : Flow
frame_flow = record {
  proto = 6;
  src_ip = 0x0808_0808;
  dst_ip = 0x0100_000A;
  src_port = 0xBB01;
  dst_port = 0x8813;
}

select_far-Picks_example :
    Picks
      (candidates (maps_with 1) 1 iface_core frame_flow (slots session))
      (select_far (maps_with 1) session iface_core frame_flow)
select_far-Picks_example = select_far-Picks (maps_with 1) session iface_core frame_flow

downlink_permitted_example :
    IsLeft (maps_with 1) frame (try_n6_downlink kernel (maps_with 1) frame)
    ⊎ DownlinkAllowed (maps_with 1) frame
downlink_permitted_example = downlink_permitted kernel (maps_with 1) frame

-- A G-PDU without options around a packet of the UE.
abbrev gpdu : Bytes
gpdu =
    1 ∷ 2 ∷ 3 ∷ 4 ∷ 5 ∷ 6 ∷ 7 ∷ 8 ∷ 9 ∷ 10 ∷ 11 ∷ 12 ∷ 8 ∷ 0 ∷ 0x45 ∷ 0 ∷ 0 ∷ 60 ∷ 0 ∷ 0 ∷ 0 ∷ 0
    ∷ 64 ∷ 17 ∷ 0 ∷ 0 ∷ 192 ∷ 168 ∷ 0 ∷ 3 ∷ 192 ∷ 168 ∷ 0 ∷ 1 ∷ 8 ∷ 104 ∷ 8 ∷ 104 ∷ 0 ∷ 40 ∷ 0 ∷ 0
    ∷ 0x30 ∷ 0xFF ∷ 0 ∷ 24 ∷ 0 ∷ 0 ∷ 16 ∷ 0 ∷ 0x45 ∷ 0 ∷ 0 ∷ 24 ∷ 0 ∷ 0 ∷ 0 ∷ 0 ∷ 64 ∷ 6 ∷ 0 ∷ 0
    ∷ 10 ∷ 0 ∷ 0 ∷ 1 ∷ 8 ∷ 8 ∷ 8 ∷ 8 ∷ 19 ∷ 136 ∷ 1 ∷ 187 ∷ []

uplink_permitted_example :
    IsLeft (maps_with 1) gpdu (try_n3_uplink kernel (maps_with 1) gpdu)
    ⊎ UplinkAllowed (maps_with 1) gpdu
uplink_permitted_example = uplink_permitted kernel (maps_with 1) gpdu

uplink_counts_no_uplink_example :
    UplinkKept (maps_with 2) (try_n3_uplink kernel (maps_with 2) gpdu).maps 65540
uplink_counts_no_uplink_example = uplink_counts_no_uplink kernel (maps_with 2) gpdu 65540

downlink_counts_no_usage_example :
    (try_n6_downlink kernel (maps_with 2) frame).maps.urr_map ≡ (maps_with 2).urr_map
downlink_counts_no_usage_example = downlink_counts_no_usage kernel (maps_with 2) frame
