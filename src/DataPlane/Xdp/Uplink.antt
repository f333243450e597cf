-- ===== src/DataPlane/Xdp/Uplink.antt =====
-- upf-edge-ebpf/src/main.rs: `try_n3_uplink`, from the access network to the data network.
use upf_edge.Prelude.{
  ℕ, ◌+◌, bit_and, bit_or, false, not, ◌||◌, Option, none, some, ◌∷◌, ◌++◌, if◌then◌else◌, ltb,
  ◌==◌, length, drop, get_or,
}
use upf_edge.Bytes.{Bytes}
use upf_edge.Common.{SessionInfo, SessionStats, gtp_udp_port, iface_access}
use upf_edge.DataPlane.Gtpu.{
  gtpu_flag_s, gtpu_flag_pn, gtpu_flag_e, gtpu_gpdu, eth_hdr_len, ip_hdr_len, udp_hdr_len,
  gtpu_hdr_len, gtpu_opt_len, gtpu_ext_hdr_len,
}
use upf_edge.DataPlane.Rules.{Maps, Flow, urr_count, add_u64}
use upf_edge.DataPlane.Xdp.{
  Verdict, xdp_pass, returned, Kernel, Run, Step, stop, go, ◌>>=◌, ◌>>◌, or_pass, pass_unless,
  ptr_at, be_u16, raw_u16, raw_u32, raw_u8, load, apply_rules, with_stats, at_exit,
}

-- What the uplink program reads of a G-PDU: where the inner packet starts, and its flow.
pub record Inner : Type 0 where
  pub outer_total : ℕ
  pub flow : Flow

unfoldable pub opt_len : ℕ → ℕ
opt_len flags =
    if not (bit_and flags gtpu_flag_e == 0)
    then gtpu_ext_hdr_len
    else if not (bit_and flags (bit_or gtpu_flag_s gtpu_flag_pn) == 0)
    then gtpu_opt_len
    else 0

-- The ports of TCP and UDP, and zeros otherwise.
unfoldable pub load_ports : Bytes → ℕ → ℕ → Step (ℕ × ℕ)
unfolding ptr_at
load_ports packet proto offset =
    let ports = (do
      source ← load raw_u16 packet offset 2
      dest ← load raw_u16 packet (offset + 2) 2
      go (source, dest)) in
    if proto == 6 || proto == 17 then ports else go (0, 0)

-- Steps 1 to 6 of `try_n3_uplink`.
unfoldable pub parse_uplink : Bytes → Step Inner
unfolding ptr_at opt_len load_ports
parse_uplink packet = do
  eth_type ← load be_u16 packet 12 2
  pass_unless (eth_type == 0x0800)
  ip_proto ← load raw_u8 packet (eth_hdr_len + 9) 1
  pass_unless (ip_proto == 17)
  udp_dst ← load be_u16 packet (eth_hdr_len + ip_hdr_len + 2) 2
  pass_unless (udp_dst == gtp_udp_port)
  gtpu ← or_pass (ptr_at packet (eth_hdr_len + ip_hdr_len + udp_hdr_len) gtpu_hdr_len)
  pass_unless (get_or gtpu 1 0 == gtpu_gpdu)
  let outer_total =
      eth_hdr_len + ip_hdr_len + udp_hdr_len + gtpu_hdr_len + opt_len (get_or gtpu 0 0)
  ue_ip_be ← load raw_u32 packet (outer_total + 12) 4
  inner_proto ← load raw_u8 packet (outer_total + 9) 1
  inner_dst_ip_be ← load raw_u32 packet (outer_total + 16) 4
  ports ← load_ports packet inner_proto (outer_total + 20)
  go (record {
    outer_total = outer_total;
    flow = record {
      proto = inner_proto;
      src_ip = ue_ip_be;
      dst_ip = inner_dst_ip_be;
      src_port = ports.0;
      dst_port = ports.1;
    };
  })

pub record Matched : Type 0 where
  pub session : SessionInfo
  pub urr_id : ℕ
  pub inner : Inner

-- Steps 1 to 9, up to the counters.
unfoldable pub match_uplink : Maps → Bytes → Step Matched
unfolding parse_uplink apply_rules
match_uplink m packet = do
  inner ← parse_uplink packet
  session ← or_pass (m.session_map inner.flow.src_ip)
  urr_id ← apply_rules m session iface_access inner.flow
  go (record { session = session; urr_id = urr_id; inner = inner })

abbrev rx_stats : Option SessionStats → ℕ → SessionStats
rx_stats (some s) len = record s {
  rx_packets = add_u64 s.rx_packets 1;
  rx_bytes = add_u64 s.rx_bytes len;
}
rx_stats none len = record { rx_bytes = len; rx_packets = 1; tx_bytes = 0; tx_packets = 0 }

unfoldable pub count_uplink : Kernel → Maps → Matched → ℕ → Maps
unfolding urr_count
count_uplink k m matched len =
    let key = matched.inner.flow.src_ip in
    let m' = with_stats k m key (rx_stats (m.stats_map key) len) in
    urr_count k.urr_room m' matched.session.seid matched.urr_id len false

unfoldable pub decapsulate : Kernel → Maps → ℕ → Bytes → Verdict × Bytes
unfolding ptr_at
decapsulate k m outer_total packet = at_exit (ptr_at packet 6 6) packet λ eth_src.
    at_exit (k.shrink packet outer_total) packet λ inner.
      at_exit (k.grow inner eth_hdr_len) inner λ framed.
        if ltb (length framed) eth_hdr_len
        then (xdp_pass, framed)
        else at_exit (m.gw_mac 0) framed λ br_mac.
          let out = br_mac ++ (eth_src ++ (0x08 ∷ 0x00 ∷ drop eth_hdr_len framed)) in
          at_exit (m.if_index 1) out (λ n6_ifindex. (returned (k.redirect n6_ifindex), out))

unfoldable pub forward_uplink : Kernel → Maps → Bytes → Step Matched → Run
unfolding count_uplink decapsulate
forward_uplink k m packet (stop v) = record { verdict = v; maps = m; packet = packet }
forward_uplink k m packet (go matched) =
    let m' = count_uplink k m matched (length packet) in
    let out = decapsulate k m' matched.inner.outer_total packet in
    record { verdict = out.0; maps = m'; packet = out.1 }

unfoldable pub try_n3_uplink : Kernel → Maps → Bytes → Run
unfolding match_uplink forward_uplink
try_n3_uplink k m packet = forward_uplink k m packet (match_uplink m packet)
