-- ===== src/DataPlane/Xdp/Downlink.antt =====
-- upf-edge-ebpf/src/main.rs: `try_n6_downlink`, from the data network to the access network.
use upf_edge.Prelude.{
  ℕ, ◌+◌, ◌%◌, ◌^◌, Option, none, some, [], ◌∷◌, ◌++◌, if◌then◌else◌, ltb, ◌==◌, length, drop,
}
use upf_edge.Bytes.{Bytes, u16_be}
use upf_edge.Common.{
  FarValue, SessionInfo, SessionStats, gtp_udp_port, iface_core, action_drop, action_forw, swap_u16,
}
use upf_edge.DataPlane.Gtpu.{
  IpHdr, ip_bytes, ip_checksum, u32_le, gtpu_gpdu, eth_hdr_len, ip_hdr_len, udp_hdr_len,
  gtpu_hdr_len, gtpu_ext_hdr_len,
}
use upf_edge.DataPlane.Rules.{Maps, Flow, downlink_get_far, has_action, add_u64}
use upf_edge.DataPlane.Xdp.{
  Verdict, xdp_drop, xdp_pass, returned, Kernel, Run, Step, stop, go, ◌>>=◌, ◌>>◌, or_pass,
  pass_unless, ptr_at, be_u16, raw_u16, raw_u32, raw_u8, load, apply_rules, with_stats, at_exit,
}

abbrev tx_stats : Option SessionStats → ℕ → SessionStats
tx_stats (some s) len = record s {
  tx_packets = add_u64 s.tx_packets 1;
  tx_bytes = add_u64 s.tx_bytes len;
}
tx_stats none len = record { rx_bytes = 0; rx_packets = 0; tx_bytes = len; tx_packets = 1 }

-- Steps 1 and 2 of `try_n6_downlink`.
unfoldable pub parse_downlink : Bytes → Step Flow
unfolding ptr_at
parse_downlink packet = do
  eth_type ← load be_u16 packet 12 2
  pass_unless (eth_type == 0x0800)
  protocol ← load raw_u8 packet (eth_hdr_len + 9) 1
  src_ip_be ← load raw_u32 packet (eth_hdr_len + 12) 4
  dst_ip_be ← load raw_u32 packet (eth_hdr_len + 16) 4
  src_port_be ← load raw_u16 packet (eth_hdr_len + ip_hdr_len) 2
  dst_port_be ← load raw_u16 packet (eth_hdr_len + ip_hdr_len + 2) 2
  go (record {
    proto = protocol;
    src_ip = src_ip_be;
    dst_ip = dst_ip_be;
    src_port = src_port_be;
    dst_port = dst_port_be;
  })

-- `key`, `session` and `matched_urr_id`.
unfoldable pub match_downlink : Maps → Bytes → Step (ℕ × SessionInfo × ℕ)
unfolding parse_downlink apply_rules
match_downlink m packet = do
  flow ← parse_downlink packet
  session ← or_pass (m.session_map flow.dst_ip)
  urr_id ← apply_rules m session iface_core flow
  go (flow.dst_ip, session, urr_id)

unfoldable pub count_downlink : Kernel → Maps → ℕ → ℕ → Maps
count_downlink k m key len = with_stats k m key (tx_stats (m.stats_map key) len)

address_of : SessionInfo → Option FarValue → Step (ℕ × ℕ)
unfolding has_action
address_of session none = go (session.gnb_ip, session.teid)
address_of session (some far) =
    if has_action action_drop far
    then stop xdp_drop
    else if has_action action_forw far
    then go (far.gnb_ip, far.teid)
    else go (session.gnb_ip, session.teid)

-- `gnb_ip_be` and `teid_be`.
unfoldable pub outer_address : Maps → SessionInfo → Step (ℕ × ℕ)
unfolding address_of downlink_get_far
outer_address m session =
    if ltb 0 session.pdr_count
    then address_of session (downlink_get_far m session)
    else go (session.gnb_ip, session.teid)

-- `add_len`
abbrev pub outer_len : ℕ
outer_len = ip_hdr_len + udp_hdr_len + gtpu_hdr_len + gtpu_ext_hdr_len

unfoldable pub outer_ip : ℕ → ℕ → ℕ → Bytes
unfolding ip_checksum
outer_ip saddr daddr inner_ip_tot_len =
    let ip : IpHdr = record {
      version_ihl = 0x45;
      tos = 0;
      tot_len = swap_u16 ((outer_len + inner_ip_tot_len) % 2 ^ 16);
      id = 0;
      frag_off = 0;
      ttl = 64;
      protocol = 17;
      check = 0;
      saddr = saddr;
      daddr = daddr;
    } in
    ip_bytes (record ip { check = ip_checksum ip })

unfoldable pub outer_udp : ℕ → Bytes
outer_udp inner_ip_tot_len =
    u16_be gtp_udp_port
    ++ (u16_be gtp_udp_port
        ++ (u16_be ((udp_hdr_len + gtpu_hdr_len + gtpu_ext_hdr_len + inner_ip_tot_len) % 2 ^ 16)
            ++ (0 ∷ 0 ∷ [])))

-- `gtpu` and `ext_bytes`; the TEID goes out as it lies in memory.
unfoldable pub outer_gtpu : ℕ → ℕ → Bytes
outer_gtpu teid_be inner_ip_tot_len =
    0x34 ∷ gtpu_gpdu ∷ u16_be ((inner_ip_tot_len + gtpu_ext_hdr_len) % 2 ^ 16)
    ++ (u32_le teid_be ++ (0 ∷ 0 ∷ 0 ∷ 0x85 ∷ 0x01 ∷ 0 ∷ 0x01 ∷ 0 ∷ []))

-- Steps 8 to 11: the headers, written over the first 58 bytes of the grown packet.
unfoldable pub outer_headers : Bytes → Bytes → ℕ → ℕ → ℕ → ℕ → Bytes
outer_headers gnb_mac eth_src saddr daddr teid_be inner_ip_tot_len =
    gnb_mac
    ++ (eth_src
        ++ (0x08 ∷ 0x00 ∷ outer_ip saddr daddr inner_ip_tot_len
            ++ (outer_udp inner_ip_tot_len ++ outer_gtpu teid_be inner_ip_tot_len)))

unfoldable pub encapsulate : Kernel → Maps → SessionInfo → ℕ × ℕ → Bytes → Verdict × Bytes
unfolding ptr_at outer_headers
encapsulate k m session address packet =
    at_exit (ptr_at packet (eth_hdr_len + 2) 2) packet λ tot_len.
      at_exit (ptr_at packet 0 6) packet λ eth_src.
        at_exit (k.grow packet outer_len) packet λ grown.
          if ltb (length grown) (eth_hdr_len + outer_len)
          then (xdp_pass, grown)
          else at_exit (m.gw_mac 1) grown λ gnb_mac.
            let headers =
              outer_headers gnb_mac eth_src session.upf_ip address.0 address.1 (be_u16 tot_len) in
            let out = headers ++ drop (eth_hdr_len + outer_len) grown in
            at_exit (m.if_index 0) out (λ n3_ifindex. (returned (k.redirect n3_ifindex), out))

unfoldable pub send_downlink : Kernel → Maps → Bytes → SessionInfo → Step (ℕ × ℕ) → Run
unfolding encapsulate
send_downlink k m packet session (stop v) = record { verdict = v; maps = m; packet = packet }
send_downlink k m packet session (go address) =
    let out = encapsulate k m session address packet in
    record { verdict = out.0; maps = m; packet = out.1 }

unfoldable pub forward_downlink : Kernel → Maps → Bytes → Step (ℕ × SessionInfo × ℕ) → Run
unfolding send_downlink count_downlink outer_address
forward_downlink k m packet (stop v) = record { verdict = v; maps = m; packet = packet }
forward_downlink k m packet (go (key, session, urr_id)) =
    let m' = count_downlink k m key (length packet) in
    send_downlink k m' packet session (outer_address m' session)

unfoldable pub try_n6_downlink : Kernel → Maps → Bytes → Run
unfolding match_downlink forward_downlink
try_n6_downlink k m packet = forward_downlink k m packet (match_downlink m packet)
