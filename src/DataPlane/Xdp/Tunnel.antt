-- ===== src/DataPlane/Xdp/Tunnel.antt =====
-- upf-edge-ebpf/src/main.rs: the GTP-U tunnel. What `try_n6_downlink` wraps around a packet is what
-- `try_n3_uplink` takes off.
use upf_edge.Prelude.{
  ℕ, zero, suc, ◌+◌, ◌-◌, ◌≤◌, ◌<◌, ◌≡◌, refl, sym, ◌∙◌, ap, some, [], ◌∷◌, ◌++◌, arith, Bool, true,
  false, ◌==◌, ◌||◌, length, take, drop, get_or, length-take, length-drop, le→ltb, if◌then◌else◌,
}
use upf_edge.Bytes.{Bytes}
use upf_edge.Common.{SessionInfo, gtp_udp_port}
use upf_edge.DataPlane.Gtpu.{gtpu_gpdu}
use upf_edge.DataPlane.Rules.{Maps, Flow}
use upf_edge.DataPlane.Xdp.{
  Kernel, Step, go, ◌>>=◌, ptr_at, raw_u16, raw_u32, raw_u8, be_u16, returned,
}
use upf_edge.DataPlane.Xdp.Uplink.{decapsulate, Inner, opt_len, load_ports, parse_uplink}
use upf_edge.DataPlane.Xdp.Downlink.{outer_headers, outer_ip, outer_udp, outer_gtpu, encapsulate}

-- The flow of an IP packet that starts at the first byte.
unfoldable pub ip_flow : Bytes → Flow
ip_flow p =
    let proto = raw_u8 (take 1 (drop 9 p)) in
    let ported = proto == 6 || proto == 17 in
    record {
      proto = proto;
      src_ip = raw_u32 (take 4 (drop 12 p));
      dst_ip = raw_u32 (take 4 (drop 16 p));
      src_port = if ported then raw_u16 (take 2 (drop 20 p)) else 0;
      dst_port = if ported then raw_u16 (take 2 (drop 22 p)) else 0;
    }

ptr_at-within :
    (p : Bytes) (offset size : ℕ)
    → offset + size ≤ length p
    → ptr_at p offset size ≡ some (take size (drop offset p))
unfolding ptr_at
ptr_at-within p offset size h = ground arith

drop-nil : (n : ℕ) → drop {A = ℕ} n [] ≡ []
drop-nil zero = refl
drop-nil (suc n) = refl

zero_add : (n : ℕ) → 0 + n ≡ n
zero_add n = omega arith

suc_add : (m n : ℕ) → suc m + n ≡ suc (m + n)
suc_add m n = omega arith

drop-drop : (m n : ℕ) (p : Bytes) → drop (m + n) p ≡ drop n (drop m p)
drop-drop zero n p = ap (λ k. drop k p) (zero_add n)
drop-drop (suc m) n [] = drop-nil (suc m + n) ∙ sym (drop-nil n)
drop-drop (suc m) n (b ∷ p) = ap (λ k. drop k (b ∷ p)) (suc_add m n) ∙ drop-drop m n p

abbrev Mac : Bytes → Type 0
Mac m =
    m ≡ get_or m 0 0 ∷ get_or m 1 0 ∷ get_or m 2 0 ∷ get_or m 3 0 ∷ get_or m 4 0 ∷ get_or m 5 0 ∷ []

mac : (m : Bytes) → length m ≡ 6 → Mac m
mac (a ∷ b ∷ c ∷ d ∷ e ∷ f ∷ []) h = refl
mac m h = ground arith

ports-go :
    (ported : Bool) (x y : ℕ) (k : ℕ × ℕ → Step Inner)
    → ((if ported then go (x, y) else go (0, 0)) >>= k)
      ≡ k ((if ported then x else 0), (if ported then y else 0))
ports-go true x y k = refl
ports-go false x y k = refl

-- A packet that is long enough, with the constants of a G-PDU in place.
parse_fields :
    (p : Bytes)
    → 82 ≤ length p
    → be_u16 (take 2 (drop 12 p)) ≡ 0x0800
    → raw_u8 (take 1 (drop 23 p)) ≡ 17
    → be_u16 (take 2 (drop 36 p)) ≡ gtp_udp_port
    → raw_u8 (take 8 (drop 42 p)) ≡ 0x34
    → get_or (take 8 (drop 42 p)) 1 0 ≡ gtpu_gpdu
    → parse_uplink p ≡ go (record { outer_total = 58; flow = ip_flow (drop 58 p) })
unfolding parse_uplink ip_flow load_ports opt_len
parse_fields p h h1 h2 h3 h4 h5 =
    rw
      (
        ptr_at-within p 12 2 (omega arith),
        h1,
        ptr_at-within p 23 1 (omega arith),
        h2,
        ptr_at-within p 36 2 (omega arith),
        h3,
        ptr_at-within p 42 8 (omega arith),
        h4,
        h5,
        ptr_at-within p 70 4 (omega arith),
        ptr_at-within p 67 1 (omega arith),
        ptr_at-within p 74 4 (omega arith),
        ptr_at-within p 78 2 (omega arith),
        ptr_at-within p 80 2 (omega arith),
        drop-drop 58 12 p,
        drop-drop 58 9 p,
        drop-drop 58 16 p,
        drop-drop 58 20 p,
        drop-drop 58 22 p,
      )
      (search ports-go)

with_headers :
    (a b c d e f a' b' c' d' e' f' saddr daddr teid inner_len : ℕ) (inner : Bytes)
    → 24 ≤ length inner
    → parse_uplink (
        outer_headers
          (a ∷ b ∷ c ∷ d ∷ e ∷ f ∷ [])
          (a' ∷ b' ∷ c' ∷ d' ∷ e' ∷ f' ∷ [])
          saddr
          daddr
          teid
          inner_len
        ++ inner)
      ≡ go (record { outer_total = 58; flow = ip_flow inner })
unfolding outer_headers outer_ip outer_udp outer_gtpu
with_headers a b c d e f a' b' c' d' e' f' saddr daddr teid inner_len inner h =
    parse_fields _ (omega arith) refl refl refl refl refl

-- `bpf_xdp_adjust_head` where there is room: it moves the start of the packet, and what the new bytes
-- in front hold is left open.
pub record HasRoom (k : Kernel) : Type 0 where
  pub grown : (p : Bytes) (n : ℕ) → (g : Bytes) × (k.grow p n ≡ some g) × (drop n g ≡ p)
  pub shrunk : (p : Bytes) (n : ℕ) → n ≤ length p → k.shrink p n ≡ some (drop n p)

length-grown : (g p : Bytes) (n : ℕ) → 0 < length p → drop n g ≡ p → length g ≡ n + length p
length-grown g p n h e = omega (arith, length-drop n g, ap length e)

parse_outer :
    (gnb_mac eth_src : Bytes) (saddr daddr teid inner_len : ℕ) (inner : Bytes)
    → length gnb_mac ≡ 6
    → length eth_src ≡ 6
    → 24 ≤ length inner
    → parse_uplink (outer_headers gnb_mac eth_src saddr daddr teid inner_len ++ inner)
      ≡ go (record { outer_total = 58; flow = ip_flow inner })
parse_outer gnb_mac eth_src saddr daddr teid inner_len inner hm hs h =
    rw (mac gnb_mac hm, mac eth_src hs) (search with_headers)

strip_outer :
    (gnb_mac eth_src : Bytes) (saddr daddr teid inner_len : ℕ) (inner : Bytes)
    → length gnb_mac ≡ 6
    → length eth_src ≡ 6
    → (drop 58 (outer_headers gnb_mac eth_src saddr daddr teid inner_len ++ inner) ≡ inner)
      × (take 6 (drop 6 (outer_headers gnb_mac eth_src saddr daddr teid inner_len ++ inner))
          ≡ eth_src)
unfolding outer_headers outer_ip outer_udp outer_gtpu
strip_outer gnb_mac eth_src saddr daddr teid inner_len inner hm hs =
    rw (mac gnb_mac hm, mac eth_src hs) (refl, refl)

-- The bytes that the downlink program makes of a packet.
abbrev tunnelled : SessionInfo → ℕ × ℕ → Bytes → Bytes → Bytes
tunnelled session address gnb_mac packet =
    outer_headers gnb_mac (take 6 packet) session.upf_ip address.0 address.1
      (be_u16 (take 2 (drop 16 packet)))
    ++ drop 14 packet

encapsulate-tunnelled :
    (k : Kernel) (m : Maps) (session : SessionInfo) (address : ℕ × ℕ) (packet gnb_mac : Bytes)
    (n3_ifindex : ℕ)
    → HasRoom k
    → 38 ≤ length packet
    → m.gw_mac 1 ≡ some gnb_mac
    → m.if_index 0 ≡ some n3_ifindex
    → encapsulate k m session address packet
      ≡ (returned (k.redirect n3_ifindex), tunnelled session address gnb_mac packet)
unfolding encapsulate
encapsulate-tunnelled k m session address packet gnb_mac n3_ifindex room h hm hi =
    let (g, e, d) = room.grown packet 44 in
    rw
      (
        ptr_at-within packet 16 2 (omega arith),
        ptr_at-within packet 0 6 (omega arith),
        e,
        le→ltb (length g) 58 (omega (arith, length-grown g packet 44 (omega arith) d)),
        hm,
        hi,
        drop-drop 44 14 g,
        d,
      )
      refl

decapsulate-framed :
    (k : Kernel) (m : Maps) (outer_total : ℕ) (packet br_mac : Bytes) (n6_ifindex : ℕ)
    → HasRoom k
    → 12 ≤ length packet
    → outer_total < length packet
    → m.gw_mac 0 ≡ some br_mac
    → m.if_index 1 ≡ some n6_ifindex
    → decapsulate k m outer_total packet ≡ (
      returned (k.redirect n6_ifindex),
      br_mac ++ (take 6 (drop 6 packet) ++ (0x08 ∷ 0x00 ∷ drop outer_total packet)),
    )
unfolding decapsulate
decapsulate-framed k m outer_total packet br_mac n6_ifindex room h hl hm hi =
    let (g, e, d) = room.grown (drop outer_total packet) 14 in
    rw
      (
        ptr_at-within packet 6 6 (omega arith),
        room.shrunk packet outer_total (omega arith),
        e,
        le→ltb (length g) 14 (
            omega (
              arith,
              length-grown g (drop outer_total packet) 14
                  (omega (arith, length-drop outer_total packet)) d,
            )),
        hm,
        hi,
        d,
      )
      refl

-- The tunnel gives back what it is given: for a packet with IP and port headers, a kernel with room and
-- the MAC addresses and interfaces in the maps, the downlink program emits a packet in which the
-- uplink program reads a G-PDU of 58 outer bytes with the flow of the IP packet, and from which it
-- takes that IP packet, every byte of it, behind an Ethernet header with the source address that the
-- first packet had as its destination.
pub tunnel_round_trip :
    (k : Kernel) (m : Maps) (session : SessionInfo) (address : ℕ × ℕ)
    (packet gnb_mac br_mac : Bytes) (n3_ifindex n6_ifindex : ℕ)
    → HasRoom k
    → 38 ≤ length packet
    → m.gw_mac 1 ≡ some gnb_mac
    → length gnb_mac ≡ 6
    → m.gw_mac 0 ≡ some br_mac
    → m.if_index 0 ≡ some n3_ifindex
    → m.if_index 1 ≡ some n6_ifindex
    → (out : Bytes) × (encapsulate k m session address packet
        ≡ (returned (k.redirect n3_ifindex), out))
      × (parse_uplink out ≡ go (record { outer_total = 58; flow = ip_flow (drop 14 packet) }))
      × (decapsulate k m 58 out ≡ (
        returned (k.redirect n6_ifindex),
        br_mac ++ (take 6 packet ++ (0x08 ∷ 0x00 ∷ drop 14 packet)),
      ))
tunnel_round_trip k m session address packet gnb_mac br_mac n3_ifindex n6_ifindex room h hm hl hb hi
      ho =
    let out = tunnelled session address gnb_mac packet in
    let src : length (take 6 packet) ≡ 6 = omega (arith, length-take 6 packet) in
    let inner : 24 ≤ length (drop 14 packet) = omega (arith, length-drop 14 packet) in
    let (rest, back) =
      strip_outer gnb_mac (take 6 packet) session.upf_ip address.0 address.1
        (be_u16 (take 2 (drop 16 packet))) (drop 14 packet) hl src in
    let long : 24 ≤ length out - 58 = omega (arith, ap length rest, length-drop 58 out) in
    (
      out,
      encapsulate-tunnelled k m session address packet gnb_mac n3_ifindex room h hm hi,
      parse_outer gnb_mac (take 6 packet) session.upf_ip address.0 address.1 _ (drop 14 packet) hl
          src inner,
      decapsulate-framed k m 58 out br_mac n6_ifindex room (omega arith) (omega arith) hb ho
          ∙ rw (back, rest) refl,
    )
