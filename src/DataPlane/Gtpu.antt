-- ===== src/DataPlane/Gtpu.antt =====
-- upf-edge-ebpf/src/gtpu.rs: header sizes and the IP checksum. A header is its bytes in memory; on a
-- little-endian machine a field that is written as it stands has its low byte first.
pub mod Checksum
use upf_edge.Prelude.{ℕ, ◌+◌, ◌-◌, ◌/◌, ◌%◌, ◌^◌, List, [], ◌∷◌, ◌++◌, get_or}
use upf_edge.Bytes.{Bytes, of_u16_be}

abbrev pub gtpu_flag_s : ℕ
gtpu_flag_s = 0x02

abbrev pub gtpu_flag_pn : ℕ
gtpu_flag_pn = 0x01

abbrev pub gtpu_flag_e : ℕ
gtpu_flag_e = 0x04

abbrev pub gtpu_gpdu : ℕ
gtpu_gpdu = 0xFF

abbrev pub eth_hdr_len : ℕ
eth_hdr_len = 14

abbrev pub ip_hdr_len : ℕ
ip_hdr_len = 20

abbrev pub udp_hdr_len : ℕ
udp_hdr_len = 8

abbrev pub gtpu_hdr_len : ℕ
gtpu_hdr_len = 8

abbrev pub gtpu_opt_len : ℕ
gtpu_opt_len = 4

abbrev pub gtpu_ext_hdr_len : ℕ
gtpu_ext_hdr_len = 8

-- The bytes of a number in memory.
abbrev pub u16_le : ℕ → Bytes
u16_le n = n % 256 ∷ n / 2 ^ 8 % 256 ∷ []

abbrev pub u32_le : ℕ → Bytes
u32_le n = n % 256 ∷ n / 2 ^ 8 % 256 ∷ n / 2 ^ 16 % 256 ∷ n / 2 ^ 24 % 256 ∷ []

pub record IpHdr : Type 0 where
  pub version_ihl : ℕ
  pub tos : ℕ
  pub tot_len : ℕ
  pub id : ℕ
  pub frag_off : ℕ
  pub ttl : ℕ
  pub protocol : ℕ
  pub check : ℕ
  pub saddr : ℕ
  pub daddr : ℕ

-- The `repr(C)` layout.
abbrev pub ip_bytes : IpHdr → Bytes
ip_bytes h =
    h.version_ihl
    ∷ h.tos
    ∷ (u16_le h.tot_len
        ++ (u16_le h.id
            ++ (u16_le h.frag_off
                ++ (h.ttl ∷ h.protocol ∷ (u16_le h.check ++ (u32_le h.saddr ++ u32_le h.daddr))))))

-- `u16::from_be(*p.add(i))`
abbrev pub word : Bytes → ℕ → ℕ
word p i = of_u16_be (get_or p (i + i) 0) (get_or p (i + i + 1) 0)

abbrev pub sum_words : Bytes → ℕ
sum_words p =
    word p 0
    + word p 1
    + word p 2
    + word p 3
    + word p 4
    + word p 5
    + word p 6
    + word p 7
    + word p 8
    + word p 9

-- `sum = (sum & 0xFFFF) + (sum >> 16)`
abbrev pub carry : ℕ → ℕ
carry sum = sum % 2 ^ 16 + sum / 2 ^ 16

-- On the bytes of the header.
unfoldable pub checksum_bytes : Bytes → ℕ
checksum_bytes p = 0xFFFF - carry (carry (sum_words p)) % 2 ^ 16

unfoldable pub ip_checksum : IpHdr → ℕ
unfolding checksum_bytes
ip_checksum hdr = checksum_bytes (ip_bytes hdr)
