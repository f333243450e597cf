-- ===== src/Common.antt =====
-- upf-edge-common/src/lib.rs: the keys and values of the eBPF maps, which the control plane and the
-- data plane share. The byte orders are those of a little-endian machine, so `to_be` and `from_be`
-- reverse the bytes.
pub mod Keys
use upf_edge.Prelude.{ℕ, ◌*◌, ◌/◌, ◌%◌, ◌^◌, bit_and, bit_or, List}
use upf_edge.Bytes.{of_u16_be, of_u32_be}

abbrev pub iface_access : ℕ
iface_access = 0

abbrev pub iface_core : ℕ
iface_core = 1

abbrev pub action_drop : ℕ
action_drop = 0x01

abbrev pub action_forw : ℕ
action_forw = 0x02

abbrev pub gtp_udp_port : ℕ
gtp_udp_port = 2152

abbrev pub max_pdr_per_session : ℕ
max_pdr_per_session = 8

-- `u16::to_be` and `u32::to_be`
unfoldable pub swap_u16 : ℕ → ℕ
swap_u16 n = of_u16_be (n % 256) (n / 2 ^ 8 % 256)

unfoldable pub swap_u32 : ℕ → ℕ
swap_u32 n = of_u32_be (n % 256) (n / 2 ^ 8 % 256) (n / 2 ^ 16 % 256) (n / 2 ^ 24 % 256)

-- `PdrKey::new`, `FarKey::new` and `UrrKey::new` compose the same `u64`.
unfoldable pub pdr_key : ℕ → ℕ → ℕ
pdr_key seid pdr_id = bit_or (seid * 2 ^ 16 % 2 ^ 64) (bit_and pdr_id 0xFFFF)

unfoldable pub far_key : ℕ → ℕ → ℕ
far_key seid far_id = bit_or (seid * 2 ^ 16 % 2 ^ 64) (bit_and far_id 0xFFFF)

unfoldable pub urr_key : ℕ → ℕ → ℕ
urr_key seid urr_id = bit_or (seid * 2 ^ 16 % 2 ^ 64) (bit_and urr_id 0xFFFF)

pub record PdrValue : Type 0 where
  pub precedence : ℕ
  pub source_interface : ℕ
  pub ue_ip : ℕ
  pub qfi : ℕ
  pub far_id : ℕ
  pub qer_id : ℕ
  pub urr_id : ℕ
  pub outer_header_removal : ℕ
  pub sdf_proto : ℕ
  pub sdf_src_ip : ℕ
  pub sdf_dst_ip : ℕ
  pub sdf_src_port : ℕ
  pub sdf_dst_port : ℕ

-- `pdr_ids` is the array of eight; only the first `pdr_count` are in use.
pub record SessionInfo : Type 0 where
  pub seid : ℕ
  pub teid : ℕ
  pub gnb_ip : ℕ
  pub upf_ip : ℕ
  pub pdr_ids : List ℕ
  pub pdr_count : ℕ

pub record FarValue : Type 0 where
  pub apply_action : ℕ
  pub dst_interface : ℕ
  pub gnb_ip : ℕ
  pub teid : ℕ
  pub upf_n3_ip : ℕ

pub record UrrStats : Type 0 where
  pub ul_bytes : ℕ
  pub ul_packets : ℕ
  pub dl_bytes : ℕ
  pub dl_packets : ℕ

pub record SessionStats : Type 0 where
  pub rx_bytes : ℕ
  pub rx_packets : ℕ
  pub tx_bytes : ℕ
  pub tx_packets : ℕ
