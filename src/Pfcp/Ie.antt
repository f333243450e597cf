-- ===== src/Pfcp/Ie.antt =====
-- pfcp-common/src/ie.rs: the parsed rules and the parsers of single IEs. An `Ipv4Addr` is the
-- number `u32::from(addr)`, so `Ipv4Addr::new(v[i], .., v[i + 3])` is the big-endian field at `i`.
pub mod Grouped
pub mod Total
use upf_edge.Prelude.{
  ℕ, ◌+◌, ◌%◌, ◌^◌, bit_and, Bool, not, Option, none, some, List, [], ◌∷◌, ok, err, ◌>>=◌, ◌>>◌,
  fail_if, at, if◌then◌else◌, ltb, leb, ◌==◌, length,
}
use upf_edge.Bytes.{Bytes, u16_at, u32_at, u64_at}
use upf_edge.Pfcp.Header.{
  Result, buffer_too_short, ie_parse_error, too_short, empty, no_ipv4_address, no_ipv4,
  unsupported_type,
}
use upf_edge.Pfcp.Types.{
  pfcp_ie_node_id, pfcp_ie_recovery_time_stamp, pfcp_ie_fseid, pfcp_ie_fteid, pfcp_ie_ue_ip_address,
  pfcp_ie_outer_header_creation, pfcp_ie_apply_action, pfcp_ie_sdf_filter, volume_threshold_tovol,
}

pub record SdfFilter : Type 0 where
  pub proto : ℕ
  pub src_ip : ℕ
  pub dst_ip : ℕ
  pub src_port : ℕ
  pub dst_port : ℕ

pub record OuterHeaderCreation : Type 0 where
  pub teid : ℕ
  pub peer_addr : ℕ
  pub port : ℕ

pub record ParsedPdr : Type 0 where
  pub pdr_id : ℕ
  pub precedence : ℕ
  pub source_interface : ℕ
  pub local_fteid : Option (ℕ × ℕ)
  pub ue_ip : Option ℕ
  pub far_id : Option ℕ
  pub urr_id : Option ℕ
  pub outer_header_removal : Bool
  pub sdf_filter : Option SdfFilter

pub record ParsedFar : Type 0 where
  pub far_id : ℕ
  pub apply_action : ℕ
  pub dest_interface : Option ℕ
  pub outer_header_creation : Option OuterHeaderCreation

pub record ParsedUrr : Type 0 where
  pub urr_id : ℕ
  pub measurement_method : ℕ
  pub reporting_triggers : ℕ
  pub volume_threshold_total : Option ℕ
  pub measurement_period : Option ℕ

-- `Ipv4Addr::UNSPECIFIED`
abbrev pub unspecified : ℕ
unspecified = 0

unfoldable pub parse_node_id : Bytes → Result ℕ
unfolding at u32_at
parse_node_id value = do
  fail_if (ltb (length value) 5) (ie_parse_error pfcp_ie_node_id too_short)
  first ← at value 0
  let node_type = bit_and first 0x0F
  fail_if (not (node_type == 0)) (ie_parse_error pfcp_ie_node_id (unsupported_type node_type))
  u32_at value 1

unfoldable pub parse_recovery_timestamp : Bytes → Result ℕ
unfolding u32_at
parse_recovery_timestamp value = do
  fail_if (ltb (length value) 4) (ie_parse_error pfcp_ie_recovery_time_stamp too_short)
  u32_at value 0

unfoldable pub parse_fseid : Bytes → Result (ℕ × ℕ)
unfolding u32_at u64_at
parse_fseid value = do
  fail_if (ltb (length value) 13) (ie_parse_error pfcp_ie_fseid too_short)
  seid ← u64_at value 1
  addr ← u32_at value 9
  ok (seid, addr)

unfoldable pub parse_fteid : Bytes → Result (ℕ × ℕ)
unfolding at u32_at
parse_fteid value = do
  fail_if (ltb (length value) 5) (ie_parse_error pfcp_ie_fteid too_short)
  flags ← at value 0
  teid ← u32_at value 1
  let ch = not (bit_and flags 0x04 == 0)
  let with_addr = do addr ← u32_at value 5; ok (teid, addr)
  if ch
      then ok (0, unspecified)
      else if leb 9 (length value)
      then with_addr
      else err (ie_parse_error pfcp_ie_fteid no_ipv4_address)

unfoldable pub parse_ue_ip_address : Bytes → Result ℕ
unfolding at u32_at
parse_ue_ip_address value = do
  fail_if (ltb (length value) 5) (ie_parse_error pfcp_ie_ue_ip_address too_short)
  flags ← at value 0
  if not (bit_and flags 0x02 == 0)
      then u32_at value 1
      else err (ie_parse_error pfcp_ie_ue_ip_address no_ipv4)

unfoldable pub parse_outer_header_creation : Bytes → Result OuterHeaderCreation
unfolding u32_at
parse_outer_header_creation value = do
  fail_if (ltb (length value) 10) (ie_parse_error pfcp_ie_outer_header_creation too_short)
  teid ← u32_at value 2
  addr ← u32_at value 6
  ok (record { teid = teid; peer_addr = addr; port = 2152 })

unfoldable pub parse_apply_action : Bytes → Result ℕ
unfolding at
parse_apply_action value = do
  fail_if (length value == 0) (ie_parse_error pfcp_ie_apply_action empty)
  at value 0

unfoldable pub parse_sdf_filter : Bytes → Result SdfFilter
unfolding at u16_at u32_at
parse_sdf_filter value = do
  fail_if (ltb (length value) 13) (ie_parse_error pfcp_ie_sdf_filter too_short)
  proto ← at value 0
  src_ip ← u32_at value 1
  dst_ip ← u32_at value 5
  src_port ← u16_at value 9
  dst_port ← u16_at value 11
  ok (record {
    proto = proto;
    src_ip = src_ip;
    dst_ip = dst_ip;
    src_port = src_port;
    dst_port = dst_port;
  })

-- `off` is 1 throughout.
unfoldable pub parse_volume_threshold : Bytes → Result (Option ℕ)
unfolding at u64_at
parse_volume_threshold [] = ok none
parse_volume_threshold (flags ∷ value) =
    let total = (do
      fail_if (ltb (length (flags ∷ value)) (1 + 8))
          (buffer_too_short (1 + 8) (length (flags ∷ value)))
      v ← u64_at (flags ∷ value) 1
      ok (some v)) in
    if not (bit_and flags volume_threshold_tovol == 0) then total else ok none
