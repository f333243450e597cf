-- ===== src/Pfcp/Builder.antt =====
-- pfcp-common/src/builder.rs: the message builder. A `MsgBuilder` is its buffer, which begins with
-- the header from `new` on.
pub mod RoundTrip
pub mod Rows
pub mod Urr
pub mod Far
pub mod Pdr
use upf_edge.Prelude.{
  ℕ, ◌+◌, ◌-◌, ◌%◌, ◌^◌, Bool, true, false, Option, none, some, List, [], ◌∷◌, ◌++◌, if◌then◌else◌,
  length, take, drop,
}
use upf_edge.Bytes.{Bytes, u16_be, u32_be, u64_be}
use upf_edge.Pfcp.Header.{PfcpHeader, encode}
use upf_edge.Pfcp.Ie.{SdfFilter, OuterHeaderCreation}
use upf_edge.Pfcp.Tlv.{tlv}
use upf_edge.Pfcp.Types.{
  pfcp_ie_node_id, pfcp_ie_cause, pfcp_ie_recovery_time_stamp, pfcp_ie_fseid,
  pfcp_ie_up_function_features, pfcp_ie_pdr_id, pfcp_ie_fteid, pfcp_ie_created_pdr,
  pfcp_ie_precedence, pfcp_ie_source_interface, pfcp_ie_ue_ip_address, pfcp_ie_sdf_filter,
  pfcp_ie_pdi, pfcp_ie_far_id, pfcp_ie_urr_id, pfcp_ie_outer_header_removal, pfcp_ie_create_pdr,
  pfcp_ie_measurement_method, pfcp_ie_reporting_triggers, pfcp_ie_volume_threshold,
  pfcp_ie_measurement_period, pfcp_ie_update_urr, pfcp_ie_create_urr, pfcp_ie_apply_action,
  pfcp_ie_destination_interface, pfcp_ie_outer_header_creation, pfcp_ie_forwarding_parameters,
  pfcp_ie_create_far, pfcp_ie_update_forwarding_parameters, pfcp_ie_update_far,
  volume_threshold_tovol,
}

pub record PdrParams : Type 0 where
  pub pdr_id : ℕ
  pub precedence : ℕ
  pub source_interface : ℕ
  pub fteid_choose : Bool
  pub ue_ip : Option ℕ
  pub far_id : ℕ
  pub urr_id : Option ℕ
  pub outer_header_removal : Bool
  pub sdf_filter : Option SdfFilter

pub record FarParams : Type 0 where
  pub far_id : ℕ
  pub apply_action : ℕ
  pub dest_interface : ℕ
  pub outer_header_creation : Option OuterHeaderCreation

pub record UrrParams : Type 0 where
  pub urr_id : ℕ
  pub measurement_method : ℕ
  pub reporting_triggers : ℕ
  pub volume_threshold_total : Option ℕ
  pub measurement_period : Option ℕ

abbrev pub MsgBuilder : Type 0
MsgBuilder = Bytes

unfoldable pub new : PfcpHeader → MsgBuilder
new header = encode header

-- `buf[2..4]` takes the length of what follows it, as a `u16`.
unfoldable pub finish : MsgBuilder → Bytes
finish buf = take 2 buf ++ (u16_be ((length buf - 4) % 2 ^ 16) ++ drop 4 buf)

unfoldable pub append_ie : Bytes → ℕ → Bytes → Bytes
append_ie buf ie_type value = buf ++ tlv ie_type value

-- `if let Some(x) = x { append_ie(..) }`, on the value that `x` gives.
unfoldable pub append_some : {A : Type 0} → Bytes → ℕ → (A → Bytes) → Option A → Bytes
unfolding append_ie
append_some buf ie_type value none = buf
append_some buf ie_type value (some x) = append_ie buf ie_type (value x)

-- `if flag { append_ie(..) }`
unfoldable pub append_if : Bytes → ℕ → Bytes → Bool → Bytes
unfolding append_ie
append_if buf ie_type value on = if on then append_ie buf ie_type value else buf

unfoldable pub add_ie : MsgBuilder → ℕ → Bytes → MsgBuilder
unfolding append_ie
add_ie buf ie_type value = append_ie buf ie_type value

unfoldable pub add_node_id_v4 : MsgBuilder → ℕ → MsgBuilder
unfolding add_ie
add_node_id_v4 msg addr = add_ie msg pfcp_ie_node_id (0x00 ∷ u32_be addr)

unfoldable pub add_cause : MsgBuilder → ℕ → MsgBuilder
unfolding add_ie
add_cause msg cause = add_ie msg pfcp_ie_cause (cause ∷ [])

unfoldable pub add_recovery_timestamp : MsgBuilder → ℕ → MsgBuilder
unfolding add_ie
add_recovery_timestamp msg ntp_ts = add_ie msg pfcp_ie_recovery_time_stamp (u32_be ntp_ts)

unfoldable pub add_fseid : MsgBuilder → ℕ → ℕ → MsgBuilder
unfolding add_ie
add_fseid msg seid addr = add_ie msg pfcp_ie_fseid (0x02 ∷ (u64_be seid ++ u32_be addr))

unfoldable pub add_up_function_features : MsgBuilder → MsgBuilder
unfolding add_ie
add_up_function_features msg = add_ie msg pfcp_ie_up_function_features (0x04 ∷ 0x00 ∷ [])

-- The local `inner` of `add_created_pdr`.
unfoldable pub created_pdr_value : ℕ → ℕ → ℕ → Bytes
unfolding append_ie
created_pdr_value pdr_id teid addr =
    let inner = append_ie [] pfcp_ie_pdr_id (u16_be pdr_id) in
    append_ie inner pfcp_ie_fteid (0x02 ∷ (u32_be teid ++ u32_be addr))

unfoldable pub add_created_pdr : MsgBuilder → ℕ → ℕ → ℕ → MsgBuilder
unfolding add_ie created_pdr_value
add_created_pdr msg pdr_id teid addr =
    add_ie msg pfcp_ie_created_pdr (created_pdr_value pdr_id teid addr)

abbrev pub sdf_bytes : SdfFilter → Bytes
sdf_bytes sdf =
    sdf.proto
    ∷ (u32_be sdf.src_ip ++ (u32_be sdf.dst_ip ++ (u16_be sdf.src_port ++ u16_be sdf.dst_port)))

-- The local `pdi` of `add_create_pdr`.
unfoldable pub pdi_value : PdrParams → Bytes
unfolding append_ie append_some append_if
pdi_value p =
    let pdi = append_ie [] pfcp_ie_source_interface (p.source_interface ∷ []) in
    let pdi = append_if pdi pfcp_ie_fteid (0x04 ∷ 0x00 ∷ 0x00 ∷ 0x00 ∷ 0x00 ∷ []) p.fteid_choose in
    let pdi = append_some pdi pfcp_ie_ue_ip_address (λ ue_ip. 0x02 ∷ u32_be ue_ip) p.ue_ip in
    append_some pdi pfcp_ie_sdf_filter sdf_bytes p.sdf_filter

-- The local `inner` of `add_create_pdr`.
unfoldable pub create_pdr_value : PdrParams → Bytes
unfolding append_ie append_some append_if
create_pdr_value p =
    let inner = append_ie [] pfcp_ie_pdr_id (u16_be p.pdr_id) in
    let inner = append_ie inner pfcp_ie_precedence (u32_be p.precedence) in
    let inner = append_ie inner pfcp_ie_pdi (pdi_value p) in
    let inner = append_ie inner pfcp_ie_far_id (u32_be p.far_id) in
    let inner = append_some inner pfcp_ie_urr_id u32_be p.urr_id in
    append_if inner pfcp_ie_outer_header_removal (0x00 ∷ []) p.outer_header_removal

unfoldable pub add_create_pdr : MsgBuilder → PdrParams → MsgBuilder
unfolding add_ie
add_create_pdr msg p = add_ie msg pfcp_ie_create_pdr (create_pdr_value p)

-- The local `inner` of `add_create_urr` and of `add_update_urr`.
unfoldable pub urr_value : UrrParams → Bytes
unfolding append_ie append_some
urr_value u =
    let inner = append_ie [] pfcp_ie_urr_id (u32_be u.urr_id) in
    let inner = append_ie inner pfcp_ie_measurement_method (u.measurement_method ∷ []) in
    let inner = append_ie inner pfcp_ie_reporting_triggers (u.reporting_triggers ∷ 0x00 ∷ []) in
    let inner =
      append_some inner pfcp_ie_volume_threshold (λ total. volume_threshold_tovol ∷ u64_be total)
        u.volume_threshold_total in
    append_some inner pfcp_ie_measurement_period u32_be u.measurement_period

unfoldable pub add_create_urr : MsgBuilder → UrrParams → MsgBuilder
unfolding add_ie
add_create_urr msg u = add_ie msg pfcp_ie_create_urr (urr_value u)

unfoldable pub add_update_urr : MsgBuilder → UrrParams → MsgBuilder
unfolding add_ie
add_update_urr msg u = add_ie msg pfcp_ie_update_urr (urr_value u)

abbrev pub creation_bytes : OuterHeaderCreation → Bytes
creation_bytes ohc = 0x01 ∷ 0x00 ∷ (u32_be ohc.teid ++ u32_be ohc.peer_addr)

-- The local `fwd` of `add_create_far` and of `add_update_far`.
unfoldable pub forwarding_value : FarParams → Bytes
unfolding append_ie append_some
forwarding_value f =
    let fwd = append_ie [] pfcp_ie_destination_interface (f.dest_interface ∷ []) in
    append_some fwd pfcp_ie_outer_header_creation creation_bytes f.outer_header_creation

-- Their local `inner`; `parameters` is the type of the nested IE.
unfoldable pub far_value : ℕ → FarParams → Bytes
unfolding append_ie
far_value parameters f =
    let inner = append_ie [] pfcp_ie_far_id (u32_be f.far_id) in
    let inner = append_ie inner pfcp_ie_apply_action (f.apply_action ∷ []) in
    append_ie inner parameters (forwarding_value f)

unfoldable pub add_create_far : MsgBuilder → FarParams → MsgBuilder
unfolding add_ie
add_create_far msg f = add_ie msg pfcp_ie_create_far (far_value pfcp_ie_forwarding_parameters f)

unfoldable pub add_update_far : MsgBuilder → FarParams → MsgBuilder
unfolding add_ie
add_update_far msg f =
    add_ie msg pfcp_ie_update_far (far_value pfcp_ie_update_forwarding_parameters f)
