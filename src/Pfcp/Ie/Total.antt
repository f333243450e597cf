-- ===== src/Pfcp/Ie/Total.antt =====
-- No byte string makes a parser of pfcp-common/src/ie.rs panic.
use upf_edge.Prelude.{ℕ, ◌≢◌, List, [], ◌∷◌, arith, panic, >>=-total, at-get_or}
use upf_edge.Bytes.{Bytes, u16_at_lem, u32_at_lem}
use upf_edge.Pfcp.Header.{Result, PfcpError}
use upf_edge.Pfcp.Tlv.{Ie, items, iter_ies}
use upf_edge.Pfcp.Ie.{
  ParsedPdr, ParsedFar, ParsedUrr, parse_node_id, parse_recovery_timestamp, parse_fseid,
  parse_fteid, parse_ue_ip_address, parse_outer_header_creation, parse_apply_action,
  parse_sdf_filter, parse_volume_threshold,
}
use upf_edge.Pfcp.Ie.Grouped.{
  for_each, pdi_arm, parse_pdi, pdr_arm, parse_create_pdr, urr_arm, parse_create_urr,
  forwarding_arm, parse_forwarding_params, far_arm, parse_create_far, parse_update_far,
}

pub parse_node_id-total : (v : Bytes) → parse_node_id v ≢ panic
unfolding parse_node_id
parse_node_id-total (a ∷ b ∷ c ∷ d ∷ e ∷ v) = ground arith
parse_node_id-total v = ground arith

pub parse_recovery_timestamp-total : (v : Bytes) → parse_recovery_timestamp v ≢ panic
unfolding parse_recovery_timestamp
parse_recovery_timestamp-total (a ∷ b ∷ c ∷ d ∷ v) = ground arith
parse_recovery_timestamp-total v = ground arith

pub parse_fseid-total : (v : Bytes) → parse_fseid v ≢ panic
unfolding parse_fseid
parse_fseid-total (a ∷ b ∷ c ∷ d ∷ e ∷ f ∷ g ∷ h ∷ i ∷ j ∷ k ∷ l ∷ m ∷ v) = ground arith
parse_fseid-total v = ground arith

pub parse_fteid-total : (v : Bytes) → parse_fteid v ≢ panic
unfolding parse_fteid
parse_fteid-total (a ∷ b ∷ c ∷ d ∷ e ∷ f ∷ g ∷ h ∷ i ∷ v) = ground arith
parse_fteid-total v = ground arith

pub parse_ue_ip_address-total : (v : Bytes) → parse_ue_ip_address v ≢ panic
unfolding parse_ue_ip_address
parse_ue_ip_address-total (a ∷ b ∷ c ∷ d ∷ e ∷ v) = ground arith
parse_ue_ip_address-total v = ground arith

pub parse_outer_header_creation-total : (v : Bytes) → parse_outer_header_creation v ≢ panic
unfolding parse_outer_header_creation
parse_outer_header_creation-total (a ∷ b ∷ c ∷ d ∷ e ∷ f ∷ g ∷ h ∷ i ∷ j ∷ v) = ground arith
parse_outer_header_creation-total v = ground arith

pub parse_apply_action-total : (v : Bytes) → parse_apply_action v ≢ panic
unfolding parse_apply_action
parse_apply_action-total [] = ground arith
parse_apply_action-total (a ∷ v) = ground arith

pub parse_sdf_filter-total : (v : Bytes) → parse_sdf_filter v ≢ panic
unfolding parse_sdf_filter
parse_sdf_filter-total (a ∷ b ∷ c ∷ d ∷ e ∷ f ∷ g ∷ h ∷ i ∷ j ∷ k ∷ l ∷ m ∷ v) = ground arith
parse_sdf_filter-total v = ground arith

pub parse_volume_threshold-total : (v : Bytes) → parse_volume_threshold v ≢ panic
unfolding parse_volume_threshold
parse_volume_threshold-total (a ∷ b ∷ c ∷ d ∷ e ∷ f ∷ g ∷ h ∷ i ∷ v) = ground arith
parse_volume_threshold-total v = ground arith

for_each-total :
    {S : Type 0} (arm : Ie → S → Result S)
    → ((ie : Ie) (s : S) → arm ie s ≢ panic)
    → (ies : List Ie) (s : S) → for_each arm ies s ≢ panic
unfolding for_each
for_each-total arm h [] s = λ e. cc
for_each-total arm h (ie ∷ ies) s = >>=-total (arm ie s) _ (h ie s) (for_each-total arm h ies)

pdi_arm-total : (ie : Ie) (pdr : ParsedPdr) → pdi_arm ie pdr ≢ panic
unfolding pdi_arm
pdi_arm-total ie pdr = ground (
  arith,
  at-get_or {E = PfcpError} ie.value 0,
  parse_fteid-total ie.value,
  parse_ue_ip_address-total ie.value,
  parse_sdf_filter-total ie.value,
)

parse_pdi-total : (v : Bytes) (pdr : ParsedPdr) → parse_pdi v pdr ≢ panic
unfolding parse_pdi
parse_pdi-total v = for_each-total pdi_arm pdi_arm-total (items (iter_ies v))

pdr_arm-total : (ie : Ie) (pdr : ParsedPdr) → pdr_arm ie pdr ≢ panic
unfolding pdr_arm
pdr_arm-total ie pdr = ground (
  arith,
  u16_at_lem {E = PfcpError} ie.value 0,
  u32_at_lem {E = PfcpError} ie.value 0,
  parse_pdi-total ie.value pdr,
  parse_sdf_filter-total ie.value,
)

-- Create PDR, at any nesting of its PDI and with any truncated field: a rule or an error.
pub parse_create_pdr-total : (v : Bytes) → parse_create_pdr v ≢ panic
unfolding parse_create_pdr
parse_create_pdr-total v = for_each-total pdr_arm pdr_arm-total (items (iter_ies v)) _

urr_arm-total : (ie : Ie) (urr : ParsedUrr) → urr_arm ie urr ≢ panic
unfolding urr_arm
urr_arm-total ie urr = ground (
  arith,
  at-get_or {E = PfcpError} ie.value 0,
  u32_at_lem {E = PfcpError} ie.value 0,
  parse_volume_threshold-total ie.value,
)

pub parse_create_urr-total : (v : Bytes) → parse_create_urr v ≢ panic
unfolding parse_create_urr
parse_create_urr-total v = for_each-total urr_arm urr_arm-total (items (iter_ies v)) _

forwarding_arm-total : (ie : Ie) (far : ParsedFar) → forwarding_arm ie far ≢ panic
unfolding forwarding_arm
forwarding_arm-total ie far =
    ground (arith, at-get_or {E = PfcpError} ie.value 0, parse_outer_header_creation-total ie.value)

parse_forwarding_params-total :
    (v : Bytes) (far : ParsedFar) → parse_forwarding_params v far ≢ panic
unfolding parse_forwarding_params
parse_forwarding_params-total v =
    for_each-total forwarding_arm forwarding_arm-total (items (iter_ies v))

far_arm-total : (parameters : ℕ) (ie : Ie) (far : ParsedFar) → far_arm parameters ie far ≢ panic
unfolding far_arm
far_arm-total parameters ie far = ground (
  arith,
  u32_at_lem {E = PfcpError} ie.value 0,
  parse_apply_action-total ie.value,
  parse_forwarding_params-total ie.value far,
)

pub parse_create_far-total : (v : Bytes) → parse_create_far v ≢ panic
unfolding parse_create_far
parse_create_far-total v = for_each-total (far_arm _) (far_arm-total _) (items (iter_ies v)) _

pub parse_update_far-total : (v : Bytes) → parse_update_far v ≢ panic
unfolding parse_update_far
parse_update_far-total v = for_each-total (far_arm _) (far_arm-total _) (items (iter_ies v)) _
