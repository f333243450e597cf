-- ===== src/Pfcp/Ie/Grouped.antt =====
-- The grouped IEs of pfcp-common/src/ie.rs: Create PDR, Create FAR, Update FAR, Create URR. A
-- parser walks the items of its value, and each arm of its `match` updates the rule that it fills.
use upf_edge.Prelude.{
  ℕ, bit_and, true, false, none, some, List, [], ◌∷◌, ok, ◌>>=◌, at, if◌then◌else◌, leb, ◌==◌,
  length,
}
use upf_edge.Bytes.{Bytes, u16_at, u32_at}
use upf_edge.Pfcp.Header.{Result}
use upf_edge.Pfcp.Ie.{
  ParsedPdr, ParsedFar, ParsedUrr, parse_fteid, parse_ue_ip_address, parse_outer_header_creation,
  parse_apply_action, parse_sdf_filter, parse_volume_threshold,
}
use upf_edge.Pfcp.Tlv.{Ie, items, iter_ies}
use upf_edge.Pfcp.Types.{
  pfcp_ie_pdr_id, pfcp_ie_precedence, pfcp_ie_pdi, pfcp_ie_far_id, pfcp_ie_urr_id,
  pfcp_ie_outer_header_removal, pfcp_ie_sdf_filter, pfcp_ie_source_interface, pfcp_ie_fteid,
  pfcp_ie_ue_ip_address, pfcp_ie_apply_action, pfcp_ie_forwarding_parameters,
  pfcp_ie_update_forwarding_parameters, pfcp_ie_destination_interface,
  pfcp_ie_outer_header_creation, pfcp_ie_measurement_method, pfcp_ie_reporting_triggers,
  pfcp_ie_volume_threshold, pfcp_ie_measurement_period,
}

-- `for ie in &ies { .. }` with `?` in the arms.
unfoldable pub for_each : {S : Type 0} → (Ie → S → Result S) → List Ie → S → Result S
for_each arm [] s = ok s
for_each arm (ie ∷ ies) s = do s' ← arm ie s; for_each arm ies s'

-- `if value.len() >= n { .. }`
abbrev pub if_long {ℓ} : {S : Type ℓ} → ℕ → Bytes → Result S → S → Result S
if_long n value read s = if leb n (length value) then read else ok s

-- `rule.field = read()?`
abbrev pub into : {A S : Type 0} → Result A → (A → S) → Result S
into read store = do x ← read; ok (store x)

abbrev pub empty_pdr : ParsedPdr
empty_pdr = record {
  pdr_id = 0;
  precedence = 0;
  source_interface = 0;
  local_fteid = none;
  ue_ip = none;
  far_id = none;
  urr_id = none;
  outer_header_removal = false;
  sdf_filter = none;
}

abbrev pub empty_far : ParsedFar
empty_far = record {
  far_id = 0;
  apply_action = 0;
  dest_interface = none;
  outer_header_creation = none;
}

abbrev pub empty_urr : ParsedUrr
empty_urr = record {
  urr_id = 0;
  measurement_method = 0;
  reporting_triggers = 0;
  volume_threshold_total = none;
  measurement_period = none;
}

unfoldable pub pdi_arm : Ie → ParsedPdr → Result ParsedPdr
unfolding at
pdi_arm ie pdr =
    let t = ie.ie_type in
    let v = ie.value in
    let interface = into (at v 0) (λ b. record pdr { source_interface = bit_and b 0x0F }) in
    let fteid = into (parse_fteid v) (λ x. record pdr { local_fteid = some x }) in
    let ue_ip = into (parse_ue_ip_address v) (λ x. record pdr { ue_ip = some x }) in
    let sdf = into (parse_sdf_filter v) (λ x. record pdr { sdf_filter = some x }) in
    if t == pfcp_ie_source_interface
    then if_long 1 v interface pdr
    else if t == pfcp_ie_fteid
    then fteid
    else if t == pfcp_ie_ue_ip_address
    then ue_ip
    else if t == pfcp_ie_sdf_filter
    then sdf
    else ok pdr

unfoldable pub parse_pdi : Bytes → ParsedPdr → Result ParsedPdr
unfolding for_each pdi_arm
parse_pdi value = for_each pdi_arm (items (iter_ies value))

unfoldable pub pdr_arm : Ie → ParsedPdr → Result ParsedPdr
unfolding u16_at u32_at
pdr_arm ie pdr =
    let t = ie.ie_type in
    let v = ie.value in
    let id = into (u16_at v 0) (λ x. record pdr { pdr_id = x }) in
    let precedence = into (u32_at v 0) (λ x. record pdr { precedence = x }) in
    let far_id = into (u32_at v 0) (λ x. record pdr { far_id = some x }) in
    let urr_id = into (u32_at v 0) (λ x. record pdr { urr_id = some x }) in
    let sdf = into (parse_sdf_filter v) (λ x. record pdr { sdf_filter = some x }) in
    if t == pfcp_ie_pdr_id
    then if_long 2 v id pdr
    else if t == pfcp_ie_precedence
    then if_long 4 v precedence pdr
    else if t == pfcp_ie_pdi
    then parse_pdi v pdr
    else if t == pfcp_ie_far_id
    then if_long 4 v far_id pdr
    else if t == pfcp_ie_urr_id
    then if_long 4 v urr_id pdr
    else if t == pfcp_ie_outer_header_removal
    then ok (record pdr { outer_header_removal = true })
    else if t == pfcp_ie_sdf_filter
    then sdf
    else ok pdr

unfoldable pub parse_create_pdr : Bytes → Result ParsedPdr
unfolding for_each pdr_arm
parse_create_pdr value = for_each pdr_arm (items (iter_ies value)) empty_pdr

unfoldable pub urr_arm : Ie → ParsedUrr → Result ParsedUrr
unfolding at u32_at
urr_arm ie urr =
    let t = ie.ie_type in
    let v = ie.value in
    let id = into (u32_at v 0) (λ x. record urr { urr_id = x }) in
    let method = into (at v 0) (λ x. record urr { measurement_method = x }) in
    let triggers = into (at v 0) (λ x. record urr { reporting_triggers = x }) in
    let threshold =
      into (parse_volume_threshold v) (λ x. record urr { volume_threshold_total = x }) in
    let period = into (u32_at v 0) (λ x. record urr { measurement_period = some x }) in
    if t == pfcp_ie_urr_id
    then if_long 4 v id urr
    else if t == pfcp_ie_measurement_method
    then if_long 1 v method urr
    else if t == pfcp_ie_reporting_triggers
    then if_long 1 v triggers urr
    else if t == pfcp_ie_volume_threshold
    then threshold
    else if t == pfcp_ie_measurement_period
    then if_long 4 v period urr
    else ok urr

unfoldable pub parse_create_urr : Bytes → Result ParsedUrr
unfolding for_each urr_arm
parse_create_urr value = for_each urr_arm (items (iter_ies value)) empty_urr

unfoldable pub forwarding_arm : Ie → ParsedFar → Result ParsedFar
unfolding at
forwarding_arm ie far =
    let t = ie.ie_type in
    let v = ie.value in
    let interface = into (at v 0) (λ b. record far { dest_interface = some (bit_and b 0x0F) }) in
    let creation =
      into (parse_outer_header_creation v) (λ x. record far { outer_header_creation = some x }) in
    if t == pfcp_ie_destination_interface
    then if_long 1 v interface far
    else if t == pfcp_ie_outer_header_creation
    then creation
    else ok far

unfoldable pub parse_forwarding_params : Bytes → ParsedFar → Result ParsedFar
unfolding for_each forwarding_arm
parse_forwarding_params value = for_each forwarding_arm (items (iter_ies value))

-- The arms of `parse_create_far` and `parse_update_far`, which differ in the type of the nested IE.
unfoldable pub far_arm : ℕ → Ie → ParsedFar → Result ParsedFar
unfolding u32_at
far_arm parameters ie far =
    let t = ie.ie_type in
    let v = ie.value in
    let id = into (u32_at v 0) (λ x. record far { far_id = x }) in
    let action = into (parse_apply_action v) (λ x. record far { apply_action = x }) in
    if t == pfcp_ie_far_id
    then if_long 4 v id far
    else if t == pfcp_ie_apply_action
    then action
    else if t == parameters
    then parse_forwarding_params v far
    else ok far

unfoldable pub parse_create_far : Bytes → Result ParsedFar
unfolding for_each far_arm
parse_create_far value =
    for_each (far_arm pfcp_ie_forwarding_parameters) (items (iter_ies value)) empty_far

unfoldable pub parse_update_far : Bytes → Result ParsedFar
unfolding for_each far_arm
parse_update_far value =
    for_each (far_arm pfcp_ie_update_forwarding_parameters) (items (iter_ies value)) empty_far
