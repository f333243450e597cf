-- ===== src/Pfcp/Builder/Urr.antt =====
-- Create URR and Update URR of pfcp-common/src/builder.rs, read by `parse_create_urr` of ie.rs.
use upf_edge.Prelude.{ℕ, ◌^◌, ◌<◌, ◌≡◌, ◌∙◌, Option, none, some, List, [], ◌∷◌, ◌++◌, arith, ok}
use upf_edge.Bytes.{u32_be, u64_be}
use upf_edge.Pfcp.Ie.{ParsedUrr, parse_volume_threshold}
use upf_edge.Pfcp.Ie.Grouped.{for_each, urr_arm, parse_create_urr}
use upf_edge.Pfcp.Tlv.{Ie}
use upf_edge.Pfcp.Types.{
  pfcp_ie_urr_id, pfcp_ie_measurement_method, pfcp_ie_reporting_triggers, pfcp_ie_volume_threshold,
  pfcp_ie_measurement_period, volume_threshold_tovol,
}
use upf_edge.Pfcp.Builder.{UrrParams, urr_value}
use upf_edge.Pfcp.Builder.Rows.{Below, for_each-tlvs, some_ie, ie}

abbrev urr_ies : UrrParams → List Ie
urr_ies u =
    ie pfcp_ie_urr_id (u32_be u.urr_id)
    ∷ ie pfcp_ie_measurement_method (u.measurement_method ∷ [])
    ∷ ie pfcp_ie_reporting_triggers (u.reporting_triggers ∷ 0x00 ∷ [])
    ∷ (some_ie pfcp_ie_volume_threshold (λ total. volume_threshold_tovol ∷ u64_be total)
          u.volume_threshold_total
        ++ some_ie pfcp_ie_measurement_period u32_be u.measurement_period)

-- What the parser makes of it.
abbrev pub parsed_urr : UrrParams → ParsedUrr
parsed_urr u = record {
  urr_id = u.urr_id;
  measurement_method = u.measurement_method;
  reporting_triggers = u.reporting_triggers;
  volume_threshold_total = u.volume_threshold_total;
  measurement_period = u.measurement_period;
}

-- The numbers fit their fields.
pub record IsUrr (u : UrrParams) : Type 0 where
  pub urr_id : u.urr_id < 2 ^ 32
  pub total : Below (2 ^ 64) u.volume_threshold_total
  pub period : Below (2 ^ 32) u.measurement_period

abbrev urr_of : ℕ → ℕ → ℕ → Option ℕ → Option ℕ → UrrParams
urr_of id method triggers total period = record {
  urr_id = id;
  measurement_method = method;
  reporting_triggers = triggers;
  volume_threshold_total = total;
  measurement_period = period;
}

urr_fields :
    (id method triggers : ℕ) (total period : Option ℕ)
    → IsUrr (urr_of id method triggers total period)
    → parse_create_urr (urr_value (urr_of id method triggers total period))
      ≡ ok (parsed_urr (urr_of id method triggers total period))
unfolding parse_create_urr urr_value for_each urr_arm parse_volume_threshold
urr_fields id method triggers none none h =
    for_each-tlvs urr_arm (urr_ies (urr_of id method triggers none none)) _ (omega arith)
    ∙ ground arith
urr_fields id method triggers (some t) (some p) h =
    for_each-tlvs urr_arm (urr_ies (urr_of id method triggers (some t) (some p))) _ (omega arith)
    ∙ ground arith
urr_fields id method triggers total period h =
    for_each-tlvs urr_arm (urr_ies (urr_of id method triggers total period)) _ (omega arith)
    ∙ ground arith

-- `parse_create_urr` reads back every field of the URR that `add_create_urr` and `add_update_urr`
-- write, with or without a threshold and a period, if the numbers fit their fields.
pub parse_create_urr-urr_value :
    (u : UrrParams) → IsUrr u → parse_create_urr (urr_value u) ≡ ok (parsed_urr u)
parse_create_urr-urr_value u h =
    urr_fields u.urr_id u.measurement_method u.reporting_triggers u.volume_threshold_total
      u.measurement_period h
