-- ===== src/Pfcp/Builder/Pdr.antt =====
-- Create PDR of pfcp-common/src/builder.rs, read by `parse_create_pdr` of ie.rs.
use upf_edge.Prelude.{
  ℕ, ◌≤◌, ◌^◌, ◌<◌, ◌≡◌, ◌∙◌, Bool, true, false, Option, none, some, List, [], ◌∷◌, ◌++◌,
  append_assoc, arith, ok, if◌then◌else◌, length, bit_and,
}
use upf_edge.Bytes.{Bytes, u16_be, u32_be}
use upf_edge.Bytes.Masks.{bit_and_0x0f}
use upf_edge.Pfcp.Ie.{SdfFilter, ParsedPdr, parse_fteid, parse_ue_ip_address, parse_sdf_filter}
use upf_edge.Pfcp.Ie.Grouped.{for_each, pdi_arm, parse_pdi, pdr_arm, parse_create_pdr}
use upf_edge.Pfcp.Tlv.{Ie}
use upf_edge.Pfcp.Types.{
  pfcp_ie_far_id, pfcp_ie_pdr_id, pfcp_ie_precedence, pfcp_ie_pdi, pfcp_ie_outer_header_removal,
  pfcp_ie_sdf_filter, pfcp_ie_source_interface, pfcp_ie_fteid, pfcp_ie_ue_ip_address,
  pfcp_ie_urr_id,
}
use upf_edge.Pfcp.Builder.{PdrParams, pdi_value, create_pdr_value, sdf_bytes}
use upf_edge.Pfcp.Builder.Rows.{Below, for_each-tlvs, some_ie, ie}

abbrev if_ie : Bool → ℕ → Bytes → List Ie
if_ie on t value = if on then ie t value ∷ [] else []

abbrev pub SdfFits : Option SdfFilter → Type 0
SdfFits none = Unit {0}
SdfFits (some f) =
    (f.src_ip < 2 ^ 32) × (f.dst_ip < 2 ^ 32) × (f.src_port < 2 ^ 16) × (f.dst_port < 2 ^ 16)

-- The numbers fit their fields; an interface has four bits.
pub record IsPdr (p : PdrParams) : Type 0 where
  pub pdr_id : p.pdr_id < 2 ^ 16
  pub precedence : p.precedence < 2 ^ 32
  pub interface : p.source_interface < 16
  pub ue_ip : Below (2 ^ 32) p.ue_ip
  pub far_id : p.far_id < 2 ^ 32
  pub urr_id : Below (2 ^ 32) p.urr_id
  pub sdf : SdfFits p.sdf_filter

-- A CHOOSE F-TEID reads as TEID 0 at the unspecified address.
abbrev pub chosen : Bool → Option (ℕ × ℕ)
chosen on = if on then some (0, 0) else none

abbrev pub parsed_pdr : PdrParams → ParsedPdr
parsed_pdr p = record {
  pdr_id = p.pdr_id;
  precedence = p.precedence;
  source_interface = p.source_interface;
  local_fteid = chosen p.fteid_choose;
  ue_ip = p.ue_ip;
  far_id = some p.far_id;
  urr_id = p.urr_id;
  outer_header_removal = p.outer_header_removal;
  sdf_filter = p.sdf_filter;
}

abbrev pdr_of : ℕ → ℕ → ℕ → Bool → Option ℕ → ℕ → Option ℕ → Bool → Option SdfFilter → PdrParams
pdr_of id precedence interface choose ue_ip far_id urr_id removal sdf = record {
  pdr_id = id;
  precedence = precedence;
  source_interface = interface;
  fteid_choose = choose;
  ue_ip = ue_ip;
  far_id = far_id;
  urr_id = urr_id;
  outer_header_removal = removal;
  sdf_filter = sdf;
}

abbrev pdi_ies : PdrParams → List Ie
pdi_ies p =
    ie pfcp_ie_source_interface (p.source_interface ∷ [])
    ∷ (if_ie p.fteid_choose pfcp_ie_fteid (0x04 ∷ 0x00 ∷ 0x00 ∷ 0x00 ∷ 0x00 ∷ [])
        ++ (some_ie pfcp_ie_ue_ip_address (λ ue_ip. 0x02 ∷ u32_be ue_ip) p.ue_ip
            ++ some_ie pfcp_ie_sdf_filter sdf_bytes p.sdf_filter))

low_nibble : (b : ℕ) → b < 16 → bit_and b 0x0F ≡ b
low_nibble b h = bit_and_0x0f b (omega arith) ∙ omega arith

-- The rule when the PDI is reached, and behind it.
abbrev before_pdi : PdrParams → ParsedPdr
before_pdi p = record {
  pdr_id = p.pdr_id;
  precedence = p.precedence;
  source_interface = 0;
  local_fteid = none;
  ue_ip = none;
  far_id = none;
  urr_id = none;
  outer_header_removal = false;
  sdf_filter = none;
}

abbrev after_pdi : PdrParams → ParsedPdr
after_pdi p = record (before_pdi p) {
  source_interface = p.source_interface;
  local_fteid = chosen p.fteid_choose;
  ue_ip = p.ue_ip;
  sdf_filter = p.sdf_filter;
}

pdi_fields :
    (id precedence interface : ℕ) (choose : Bool) (ue_ip : Option ℕ) (far_id : ℕ)
    (urr_id : Option ℕ) (removal : Bool) (sdf : Option SdfFilter)
    → IsPdr (pdr_of id precedence interface choose ue_ip far_id urr_id removal sdf)
    → let p : PdrParams = pdr_of id precedence interface choose ue_ip far_id urr_id removal sdf in
      parse_pdi (pdi_value p) (before_pdi p) ≡ ok (after_pdi p)
unfolding parse_pdi pdi_value for_each pdi_arm parse_fteid parse_ue_ip_address parse_sdf_filter
pdi_fields id precedence interface true none far_id urr_id removal none h =
    for_each-tlvs pdi_arm
      (pdi_ies (pdr_of id precedence interface true none far_id urr_id removal none)) _
      (omega arith)
    ∙ ground (arith, low_nibble interface)
pdi_fields id precedence interface true (some a) far_id urr_id removal (some f) h =
    for_each-tlvs pdi_arm
      (pdi_ies (pdr_of id precedence interface true (some a) far_id urr_id removal (some f))) _
      (omega arith)
    ∙ ground (arith, low_nibble interface)
pdi_fields id precedence interface false none far_id urr_id removal none h =
    for_each-tlvs pdi_arm
      (pdi_ies (pdr_of id precedence interface false none far_id urr_id removal none)) _
      (omega arith)
    ∙ ground (arith, low_nibble interface)
pdi_fields id precedence interface false (some a) far_id urr_id removal (some f) h =
    for_each-tlvs pdi_arm
      (pdi_ies (pdr_of id precedence interface false (some a) far_id urr_id removal (some f))) _
      (omega arith)
    ∙ ground (arith, low_nibble interface)
pdi_fields id precedence interface choose ue_ip far_id urr_id removal sdf h =
    for_each-tlvs pdi_arm
      (pdi_ies (pdr_of id precedence interface choose ue_ip far_id urr_id removal sdf)) _
      (omega arith)
    ∙ ground (arith, low_nibble interface)

length_fields :
    (id precedence interface : ℕ) (choose : Bool) (ue_ip : Option ℕ) (far_id : ℕ)
    (urr_id : Option ℕ) (removal : Bool) (sdf : Option SdfFilter)
    → length (pdi_value (pdr_of id precedence interface choose ue_ip far_id urr_id removal sdf))
      ≤ 40
unfolding pdi_value
length_fields id precedence interface true none far_id urr_id removal none = omega arith
length_fields id precedence interface true (some a) far_id urr_id removal (some f) = omega arith
length_fields id precedence interface false none far_id urr_id removal none = omega arith
length_fields id precedence interface false (some a) far_id urr_id removal (some f) = omega arith
length_fields id precedence interface choose ue_ip far_id urr_id removal sdf = omega arith

abbrev pdr_ies : PdrParams → List Ie
pdr_ies p =
    ie pfcp_ie_pdr_id (u16_be p.pdr_id)
    ∷ ie pfcp_ie_precedence (u32_be p.precedence)
    ∷ ie pfcp_ie_pdi (pdi_value p)
    ∷ ie pfcp_ie_far_id (u32_be p.far_id)
    ∷ (some_ie pfcp_ie_urr_id u32_be p.urr_id
        ++ if_ie p.outer_header_removal pfcp_ie_outer_header_removal (0x00 ∷ []))

pdr_fields :
    (id precedence interface : ℕ) (choose : Bool) (ue_ip : Option ℕ) (far_id : ℕ)
    (urr_id : Option ℕ) (removal : Bool) (sdf : Option SdfFilter)
    → IsPdr (pdr_of id precedence interface choose ue_ip far_id urr_id removal sdf)
    → let p : PdrParams = pdr_of id precedence interface choose ue_ip far_id urr_id removal sdf in
      parse_create_pdr (create_pdr_value p) ≡ ok (parsed_pdr p)
unfolding parse_create_pdr create_pdr_value for_each pdr_arm
pdr_fields id precedence interface choose ue_ip far_id none true sdf h =
    rw (append_assoc (pdi_value (pdr_of id precedence interface choose ue_ip far_id none true sdf)))
      (for_each-tlvs pdr_arm
          (pdr_ies (pdr_of id precedence interface choose ue_ip far_id none true sdf)) _
          (omega (arith, length_fields id precedence interface choose ue_ip far_id none true sdf))
        ∙ ground (arith, pdi_fields id precedence interface choose ue_ip far_id none true sdf h))
pdr_fields id precedence interface choose ue_ip far_id none false sdf h =
    for_each-tlvs pdr_arm
      (pdr_ies (pdr_of id precedence interface choose ue_ip far_id none false sdf)) _
      (omega (arith, length_fields id precedence interface choose ue_ip far_id none false sdf))
    ∙ ground (arith, pdi_fields id precedence interface choose ue_ip far_id none false sdf h)
pdr_fields id precedence interface choose ue_ip far_id (some u) true sdf h =
    rw
      (
        append_assoc
            (pdi_value (pdr_of id precedence interface choose ue_ip far_id (some u) true sdf)),
        append_assoc
            (pdi_value (pdr_of id precedence interface choose ue_ip far_id (some u) true sdf)),
      )
      (for_each-tlvs pdr_arm
          (pdr_ies (pdr_of id precedence interface choose ue_ip far_id (some u) true sdf)) _
          (omega
            (arith, length_fields id precedence interface choose ue_ip far_id (some u) true sdf))
        ∙ ground
            (arith, pdi_fields id precedence interface choose ue_ip far_id (some u) true sdf h))
pdr_fields id precedence interface choose ue_ip far_id (some u) false sdf h =
    rw
      (append_assoc
        (pdi_value (pdr_of id precedence interface choose ue_ip far_id (some u) false sdf)))
      (for_each-tlvs pdr_arm
          (pdr_ies (pdr_of id precedence interface choose ue_ip far_id (some u) false sdf)) _
          (omega
            (arith, length_fields id precedence interface choose ue_ip far_id (some u) false sdf))
        ∙ ground
            (arith, pdi_fields id precedence interface choose ue_ip far_id (some u) false sdf h))

-- `parse_create_pdr` reads back the PDR that `add_create_pdr` writes, whatever of the UE address, the
-- SDF filter, the URR ID and the outer header removal is there, if the numbers fit their fields. A
-- CHOOSE F-TEID reads as TEID 0 at the unspecified address.
pub parse_create_pdr-create_pdr_value :
    (p : PdrParams) → IsPdr p → parse_create_pdr (create_pdr_value p) ≡ ok (parsed_pdr p)
parse_create_pdr-create_pdr_value p h =
    pdr_fields p.pdr_id p.precedence p.source_interface p.fteid_choose p.ue_ip p.far_id p.urr_id
      p.outer_header_removal p.sdf_filter h
