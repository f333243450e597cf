-- ===== src/Pfcp/Builder/Far.antt =====
-- Create FAR and Update FAR of pfcp-common/src/builder.rs, read by the parsers of ie.rs.
use upf_edge.Prelude.{
  ℕ, ◌≤◌, ◌^◌, ◌<◌, ◌≡◌, refl, ap, ◌∙◌, Option, none, some, List, [], ◌∷◌, append-nil, arith, ok,
  length, bit_and,
}
use upf_edge.Bytes.{u32_be}
use upf_edge.Bytes.Masks.{bit_and_0x0f}
use upf_edge.Pfcp.Ie.{
  OuterHeaderCreation, ParsedFar, parse_outer_header_creation, parse_apply_action,
}
use upf_edge.Pfcp.Ie.Grouped.{
  for_each, forwarding_arm, parse_forwarding_params, far_arm, parse_create_far, parse_update_far,
}
use upf_edge.Pfcp.Tlv.{Ie, tlvs}
use upf_edge.Pfcp.Types.{
  pfcp_ie_destination_interface, pfcp_ie_outer_header_creation, pfcp_ie_far_id,
  pfcp_ie_apply_action, pfcp_ie_forwarding_parameters, pfcp_ie_update_forwarding_parameters,
}
use upf_edge.Pfcp.Builder.{FarParams, forwarding_value, far_value, creation_bytes}
use upf_edge.Pfcp.Builder.Rows.{for_each-tlvs, some_ie, ie}

abbrev CreationFits : Option OuterHeaderCreation → Type 0
CreationFits none = Unit {0}
CreationFits (some c) = (c.teid < 2 ^ 32) × (c.peer_addr < 2 ^ 32)

pub record IsFar (f : FarParams) : Type 0 where
  pub far_id : f.far_id < 2 ^ 32
  pub interface : f.dest_interface < 16
  pub creation : CreationFits f.outer_header_creation

-- The port is not on the wire: the parser puts the GTP-U port.
abbrev gtpu_port : Option OuterHeaderCreation → Option OuterHeaderCreation
gtpu_port none = none
gtpu_port (some c) = some (record { teid = c.teid; peer_addr = c.peer_addr; port = 2152 })

abbrev or_else :
    Option OuterHeaderCreation → Option OuterHeaderCreation → Option OuterHeaderCreation
or_else none old = old
or_else (some c) old = some c

abbrev pub parsed_far : FarParams → ParsedFar
parsed_far f = record {
  far_id = f.far_id;
  apply_action = f.apply_action;
  dest_interface = some f.dest_interface;
  outer_header_creation = gtpu_port f.outer_header_creation;
}

or_else-none : (c : Option OuterHeaderCreation) → or_else (gtpu_port c) none ≡ gtpu_port c
or_else-none none = refl
or_else-none (some c) = refl

abbrev far_of : ℕ → ℕ → ℕ → Option OuterHeaderCreation → FarParams
far_of id action interface creation = record {
  far_id = id;
  apply_action = action;
  dest_interface = interface;
  outer_header_creation = creation;
}

abbrev forwarding_ies : FarParams → List Ie
forwarding_ies f =
    ie pfcp_ie_destination_interface (f.dest_interface ∷ [])
    ∷ some_ie pfcp_ie_outer_header_creation creation_bytes f.outer_header_creation

low_nibble : (b : ℕ) → b < 16 → bit_and b 0x0F ≡ b
low_nibble b h = bit_and_0x0f b (omega arith) ∙ omega arith

forwarding_fields :
    (id action interface : ℕ) (creation : Option OuterHeaderCreation) (far : ParsedFar)
    → IsFar (far_of id action interface creation)
    → parse_forwarding_params (forwarding_value (far_of id action interface creation)) far
      ≡ ok (record far {
        dest_interface = some interface;
        outer_header_creation = or_else (gtpu_port creation) far.outer_header_creation;
      })
unfolding parse_forwarding_params forwarding_value for_each forwarding_arm
    parse_outer_header_creation
forwarding_fields id action interface none far h =
    for_each-tlvs forwarding_arm (forwarding_ies (far_of id action interface none)) _ (omega arith)
    ∙ ground (arith, low_nibble interface)
forwarding_fields id action interface (some c) far h =
    for_each-tlvs forwarding_arm (forwarding_ies (far_of id action interface (some c))) _
      (omega arith)
    ∙ ground (arith, low_nibble interface)

abbrev far_ies : ℕ → FarParams → List Ie
far_ies parameters f =
    ie pfcp_ie_far_id (u32_be f.far_id)
    ∷ ie pfcp_ie_apply_action (f.apply_action ∷ [])
    ∷ ie parameters (forwarding_value f)
    ∷ []

length_fields :
    (id action interface : ℕ) (creation : Option OuterHeaderCreation)
    → length (forwarding_value (far_of id action interface creation)) ≤ 19
unfolding forwarding_value
length_fields id action interface none = omega arith
length_fields id action interface (some c) = omega arith

length-forwarding_value : (f : FarParams) → length (forwarding_value f) ≤ 19
length-forwarding_value f =
    length_fields f.far_id f.apply_action f.dest_interface f.outer_header_creation

far_value-tlvs :
    (parameters : ℕ) (f : FarParams) → far_value parameters f ≡ tlvs (far_ies parameters f)
unfolding far_value
far_value-tlvs parameters f = rw (append-nil (forwarding_value f))

-- The rule when the nested IE is reached.
abbrev half_parsed : FarParams → ParsedFar
half_parsed f = record {
  far_id = f.far_id;
  apply_action = f.apply_action;
  dest_interface = none;
  outer_header_creation = none;
}

forwarding_read :
    (f : FarParams)
    → IsFar f
    → parse_forwarding_params (forwarding_value f) (half_parsed f) ≡ ok (parsed_far f)
forwarding_read f h =
    forwarding_fields f.far_id f.apply_action f.dest_interface f.outer_header_creation
      (half_parsed f) h
    ∙ ap (λ c. ok (record (parsed_far f) { outer_header_creation = c }))
        (or_else-none f.outer_header_creation)

-- `parse_create_far` reads back the FAR that `add_create_far` writes: its ID, action, interface and
-- the TEID and peer address of the outer header, the port set to 2152, if the numbers fit their
-- fields.
pub parse_create_far-far_value :
    (f : FarParams)
    → IsFar f
    → parse_create_far (far_value pfcp_ie_forwarding_parameters f) ≡ ok (parsed_far f)
unfolding parse_create_far for_each far_arm parse_apply_action
parse_create_far-far_value f h = rw (far_value-tlvs pfcp_ie_forwarding_parameters f) (
    for_each-tlvs (far_arm pfcp_ie_forwarding_parameters) (far_ies pfcp_ie_forwarding_parameters f)
      _ (omega (arith, length-forwarding_value f))
    ∙ ground (arith, forwarding_read f h))

-- `parse_update_far` reads back the FAR that `add_update_far` writes in the same way, if the numbers fit
-- their fields.
pub parse_update_far-far_value :
    (f : FarParams)
    → IsFar f
    → parse_update_far (far_value pfcp_ie_update_forwarding_parameters f) ≡ ok (parsed_far f)
unfolding parse_update_far for_each far_arm parse_apply_action
parse_update_far-far_value f h = rw (far_value-tlvs pfcp_ie_update_forwarding_parameters f) (
    for_each-tlvs (far_arm pfcp_ie_update_forwarding_parameters)
      (far_ies pfcp_ie_update_forwarding_parameters f) _ (omega (arith, length-forwarding_value f))
    ∙ ground (arith, forwarding_read f h))
