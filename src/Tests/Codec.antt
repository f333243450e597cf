-- ===== src/Tests/Codec.antt =====
-- pfcp-common: headers, IEs, rules and whole messages at concrete values.
use upf_edge.Prelude.{
  ℕ, ◌+◌, ◌-◌, ◌≡◌, ◌≢◌, ◌↔◌, ◌%◌, ◌^◌, true, none, some, List, [], ◌∷◌, ◌++◌, ok, panic, All,
  arith,
}
use upf_edge.Bytes.{Bytes, IsBytes}
use upf_edge.Common.{pdr_key}
use upf_edge.Common.Keys.{pdr_key_injective}
use upf_edge.Pfcp.Builder.{PdrParams, FarParams, UrrParams, new, finish}
use upf_edge.Pfcp.Builder.RoundTrip.{decode-finish}
use upf_edge.Pfcp.Header.{PfcpHeader, header_len, encode, decode}
use upf_edge.Pfcp.Header.RoundTrip.{IsEncodable, decode-encode}
use upf_edge.Pfcp.Messages.Rows.{request_ies, request_of, RulesFit, decode-request_ies}
use upf_edge.Pfcp.Messages.{decode_session_establishment}
use upf_edge.Pfcp.Messages.Total.{decode_session_establishment-total}
use upf_edge.Pfcp.Tlv.{Ie, items, iter_ies, tlvs}
use upf_edge.Pfcp.Tlv.Walk.{IsIe, IsTruncated, items-iter_ies-tlvs, iter_ies_complete}
use upf_edge.Pfcp.Types.{pfcp_session_modification_req}

abbrev priority_header : PfcpHeader
priority_header = record {
  version = 1;
  s_flag = true;
  mp_flag = true;
  fo_flag = true;
  msg_type = pfcp_session_modification_req;
  length = 21;
  seid = some 0x0102_0304_0506_0708;
  seq_num = 0x0A_0B0C;
  priority = 9;
}

priority_header-IsEncodable : IsEncodable priority_header
priority_header-IsEncodable = omega arith

decode-encode_example :
    decode (encode priority_header ++ (0 ∷ 7 ∷ [])) ≡ ok (priority_header, 0 ∷ 7 ∷ [])
decode-encode_example = decode-encode priority_header (0 ∷ 7 ∷ []) priority_header-IsEncodable

decode-finish_example :
    decode (finish (new priority_header ++ (0 ∷ 96 ∷ 0 ∷ 0 ∷ [])))
    ≡ ok (
      record priority_header { length = header_len priority_header - 4 + 4 },
      0 ∷ 96 ∷ 0 ∷ 0 ∷ [],
    )
decode-finish_example =
    decode-finish priority_header (0 ∷ 96 ∷ 0 ∷ 0 ∷ []) priority_header-IsEncodable (omega arith)

abbrev two_ies : List Ie
two_ies = record { ie_type = 19; value = 1 ∷ [] } ∷ record { ie_type = 300; value = [] } ∷ []

items-iter_ies-tlvs_example : items (iter_ies (tlvs two_ies ++ (0 ∷ 19 ∷ 0 ∷ 9 ∷ 1 ∷ []))) ≡ two_ies
items-iter_ies-tlvs_example =
    items-iter_ies-tlvs two_ies (0 ∷ 19 ∷ 0 ∷ 9 ∷ 1 ∷ []) (omega arith) (omega arith)

abbrev one_ie_cut : Bytes
one_ie_cut = 0 ∷ 19 ∷ 0 ∷ 1 ∷ 1 ∷ 0 ∷ 96 ∷ []

one_ie_cut-IsBytes : IsBytes one_ie_cut
one_ie_cut-IsBytes = omega arith

iter_ies_complete_example :
    (rest : Bytes) × (one_ie_cut ≡ tlvs (items (iter_ies one_ie_cut)) ++ rest)
    × All IsIe (items (iter_ies one_ie_cut))
    × IsTruncated rest
iter_ies_complete_example = iter_ies_complete one_ie_cut one_ie_cut-IsBytes

abbrev web_pdr : PdrParams
web_pdr = record {
  pdr_id = 7;
  precedence = 50;
  source_interface = 0;
  fteid_choose = true;
  ue_ip = some 0x0A00_0001;
  far_id = 3;
  urr_id = some 4;
  outer_header_removal = true;
  sdf_filter =
      some (record { proto = 6; src_ip = 0; dst_ip = 0x0808_0808; src_port = 0; dst_port = 443 });
}

abbrev tunnel_far : FarParams
tunnel_far = record {
  far_id = 3;
  apply_action = 2;
  dest_interface = 0;
  outer_header_creation = some (record { teid = 0x1234; peer_addr = 0xC0A8_0001; port = 2152 });
}

abbrev volume_urr : UrrParams
volume_urr = record {
  urr_id = 4;
  measurement_method = 2;
  reporting_triggers = 2;
  volume_threshold_total = some 1000;
  measurement_period = none;
}

abbrev rules : List PdrParams × List FarParams × List UrrParams
rules = (web_pdr ∷ record web_pdr { pdr_id = 8 } ∷ [], tunnel_far ∷ [], volume_urr ∷ [])

rules-RulesFit : RulesFit 0x0A00_0002 77 rules.0 rules.1 rules.2
rules-RulesFit = omega arith

decode-request_ies_example :
    decode_session_establishment (tlvs (request_ies 0x0A00_0002 77 rules.0 rules.1 rules.2))
    ≡ ok (request_of 0x0A00_0002 77 rules.0 rules.1 rules.2)
decode-request_ies_example =
    decode-request_ies 0x0A00_0002 77 rules.0 rules.1 rules.2 rules-RulesFit

decode_session_establishment-total_example :
    decode_session_establishment (0 ∷ 57 ∷ 0 ∷ 2 ∷ 2 ∷ 0 ∷ []) ≢ panic
decode_session_establishment-total_example =
    decode_session_establishment-total (0 ∷ 57 ∷ 0 ∷ 2 ∷ 2 ∷ 0 ∷ [])

pdr_key_injective_example :
    (pdr_key 1 2 ≡ pdr_key 2 1) ↔ ((◌≡◌ {A = ℕ} 1 2) × (2 % 2 ^ 16 ≡ 1 % 2 ^ 16))
pdr_key_injective_example = pdr_key_injective 1 2 2 1 (omega arith) (omega arith)
