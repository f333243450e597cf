-- ===== src/Pfcp/Dict.antt =====
-- pfcp-common/src/dict.rs and dict_ext.rs: which IEs a message has, and the check of the mandatory ones.
pub mod Valid
use Prim.Native.String.{String}
use upf_edge.Prelude.{
  ℕ, Bool, true, false, ◌||◌, Option, none, some, List, [], ◌∷◌, if◌then◌else◌, ◌==◌,
}
use upf_edge.Bytes.{Bytes}
use upf_edge.Pfcp.Tlv.{Ie, items, iter_ies}
use upf_edge.Pfcp.Types.{
  pfcp_association_setup_req, pfcp_association_setup_rsp, pfcp_heartbeat_req, pfcp_heartbeat_rsp,
  pfcp_ie_cause, pfcp_ie_cp_function_features, pfcp_ie_create_bar, pfcp_ie_create_far,
  pfcp_ie_create_pdr, pfcp_ie_create_qer, pfcp_ie_create_urr, pfcp_ie_created_pdr, pfcp_ie_fseid,
  pfcp_ie_node_id, pfcp_ie_recovery_time_stamp, pfcp_ie_remove_far, pfcp_ie_remove_pdr,
  pfcp_ie_report_type, pfcp_ie_up_function_features, pfcp_ie_update_far, pfcp_ie_update_pdr,
  pfcp_ie_usage_report_in_sess_mel_rsp, pfcp_ie_usage_report_in_sess_rpt_req,
  pfcp_session_deletion_req, pfcp_session_deletion_rsp, pfcp_session_establishment_req,
  pfcp_session_establishment_rsp, pfcp_session_modification_req, pfcp_session_modification_rsp,
  pfcp_session_report_req, pfcp_session_report_rsp,
}

pub data Presence : Type 0 where
  is_mandatory is_conditional is_optional : Presence

pub record IeSpec : Type 0 where
  pub ie_type : ℕ
  pub presence : Presence
  pub name : String

pub record MessageSpec : Type 0 where
  pub msg_type : ℕ
  pub name : String
  pub ies : List IeSpec

abbrev mandatory : ℕ → String → IeSpec
mandatory t name = record { ie_type = t; presence = is_mandatory; name = name }

abbrev conditional : ℕ → String → IeSpec
conditional t name = record { ie_type = t; presence = is_conditional; name = name }

abbrev optional : ℕ → String → IeSpec
optional t name = record { ie_type = t; presence = is_optional; name = name }

abbrev pub heartbeat_req : MessageSpec
heartbeat_req = record {
  msg_type = pfcp_heartbeat_req;
  name = "Heartbeat Request";
  ies = optional pfcp_ie_recovery_time_stamp "Recovery Time Stamp" ∷ [];
}

abbrev pub heartbeat_rsp : MessageSpec
heartbeat_rsp = record {
  msg_type = pfcp_heartbeat_rsp;
  name = "Heartbeat Response";
  ies = optional pfcp_ie_recovery_time_stamp "Recovery Time Stamp" ∷ [];
}

abbrev pub association_setup_req : MessageSpec
association_setup_req = record {
  msg_type = pfcp_association_setup_req;
  name = "Association Setup Request";
  ies =
      mandatory pfcp_ie_node_id "Node ID"
      ∷ mandatory pfcp_ie_recovery_time_stamp "Recovery Time Stamp"
      ∷ conditional pfcp_ie_cp_function_features "CP Function Feature"
      ∷ conditional pfcp_ie_up_function_features "UP Function Feature"
      ∷ [];
}

abbrev pub association_setup_rsp : MessageSpec
association_setup_rsp = record {
  msg_type = pfcp_association_setup_rsp;
  name = "Association Setup Response";
  ies =
      mandatory pfcp_ie_node_id "Node ID"
      ∷ mandatory pfcp_ie_cause "Cause"
      ∷ mandatory pfcp_ie_recovery_time_stamp "Recovery Time Stamp"
      ∷ conditional pfcp_ie_up_function_features "UP Function Feature"
      ∷ [];
}

abbrev pub session_establishment_req : MessageSpec
session_establishment_req = record {
  msg_type = pfcp_session_establishment_req;
  name = "Session Establishment Request";
  ies =
      mandatory pfcp_ie_node_id "Node ID"
      ∷ mandatory pfcp_ie_fseid "FSEID"
      ∷ mandatory pfcp_ie_create_pdr "Create PDR"
      ∷ mandatory pfcp_ie_create_far "Create FAR"
      ∷ conditional pfcp_ie_create_urr "Create URR"
      ∷ conditional pfcp_ie_create_qer "Create QER"
      ∷ optional pfcp_ie_create_bar "Create BAR"
      ∷ [];
}

abbrev pub session_establishment_rsp : MessageSpec
session_establishment_rsp = record {
  msg_type = pfcp_session_establishment_rsp;
  name = "Session Establishment Response";
  ies =
      mandatory pfcp_ie_node_id "Node ID"
      ∷ mandatory pfcp_ie_cause "Cause"
      ∷ conditional pfcp_ie_fseid "FSEID"
      ∷ conditional pfcp_ie_create_pdr "Create PDR"
      ∷ [];
}

abbrev pub session_modification_req : MessageSpec
session_modification_req = record {
  msg_type = pfcp_session_modification_req;
  name = "Session Modification Request";
  ies =
      conditional pfcp_ie_fseid "F-SEID"
      ∷ conditional pfcp_ie_update_pdr "Update PDR"
      ∷ conditional pfcp_ie_update_far "Update FAR"
      ∷ optional pfcp_ie_remove_pdr "Remove PDR"
      ∷ optional pfcp_ie_remove_far "Remove FAR"
      ∷ [];
}

abbrev pub session_modification_rsp : MessageSpec
session_modification_rsp = record {
  msg_type = pfcp_session_modification_rsp;
  name = "Session Modification Response";
  ies = mandatory pfcp_ie_cause "Cause" ∷ optional pfcp_ie_created_pdr "Created PDR" ∷ [];
}

abbrev pub session_deletion_req : MessageSpec
session_deletion_req = record {
  msg_type = pfcp_session_deletion_req;
  name = "Session Deletion Request";
  ies = [];
}

abbrev pub session_deletion_rsp : MessageSpec
session_deletion_rsp = record {
  msg_type = pfcp_session_deletion_rsp;
  name = "Session Deletion Response";
  ies =
      mandatory pfcp_ie_cause "Cause"
      ∷ optional pfcp_ie_usage_report_in_sess_mel_rsp "Usage Report"
      ∷ [];
}

abbrev pub session_report_req : MessageSpec
session_report_req = record {
  msg_type = pfcp_session_report_req;
  name = "Session Report Request";
  ies =
      mandatory pfcp_ie_report_type "Report Type"
      ∷ conditional pfcp_ie_usage_report_in_sess_rpt_req "Usage Report in Session Report Request"
      ∷ [];
}

abbrev pub session_report_rsp : MessageSpec
session_report_rsp = record {
  msg_type = pfcp_session_report_rsp;
  name = "Session Report Response";
  ies = [];
}

-- The entries of `PFCP_DICT`, each under its key.
abbrev pub pfcp_dict : List (ℕ × MessageSpec)
pfcp_dict =
    (1, heartbeat_req)
    ∷ (2, heartbeat_rsp)
    ∷ (5, association_setup_req)
    ∷ (6, association_setup_rsp)
    ∷ (50, session_establishment_req)
    ∷ (51, session_establishment_rsp)
    ∷ (52, session_modification_req)
    ∷ (53, session_modification_rsp)
    ∷ (54, session_deletion_req)
    ∷ (55, session_deletion_rsp)
    ∷ (56, session_report_req)
    ∷ (57, session_report_rsp)
    ∷ []

abbrev get : ℕ → List (ℕ × MessageSpec) → Option MessageSpec
get t [] = none
get t ((key, spec) ∷ entries) = if t == key then some spec else get t entries

unfoldable pub lookup : ℕ → Option MessageSpec
lookup msg_type = get msg_type pfcp_dict

abbrev pub is_required : Presence → Bool
is_required is_mandatory = true
is_required is_conditional = false
is_required is_optional = false

-- `madatory_ies`
abbrev pub mandatory_of : List IeSpec → List IeSpec
mandatory_of [] = []
mandatory_of (s ∷ specs) =
    if is_required s.presence then s ∷ mandatory_of specs else mandatory_of specs

abbrev pub find_spec : ℕ → List IeSpec → Option IeSpec
find_spec t [] = none
find_spec t (s ∷ specs) = if s.ie_type == t then some s else find_spec t specs

-- The set of received types, asked for one.
abbrev pub contains : ℕ → List Ie → Bool
contains t [] = false
contains t (ie ∷ ies) = if ie.ie_type == t then true else contains t ies

-- The names of the specified IEs that were not received.
abbrev pub names_without : List Ie → List IeSpec → List String
names_without recv_ies [] = []
names_without recv_ies (s ∷ specs) =
    if contains s.ie_type recv_ies
    then names_without recv_ies specs
    else s.name ∷ names_without recv_ies specs

abbrev pub missing_from : List Ie → Option MessageSpec → List String
missing_from recv_ies none = []
missing_from recv_ies (some dictionary) = names_without recv_ies (mandatory_of dictionary.ies)

-- `validate(..).missing`
unfoldable pub validate : ℕ → Bytes → List String
unfolding lookup
validate msg_type body = missing_from (items (iter_ies body)) (lookup msg_type)

-- `ValidationResult::is_ok`
abbrev pub is_ok : List String → Bool
is_ok [] = true
is_ok (name ∷ missing) = false
