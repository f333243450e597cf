-- ===== src/SmfSim/Validator.antt =====
-- smf-sim/src/validator.rs: what the simulator demands of a response, and what it takes from one.
pub mod Accepting
pub mod Extracting
use upf_edge.Prelude.{
  ℕ, ◌+◌, ◌%◌, ◌^◌, not, Option, none, some, List, [], ◌∷◌, Outcome, ok, err, panic, ◌>>=◌, ◌>>◌,
  fail_if, ok_or, ok?, map_err, if◌then◌else◌, ◌==◌,
}
use upf_edge.Bytes.{Bytes}
use upf_edge.Pfcp.Dict.{validate, is_ok}
use upf_edge.Pfcp.Header.{PfcpHeader, decode}
use upf_edge.Pfcp.Ie.{parse_fseid, parse_fteid, parse_recovery_timestamp}
use upf_edge.Pfcp.Messages.{find}
use upf_edge.Pfcp.Tlv.{Ie, items, iter_ies}
use upf_edge.Pfcp.Types.{
  pfcp_ie_cause, cause_request_accepted, pfcp_ie_fseid, pfcp_ie_created_pdr, pfcp_ie_fteid,
  pfcp_ie_recovery_time_stamp,
}
use upf_edge.SmfSim.{
  SimError, bad_response, type_mismatch, seq_mismatch, ie_missing, not_accepted, no_fseid,
  zero_seid, no_created_pdr, no_fteid, zero_teid,
}

-- The check of a cause IE that was found.
abbrev pub check_cause : Option Bytes → Outcome SimError (Unit {0})
check_cause none = ok tt
check_cause (some []) = err (not_accepted 0)
check_cause (some (cause ∷ rest)) =
    fail_if (not (cause == cause_request_accepted)) (not_accepted cause)

unfoldable pub validate_response : ℕ → ℕ → Bytes → Outcome SimError (Unit {0})
unfolding decode validate find
validate_response req_type req_seq rsp = do
  decoded ← map_err bad_response (decode rsp)
  let rsp_hdr = decoded.0
  let body = decoded.1
  let expected_type = (req_type + 1) % 2 ^ 8
  fail_if (not (rsp_hdr.msg_type == expected_type)) (type_mismatch expected_type rsp_hdr.msg_type)
  fail_if (not (rsp_hdr.seq_num == req_seq)) (seq_mismatch req_seq rsp_hdr.seq_num)
  let missing = validate rsp_hdr.msg_type body
  fail_if (not (is_ok missing)) (ie_missing missing)
  check_cause (find pfcp_ie_cause (items (iter_ies body)))

-- The UPF's SEID, and the TEID and address of its end of the tunnel.
unfoldable pub extract_session_info : Bytes → Outcome SimError (ℕ × ℕ × ℕ)
unfolding decode find parse_fseid parse_fteid
extract_session_info rsp = do
  decoded ← map_err bad_response (decode rsp)
  let ies = items (iter_ies decoded.1)
  fseid ← ok_or (find pfcp_ie_fseid ies) no_fseid
  seid_addr ← map_err bad_response (parse_fseid fseid)
  fail_if (seid_addr.0 == 0) zero_seid
  created_pdr ← ok_or (find pfcp_ie_created_pdr ies) no_created_pdr
  fteid ← ok_or (find pfcp_ie_fteid (items (iter_ies created_pdr))) no_fteid
  teid_addr ← map_err bad_response (parse_fteid fteid)
  fail_if (teid_addr.0 == 0) zero_teid
  ok (seid_addr.0, teid_addr.0, teid_addr.1)

-- `find(..).and_then(|i| parse_recovery_timestamp(i.value).ok())`
abbrev pub timestamp_of : Option Bytes → Outcome SimError (Option ℕ)
timestamp_of none = ok none
timestamp_of (some value) = ok? (parse_recovery_timestamp value)

abbrev timestamp_in : Option (PfcpHeader × Bytes) → Outcome SimError (Option ℕ)
timestamp_in none = ok none
timestamp_in (some (hdr, body)) =
    timestamp_of (find pfcp_ie_recovery_time_stamp (items (iter_ies body)))

unfoldable pub extract_recovery_ts : Bytes → Outcome SimError (Option ℕ)
unfolding decode find parse_recovery_timestamp
extract_recovery_ts rsp = do decoded ← ok? (decode rsp); timestamp_in decoded
