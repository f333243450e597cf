-- ===== src/Pfcp/Messages.antt =====
-- pfcp-common/src/messages.rs: the typed requests, decoded from a message body.
pub mod Total
pub mod Rows
use upf_edge.Prelude.{
  ℕ, Option, none, some, List, [], ◌∷◌, Outcome, ok, err, ◌>>=◌, ok_or, ok?, map_err, if◌then◌else◌,
  ◌==◌,
}
use upf_edge.Bytes.{Bytes}
use upf_edge.Pfcp.Header.{PfcpError, Result}
use upf_edge.Pfcp.Ie.{
  ParsedPdr, ParsedFar, ParsedUrr, parse_node_id, parse_recovery_timestamp, parse_fseid,
}
use upf_edge.Pfcp.Ie.Grouped.{
  parse_create_pdr, parse_create_far, parse_update_far, parse_create_urr,
}
use upf_edge.Pfcp.Tlv.{Ie, items, iter_ies}
use upf_edge.Pfcp.Types.{
  pfcp_ie_node_id, pfcp_ie_recovery_time_stamp, pfcp_ie_fseid, pfcp_ie_create_pdr,
  pfcp_ie_create_far, pfcp_ie_create_urr, pfcp_ie_update_far, pfcp_ie_update_urr,
}

-- The `anyhow` errors of the decoders.
pub data MessageError : Type 0 where
  node_id_missing recovery_ts_missing fseid_missing : MessageError
  ie_error : PfcpError → MessageError

-- `ies.iter().find(|ie| ie.ie_type == t)`, its value.
unfoldable pub find : ℕ → List Ie → Option Bytes
find t [] = none
find t (ie ∷ ies) = if ie.ie_type == t then some ie.value else find t ies

-- `ies.iter().filter(|ie| ie.ie_type == t).map(parse).collect::<Result<Vec<_>>>()`
unfoldable pub collect :
    {A : Type 0} → (Bytes → Result A) → ℕ → List Ie → Outcome MessageError (List A)
collect parse t [] = ok []
collect parse t (ie ∷ ies) =
    let rest = collect parse t ies in
    let with_this = (do a ← map_err ie_error (parse ie.value); found ← rest; ok (a ∷ found)) in
    if ie.ie_type == t then with_this else rest

-- `find` and the parser, where both must succeed.
unfoldable pub required :
    {A : Type 0} → (Bytes → Result A) → ℕ → MessageError → List Ie → Outcome MessageError A
unfolding find
required parse t missing ies = do value ← ok_or (find t ies) missing; map_err ie_error (parse value)

-- `find(..).and_then(|raw| parse(raw.value).ok())`
unfoldable pub if_found :
    {A : Type 0} → (Bytes → Result A) → Option Bytes → Outcome MessageError (Option A)
if_found parse none = ok none
if_found parse (some value) = ok? (parse value)

unfoldable pub optional :
    {A : Type 0} → (Bytes → Result A) → ℕ → List Ie → Outcome MessageError (Option A)
unfolding find if_found
optional parse t ies = if_found parse (find t ies)

pub record AssociationSetupReq : Type 0 where
  pub node_id : ℕ
  pub recovery_ts : ℕ

unfoldable pub decode_association_setup : Bytes → Outcome MessageError AssociationSetupReq
unfolding required
decode_association_setup body = do
  let ies = items (iter_ies body)
  node_id ← required parse_node_id pfcp_ie_node_id node_id_missing ies
  recovery_ts ←
      required parse_recovery_timestamp pfcp_ie_recovery_time_stamp recovery_ts_missing ies
  ok (record { node_id = node_id; recovery_ts = recovery_ts })

pub record SessionEstablishmentReq : Type 0 where
  pub node_id : Option ℕ
  pub cp_seid : ℕ
  pub smf_addr : ℕ
  pub create_pdrs : List ParsedPdr
  pub create_fars : List ParsedFar
  pub create_urrs : List ParsedUrr

unfoldable pub decode_session_establishment : Bytes → Outcome MessageError SessionEstablishmentReq
unfolding required optional collect
decode_session_establishment body = do
  let ies = items (iter_ies body)
  fseid ← required parse_fseid pfcp_ie_fseid fseid_missing ies
  node_id ← optional parse_node_id pfcp_ie_node_id ies
  create_pdrs ← collect parse_create_pdr pfcp_ie_create_pdr ies
  create_fars ← collect parse_create_far pfcp_ie_create_far ies
  create_urrs ← collect parse_create_urr pfcp_ie_create_urr ies
  ok (record {
    node_id = node_id;
    cp_seid = fseid.0;
    smf_addr = fseid.1;
    create_pdrs = create_pdrs;
    create_fars = create_fars;
    create_urrs = create_urrs;
  })

pub record HeartbeatReq : Type 0 where
  pub recovery_ts : Option ℕ

unfoldable pub decode_heartbeat : Bytes → Outcome MessageError HeartbeatReq
unfolding optional
decode_heartbeat body = do
  recovery_ts ←
      optional parse_recovery_timestamp pfcp_ie_recovery_time_stamp (items (iter_ies body))
  ok (record { recovery_ts = recovery_ts })

pub record SessionModificationReq : Type 0 where
  pub cp_seid : Option ℕ
  pub smf_addr : Option ℕ
  pub update_fars : List ParsedFar
  pub update_urrs : List ParsedUrr

abbrev first_of_pair : Option (ℕ × ℕ) → Option ℕ
first_of_pair none = none
first_of_pair (some (a, b)) = some a

abbrev second_of_pair : Option (ℕ × ℕ) → Option ℕ
second_of_pair none = none
second_of_pair (some (a, b)) = some b

unfoldable pub decode_session_modification : Bytes → Outcome MessageError SessionModificationReq
unfolding optional collect
decode_session_modification body = do
  let ies = items (iter_ies body)
  fseid ← optional parse_fseid pfcp_ie_fseid ies
  update_fars ← collect parse_update_far pfcp_ie_update_far ies
  update_urrs ← collect parse_create_urr pfcp_ie_update_urr ies
  ok (record {
    cp_seid = first_of_pair fseid;
    smf_addr = second_of_pair fseid;
    update_fars = update_fars;
    update_urrs = update_urrs;
  })
