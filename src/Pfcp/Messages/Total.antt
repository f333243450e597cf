-- ===== src/Pfcp/Messages/Total.antt =====
-- No message body makes a decoder of pfcp-common/src/messages.rs panic.
use upf_edge.Prelude.{ℕ, ◌≢◌, List, [], ◌∷◌, arith, panic, >>=-total, inl, inr, Option-cases}
use upf_edge.Bytes.{Bytes}
use upf_edge.Pfcp.Header.{Result}
use upf_edge.Pfcp.Ie.{parse_node_id, parse_recovery_timestamp, parse_fseid}
use upf_edge.Pfcp.Ie.Grouped.{
  parse_create_pdr, parse_create_far, parse_update_far, parse_create_urr,
}
use upf_edge.Pfcp.Ie.Total.{
  parse_node_id-total, parse_recovery_timestamp-total, parse_fseid-total, parse_create_pdr-total,
  parse_create_far-total, parse_update_far-total, parse_create_urr-total,
}
use upf_edge.Pfcp.Tlv.{Ie, items, iter_ies}
use upf_edge.Pfcp.Messages.{
  MessageError, find, collect, required, optional, decode_association_setup,
  decode_session_establishment, decode_heartbeat, decode_session_modification,
}

module _ {A : Type 0} (parse : Bytes → Result A) (h : (v : Bytes) → parse v ≢ panic) where
  required-total : (t : ℕ) (e : MessageError) (ies : List Ie) → required parse t e ies ≢ panic
  unfolding required
  required-total t e ies = elim (Option-cases (find t ies)) [
    | inl missing ↦ rw missing (λ x. cc)
    | inr (v, found) ↦ rw found (ground (arith, h v))
  ]

  optional-total : (t : ℕ) (ies : List Ie) → optional parse t ies ≢ panic
  unfolding optional
  optional-total t ies = elim (Option-cases (find t ies)) [
    | inl missing ↦ rw missing (λ x. cc)
    | inr (v, found) ↦ rw found (ground (arith, h v))
  ]

  collect-total : (t : ℕ) (ies : List Ie) → collect parse t ies ≢ panic
  unfolding collect
  collect-total t [] = λ e. cc
  collect-total t (ie ∷ ies) = ground (arith, h ie.value, collect-total t ies)

pub decode_association_setup-total : (body : Bytes) → decode_association_setup body ≢ panic
unfolding decode_association_setup
decode_association_setup-total body =
    >>=-total _ _ (required-total parse_node_id parse_node_id-total _ _ (items (iter_ies body)))
      λ node_id.
        >>=-total _ _
          (required-total parse_recovery_timestamp parse_recovery_timestamp-total _ _
            (items (iter_ies body)))
          (λ ts e. cc)

-- Whatever bytes follow the header of a Session Establishment Request, its decoder returns a request
-- or an error, and never reads out of bounds.
pub decode_session_establishment-total : (body : Bytes) → decode_session_establishment body ≢ panic
unfolding decode_session_establishment
decode_session_establishment-total body =
    let ies = items (iter_ies body) in
    >>=-total _ _ (required-total parse_fseid parse_fseid-total _ _ ies) λ fseid.
      >>=-total _ _ (optional-total parse_node_id parse_node_id-total _ ies) λ node_id.
        >>=-total _ _ (collect-total parse_create_pdr parse_create_pdr-total _ ies) λ pdrs.
          >>=-total _ _ (collect-total parse_create_far parse_create_far-total _ ies) λ fars.
            >>=-total _ _ (collect-total parse_create_urr parse_create_urr-total _ ies)
              (λ urrs e. cc)

pub decode_heartbeat-total : (body : Bytes) → decode_heartbeat body ≢ panic
unfolding decode_heartbeat
decode_heartbeat-total body =
    >>=-total _ _
      (optional-total parse_recovery_timestamp parse_recovery_timestamp-total _
        (items (iter_ies body)))
      (λ ts e. cc)

-- Whatever bytes follow the header of a Session Modification Request, its decoder returns a request or
-- an error, and never reads out of bounds.
pub decode_session_modification-total : (body : Bytes) → decode_session_modification body ≢ panic
unfolding decode_session_modification
decode_session_modification-total body =
    let ies = items (iter_ies body) in
    >>=-total _ _ (optional-total parse_fseid parse_fseid-total _ ies) λ fseid.
      >>=-total _ _ (collect-total parse_update_far parse_update_far-total _ ies) λ fars.
        >>=-total _ _ (collect-total parse_create_urr parse_create_urr-total _ ies) (λ urrs e. cc)
