-- ===== src/SmfSim/Answered.antt =====
-- The UPF against the SMF simulator: upf-edge/src/handle_msg.rs answers, smf-sim/src/validator.rs judges.
use upf_edge.Prelude.{ℕ, ◌^◌, ◌<◌, ◌≡◌, ◌≢◌, refl, [], ◌∷◌, arith, ok}
use upf_edge.Bytes.{Bytes, IsBytes}
use upf_edge.Pfcp.Header.{PfcpHeader, decode}
use upf_edge.Pfcp.Types.{
  pfcp_heartbeat_req, pfcp_association_setup_req, pfcp_session_establishment_req,
  pfcp_session_modification_req, pfcp_session_deletion_req,
}
use upf_edge.ControlPlane.{World, SocketAddr, Env, done, Handler}
use upf_edge.ControlPlane.Delete.{handle_session_deletion, remove_session}
use upf_edge.ControlPlane.Dispatch.{dispatch, handle_message}
use upf_edge.ControlPlane.Establish.{handle_session_establishment, establish, establish_as}
use upf_edge.ControlPlane.Gives.{
  Gives, Given, >>=-Gives, >>-Gives, return-Gives, raise-Gives, ==-Gives,
}
use upf_edge.ControlPlane.Modify.{handle_session_modification, modify}
use upf_edge.ControlPlane.Node.{handle_heartbeat, handle_session_association}
use upf_edge.SmfSim.Validator.{validate_response}
use upf_edge.SmfSim.Validator.Accepting.{
  heartbeat_accepted, association_accepted, establishment_accepted, modification_accepted,
  deletion_accepted,
}

-- A response that is sent passes the peer's checks.
record IsAccepted (req_type seq : ℕ) (rsp : Bytes) : Type 0 where
  accepted : rsp ≢ [] → validate_response req_type seq rsp ≡ ok tt

module _ (header : PfcpHeader) (h : header.seq_num < 2 ^ 24) where
  answer :
      (req_type : ℕ) (rsp : Bytes)
      → validate_response req_type header.seq_num rsp ≡ ok tt
      → IsAccepted req_type header.seq_num rsp
  answer req_type rsp e = record { accepted = λ n. e }

  ruleset gives = (>>=-Gives, >>-Gives, return-Gives, raise-Gives, answer)

  heartbeat-Gives :
      (env : Env) (body : Bytes) (src : SocketAddr)
      → Gives (IsAccepted pfcp_heartbeat_req header.seq_num) (handle_heartbeat env header body src)
  unfolding handle_heartbeat
  heartbeat-Gives env body src = search (gives, heartbeat_accepted header.seq_num h) depth 12

  association-Gives :
      (env : Env) (body : Bytes) (src : SocketAddr)
      → Gives
          (IsAccepted pfcp_association_setup_req header.seq_num)
          (handle_session_association env header body src)
  unfolding handle_session_association
  association-Gives env body src = search (gives, association_accepted header.seq_num h) depth 12

  establishment-Gives :
      (env : Env) (body : Bytes) (src : SocketAddr)
      → Gives
          (IsAccepted pfcp_session_establishment_req header.seq_num)
          (handle_session_establishment env header body src)
  unfolding handle_session_establishment establish establish_as
  establishment-Gives env body src =
      search (gives, establishment_accepted header.seq_num h) depth 30

  modification-Gives :
      (env : Env) (body : Bytes) (src : SocketAddr)
      → Gives
          (IsAccepted pfcp_session_modification_req header.seq_num)
          (handle_session_modification env header body src)
  unfolding handle_session_modification modify
  modification-Gives env body src = search (gives, modification_accepted header.seq_num h) depth 20

  deletion-Gives :
      (src : SocketAddr)
      → Gives
          (IsAccepted pfcp_session_deletion_req header.seq_num)
          (handle_session_deletion header src)
  unfolding handle_session_deletion remove_session
  deletion-Gives src = search (gives, deletion_accepted header.seq_num h) depth 20

  nothing : IsAccepted header.msg_type header.seq_num []
  nothing = record { accepted = λ n. absurd (n refl) }

  of_type :
      {m : Handler Bytes} (c : ℕ)
      → Gives (IsAccepted c header.seq_num) m
      → header.msg_type ≡ c
      → Gives (IsAccepted header.msg_type header.seq_num) m
  of_type c g e = rw (e) g

  dispatch-Gives :
      (env : Env) (body : Bytes) (src : SocketAddr)
      → Gives (IsAccepted header.msg_type header.seq_num) (dispatch env header body src)
  unfolding dispatch
  dispatch-Gives env body src =
      search
        (
          ==-Gives, of_type, nothing, return-Gives, raise-Gives, heartbeat-Gives, association-Gives,
          establishment-Gives, modification-Gives, deletion-Gives,
        )
        depth 30

decode-seq_num :
    (buf : Bytes) (header : PfcpHeader) (body : Bytes)
    → IsBytes buf
    → decode buf ≡ ok (header, body)
    → header.seq_num < 2 ^ 24
unfolding decode
decode-seq_num
      (b0 ∷ b1 ∷ b2 ∷ b3 ∷ b4 ∷ b5 ∷ b6 ∷ b7 ∷ b8 ∷ b9 ∷ b10 ∷ b11 ∷ b12 ∷ b13 ∷ b14 ∷ b15 ∷ rest)
      header body h e =
    ground (arith, e)
decode-seq_num buf header body h e = ground (arith, e)

-- Whatever request arrives, in whatever state the UPF is: a response that it sends carries the type
-- that follows the request's and the request's sequence number, has every mandatory IE of its type and
-- the cause 'accepted' where there is a cause, so the simulator's check of the response passes.
pub answer_accepted :
    (env : Env) (packet : Bytes) (src : SocketAddr) (w u : World) (header : PfcpHeader)
    (body rsp : Bytes)
    → IsBytes packet
    → decode packet ≡ ok (header, body)
    → handle_message env packet src w ≡ done rsp u
    → rsp ≢ []
    → validate_response header.msg_type header.seq_num rsp ≡ ok tt
unfolding handle_message
answer_accepted env packet src w u header body rsp h hd hm =
    let known = decode-seq_num packet header body h hd in
    let given : Given (IsAccepted header.msg_type header.seq_num)
        (handle_message env packet src w) =
      rw (hd) ((dispatch-Gives header known env body src).given w) in
    let accepted : IsAccepted header.msg_type header.seq_num rsp = rw (hm) at given in
    accepted.accepted
