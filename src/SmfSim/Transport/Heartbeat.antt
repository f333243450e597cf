-- ===== src/SmfSim/Transport/Heartbeat.antt =====
-- The heartbeat of upf-edge/src/pfcp_server.rs and the reply of smf-sim/src/transport.rs.
use upf_edge.Prelude.{
  ℕ, ◌-◌, ◌%◌, ◌+◌, ◌^◌, ◌≤◌, ◌<◌, ◌≡◌, refl, Option, none, some, List, [], ◌∷◌, arith, leb, leb→le,
  Bool-cases, inl, inr,
}
use upf_edge.Bytes.{Bytes, u32_be}
use upf_edge.ControlPlane.{SocketAddr, PfcpServer, World, Env, done}
use upf_edge.ControlPlane.Dispatch.{handle_message, dispatch}
use upf_edge.ControlPlane.Running.{check_keepalive, heartbeat_request, to_peer}
use upf_edge.Pfcp.Build.{build_heartbeat_response}
use upf_edge.Pfcp.Build.Replies.{decode-node_msg}
use upf_edge.Pfcp.Builder.{new}
use upf_edge.Pfcp.Builder.Rows.{ie, add_ies-tlvs}
use upf_edge.Pfcp.Header.{new_node_msg}
use upf_edge.Pfcp.Tlv.{Ie, tlvs}
use upf_edge.Pfcp.Types.{pfcp_heartbeat_req, pfcp_heartbeat_rsp, pfcp_ie_recovery_time_stamp}
use upf_edge.SmfSim.Transport.{handle_unsolicited}

abbrev stamp : ℕ → List Ie
stamp ts = ie pfcp_ie_recovery_time_stamp (u32_be ts) ∷ []

request_answered :
    (unix seq ntp : ℕ)
    → seq < 2 ^ 24
    → handle_unsolicited ntp (heartbeat_request unix seq) ≡ some (build_heartbeat_response seq ntp)
unfolding handle_unsolicited heartbeat_request
request_answered unix seq ntp h =
    let ts : ℕ = (unix % 2 ^ 32 + 2208988800) % 2 ^ 32 in
    rw
      (
        add_ies-tlvs (new (new_node_msg pfcp_heartbeat_req seq)) (stamp ts),
        decode-node_msg pfcp_heartbeat_req seq (tlvs (stamp ts)) h,
      )
      refl

response_ignored :
    (seq ntp : ℕ) (env : Env) (src : SocketAddr) (w : World)
    → seq < 2 ^ 24
    → handle_message env (build_heartbeat_response seq ntp) src w ≡ done [] w
unfolding handle_message dispatch build_heartbeat_response
response_ignored seq ntp env src w h =
    rw
      (
        add_ies-tlvs (new (new_node_msg pfcp_heartbeat_rsp seq)) (stamp ntp),
        decode-node_msg pfcp_heartbeat_rsp seq (tlvs (stamp ntp)) h,
      )
      refl

sent_to :
    (msg req : Bytes) (known : Option SocketAddr) (peer : SocketAddr)
    → to_peer msg known ≡ some (req, peer)
    → (req ≡ msg) × (known ≡ some peer)
sent_to msg req none peer e = absurd (ground (arith, e))
sent_to msg req (some p) peer e = ground (arith, e)

checked :
    (interval unix now seq : ℕ) (srv : PfcpServer) (req : Bytes) (peer : SocketAddr)
    → check_keepalive interval unix now seq srv ≡ some (req, peer)
    → (interval ≤ now - srv.last_activity)
      × (req ≡ heartbeat_request unix seq)
      × (srv.peer_addr ≡ some peer)
unfolding check_keepalive
checked interval unix now seq srv req peer e =
    elim (Bool-cases (leb interval (now - srv.last_activity))) [
      | inl t ↦
          let (made, known) =
            sent_to (heartbeat_request unix seq) req srv.peer_addr peer (rw (t) at e) in
          (leb→le interval (now - srv.last_activity) t, made, known)
      | inr t ↦ absurd (ground (arith, rw (t) at e))
    ]

-- A heartbeat request is only made for a server that has been idle for the interval, and goes to its
-- peer. The simulator replies to it with the response for the same sequence number, if that fits its
-- field, and the server takes the response without an answer and without a change.
pub heartbeat_exchange :
    (interval unix now seq ntp : ℕ) (srv : PfcpServer) (req : Bytes) (peer : SocketAddr) (env : Env)
    (src : SocketAddr) (w : World)
    → seq < 2 ^ 24
    → check_keepalive interval unix now seq srv ≡ some (req, peer)
    → (interval ≤ now - srv.last_activity)
      × (srv.peer_addr ≡ some peer)
      × (handle_unsolicited ntp req ≡ some (build_heartbeat_response seq ntp))
      × (handle_message env (build_heartbeat_response seq ntp) src w ≡ done [] w)
heartbeat_exchange interval unix now seq ntp srv req peer env src w h e =
    let (idle, made, known) = checked interval unix now seq srv req peer e in
    (idle, known, rw (made) (request_answered unix seq ntp h), response_ignored seq ntp env src w h)
