-- ===== src/ControlPlane/Fresh.antt =====
-- upf-edge/src/handle_msg.rs and pfcp_server.rs: whatever message arrives, the server answers or
-- fails, it does not panic, and the local SEIDs stay unique.
use upf_edge.Prelude.{ℕ, ◌+◌, ◌^◌, ◌<◌, Bool, true, false, Option, none, some, arith, if◌then◌else◌}
use upf_edge.Bytes.{Bytes}
use upf_edge.Pfcp.Header.{PfcpHeader}
use upf_edge.Pfcp.Header.RoundTrip.{decode-total}
use upf_edge.Pfcp.Messages.{SessionEstablishmentReq}
use upf_edge.Pfcp.Messages.Total.{
  decode_session_establishment-total, decode_association_setup-total, decode_heartbeat-total,
  decode_session_modification-total,
}
use upf_edge.ControlPlane.{
  SocketAddr, v4, v6, PfcpServer, World, Env, bad_message, bad_header, Handler, alloc_seid,
  alloc_teid,
}
use upf_edge.ControlPlane.Keeps.{
  Ends, Keeps, Of, >>=-Keeps, >>-Keeps, return-Keeps, raise-Keeps, asks-Keeps, or_fail-Keeps,
  from_outcome-Keeps, on_server-Keeps, then-Ends,
}
use upf_edge.ControlPlane.Invariant.{
  find_source-Keeps, find_owner-Keeps, modify-Keeps, remove_session-Keeps, establish_as-Keeps,
}
use upf_edge.ControlPlane.Node.{associated, hear, handle_heartbeat, handle_session_association}
use upf_edge.ControlPlane.Modify.{handle_session_modification}
use upf_edge.ControlPlane.Delete.{handle_session_deletion}
use upf_edge.ControlPlane.Establish.{establish, handle_session_establishment}
use upf_edge.ControlPlane.Dispatch.{dispatch, handle_message}
use upf_edge.ControlPlane.Serving.{
  IsFresh, IsServing, IsServing-Bears, HasGiven-Bears, register-HasGiven, HasRoom, HasRoom-Bears,
  weaken, HasGiven-IsServing, HasRoom-IsServing, allocated, IsServing-IsCovered, IsCovered,
  IsFresh-IsCovered, IsCovered-IsFresh,
}

module _ (old : ℕ → Type 0) where
  establish-Ends :
      (n : ℕ) (env : Env) (header : PfcpHeader) (req : SessionEstablishmentReq) (node_id : ℕ)
      (w : World)
      → Of (HasRoom old n) w
      → Ends (Of (IsServing old (n + 1))) (establish env header req node_id w)
  unfolding establish alloc_seid alloc_teid
  establish-Ends n env header req node_id w h =
      let seid = w.server.next_seid in
      let kept =
        establish_as-Keeps (HasGiven-Bears old (n + 1) seid) env header req node_id seid
          w.server.next_teid (register-HasGiven old (n + 1) node_id seid) in
      weaken _ (HasGiven-IsServing old (n + 1) seid)
        (kept.kept _ (record { of_server = allocated old n w.server h.of_server _ }))

  hear-kept :
      (n : ℕ) (env : Env) (src : SocketAddr) (recv : Option ℕ) (srv : PfcpServer)
      → IsServing old n srv
      → IsServing old n (hear env src recv srv)
  unfolding hear
  hear-kept n env (v4 ip port) (some recv) srv h =
      (IsServing-Bears old n).associated srv _ srv.peer_addr h
  hear-kept n env (v4 ip port) none srv h = h
  hear-kept n env (v6 ip port f s) recv srv h = h

  establishment-Ends :
      (n : ℕ) (env : Env) (header : PfcpHeader) (body : Bytes) (src : SocketAddr) (w : World)
      → Of (HasRoom old n) w
      → Ends (Of (IsServing old (n + 1))) (handle_session_establishment env header body src w)
  unfolding handle_session_establishment
  establishment-Ends n env header body src w h =
      then-Ends _ _ w (from_outcome-Keeps bad_message _ (decode_session_establishment-total body))
        (HasRoom-IsServing old n)
        (λ req v g.
          then-Ends _ _ v (find_source-Keeps (HasRoom-Bears old n) src) (HasRoom-IsServing old n)
            (λ assoc u k. establish-Ends n env header req assoc.node_id u k) g)
        h

  ruleset reads = (>>=-Keeps, >>-Keeps, return-Keeps, asks-Keeps, or_fail-Keeps)

  heartbeat-Keeps :
      (n : ℕ) (env : Env) (header : PfcpHeader) (body : Bytes) (src : SocketAddr)
      → Keeps (Of (IsServing old (n + 1))) (handle_heartbeat env header body src)
  unfolding handle_heartbeat
  heartbeat-Keeps n env header body src =
      search (reads, from_outcome-Keeps, decode_heartbeat-total, on_server-Keeps, hear-kept (n + 1))

  association-kept :
      (n : ℕ) (env : Env) (node_id recovery_ts : ℕ) (src : SocketAddr) (duplicate : Bool)
      (srv : PfcpServer)
      → IsServing old n srv
      → IsServing old n (if duplicate then srv else associated env node_id recovery_ts src srv)
  association-kept n env node_id recovery_ts src true srv h = h
  association-kept n env node_id recovery_ts src false srv h =
      (IsServing-Bears old n).associated srv _ _ h

  association-Keeps :
      (n : ℕ) (env : Env) (header : PfcpHeader) (body : Bytes) (src : SocketAddr)
      → Keeps (Of (IsServing old (n + 1))) (handle_session_association env header body src)
  unfolding handle_session_association
  association-Keeps n env header body src = search (
    reads,
    from_outcome-Keeps,
    decode_association_setup-total,
    on_server-Keeps,
    association-kept (n + 1),
  )

  modification-Keeps :
      (n : ℕ) (env : Env) (header : PfcpHeader) (body : Bytes) (src : SocketAddr)
      → Keeps (Of (IsServing old (n + 1))) (handle_session_modification env header body src)
  unfolding handle_session_modification
  modification-Keeps n env header body src =
      search
        (
          reads,
          from_outcome-Keeps,
          decode_session_modification-total,
          find_owner-Keeps (IsServing-Bears old (n + 1)),
          modify-Keeps (IsServing-Bears old (n + 1)),
        )
        depth 12

  deletion-Keeps :
      (n : ℕ) (header : PfcpHeader) (src : SocketAddr)
      → Keeps (Of (IsServing old (n + 1))) (handle_session_deletion header src)
  unfolding handle_session_deletion
  deletion-Keeps n header src =
      search
        (
          reads,
          find_owner-Keeps (IsServing-Bears old (n + 1)),
          remove_session-Keeps (IsServing-Bears old (n + 1)),
        )
        depth 12

  -- A handler of messages that ends with fresh SEIDs if there is room for one more.
  record Settles (n : ℕ) (m : Handler Bytes) : Type 0 where
    settled : (w : World) → Of (HasRoom old n) w → Ends (Of (IsServing old (n + 1))) (m w)

  by_test :
      (n : ℕ) (b : Bool) (m k : Handler Bytes)
      → Settles n m
      → Settles n k
      → Settles n (if b then m else k)
  by_test n true m k hm hk = hm
  by_test n false m k hm hk = hk

  by_Keeps : (n : ℕ) (m : Handler Bytes) → Keeps (Of (IsServing old (n + 1))) m → Settles n m
  by_Keeps n m h = record { settled = λ w g. h.kept w (HasRoom-IsServing old n w g) }

  establishment-Settles :
      (n : ℕ) (env : Env) (header : PfcpHeader) (body : Bytes) (src : SocketAddr)
      → Settles n (handle_session_establishment env header body src)
  establishment-Settles n env header body src = record {
    settled = λ w h. establishment-Ends n env header body src w h;
  }

  dispatch-Settles :
      (n : ℕ) (env : Env) (header : PfcpHeader) (body : Bytes) (src : SocketAddr)
      → Settles n (dispatch env header body src)
  unfolding dispatch
  dispatch-Settles n env header body src =
      search
        (
          by_test, establishment-Settles, by_Keeps, heartbeat-Keeps, association-Keeps,
          modification-Keeps, deletion-Keeps, return-Keeps, raise-Keeps,
        )
        depth 20

  pub handle_message-IsServing :
      (n : ℕ) (env : Env) (packet : Bytes) (src : SocketAddr) (w : World)
      → IsServing old n w.server
      → n + 1 < 2 ^ 64
      → Ends (Of (IsServing old (n + 1))) (handle_message env packet src w)
  unfolding handle_message
  handle_message-IsServing n env packet src w h room =
      then-Ends _ _ w (from_outcome-Keeps bad_header _ (decode-total packet))
        (HasRoom-IsServing old n)
        (λ decoded v g. (dispatch-Settles n env decoded.0 decoded.1 src).settled v g)
        (record { of_server = record { serving = h; room = room } })

  pub handle_message-IsCovered :
      (env : Env) (packet : Bytes) (src : SocketAddr) (w : World)
      → IsCovered old w.server
      → w.server.next_seid + 1 < 2 ^ 64
      → Ends (Of (IsCovered old)) (handle_message env packet src w)
  handle_message-IsCovered env packet src w h room =
      let n = w.server.next_seid in
      weaken (handle_message env packet src w) (IsServing-IsCovered old (n + 1)) (
        handle_message-IsServing n env packet src w (record { fresh = h; most = omega arith }) room)

-- Whatever bytes arrive and from wherever, the handler does not panic: it answers or fails, and
-- either way every session in the table has a local SEID below the next one to be given out, if this
-- holds before and the 64-bit counter is not used up.
pub handle_message-IsFresh :
    (env : Env) (packet : Bytes) (src : SocketAddr) (w : World)
    → IsFresh w.server
    → w.server.next_seid + 1 < 2 ^ 64
    → Ends (Of IsFresh) (handle_message env packet src w)
handle_message-IsFresh env packet src w h room =
    weaken (handle_message env packet src w) IsCovered-IsFresh
      (handle_message-IsCovered (λ seid. ⊥) env packet src w (IsFresh-IsCovered w.server h) room)
