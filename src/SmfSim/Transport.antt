-- ===== src/SmfSim/Transport.antt =====
-- smf-sim/src/transport.rs: a request and the wait for its response, with retries. What the network
-- does is given: for each attempt, whether the sending fails and what arrives before its deadline.
pub mod Retries
pub mod Heartbeat
use upf_edge.Prelude.{
  ℕ, zero, suc, ◌+◌, ◌%◌, ◌^◌, Bool, Option, none, some, List, [], ◌∷◌, ◌++◌, Outcome, ok, err,
  panic, if◌then◌else◌, ◌==◌,
}
use upf_edge.Bytes.{Bytes}
use upf_edge.ControlPlane.{SocketAddr}
use upf_edge.Pfcp.Build.{build_heartbeat_response}
use upf_edge.Pfcp.Header.{PfcpHeader, Result, decode}
use upf_edge.Pfcp.Types.{pfcp_heartbeat_req}
use upf_edge.SmfSim.{SimError, bad_response, send_error, recv_error, timed_out}

-- The result of `recv_from`; where a list of them ends, the deadline has passed.
pub data Arrival : Type 0 where
  datagram : (data_bytes : Bytes) (src : SocketAddr) → Arrival
  failure : Arrival

pub record Network : Type 0 where
  pub send_fails : ℕ → Bool
  pub arrivals : ℕ → List Arrival
  pub ntp : ℕ

-- The reply to a message that is not the awaited response; `ntp` is the current time.
abbrev reply_to : ℕ → Result (PfcpHeader × Bytes) → Option Bytes
reply_to ntp (ok (hdr, body)) =
    if hdr.msg_type == pfcp_heartbeat_req
    then some (build_heartbeat_response hdr.seq_num ntp)
    else none
reply_to ntp (err e) = none
reply_to ntp panic = none

unfoldable pub handle_unsolicited : ℕ → Bytes → Option Bytes
unfolding decode
handle_unsolicited ntp datum = reply_to ntp (decode datum)

abbrev pub sent : Option Bytes → SocketAddr → List (Bytes × SocketAddr) → List (Bytes × SocketAddr)
sent none src replies = replies
sent (some rsp) src replies = (rsp, src) ∷ replies

-- How an attempt ends: with the response, or with what `last_err` becomes.
pub data Heard : Type 0 where
  response : Bytes → Heard
  silence : SimError → Heard
  broken : Heard

abbrev heard_in :
    ℕ
    → ℕ
    → Bytes
    → SocketAddr
    → Result (PfcpHeader × Bytes)
    → Heard × List (Bytes × SocketAddr)
    → Heard × List (Bytes × SocketAddr)
heard_in expected ntp buf src (ok (hdr, body)) later =
    if hdr.msg_type == expected
    then (response buf, [])
    else (later.0, sent (handle_unsolicited ntp buf) src later.1)
heard_in expected ntp buf src (err e) later = later
heard_in expected ntp buf src panic later = (broken, [])

-- The inner loop, and the replies that it sends.
unfoldable pub listen : ℕ → ℕ → List Arrival → Heard × List (Bytes × SocketAddr)
unfolding decode handle_unsolicited
listen expected ntp [] = (silence timed_out, [])
listen expected ntp (failure ∷ arrivals) = (silence recv_error, [])
listen expected ntp (datagram buf src ∷ arrivals) =
    let later = listen expected ntp arrivals in heard_in expected ntp buf src (decode buf) later

pub record Exchange : Type 0 where
  pub result : Outcome SimError Bytes
  pub sends : ℕ
  pub replies : List (Bytes × SocketAddr)

-- `Err(last_err.unwrap())`
abbrev last_result : Option SimError → Outcome SimError Bytes
last_result none = panic
last_result (some e) = err e

-- After an attempt: the response, or the other attempts.
abbrev after : Heard → List (Bytes × SocketAddr) → (Option SimError → Exchange) → Exchange
after (response buf) replies others = record { result = ok buf; sends = 1; replies = replies }
after (silence e) replies others =
    let rest = others (some e) in
    record rest { sends = rest.sends + 1; replies = replies ++ rest.replies }
after broken replies others = record { result = panic; sends = 1; replies = replies }

-- The attempts from number `i` on, `n` of them.
unfoldable pub attempts : Network → ℕ → ℕ → ℕ → Option SimError → Exchange
unfolding listen
attempts network expected zero i last_err = record {
  result = last_result last_err;
  sends = 0;
  replies = [];
}
attempts network expected (suc n) i last_err =
    let heard = listen expected network.ntp (network.arrivals i) in
    let others = attempts network expected n (suc i) in
    if network.send_fails i
    then record { result = err send_error; sends = 0; replies = [] }
    else after heard.0 heard.1 others

-- The type of the awaited response is that of the request plus one.
abbrev exchange_of : Network → ℕ → Result (PfcpHeader × Bytes) → Exchange
exchange_of network max_retries (ok (hdr, body)) =
    attempts network ((hdr.msg_type + 1) % 2 ^ 8) (suc max_retries) 0 none
exchange_of network max_retries (err e) = record {
  result = err (bad_response e);
  sends = 0;
  replies = [];
}
exchange_of network max_retries panic = record { result = panic; sends = 0; replies = [] }

unfoldable pub send_and_recv : Network → ℕ → Bytes → Exchange
unfolding decode attempts
send_and_recv network max_retries msg = exchange_of network max_retries (decode msg)
