-- ===== src/ControlPlane/Running.antt =====
-- upf-edge/src/pfcp_server.rs: the start of the server, its tasks, and what they do to the state. A task
-- holds the server's lock for each of the functions below, so a run is a sequence of them. Instants
-- are nanoseconds.
pub mod Reach
pub mod Restore
use upf_edge.Prelude.{
  ℕ, ◌+◌, ◌-◌, ◌*◌, ◌%◌, ◌^◌, Bool, true, false, Option, none, some, List, [], ◌∷◌, ◌++◌,
  if◌then◌else◌, leb, update,
}
use upf_edge.Bytes.{Bytes}
use upf_edge.Common.{UrrStats}
use upf_edge.ControlPlane.{
  SocketAddr, SessionData, SmfAssociation, PfcpServer, World, Env, Answer, done, failed, crashed,
}
use upf_edge.ControlPlane.Dispatch.{handle_message}
use upf_edge.ControlPlane.Reporter.{tick, from_secs}
use upf_edge.DataPlane.Rules.{Maps}
use upf_edge.Pfcp.Builder.{new, add_recovery_timestamp, finish}
use upf_edge.Pfcp.Header.{new_node_msg}
use upf_edge.Pfcp.Types.{pfcp_heartbeat_req}

-- `PfcpServer::new`; `unix` is the time in seconds since 1970.
abbrev pub new_server : (unix now n4_addr n3_addr : ℕ) → PfcpServer
new_server unix now n4_addr n3_addr = record {
  n4_addr = n4_addr;
  n3_addr = n3_addr;
  recovery_ts = (unix % 2 ^ 32 + 2208980800) % 2 ^ 32;
  associations = [];
  next_seid = 1;
  next_teid = 1000;
  sessions = λ seid. none;
  urr_configs = λ seid urr_id. none;
  peer_addr = none;
  last_activity = now;
  has_store = false;
  next_report_seq = 1000;
}

-- The loop over the sessions that the store gives at the start.
unfoldable pub restore : List (ℕ × SessionData) → PfcpServer → PfcpServer
restore [] srv = srv
restore ((seid, session) ∷ stored) srv =
    restore stored (record srv { sessions = update srv.sessions seid (some session) })

abbrev pub touch_activity : ℕ → PfcpServer → PfcpServer
touch_activity now srv = record srv { last_activity = now }

-- The heartbeat request of the keepalive task.
unfoldable pub heartbeat_request : (unix seq : ℕ) → Bytes
unfolding new add_recovery_timestamp finish
heartbeat_request unix seq =
    let msg = new (new_node_msg pfcp_heartbeat_req seq) in
    finish (add_recovery_timestamp msg ((unix % 2 ^ 32 + 2208988800) % 2 ^ 32))

abbrev pub to_peer : Bytes → Option SocketAddr → Option (Bytes × SocketAddr)
to_peer msg none = none
to_peer msg (some peer) = some (msg, peer)

-- The request to send, if the server has been idle for the interval and knows its peer; the sequence
-- number then goes up by one.
unfoldable pub check_keepalive :
    (interval unix now seq : ℕ) → PfcpServer → Option (Bytes × SocketAddr)
unfolding heartbeat_request
check_keepalive interval unix now seq srv =
    if leb interval (now - srv.last_activity)
    then to_peer (heartbeat_request unix seq) srv.peer_addr
    else none

-- `sleep_dur`, which the keepalive task computes once.
abbrev pub sleep_dur : ℕ → PfcpServer → ℕ
sleep_dur now srv =
    let interval = from_secs 15 in
    let elapsed = now - srv.last_activity in
    if leb interval elapsed then 10 ^ 6 else interval - elapsed

-- The server with its tasks: the keepalive's counter, and what was sent.
pub record System : Type 0 where
  pub world : World
  pub keepalive_seq : ℕ
  pub outbox : List (Bytes × SocketAddr)

-- The state before the first datagram, with the sessions that the store gives.
abbrev pub start_up :
    (unix now n4_addr n3_addr : ℕ) → (has_store : Bool) → List (ℕ × SessionData) → Maps → System
start_up unix now n4_addr n3_addr has_store stored maps = record {
  world = record {
    server =
        restore stored (record (new_server unix now n4_addr n3_addr) { has_store = has_store });
    maps = maps;
    effects = [];
  };
  keepalive_seq = 200;
  outbox = [];
}

abbrev pub on_system : (PfcpServer → PfcpServer) → System → System
on_system f s = record s { world = record s.world { server = f s.world.server } }

-- `if !response.is_empty() { socket.send_to(..) }`
abbrev pub post : Bytes → SocketAddr → List (Bytes × SocketAddr) → List (Bytes × SocketAddr)
post [] src outbox = outbox
post (b ∷ rsp) src outbox = outbox ++ ((b ∷ rsp, src) ∷ [])

abbrev pub answered : SocketAddr → Answer Bytes → System → System
answered src (done rsp w) s = record s { world = w; outbox = post rsp src s.outbox }
answered src (failed e w) s = record s { world = w }
answered src (crashed w) s = record s { world = w }

-- One datagram, after its `touch_activity`.
unfoldable pub receive : Env → Bytes → SocketAddr → System → System
unfolding handle_message
receive env packet src s = answered src (handle_message env packet src s.world) s

abbrev pub kept_alive : ℕ → Bool → Option (Bytes × SocketAddr) → System → System
kept_alive now send_ok none s = s
kept_alive now false (some req) s = record s { keepalive_seq = (s.keepalive_seq + 1) % 2 ^ 32 }
kept_alive now true (some req) s =
    on_system (touch_activity now)
      (record s { keepalive_seq = (s.keepalive_seq + 1) % 2 ^ 32; outbox = s.outbox ++ (req ∷ []) })

-- One round of the keepalive task, after its sleep.
unfoldable pub keepalive : (unix now : ℕ) → (send_ok : Bool) → System → System
unfolding check_keepalive
keepalive unix now send_ok s =
    kept_alive now send_ok (check_keepalive (from_secs 15) unix now s.keepalive_seq s.world.server)
      s

abbrev swapped : List (SocketAddr × Bytes) → List (Bytes × SocketAddr)
swapped [] = []
swapped ((peer, req) ∷ to_send) = (req, peer) ∷ swapped to_send

-- One tick of the usage reporter, with the entries of the usage map.
unfoldable pub report : ℕ → List (ℕ × List UrrStats) → System → System
unfolding tick
report now entries s =
    let (srv, to_send) = tick now entries s.world.server in
    on_system (λ old. srv) (record s { outbox = s.outbox ++ swapped to_send })
