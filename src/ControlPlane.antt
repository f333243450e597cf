-- ===== src/ControlPlane.antt =====
-- upf-edge/src/pfcp_server.rs and association.rs: the server's state. The handlers run under the
-- server's lock, so a request is one function from a world to a world; a `HashMap` of associations is
-- the list of its entries in the order of iteration, and every other map is its lookup.
pub mod Node
pub mod Establish
pub mod Modify
pub mod Delete
pub mod Dispatch
pub mod Reporter
pub mod Keeps
pub mod Gives
pub mod Invariant
pub mod Serving
pub mod Fresh
pub mod Running
pub mod Rejecting
pub mod Frame
pub mod Reaches
pub mod Owning
pub mod Deleting
pub mod Modifying
pub mod Establishing
pub mod Apart
use upf_edge.Prelude.{
  ℕ, ◌+◌, ◌%◌, ◌^◌, Bool, true, false, ◌&&◌, Option, none, some, List, [], ◌∷◌, ◌++◌, Outcome, ok,
  err, panic, if◌then◌else◌, ◌==◌, update,
}
use upf_edge.Bytes.{Bytes}
use upf_edge.DataPlane.Rules.{Maps}
use upf_edge.Pfcp.Header.{PfcpError}
use upf_edge.Pfcp.Messages.{MessageError}

-- `std::net::SocketAddr`: address and port, and for IPv6 also flow info and scope.
pub data SocketAddr : Type 0 where
  v4 : (ip port : ℕ) → SocketAddr
  v6 : (ip port flowinfo scope : ℕ) → SocketAddr

abbrev pub same_addr : SocketAddr → SocketAddr → Bool
same_addr (v4 i p) (v4 j q) = i == j && p == q
same_addr (v6 i p f s) (v6 j q g t) = i == j && p == q && f == g && s == t
same_addr a b = false

pub record SessionData : Type 0 where
  pub ue_ip : ℕ
  pub teid : ℕ
  pub gnb_ip : ℕ
  pub cp_seid : ℕ

pub record UrrConfig : Type 0 where
  pub urr_id : ℕ
  pub seid : ℕ
  pub cp_seid : ℕ
  pub measurement_method : ℕ
  pub reporting_triggers : ℕ
  pub volume_threshold_total : Option ℕ
  pub measurement_period : Option ℕ
  pub last_report : ℕ
  pub threshold_reported : Bool
  pub ur_seqn : ℕ

pub data AssociationState : Type 0 where
  active heartbeat_time_out : AssociationState

pub record HeartbeatTracker : Type 0 where
  pub next_seq : ℕ
  pub last_sent : Option ℕ
  pub last_response : Option ℕ
  pub consecutive_failures : ℕ

pub record SmfAssociation : Type 0 where
  pub node_id : ℕ
  pub peer_addr : SocketAddr
  pub recovery_ts : ℕ
  pub state : AssociationState
  pub sessions : ℕ → Option SessionData
  pub last_activity : ℕ
  pub heartbeat : HeartbeatTracker

pub record PfcpServer : Type 0 where
  pub n4_addr : ℕ
  pub n3_addr : ℕ
  pub recovery_ts : ℕ
  pub associations : List (ℕ × SmfAssociation)
  pub next_seid : ℕ
  pub next_teid : ℕ
  pub sessions : ℕ → Option SessionData
  pub urr_configs : ℕ → ℕ → Option UrrConfig
  pub peer_addr : Option SocketAddr
  pub last_activity : ℕ
  pub has_store : Bool
  pub next_report_seq : ℕ

-- What a handler starts outside of the server: tasks that write to the session store, and `ip`
-- commands.
pub data Effect : Type 0 where
  save : (seid : ℕ) → SessionData → Effect
  delete : (seid : ℕ) → Effect
  setup_ue_route teardown_ue_route : (ue_ip : ℕ) → Effect

-- `maps` are the eBPF maps, of one CPU where they are per CPU.
pub record World : Type 0 where
  pub server : PfcpServer
  pub maps : Maps
  pub effects : List Effect

-- The clock, and whether a full eBPF map takes one more key.
pub record Env : Type 0 where
  pub now : ℕ
  pub session_room : ℕ → Bool
  pub pdr_room : ℕ → Bool
  pub far_room : ℕ → Bool
  pub urr_room : ℕ → Bool

-- The `anyhow` errors of the handlers.
pub data Failure : Type 0 where
  bad_header : PfcpError → Failure
  bad_message : MessageError → Failure
  non_ipv4_source no_association not_owned no_ue_ip no_outer_header missing_seid map_full : Failure
  unknown_seid unhandled_type : ℕ → Failure

-- An error keeps what was written before it.
pub data Answer (A : Type 0) : Type 0 where
  done : A → World → Answer A
  failed : Failure → World → Answer A
  crashed : World → Answer A

abbrev pub Handler : Type 0 → Type 0
Handler A = World → Answer A

abbrev pub continue : {A B : Type 0} → Answer A → (A → Handler B) → Answer B
continue (done a w) f = f a w
continue (failed e w) f = failed e w
continue (crashed w) f = crashed w

infixl 5 ◌>>=◌ ◌>>◌
abbrev pub ◌>>=◌ : {A B : Type 0} → Handler A → (A → Handler B) → Handler B
(m >>= f) w = continue (m w) f

abbrev pub ◌>>◌ : {B : Type 0} → Handler (Unit {0}) → Handler B → Handler B
m >> k = m >>= λ _. k

abbrev pub return : {A : Type 0} → A → Handler A
return a w = done a w

abbrev pub raise : {A : Type 0} → Failure → Handler A
raise e w = failed e w

abbrev pub from_outcome : {E A : Type 0} → (E → Failure) → Outcome E A → Handler A
from_outcome f (ok a) w = done a w
from_outcome f (err e) w = failed (f e) w
from_outcome f panic w = crashed w

abbrev pub or_fail : {A : Type 0} → Option A → Failure → Handler A
or_fail none e w = failed e w
or_fail (some a) e w = done a w

abbrev pub asks : {A : Type 0} → (World → A) → Handler A
asks f w = done (f w) w

abbrev pub on_server : (PfcpServer → PfcpServer) → Handler (Unit {0})
on_server f w = done tt (record w { server = f w.server })

abbrev pub on_maps : (Maps → Maps) → Handler (Unit {0})
on_maps f w = done tt (record w { maps = f w.maps })

abbrev pub emit : Effect → Handler (Unit {0})
emit e w = done tt (record w { effects = w.effects ++ (e ∷ []) })

-- `alloc_seid` and `alloc_teid`
unfoldable pub alloc_seid : Handler ℕ
alloc_seid w =
    done w.server.next_seid
      (record w { server = record w.server { next_seid = (w.server.next_seid + 1) % 2 ^ 64 } })

unfoldable pub alloc_teid : Handler ℕ
alloc_teid w =
    done w.server.next_teid
      (record w { server = record w.server { next_teid = (w.server.next_teid + 1) % 2 ^ 32 } })

-- `associations.get`, `get_mut` with a change, and `insert`.
abbrev pub get_assoc : ℕ → List (ℕ × SmfAssociation) → Option SmfAssociation
get_assoc k [] = none
get_assoc k ((j, a) ∷ rest) = if k == j then some a else get_assoc k rest

abbrev pub change_assoc :
    (SmfAssociation → SmfAssociation) → ℕ → List (ℕ × SmfAssociation) → List (ℕ × SmfAssociation)
change_assoc f k [] = []
change_assoc f k ((j, a) ∷ rest) =
    if k == j then (j, f a) ∷ rest else (j, a) ∷ change_assoc f k rest

abbrev pub insert_assoc : ℕ → SmfAssociation → List (ℕ × SmfAssociation) → List (ℕ × SmfAssociation)
insert_assoc k a [] = (k, a) ∷ []
insert_assoc k a ((j, b) ∷ rest) = if k == j then (j, a) ∷ rest else (j, b) ∷ insert_assoc k a rest

-- `associations.values_mut().find(|a| a.peer_addr == src)`
unfoldable pub find_by_addr : SocketAddr → List (ℕ × SmfAssociation) → Option SmfAssociation
find_by_addr src [] = none
find_by_addr src ((j, a) ∷ rest) =
    if same_addr a.peer_addr src then some a else find_by_addr src rest

abbrev is_v4 : SocketAddr → Bool
is_v4 (v4 ip port) = true
is_v4 (v6 ip port flowinfo scope) = false

abbrev pub require : Bool → Failure → Handler (Unit {0})
require true e w = done tt w
require false e w = failed e w

-- The check of the source at the start of the handlers of sessions.
unfoldable pub find_source : SocketAddr → Handler SmfAssociation
unfolding find_by_addr
find_source src = do
  require (is_v4 src) non_ipv4_source
  associations ← asks (λ w. w.server.associations)
  or_fail (find_by_addr src associations) no_association

abbrev pub is_some : {A : Type 0} → Option A → Bool
is_some none = false
is_some (some a) = true

-- The check of the owner, in modification and deletion.
unfoldable pub find_owner : SocketAddr → ℕ → Handler ℕ
unfolding find_source
find_owner src cp_seid = do
  assoc ← find_source src
  require (is_some (assoc.sessions cp_seid)) not_owned
  return assoc.node_id

-- `map.insert(key, value, 0)` on an eBPF map: the changed map, if it has the key or room for it.
abbrev pub put_over : {M V : Type 0} → Option V → Bool → M → Option M
put_over (some old) room map = some map
put_over none true map = some map
put_over none false map = none

abbrev pub put : {V : Type 0} → (ℕ → Bool) → (ℕ → Option V) → ℕ → V → Option (ℕ → Option V)
put room map key value = put_over (map key) (room key) (update map key (some value))
