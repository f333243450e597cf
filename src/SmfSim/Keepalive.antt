-- ===== src/SmfSim/Keepalive.antt =====
-- smf-sim/src/keepalive.rs: the task that sends heartbeats and notices a restart of the UPF. `X` is the
-- world outside of the simulator, which the transport changes; durations are nanoseconds.
pub mod Rejoining
use upf_edge.Prelude.{
  ℕ, ◌+◌, ◌-◌, ◌%◌, ◌^◌, Option, none, some, List, [], ◌∷◌, ◌++◌, Outcome, ok, err, panic, ◌>>=◌,
  ◌>>◌, if◌then◌else◌, ◌==◌, leb,
}
use upf_edge.Bytes.{Bytes}
use upf_edge.ControlPlane.Reporter.{from_secs}
use upf_edge.Pfcp.Builder.{new, add_recovery_timestamp, finish}
use upf_edge.Pfcp.Header.{new_node_msg}
use upf_edge.Pfcp.Types.{pfcp_heartbeat_req, pfcp_association_setup_req}
use upf_edge.SmfSim.{SimError}
use upf_edge.SmfSim.Scenario.{Link, association_request}
use upf_edge.SmfSim.Validator.{validate_response, extract_recovery_ts}

pub data KeepaliveEvent : Type 0 where
  upf_restarted : (new_ts : ℕ) → KeepaliveEvent

-- What the task shares with the others: the counter of sequence numbers, the UPF's time stamp (0 as
-- long as it is not known), and the events offered to the channel, which loses them when it is full.
pub record Keeping : Type 0 where
  pub next_seq : ℕ
  pub upf_ts : ℕ
  pub events : List KeepaliveEvent

-- How a round of the loop ends: after sleeping for a time in all, or with a panic.
pub data Round (X : Type 0) : Type 0 where
  slept : (duration : ℕ) → Keeping → X → Round X
  broken : Keeping → X → Round X

-- `let n = *s; *s += 1; n`, the counter's part
abbrev pub taken : Keeping → Keeping
taken k = record k { next_seq = (k.next_seq + 1) % 2 ^ 32 }

unfoldable pub heartbeat_request : (seq ts : ℕ) → Bytes
unfolding new add_recovery_timestamp finish
heartbeat_request seq ts =
    let msg = new (new_node_msg pfcp_heartbeat_req seq) in finish (add_recovery_timestamp msg ts)

-- `my_ts` is the result of `recovery_ts`.
module _ {X : Type 0} (link : Link X) (smf_addr my_ts : ℕ) where
  abbrev judged : ℕ → Outcome SimError Bytes → Outcome SimError (Option ℕ)
  judged seq result = do
    rsp ← result
    validate_response pfcp_association_setup_req seq rsp
    extract_recovery_ts rsp

  -- The request is built as in the scenario.
  unfoldable pub do_association : ℕ → X → Outcome SimError (Option ℕ) × X
  unfolding association_request validate_response extract_recovery_ts
  do_association seq x =
      let (result, y) = link x (association_request seq smf_addr my_ts) in (judged seq result, y)

  abbrev pub after_association : ℕ → Keeping → Outcome SimError (Option ℕ) → X → Round X
  after_association duration k (ok (some ts)) x = slept duration (record k { upf_ts = ts }) x
  after_association duration k (ok none) x = slept duration k x
  after_association duration k (err e) x = slept duration k x
  after_association duration k panic x = broken k x

  -- The association with the next sequence number.
  unfoldable pub reassociate : ℕ → Keeping → X → Round X
  unfolding do_association
  reassociate duration k x =
      let (result, y) = do_association k.next_seq x in after_association duration (taken k) result y

  -- What the time stamp of a heartbeat response does.
  unfoldable pub compare_ts : ℕ → ℕ → Keeping → X → Round X
  unfolding reassociate
  compare_ts ht_interval recv k x =
      let stored = k.upf_ts % 2 ^ 32 in
      let known = record k { upf_ts = recv } in
      let restarted = record known { events = k.events ++ (upf_restarted recv ∷ []) } in
      let again = reassociate ht_interval restarted x in
      if stored == 0
      then slept ht_interval known x
      else if stored == recv
      then slept ht_interval k x
      else again

  abbrev stamped : ℕ → Outcome SimError (Option ℕ) → Keeping → X → Round X
  stamped ht_interval (ok (some recv)) k x = compare_ts ht_interval recv k x
  stamped ht_interval (ok none) k x = slept ht_interval k x
  stamped ht_interval (err e) k x = slept ht_interval k x
  stamped ht_interval panic k x = broken k x

  -- The time stamp is taken from the response by the expression that `extract_recovery_ts` has too.
  -- A response that cannot be decoded has none; without a response the task sleeps five seconds more.
  abbrev after_heartbeat : ℕ → Outcome SimError Bytes → Keeping → X → Round X
  after_heartbeat ht_interval (ok rsp) k x = stamped ht_interval (extract_recovery_ts rsp) k x
  after_heartbeat ht_interval (err e) k x = reassociate (from_secs 5 + ht_interval) k x
  after_heartbeat ht_interval panic k x = broken k x

  -- A round of the loop, `elapsed` after the transport's last activity.
  unfoldable pub keepalive_round : (ht_interval elapsed : ℕ) → Keeping → X → Round X
  unfolding compare_ts reassociate extract_recovery_ts heartbeat_request
  keepalive_round ht_interval elapsed k x =
      let (result, y) = link x (heartbeat_request k.next_seq my_ts) in
      if leb ht_interval elapsed
      then after_heartbeat ht_interval result (taken k) y
      else slept (ht_interval - elapsed) k x
