-- ===== src/SmfSim/Interactive/Commands.antt =====
-- smf-sim/src/tui/runner.rs: the sessions of the simulator after a command.
use upf_edge.Prelude.{ℕ, ◌+◌, ◌%◌, ◌^◌, ◌<◌, Option, none, some, Outcome, ok, err, panic}
use upf_edge.Bytes.{Bytes}
use upf_edge.SmfSim.{SimError}
use upf_edge.SmfSim.State.{SimState, SimSession, next_seq_num}
use upf_edge.SmfSim.Scenario.{Link, deletion_request}
use upf_edge.SmfSim.Interactive.{
  Console, Command, add_session, del_session, heartbeat, handle_async_command, delete_session,
  send_heartbeat, forget, after_deletion, delete_found, after_heartbeat,
}
use upf_edge.SmfSim.Validator.{validate_response}
use upf_edge.SmfSim.Keepalive.{heartbeat_request}
use upf_edge.Pfcp.Types.{pfcp_session_deletion_req}
use upf_edge.SmfSim.Interactive.Adding.{add_sessions-Extends}
use upf_edge.SmfSim.Interactive.Numbering.{IsNumbered, state_of, unchanged, removed, Safe, adds}

module _ {X : Type 0} (link : Link X) (smf_addr gnb_addr now ntp : ℕ) where
  -- What a response to a deletion, or none, does to the sessions.
  forget-Safe :
      (seid : ℕ) (r : Outcome SimError (Unit {0})) (c : Console X)
      → IsNumbered c.state
      → Safe (del_session seid) c.state (state_of (forget link smf_addr gnb_addr now ntp seid r c))
  forget-Safe seid (ok u) c h = removed seid c.state h
  forget-Safe seid (err e) c h = removed seid c.state h
  forget-Safe seid panic c h = unchanged (del_session seid) c.state h

  deletion-Safe :
      (seid seq : ℕ) (r : Outcome SimError Bytes) (c : Console X)
      → IsNumbered c.state
      → Safe
          (del_session seid)
          c.state
          (state_of (after_deletion link smf_addr gnb_addr now ntp seid seq r c))
  deletion-Safe seid seq (ok rsp) c h =
      forget-Safe seid (validate_response pfcp_session_deletion_req seq rsp) c h
  deletion-Safe seid seq (err e) c h = unchanged (del_session seid) c.state h
  deletion-Safe seid seq panic c h = unchanged (del_session seid) c.state h

  found-Safe :
      (seid : ℕ) (found : Option SimSession) (c : Console X)
      → IsNumbered c.state
      → Safe
          (del_session seid)
          c.state
          (state_of (delete_found link smf_addr gnb_addr now ntp seid found c))
  unfolding next_seq_num
  found-Safe seid none c h = unchanged (del_session seid) c.state h
  found-Safe seid (some session) c h =
      let s = c.state in
      let u : SimState = record s { next_seq = (s.next_seq + 1) % 2 ^ 32 } in
      let g : IsNumbered u = record { own = h.own; allocated = h.allocated } in
      let (result, y) = link c.outside (deletion_request s.next_seq session.upf_seid) in
      let safe = deletion-Safe seid s.next_seq result (record c { state = u; outside = y }) g in
      record { numbered = safe.numbered; kept = safe.kept }

  heartbeat-Safe :
      (r : Outcome SimError Bytes) (c : Console X)
      → IsNumbered c.state
      → Safe heartbeat c.state (state_of (after_heartbeat link smf_addr gnb_addr now ntp r c))
  heartbeat-Safe (ok rsp) c h = unchanged heartbeat c.state h
  heartbeat-Safe (err e) c h = unchanged heartbeat c.state h
  heartbeat-Safe panic c h = unchanged heartbeat c.state h

-- Whatever the UPF answers, also where a session fails, the addresses are exhausted or a command
-- panics: a command keeps every session under its own CP SEID, below the next one, and loses no session
-- but the one that it is to delete, if the counter of CP SEIDs does not wrap around.
pub handle_async_command-Safe :
    {X : Type 0} (link : Link X) (smf_addr gnb_addr now ntp : ℕ) (cmd : Command) (c : Console X)
    → IsNumbered c.state
    → c.state.next_cp_seid + adds cmd < 2 ^ 64
    → Safe cmd c.state (state_of (handle_async_command link smf_addr gnb_addr now ntp cmd c))
unfolding handle_async_command delete_session send_heartbeat next_seq_num
handle_async_command-Safe link smf_addr gnb_addr now ntp (add_session count) c h fits =
    let e = add_sessions-Extends link smf_addr gnb_addr now ntp count c h fits in
    record { numbered = e.numbered; kept = λ k d spared. e.kept k d }
handle_async_command-Safe link smf_addr gnb_addr now ntp (del_session seid) c h fits =
    found-Safe link smf_addr gnb_addr now ntp seid (c.state.sessions seid) c h
handle_async_command-Safe link smf_addr gnb_addr now ntp heartbeat c h fits =
    let s = c.state in
    let u : SimState = record s { next_seq = (s.next_seq + 1) % 2 ^ 32 } in
    let g : IsNumbered u = record { own = h.own; allocated = h.allocated } in
    let (result, y) = link c.outside (heartbeat_request s.next_seq ntp) in
    let safe =
      heartbeat-Safe link smf_addr gnb_addr now ntp result (record c { state = u; outside = y })
        g in
    record { numbered = safe.numbered; kept = safe.kept }
