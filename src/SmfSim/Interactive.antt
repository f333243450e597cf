-- ===== src/SmfSim/Interactive.antt =====
-- smf-sim/src/tui/runner.rs: what the commands of the interactive mode do. A command runs to its end
-- before the next one; `X` is the world outside of the simulator, which the transport changes.
pub mod Numbering
pub mod Adding
pub mod Commands
use upf_edge.Prelude.{
  ℕ, zero, suc, ◌+◌, ◌%◌, ◌^◌, Option, none, some, List, [], ◌∷◌, ◌++◌, Outcome, ok, err, panic,
}
use upf_edge.Bytes.{Bytes}
use upf_edge.Pfcp.Build.{build_session_establishment_request}
use upf_edge.Pfcp.Types.{pfcp_session_deletion_req}
use upf_edge.SmfSim.{SimError}
use upf_edge.SmfSim.Keepalive.{heartbeat_request}
use upf_edge.SmfSim.Scenario.{Link, deletion_request}
use upf_edge.SmfSim.State.{
  SimState, SimSession, alloc_ue_ip, alloc_gnb_teid, alloc_cp_seid, next_seq_num, insert_session,
  remove_session,
}
use upf_edge.SmfSim.Validator.{validate_response, extract_session_info}

-- The events, with one constructor for each line of the log.
pub data AppEvent : Type 0 where
  no_ue_ip : SimError → AppEvent
  ue_ip_log : (ue_ip : ℕ) → AppEvent
  session_added : (ue_ip upf_seid : ℕ) → AppEvent
  no_session_info establishment_failed : SimError → AppEvent
  sessions_updated : (ℕ → Option SimSession) → AppEvent
  session_deleted no_session : (seid : ℕ) → AppEvent
  deletion_failed : SimError → AppEvent
  heartbeat_ok heartbeat_updated : AppEvent
  heartbeat_failed : SimError → AppEvent

-- The commands that use the transport.
pub data Command : Type 0 where
  add_session : (count : ℕ) → Command
  del_session : (seid : ℕ) → Command
  heartbeat : Command

pub record Console (X : Type 0) : Type 0 where
  pub state : SimState
  pub outside : X
  pub events : List AppEvent

-- Where a part of a command ends: it goes on, the command returns, or it panics.
pub data Step (X : Type 0) : Type 0 where
  going ended broken : Console X → Step X

module _ {X : Type 0} where
  abbrev pub emit : AppEvent → Console X → Console X
  emit event c = record c { events = c.events ++ (event ∷ []) }

  abbrev pub continue : Step X → (Console X → Step X) → Step X
  continue (going c) f = f c
  continue (ended c) f = ended c
  continue (broken c) f = broken c

  -- What the establishment's response does; it is not validated.
  abbrev pub after_info : SimSession → Outcome SimError (ℕ × ℕ × ℕ) → Console X → Step X
  after_info session (ok (upf_seid, upf_teid, upf_n3_addr)) c =
      let added = record session {
        upf_seid = upf_seid;
        upf_teid = upf_teid;
        upf_n3_addr = upf_n3_addr;
      } in
      going (
        emit (session_added session.ue_ip upf_seid)
          (record c { state = insert_session added c.state }))
  after_info session (err e) c = going (emit (no_session_info e) c)
  after_info session panic c = broken c

  abbrev pub after_response : SimSession → Outcome SimError Bytes → Console X → Step X
  after_response session (ok rsp) c = after_info session (extract_session_info rsp) c
  after_response session (err e) c = going (emit (establishment_failed e) c)
  after_response session panic c = broken c

  abbrev pub show_sessions : Console X → Step X
  show_sessions c = going (emit (sessions_updated c.state.sessions) c)

-- A session without the UPF's numbers, which the response gives.
abbrev pub prepared : (cp_seid ue_ip gnb_teid now : ℕ) → SimSession
prepared cp_seid ue_ip gnb_teid now = record {
  cp_seid = cp_seid;
  upf_seid = 0;
  upf_teid = 0;
  upf_n3_addr = 0;
  ue_ip = ue_ip;
  gnb_teid = gnb_teid;
  created_at = now;
}

-- `now` is the instant of an establishment, and `ntp` the NTP time of a heartbeat.
module _ {X : Type 0} (link : Link X) (smf_addr gnb_addr now ntp : ℕ) where
  -- The exchange for a prepared session.
  abbrev pub exchange_for : SimSession → Bytes → Console X → Step X
  exchange_for session req c =
      let (result, y) = link c.outside req in
      continue (after_response session result (record c { outside = y })) show_sessions

  -- One session, once its address is allocated.
  unfoldable pub add_with : (seq ue_ip : ℕ) → SimState → Console X → Step X
  unfolding alloc_gnb_teid alloc_cp_seid build_session_establishment_request extract_session_info
  add_with seq ue_ip s c =
      let (gnb_teid, s) = alloc_gnb_teid s in
      let (cp_seid, s) = alloc_cp_seid s in
      let req = build_session_establishment_request seq smf_addr cp_seid ue_ip gnb_addr gnb_teid in
      exchange_for (prepared cp_seid ue_ip gnb_teid now) req
        (emit (ue_ip_log ue_ip) (record c { state = s }))

  abbrev pub add_if : ℕ → Outcome SimError (ℕ × SimState) → SimState → Console X → Step X
  add_if seq (ok (ue_ip, s)) t c = add_with seq ue_ip s c
  add_if seq (err e) t c = ended (emit (no_ue_ip e) (record c { state = t }))
  add_if seq panic t c = broken c

  unfoldable pub add_one : Console X → Step X
  unfolding next_seq_num alloc_ue_ip add_with
  add_one c = let (seq, s) = next_seq_num c.state in add_if seq (alloc_ue_ip s) s c

  unfoldable pub add_sessions : ℕ → Console X → Step X
  unfolding add_one
  add_sessions zero c = going c
  add_sessions (suc count) c = continue (add_one c) (add_sessions count)

  -- The result of the validation is dropped.
  abbrev pub forget : ℕ → Outcome SimError (Unit {0}) → Console X → Step X
  forget seid panic c = broken c
  forget seid result c =
      let c = record c { state = remove_session seid c.state } in
      continue (show_sessions c) (λ c. going (emit (session_deleted seid) c))

  abbrev pub after_deletion : (seid seq : ℕ) → Outcome SimError Bytes → Console X → Step X
  after_deletion seid seq (ok rsp) c =
      forget seid (validate_response pfcp_session_deletion_req seq rsp) c
  after_deletion seid seq (err e) c = going (emit (deletion_failed e) c)
  after_deletion seid seq panic c = broken c

  abbrev pub delete_found : ℕ → Option SimSession → Console X → Step X
  delete_found seid none c = going (emit (no_session seid) c)
  delete_found seid (some session) c =
      let (seq, s) = next_seq_num c.state in
      let (result, y) = link c.outside (deletion_request seq session.upf_seid) in
      after_deletion seid seq result (record c { state = s; outside = y })

  -- The session is looked for under its CP SEID.
  unfoldable pub delete_session : ℕ → Console X → Step X
  unfolding next_seq_num deletion_request validate_response
  delete_session seid c = delete_found seid (c.state.sessions seid) c

  abbrev pub after_heartbeat : Outcome SimError Bytes → Console X → Step X
  after_heartbeat (ok rsp) c = going (emit heartbeat_updated (emit heartbeat_ok c))
  after_heartbeat (err e) c = going (emit (heartbeat_failed e) c)
  after_heartbeat panic c = broken c

  unfoldable pub send_heartbeat : Console X → Step X
  unfolding next_seq_num heartbeat_request
  send_heartbeat c =
      let (seq, s) = next_seq_num c.state in
      let (result, y) = link c.outside (heartbeat_request seq ntp) in
      after_heartbeat result (record c { state = s; outside = y })

  unfoldable pub handle_async_command : Command → Console X → Step X
  unfolding add_sessions delete_session send_heartbeat
  handle_async_command (add_session count) c = add_sessions count c
  handle_async_command (del_session seid) c = delete_session seid c
  handle_async_command heartbeat c = send_heartbeat c
