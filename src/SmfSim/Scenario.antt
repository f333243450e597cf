-- ===== src/SmfSim/Scenario.antt =====
-- smf-sim/src/scenario/basic_lifecycle.rs: association, establishment, modification and deletion of one
-- session. `X` is the world outside of the simulator, which the transport changes.
pub mod Requests
pub mod Passing
use upf_edge.Prelude.{ℕ, zero, suc, some, none, true, false, Outcome, ok, err, panic, []}
use upf_edge.Bytes.{Bytes}
use upf_edge.Pfcp.Builder.{
  PdrParams, FarParams, new, finish, add_node_id_v4, add_recovery_timestamp, add_fseid,
  add_create_pdr, add_create_far, add_update_far,
}
use upf_edge.Pfcp.Header.{new_node_msg, new_session_msg}
use upf_edge.Pfcp.Types.{
  pfcp_association_setup_req, pfcp_session_establishment_req, pfcp_session_modification_req,
  pfcp_session_deletion_req, interface_access, interface_core, action_forw,
}
use upf_edge.SmfSim.{SimError}
use upf_edge.SmfSim.Config.{SimConfig}
use upf_edge.SmfSim.State.{
  SimState, SimSession, alloc_ue_ip, alloc_gnb_teid, alloc_cp_seid, next_seq_num, insert_session,
  remove_session,
}
use upf_edge.SmfSim.Validator.{validate_response, extract_session_info}

unfoldable pub association_request : (seq smf_addr ts : ℕ) → Bytes
unfolding new add_node_id_v4 add_recovery_timestamp finish
association_request seq smf_addr ts =
    let msg = new (new_node_msg pfcp_association_setup_req seq) in
    let msg = add_node_id_v4 msg smf_addr in finish (add_recovery_timestamp msg ts)

abbrev pub uplink_pdr : (ue_ip gnb_addr : ℕ) → PdrParams
uplink_pdr ue_ip gnb_addr = record {
  pdr_id = 1;
  precedence = 100;
  source_interface = interface_access;
  fteid_choose = true;
  ue_ip = some ue_ip;
  far_id = 1;
  urr_id = none;
  outer_header_removal = true;
  sdf_filter = some (record {
    proto = 0x06;
    src_ip = ue_ip;
    dst_ip = gnb_addr;
    src_port = 1234;
    dst_port = 5678;
  });
}

abbrev pub downlink_pdr : (ue_ip gnb_addr : ℕ) → PdrParams
downlink_pdr ue_ip gnb_addr = record {
  pdr_id = 2;
  precedence = 100;
  source_interface = interface_core;
  fteid_choose = false;
  ue_ip = some ue_ip;
  far_id = 2;
  urr_id = none;
  outer_header_removal = false;
  sdf_filter = some (record {
    proto = 0x06;
    src_ip = ue_ip;
    dst_ip = gnb_addr;
    src_port = 1234;
    dst_port = 5678;
  });
}

abbrev pub uplink_far : FarParams
uplink_far = record {
  far_id = 1;
  apply_action = action_forw;
  dest_interface = interface_core;
  outer_header_creation = none;
}

abbrev pub downlink_far : (gnb_addr gnb_teid : ℕ) → FarParams
downlink_far gnb_addr gnb_teid = record {
  far_id = 2;
  apply_action = action_forw;
  dest_interface = interface_access;
  outer_header_creation = some (record { teid = gnb_teid; peer_addr = gnb_addr; port = 2152 });
}

unfoldable pub establishment_request : (seq smf_addr cp_seid ue_ip gnb_addr gnb_teid : ℕ) → Bytes
unfolding new add_node_id_v4 add_fseid add_create_pdr add_create_far finish
establishment_request seq smf_addr cp_seid ue_ip gnb_addr gnb_teid =
    let msg = new (new_session_msg pfcp_session_establishment_req 0 seq) in
    let msg = add_node_id_v4 msg smf_addr in
    let msg = add_fseid msg cp_seid smf_addr in
    let msg = add_create_pdr msg (uplink_pdr ue_ip gnb_addr) in
    let msg = add_create_pdr msg (downlink_pdr ue_ip gnb_addr) in
    let msg = add_create_far msg uplink_far in
    finish (add_create_far msg (downlink_far gnb_addr gnb_teid))

-- The new TEID is 0xdead_beef.
unfoldable pub modification_request : (seq upf_seid gnb_addr : ℕ) → Bytes
unfolding new add_update_far finish
modification_request seq upf_seid gnb_addr =
    let msg = new (new_session_msg pfcp_session_modification_req upf_seid seq) in
    finish (add_update_far msg (downlink_far gnb_addr 0xdeadbeef))

unfoldable pub deletion_request : (seq upf_seid : ℕ) → Bytes
unfolding new finish
deletion_request seq upf_seid =
    finish (new (new_session_msg pfcp_session_deletion_req upf_seid seq))

-- How a part of the scenario ends; `trying` when the association fails more often than is looked at.
pub data Run (X A : Type 0) : Type 0 where
  passed : A → SimState → X → Run X A
  stopped : SimError → SimState → X → Run X A
  crashed : SimState → X → Run X A
  trying : SimState → X → Run X A

abbrev pub Sim : Type 0 → Type 0 → Type 0
Sim X A = SimState → X → Run X A

module _ {X : Type 0} where
  abbrev pub continue : {A B : Type 0} → Run X A → (A → Sim X B) → Run X B
  continue (passed a s x) f = f a s x
  continue (stopped e s x) f = stopped e s x
  continue (crashed s x) f = crashed s x
  continue (trying s x) f = trying s x

  infixl 5 ◌>>=◌ ◌>>◌
  abbrev pub ◌>>=◌ : {A B : Type 0} → Sim X A → (A → Sim X B) → Sim X B
  (m >>= f) s x = continue (m s x) f

  abbrev pub ◌>>◌ : {B : Type 0} → Sim X (Unit {0}) → Sim X B → Sim X B
  m >> k = m >>= λ _. k

  abbrev pub check : {A : Type 0} → Outcome SimError A → Sim X A
  check (ok a) s x = passed a s x
  check (err e) s x = stopped e s x
  check panic s x = crashed s x

  abbrev pub allocate : {A : Type 0} → (SimState → A × SimState) → Sim X A
  allocate f s x = passed (f s).0 (f s).1 x

  abbrev pub allocated : {A : Type 0} → Outcome SimError (A × SimState) → Sim X A
  allocated (ok (a, t)) s x = passed a t x
  allocated (err e) s x = stopped e s x
  allocated panic s x = crashed s x

  abbrev pub change : (SimState → SimState) → Sim X (Unit {0})
  change f s x = passed tt (f s) x

-- The transport's `send_and_recv`.
abbrev pub Link : Type 0 → Type 0
Link X = X → Bytes → Outcome SimError Bytes × X

-- `my_ts` is the result of `recovery_ts`, and `now` the instant of the establishment.
module _ {X : Type 0} (link : Link X) (config : SimConfig) (my_ts now : ℕ) where
  abbrev exchange : Bytes → Sim X Bytes
  exchange req s x = check (link x req).0 s (link x req).1

  -- An attempt to associate: whether it succeeded.
  abbrev attempt_ok : ℕ → Outcome SimError Bytes → Outcome SimError (Unit {0})
  attempt_ok seq (ok rsp) = validate_response pfcp_association_setup_req seq rsp
  attempt_ok seq (err e) = err e
  attempt_ok seq panic = panic

  abbrev after_attempt :
      Outcome SimError (Unit {0}) → Run X (Unit {0}) → SimState → X → Run X (Unit {0})
  after_attempt (ok u) again s x = passed tt s x
  after_attempt (err e) again s x = again
  after_attempt panic again s x = crashed s x

  -- The loop of the association, up to the number of tries; it waits before each but the first.
  unfoldable pub associate : ℕ → Sim X (Unit {0})
  unfolding association_request next_seq_num validate_response
  associate zero s x = trying s x
  associate (suc tries) s x =
      let (seq, s) = next_seq_num s in
      let (result, x) = link x (association_request seq config.network.smf_n4_addr my_ts) in
      let again = associate tries s x in after_attempt (attempt_ok seq result) again s x

  unfoldable pub establish : Sim X (ℕ × ℕ)
  unfolding establishment_request next_seq_num alloc_ue_ip alloc_gnb_teid alloc_cp_seid
      validate_response extract_session_info
  establish = do
    ue_ip ← (λ s. allocated (alloc_ue_ip s) s)
    gnb_teid ← allocate alloc_gnb_teid
    cp_seid ← allocate alloc_cp_seid
    seq ← allocate next_seq_num
    rsp ← exchange (
        establishment_request seq config.network.smf_n4_addr cp_seid ue_ip config.network.gnb_addr
          gnb_teid)
    check (validate_response pfcp_session_establishment_req seq rsp)
    info ← check (extract_session_info rsp)
    change (
        insert_session (record {
          cp_seid = cp_seid;
          upf_seid = info.0;
          upf_teid = info.1;
          upf_n3_addr = info.2;
          ue_ip = ue_ip;
          gnb_teid = gnb_teid;
          created_at = now;
        }))
    (λ s. passed (cp_seid, info.0) s)

  unfoldable pub modify : ℕ → Sim X (Unit {0})
  unfolding modification_request next_seq_num validate_response
  modify upf_seid = do
    seq ← allocate next_seq_num
    rsp ← exchange (modification_request seq upf_seid config.network.gnb_addr)
    check (validate_response pfcp_session_modification_req seq rsp)

  unfoldable pub delete : ℕ → ℕ → Sim X (Unit {0})
  unfolding deletion_request next_seq_num validate_response
  delete cp_seid upf_seid = do
    seq ← allocate next_seq_num
    rsp ← exchange (deletion_request seq upf_seid)
    check (validate_response pfcp_session_deletion_req seq rsp)
    change (remove_session cp_seid)

  unfoldable pub run : ℕ → Sim X (Unit {0})
  unfolding associate establish modify delete
  run tries = do associate tries; seids ← establish; modify seids.1; delete seids.0 seids.1
