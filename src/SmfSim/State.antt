-- ===== src/SmfSim/State.antt =====
-- smf-sim/src/state.rs: the simulator's sessions and its counters.
pub mod Pool
use upf_edge.Prelude.{
  ℕ, ◌+◌, ◌%◌, ◌^◌, Option, none, some, Outcome, ok, err, if◌then◌else◌, leb, update,
}
use upf_edge.SmfSim.Config.{SessionConfig}
use upf_edge.SmfSim.{SimError, pool_exhausted}

pub record SimSession : Type 0 where
  pub cp_seid : ℕ
  pub upf_seid : ℕ
  pub upf_teid : ℕ
  pub upf_n3_addr : ℕ
  pub ue_ip : ℕ
  pub gnb_teid : ℕ
  pub created_at : ℕ

pub record SimState : Type 0 where
  pub next_ue_ip : ℕ
  pub ue_ip_end : ℕ
  pub next_gnb_teid : ℕ
  pub next_cp_seid : ℕ
  pub next_seq : ℕ
  pub sessions : ℕ → Option SimSession
  pub upf_recovery_ts : Option ℕ
  pub my_recovery_ts : ℕ

-- `SimState::new`, at `unix` seconds since 1970.
abbrev pub new_state : ℕ → SessionConfig → SimState
new_state unix config = record {
  next_ue_ip = config.ue_ip_pool_start;
  ue_ip_end = config.ue_ip_pool_end;
  next_gnb_teid = config.gnb_teid_start;
  next_cp_seid = 1;
  next_seq = 1;
  sessions = λ cp_seid. none;
  upf_recovery_ts = none;
  my_recovery_ts = (unix % 2 ^ 32 + 2208988800) % 2 ^ 32;
}

-- Each allocation gives its number and the state that follows.
unfoldable pub alloc_ue_ip : SimState → Outcome SimError (ℕ × SimState)
alloc_ue_ip state =
    if leb state.next_ue_ip state.ue_ip_end
    then ok (state.next_ue_ip, record state { next_ue_ip = (state.next_ue_ip + 1) % 2 ^ 32 })
    else err pool_exhausted

unfoldable pub alloc_gnb_teid : SimState → ℕ × SimState
alloc_gnb_teid state =
    (state.next_gnb_teid, record state { next_gnb_teid = (state.next_gnb_teid + 1) % 2 ^ 32 })

unfoldable pub alloc_cp_seid : SimState → ℕ × SimState
alloc_cp_seid state =
    (state.next_cp_seid, record state { next_cp_seid = (state.next_cp_seid + 1) % 2 ^ 64 })

unfoldable pub next_seq_num : SimState → ℕ × SimState
next_seq_num state = (state.next_seq, record state { next_seq = (state.next_seq + 1) % 2 ^ 32 })

-- `state.sessions.insert` and `remove`
abbrev pub insert_session : SimSession → SimState → SimState
insert_session session state = record state {
  sessions = update state.sessions session.cp_seid (some session);
}

abbrev pub remove_session : ℕ → SimState → SimState
remove_session cp_seid state = record state { sessions = update state.sessions cp_seid none }
