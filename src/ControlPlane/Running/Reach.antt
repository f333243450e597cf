-- ===== src/ControlPlane/Running/Reach.antt =====
-- Every run of the server of upf-edge/src/pfcp_server.rs, whatever arrives and in whatever order its
-- tasks get the lock.
use upf_edge.Prelude.{
  ℕ, ◌+◌, ◌^◌, ◌<◌, ◌≡◌, ◌⊎◌, inl, inr, Bool-cases, ◌==◌, ==_iff, update, ◌∷◌, Bool, true, false,
  Option, none, some, List, [], arith,
}
use upf_edge.Bytes.{Bytes}
use upf_edge.Common.{UrrStats}
use upf_edge.DataPlane.Rules.{Maps}
use upf_edge.ControlPlane.{
  SocketAddr, SessionData, is_some, PfcpServer, Env, Answer, done, failed, crashed,
}
use upf_edge.ControlPlane.Dispatch.{handle_message}
use upf_edge.ControlPlane.Fresh.{handle_message-IsServing, handle_message-IsCovered}
use upf_edge.ControlPlane.Keeps.{Ends, Of}
use upf_edge.ControlPlane.Reporter.{from_secs}
use upf_edge.ControlPlane.Reporter.Keeping.{tick-IsServing}
use upf_edge.ControlPlane.Running.{
  System, on_system, touch_activity, answered, receive, kept_alive, keepalive, check_keepalive,
  report, restore, start_up, new_server,
}
use upf_edge.ControlPlane.Serving.{IsCovered, IsServing}
use upf_edge.ControlPlane.Running.Restore.{restore-next_seid}

-- The data plane counts usage.
abbrev counted : (ℕ → Option UrrStats) → System → System
counted urr_map s = record s {
  world = record s.world { maps = record s.world.maps { urr_map = urr_map } };
}

-- The states that a run from `s` reaches, with the number of datagrams handled on the way. The
-- instants, the datagrams, the room in the maps and what the data plane counts are arbitrary.
pub data Runs (s : System) : ℕ → System → Type 0 where
  start : Runs s 0 s
  touch : {n : ℕ} {t : System} (now : ℕ) → Runs s n t → Runs s n (on_system (touch_activity now) t)
  handle :
      {n : ℕ} {t : System} (env : Env) (packet : Bytes) (src : SocketAddr)
      → Runs s n t
      → Runs s (n + 1) (receive env packet src t)
  beat :
      {n : ℕ} {t : System} (unix now : ℕ) (send_ok : Bool)
      → Runs s n t
      → Runs s n (keepalive unix now send_ok t)
  usage :
      {n : ℕ} {t : System} (now : ℕ) (entries : List (ℕ × List UrrStats))
      → Runs s n t
      → Runs s n (report now entries t)
  count :
      {n : ℕ} {t : System} (urr_map : ℕ → Option UrrStats)
      → Runs s n t
      → Runs s n (counted urr_map t)

module _ (old : ℕ → Type 0) where
  touched :
      (m now : ℕ) (srv : PfcpServer)
      → IsServing old m srv
      → IsServing old m (touch_activity now srv)
  touched m now srv h = record { fresh = record { covered = h.fresh.covered }; most = h.most }

  answered-IsServing :
      (m : ℕ) (src : SocketAddr) (a : Answer Bytes) (s : System)
      → Ends (Of (IsServing old m)) a
      → IsServing old m (answered src a s).world.server
  answered-IsServing m src (done rsp w) s h = h.of_server
  answered-IsServing m src (failed e w) s h = h.of_server
  answered-IsServing m src (crashed w) s h = absurd h

  kept_alive-IsServing :
      (m now : ℕ) (send_ok : Bool) (req : Option (Bytes × SocketAddr)) (s : System)
      → IsServing old m s.world.server
      → IsServing old m (kept_alive now send_ok req s).world.server
  kept_alive-IsServing m now send_ok none s h = h
  kept_alive-IsServing m now false (some req) s h = h
  kept_alive-IsServing m now true (some req) s h = touched m now s.world.server h

  Runs-IsServing :
      {s t : System} {n : ℕ}
      → IsServing old 1 s.world.server
      → Runs s n t
      → n + 1 < 2 ^ 64
      → IsServing old (n + 1) t.world.server
  unfolding receive keepalive report
  Runs-IsServing h start g = h
  Runs-IsServing h (touch {n} {t} now r) g =
      touched (n + 1) now t.world.server (Runs-IsServing h r g)
  Runs-IsServing h (handle {n} {t} env packet src r) g =
      answered-IsServing (n + 1 + 1) src (handle_message env packet src t.world) t (
        handle_message-IsServing old (n + 1) env packet src t.world
          (Runs-IsServing h r (omega arith)) g)
  Runs-IsServing h (beat {n} {t} unix now send_ok r) g =
      kept_alive-IsServing (n + 1) now send_ok
        (check_keepalive (from_secs 15) unix now t.keepalive_seq t.world.server) t
        (Runs-IsServing h r g)
  Runs-IsServing h (usage {n} {t} now entries r) g =
      tick-IsServing old (n + 1) now entries t.world.server (Runs-IsServing h r g)
  Runs-IsServing h (count urr_map r) g = Runs-IsServing h r g

-- The SEIDs of the stored sessions.
abbrev pub IsStored : List (ℕ × SessionData) → ℕ → Type 0
IsStored [] seid = ⊥
IsStored ((s, session) ∷ stored) seid = (s ≡ seid) ⊎ IsStored stored seid

restored-session :
    (stored : List (ℕ × SessionData)) (srv : PfcpServer) (seid : ℕ)
    → is_some ((restore stored srv).sessions seid) ≡ true
    → (is_some (srv.sessions seid) ≡ true) ⊎ IsStored stored seid
unfolding restore
restored-session [] srv seid h = inl h
restored-session ((s, session) ∷ stored) srv seid h =
    elim (restored-session stored (record srv { sessions = update srv.sessions s (some session) })
      seid h) [
        | inl g ↦ elim (Bool-cases (s == seid)) [
          | inl t ↦ inr (inl ((==_iff s seid).0 t))
          | inr f ↦ inl (rw (f) at g)
        ]
        | inr g ↦ inr (inr g)
      ]

-- In any run from a start, whatever sessions the store gives, and before the 64-bit counter is used up:
-- every session in the table has a local SEID below the next one to be given out or that of a stored
-- session, and whatever datagram comes next, its handler ends without a panic and with that still true.
pub run_IsCovered :
    (unix now n4_addr n3_addr : ℕ) (has_store : Bool) (stored : List (ℕ × SessionData))
    (maps : Maps) (n : ℕ) (t : System) (env : Env) (packet : Bytes) (src : SocketAddr)
    → Runs (start_up unix now n4_addr n3_addr has_store stored maps) n t
    → n + 2 < 2 ^ 64
    → IsCovered (IsStored stored) t.world.server
      × Ends (Of (IsCovered (IsStored stored))) (handle_message env packet src t.world)
run_IsCovered unix now n4_addr n3_addr has_store stored maps n t env packet src r h =
    let fresh_server : PfcpServer = record (new_server unix now n4_addr n3_addr) {
      has_store = has_store;
    } in
    let first : IsServing (IsStored stored) 1 (restore stored fresh_server) = record {
      fresh = record {
        covered = λ seid g. elim (restored-session stored fresh_server seid g) [
          | inl e ↦ absurd (ground (arith, e))
          | inr o ↦ inr o
        ];
      };
      most = omega (arith, restore-next_seid stored fresh_server);
    } in
    let serving : IsServing (IsStored stored) (n + 1) t.world.server =
      Runs-IsServing (IsStored stored) first r (omega (arith, h)) in
    (
      serving.fresh,
      handle_message-IsCovered (IsStored stored) env packet src t.world serving.fresh
          (omega (arith, serving.most, h)),
    )
