-- ===== src/SmfSim/Interactive/Numbering.antt =====
-- The sessions of the simulator under the commands of smf-sim/src/tui/runner.rs.
use upf_edge.Prelude.{
  ℕ, ◌+◌, ◌≤◌, ◌<◌, ◌≡◌, ◌≢◌, none, some, arith, Bool-cases, inl, inr, ◌==◌, ==_iff,
}
use upf_edge.SmfSim.State.{SimState, SimSession, insert_session, remove_session}
use upf_edge.SmfSim.Interactive.{
  Step, going, ended, broken, Command, add_session, del_session, heartbeat,
}

-- Every session is kept under its own CP SEID, which was allocated.
pub record IsNumbered (s : SimState) : Type 0 where
  pub own : (k : ℕ) (d : SimSession) → s.sessions k ≡ some d → d.cp_seid ≡ k
  pub allocated : (k : ℕ) (d : SimSession) → s.sessions k ≡ some d → k < s.next_cp_seid

abbrev pub state_of : {X : Type 0} → Step X → SimState
state_of (going c) = c.state
state_of (ended c) = c.state
state_of (broken c) = c.state

-- From the one state to the other, at most `n` CP SEIDs are allocated, and no session is lost.
pub record Extends (n : ℕ) (s t : SimState) : Type 0 where
  pub next : t.next_cp_seid ≤ s.next_cp_seid + n
  pub numbered : IsNumbered t
  pub kept : (k : ℕ) (d : SimSession) → s.sessions k ≡ some d → t.sessions k ≡ some d

pub Extends-trans :
    (n m : ℕ) (s t u : SimState) → Extends n s t → Extends m t u → Extends (n + m) s u
Extends-trans n m s t u h g = record {
  next = omega (arith, h.next, g.next);
  numbered = g.numbered;
  kept = λ k d e. g.kept k d (h.kept k d e);
}

pub weaken : (n m : ℕ) (s t : SimState) → n ≤ m → Extends n s t → Extends m s t
weaken n m s t le h = record {
  next = omega (arith, le, h.next);
  numbered = h.numbered;
  kept = h.kept;
}

pub inserted :
    (added : SimSession) (s : SimState)
    → IsNumbered s
    → added.cp_seid < s.next_cp_seid
    → s.sessions added.cp_seid ≡ none
    → Extends 0 s (insert_session added s)
inserted added s h below free = record {
  next = omega arith;
  numbered = record {
    own = λ k d e. elim (Bool-cases (added.cp_seid == k)) [
      | inl t ↦ ground (arith, (==_iff added.cp_seid k).0 t, rw (t) at e)
      | inr f ↦ h.own k d (rw (f) at e)
    ];
    allocated = λ k d e. elim (Bool-cases (added.cp_seid == k)) [
      | inl t ↦ omega (arith, (==_iff added.cp_seid k).0 t, below)
      | inr f ↦ h.allocated k d (rw (f) at e)
    ];
  };
  kept = λ k d e. elim (Bool-cases (added.cp_seid == k)) [
    | inl t ↦
        let taken : s.sessions added.cp_seid ≡ some d = rw ((==_iff added.cp_seid k).0 t) e in
        absurd (ground (arith, free, taken))
    | inr f ↦ rw (f) e
  ];
}

pub same : (s : SimState) → IsNumbered s → Extends 0 s s
same s h = record { next = omega arith; numbered = h; kept = λ k d e. e }

-- How many sessions a command adds, and whether it leaves the session under a CP SEID.
abbrev pub adds : Command → ℕ
adds (add_session count) = count
adds (del_session seid) = 0
adds heartbeat = 0

abbrev pub Spares : Command → ℕ → Type 0
Spares (add_session count) k = Unit {0}
Spares (del_session seid) k = k ≢ seid
Spares heartbeat k = Unit {0}

pub record Safe (cmd : Command) (s t : SimState) : Type 0 where
  pub numbered : IsNumbered t
  pub kept : (k : ℕ) (d : SimSession) → Spares cmd k → s.sessions k ≡ some d → t.sessions k ≡ some d

pub unchanged : (cmd : Command) (s : SimState) → IsNumbered s → Safe cmd s s
unchanged cmd s h = record { numbered = h; kept = λ k d spared e. e }

pub removed :
    (seid : ℕ) (s : SimState) → IsNumbered s → Safe (del_session seid) s (remove_session seid s)
removed seid s h = record {
  numbered = record {
    own = λ k d e. elim (Bool-cases (seid == k)) [
      | inl t ↦ ground (arith, rw (t) at e)
      | inr f ↦ h.own k d (rw (f) at e)
    ];
    allocated = λ k d e. elim (Bool-cases (seid == k)) [
      | inl t ↦ ground (arith, rw (t) at e)
      | inr f ↦ h.allocated k d (rw (f) at e)
    ];
  };
  kept = λ k d spared e. elim (Bool-cases (seid == k)) [
    | inl t ↦ absurd (omega (arith, spared, (==_iff seid k).0 t))
    | inr f ↦ rw (f) e
  ];
}
