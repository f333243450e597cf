-- ===== src/ControlPlane/Serving.antt =====
-- upf-edge/src/pfcp_server.rs: the local SEIDs in the session table and the next one to be given out.
use upf_edge.Prelude.{
  ℕ, ◌+◌, ◌^◌, ◌<◌, ◌≤◌, ◌%◌, ◌≡◌, ◌⊎◌, refl, subst, sym, ◌∙◌, true, Option, none, some, arith,
  update, inl, inr, Bool-cases, ◌==◌,
}
use upf_edge.Pfcp.Ie.{OuterHeaderCreation}
use upf_edge.ControlPlane.{SessionData, PfcpServer, World, Answer, done, failed, crashed, is_some}
use upf_edge.ControlPlane.Keeps.{Ends, Of}
use upf_edge.ControlPlane.Invariant.{Bears}
use upf_edge.ControlPlane.Modify.{retarget_data}
use upf_edge.ControlPlane.Establish.{register}

-- No session is entered under a SEID that is still to be given out.
pub record IsFresh (srv : PfcpServer) : Type 0 where
  pub below : (seid : ℕ) → is_some (srv.sessions seid) ≡ true → seid < srv.next_seid

same_id : (a b : ℕ) → (a == b) ≡ true → a ≡ b
same_id a b e = ground arith

is_some-retarget_data :
    (ohc : OuterHeaderCreation) (d : Option SessionData) → is_some (retarget_data ohc d) ≡ is_some d
is_some-retarget_data ohc none = refl
is_some-retarget_data ohc (some d) = refl

update-kept :
    (sessions : ℕ → Option SessionData) (seid : ℕ) (o : Option SessionData) (P : ℕ → Type 0)
    → ((s : ℕ) → is_some (sessions s) ≡ true → P s)
    → (is_some o ≡ true → P seid)
    → (s : ℕ) → is_some (update sessions seid o s) ≡ true
    → P s
update-kept sessions seid o P h ho s = elim (Bool-cases (seid == s)) [
  | inl e ↦ rw (e) (λ g. subst P (same_id seid s e) (ho g))
  | inr e ↦ rw (e) (h s)
]

pub weaken :
    {A : Type 0} {P R : World → Type 0} (a : Answer A)
    → ((v : World) → P v → R v)
    → Ends P a
    → Ends R a
weaken (done a w) f h = f w h
weaken (failed e w) f h = f w h
weaken (crashed w) f h = h

-- `old` says which SEIDs may stand in the table whatever the next one is.
module _ (old : ℕ → Type 0) where
  abbrev Covered : ℕ → ℕ → Type 0
  Covered next seid = (seid < next) ⊎ old seid

  counted : (s n m : ℕ) → n ≤ m → Covered n s → Covered m s
  counted s n m h (inl b) = inl (omega (arith, h, b))
  counted s n m h (inr o) = inr o

  -- Every session in the table has a SEID that was given out, or an old one.
  pub record IsCovered (srv : PfcpServer) : Type 0 where
    pub covered :
        (seid : ℕ) → is_some (srv.sessions seid) ≡ true → (seid < srv.next_seid) ⊎ old seid

  -- Also with a bound on the next SEID.
  pub record IsServing (n : ℕ) (srv : PfcpServer) : Type 0 where
    pub fresh : IsCovered srv
    pub most : srv.next_seid ≤ n

  -- Also with a SEID that has just been given out.
  pub record HasGiven (n seid : ℕ) (srv : PfcpServer) : Type 0 where
    pub serving : IsServing n srv
    pub given : seid < srv.next_seid

  IsCovered-Bears : Bears IsCovered
  IsCovered-Bears = record {
    configured = λ srv c h. record { covered = h.covered };
    associated = λ srv as' p h. record { covered = h.covered };
    retargeted = λ srv seid ohc h. record {
      covered =
          update-kept srv.sessions seid _ (Covered srv.next_seid) h.covered
            (λ g. h.covered seid (sym (is_some-retarget_data ohc (srv.sessions seid)) ∙ g));
    };
    forgotten = λ srv seid h. record {
      covered = update-kept srv.sessions seid none (Covered srv.next_seid) h.covered (λ g. cc);
    };
  }

  pub IsServing-Bears : (n : ℕ) → Bears (IsServing n)
  IsServing-Bears n = record {
    configured =
        λ srv c h. record { fresh = IsCovered-Bears.configured srv c h.fresh; most = h.most };
    associated = λ srv as' p h. record {
      fresh = IsCovered-Bears.associated srv as' p h.fresh;
      most = h.most;
    };
    retargeted = λ srv seid ohc h. record {
      fresh = IsCovered-Bears.retargeted srv seid ohc h.fresh;
      most = h.most;
    };
    forgotten =
        λ srv seid h. record { fresh = IsCovered-Bears.forgotten srv seid h.fresh; most = h.most };
  }

  pub HasGiven-Bears : (n given : ℕ) → Bears (HasGiven n given)
  HasGiven-Bears n given =
      let serving = IsServing-Bears n in
      record {
        configured =
            λ srv c h. record { serving = serving.configured srv c h.serving; given = h.given };
        associated = λ srv as' p h. record {
          serving = serving.associated srv as' p h.serving;
          given = h.given;
        };
        retargeted = λ srv seid ohc h. record {
          serving = serving.retargeted srv seid ohc h.serving;
          given = h.given;
        };
        forgotten = λ srv seid h. record {
          serving = serving.forgotten srv seid h.serving;
          given = h.given;
        };
      }

  pub register-HasGiven :
      (n node_id seid : ℕ) (srv : PfcpServer) (session : SessionData)
      → HasGiven n seid srv
      → HasGiven n seid (register node_id seid session srv)
  register-HasGiven n node_id seid srv session h = record {
    serving = record {
      fresh = record {
        covered =
            update-kept srv.sessions seid (some session) (Covered srv.next_seid)
              h.serving.fresh.covered (λ g. inl h.given);
      };
      most = h.serving.most;
    };
    given = h.given;
  }

  -- There is a SEID left to give out.
  pub record HasRoom (n : ℕ) (srv : PfcpServer) : Type 0 where
    pub serving : IsServing n srv
    pub room : n + 1 < 2 ^ 64

  pub HasRoom-Bears : (n : ℕ) → Bears (HasRoom n)
  HasRoom-Bears n =
      let serving = IsServing-Bears n in
      record {
        configured =
            λ srv c h. record { serving = serving.configured srv c h.serving; room = h.room };
        associated = λ srv as' p h. record {
          serving = serving.associated srv as' p h.serving;
          room = h.room;
        };
        retargeted = λ srv seid ohc h. record {
          serving = serving.retargeted srv seid ohc h.serving;
          room = h.room;
        };
        forgotten =
            λ srv seid h. record { serving = serving.forgotten srv seid h.serving; room = h.room };
      }

  one_more : (n : ℕ) (srv : PfcpServer) → IsServing n srv → IsServing (n + 1) srv
  one_more n srv h = record { fresh = h.fresh; most = omega (arith, h.most) }

  pub IsServing-IsCovered : (n : ℕ) (v : World) → Of (IsServing n) v → Of IsCovered v
  IsServing-IsCovered n v h = record { of_server = h.of_server.fresh }

  pub HasGiven-IsServing : (n given : ℕ) (v : World) → Of (HasGiven n given) v → Of (IsServing n) v
  HasGiven-IsServing n given v h = record { of_server = h.of_server.serving }

  pub HasRoom-IsServing : (n : ℕ) (v : World) → Of (HasRoom n) v → Of (IsServing (n + 1)) v
  HasRoom-IsServing n v h = record { of_server = one_more n v.server h.of_server.serving }

  -- The SEID that is given out is below the next one, and still above all sessions.
  pub allocated :
      (n : ℕ) (srv : PfcpServer)
      → HasRoom n srv
      → (teid : ℕ)
      → HasGiven
          (n + 1)
          srv.next_seid
          (record srv { next_seid = (srv.next_seid + 1) % 2 ^ 64; next_teid = teid })
  allocated n srv h teid =
      let step : (srv.next_seid + 1) % 2 ^ 64 ≡ srv.next_seid + 1 =
        omega (arith, h.room, h.serving.most) in
      record {
        serving = record {
          fresh = record {
            covered = λ s g.
                counted s (srv.next_seid) _ (omega (arith, step)) (h.serving.fresh.covered s g);
          };
          most = omega (arith, step, h.serving.most);
        };
        given = omega (arith, step);
      }

pub IsFresh-IsCovered : (srv : PfcpServer) → IsFresh srv → IsCovered (λ seid. ⊥) srv
IsFresh-IsCovered srv h = record { covered = λ seid g. inl (h.below seid g) }

pub IsCovered-IsFresh : (v : World) → Of (IsCovered (λ seid. ⊥)) v → Of IsFresh v
IsCovered-IsFresh v h = record {
  of_server = record {
    below = λ seid g. elim (h.of_server.covered seid g) [ inl b ↦ b | inr o ↦ absurd o ];
  };
}
