-- ===== src/SmfSim/Interactive/Adding.antt =====
-- smf-sim/src/tui/runner.rs: adding sessions extends the sessions of the simulator.
use upf_edge.Prelude.{
  ℕ, zero, suc, ◌+◌, ◌%◌, ◌^◌, ◌≤◌, ◌<◌, ◌≡◌, refl, Option, none, some, Outcome, ok, err, panic,
  arith, Bool-cases, inl, inr, leb,
}
use upf_edge.Bytes.{Bytes}
use upf_edge.SmfSim.{SimError}
use upf_edge.SmfSim.State.{
  SimState, SimSession, alloc_ue_ip, alloc_gnb_teid, alloc_cp_seid, next_seq_num,
}
use upf_edge.SmfSim.Scenario.{Link}
use upf_edge.SmfSim.Interactive.{
  Console, Step, going, ended, broken, continue, exchange_for, prepared, add_if, after_info,
  after_response, show_sessions, add_with, add_one, add_sessions,
}
use upf_edge.SmfSim.Validator.{extract_session_info}
use upf_edge.SmfSim.Interactive.Numbering.{
  IsNumbered, state_of, Extends, Extends-trans, weaken, inserted, same,
}

module _ {X : Type 0} (session : SimSession) (c : Console X) (h : IsNumbered c.state)
    (below : session.cp_seid < c.state.next_cp_seid)
    (free : c.state.sessions session.cp_seid ≡ none) where
  info-Extends :
      (info : Outcome SimError (ℕ × ℕ × ℕ))
      → Extends 0 c.state (state_of (continue (after_info session info c) show_sessions))
  info-Extends (ok (upf_seid, upf_teid, upf_n3_addr)) =
      inserted
        (record session { upf_seid = upf_seid; upf_teid = upf_teid; upf_n3_addr = upf_n3_addr })
        c.state h below free
  info-Extends (err e) = same c.state h
  info-Extends panic = same c.state h

  response-Extends :
      (result : Outcome SimError Bytes)
      → Extends 0 c.state (state_of (continue (after_response session result c) show_sessions))
  response-Extends (ok rsp) = info-Extends (extract_session_info rsp)
  response-Extends (err e) = same c.state h
  response-Extends panic = same c.state h

-- Nothing is kept under a CP SEID that was not allocated.
free_of :
    (s : SimState) (k : ℕ) (o : Option SimSession)
    → IsNumbered s
    → s.sessions k ≡ o
    → s.next_cp_seid ≤ k
    → o ≡ none
free_of s k none h e g = refl
free_of s k (some d) h e g = absurd (omega (arith, h.allocated k d e, g))

module _ {X : Type 0} (link : Link X) (smf_addr gnb_addr now ntp : ℕ) where
  exchange-Extends :
      (session : SimSession) (req : Bytes) (c : Console X)
      → IsNumbered c.state
      → session.cp_seid < c.state.next_cp_seid
      → c.state.sessions session.cp_seid ≡ none
      → Extends 0 c.state (state_of (exchange_for link smf_addr gnb_addr now ntp session req c))
  exchange-Extends session req c h below free =
      response-Extends session (record c { outside = (link c.outside req).1 }) h below free
        (link c.outside req).0

  add_with-Extends :
      (seq ue_ip : ℕ) (s : SimState) (c : Console X)
      → IsNumbered s
      → s.next_cp_seid + 1 < 2 ^ 64
      → Extends 1 s (state_of (add_with link smf_addr gnb_addr now ntp seq ue_ip s c))
  unfolding add_with alloc_gnb_teid alloc_cp_seid
  add_with-Extends seq ue_ip s c h fits =
      let t : SimState = record s {
        next_gnb_teid = (s.next_gnb_teid + 1) % 2 ^ 32;
        next_cp_seid = (s.next_cp_seid + 1) % 2 ^ 64;
      } in
      let counted : Extends 1 s t = record {
        next = omega arith;
        numbered = record {
          own = h.own;
          allocated = λ k d e. omega (arith, fits, h.allocated k d e);
        };
        kept = λ k d e. e;
      } in
      Extends-trans 1 0 s t _ counted (
        exchange-Extends (prepared s.next_cp_seid ue_ip s.next_gnb_teid now) _ _ counted.numbered
          (omega (arith, fits))
          (free_of s s.next_cp_seid (s.sessions s.next_cp_seid) h refl (omega arith)))

  add_if-Extends :
      (seq : ℕ) (s : SimState) (c : Console X)
      → IsNumbered s
      → s.next_cp_seid + 1 < 2 ^ 64
      → Extends 1 s (state_of (add_if link smf_addr gnb_addr now ntp seq (alloc_ue_ip s) s c))
  unfolding alloc_ue_ip
  add_if-Extends seq s c h fits = elim (Bool-cases (leb s.next_ue_ip s.ue_ip_end)) [
    | inl t ↦
        let u : SimState = record s { next_ue_ip = (s.next_ue_ip + 1) % 2 ^ 32 } in
        let g : IsNumbered u = record { own = h.own; allocated = h.allocated } in
        rw (t) (
          Extends-trans 0 1 s u _ (record { next = omega arith; numbered = g; kept = λ k d e. e })
            (add_with-Extends seq s.next_ue_ip u c g fits))
    | inr f ↦ rw (f) (record { next = omega arith; numbered = h; kept = λ k d e. e })
  ]

  add_one-Extends :
      (c : Console X)
      → IsNumbered c.state
      → c.state.next_cp_seid + 1 < 2 ^ 64
      → Extends 1 c.state (state_of (add_one link smf_addr gnb_addr now ntp c))
  unfolding add_one next_seq_num
  add_one-Extends c h fits =
      let s = c.state in
      let u : SimState = record s { next_seq = (s.next_seq + 1) % 2 ^ 32 } in
      let g : IsNumbered u = record { own = h.own; allocated = h.allocated } in
      Extends-trans 0 1 s u _ (record { next = omega arith; numbered = g; kept = λ k d e. e })
        (add_if-Extends s.next_seq u c g fits)

  further :
      (n : ℕ) (s : SimState) (step : Step X) (f : Console X → Step X)
      → Extends 1 s (state_of step)
      → ((c : Console X) → Extends 1 s c.state → Extends n c.state (state_of (f c)))
      → Extends (suc n) s (state_of (continue step f))
  further n s (going c) f h g =
      weaken (1 + n) (suc n) s _ (omega arith)
        (Extends-trans 1 n s c.state (state_of (f c)) h (g c h))
  further n s (ended c) f h g = weaken 1 (suc n) s c.state (omega arith) h
  further n s (broken c) f h g = weaken 1 (suc n) s c.state (omega arith) h

  pub add_sessions-Extends :
      (count : ℕ) (c : Console X)
      → IsNumbered c.state
      → c.state.next_cp_seid + count < 2 ^ 64
      → Extends count c.state (state_of (add_sessions link smf_addr gnb_addr now ntp count c))
  unfolding add_sessions
  add_sessions-Extends zero c h fits = same c.state h
  add_sessions-Extends (suc count) c h fits =
      further count c.state (add_one link smf_addr gnb_addr now ntp c)
        (add_sessions link smf_addr gnb_addr now ntp count)
        (add_one-Extends c h (omega (arith, fits)))
        (λ d g. add_sessions-Extends count d g.numbered (omega (arith, fits, g.next)))
