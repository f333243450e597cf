-- ===== src/SmfSim/State/Pool.antt =====
-- smf-sim/src/state.rs: the pool of UE addresses.
use upf_edge.Prelude.{
  ℕ, zero, suc, ◌+◌, ◌%◌, ◌^◌, ◌≤◌, ◌<◌, ◌≡◌, refl, List, [], ◌∷◌, arith, Outcome, ok, err, ◌>>=◌,
  if◌then◌else◌, leb, tests, Bool-cases, inl, inr, true, false, le→leb, tests, Bool-cases, inl, inr,
  true, false,
}
use upf_edge.SmfSim.{SimError, pool_exhausted}
use upf_edge.SmfSim.State.{SimState, alloc_ue_ip}

-- `n` sessions, one after the other.
unfoldable pub take_ue_ips : ℕ → SimState → Outcome SimError (List ℕ)
unfolding alloc_ue_ip
take_ue_ips zero state = ok []
take_ue_ips (suc n) state = do
  taken ← alloc_ue_ip state
  more ← take_ue_ips n taken.1
  ok (taken.0 ∷ more)

abbrev pub count_up : ℕ → ℕ → List ℕ
count_up zero first = []
count_up (suc n) first = first ∷ count_up n (first + 1)

took :
    (state : SimState)
    → leb state.next_ue_ip state.ue_ip_end ≡ true
    → state.next_ue_ip + 1 < 2 ^ 32
    → alloc_ue_ip state ≡ ok (state.next_ue_ip, record state { next_ue_ip = state.next_ue_ip + 1 })
unfolding alloc_ue_ip
took state e h =
    let fits : (state.next_ue_ip + 1) % 2 ^ 32 ≡ state.next_ue_ip + 1 = omega arith in
    rw (e, fits) refl

none_left :
    (state : SimState)
    → leb state.next_ue_ip state.ue_ip_end ≡ false
    → alloc_ue_ip state ≡ err pool_exhausted
unfolding alloc_ue_ip
none_left state e = rw (e) refl

-- If the pool ends below the last IPv4 address, any number of allocations in a row gives consecutive
-- addresses from the next one on, no two the same, and succeeds exactly as long as the last of them
-- is in the pool; beyond it the error is that the pool is exhausted.
pub ue_ip_pool :
    (n : ℕ) (state : SimState)
    → state.ue_ip_end + 1 < 2 ^ 32
    → state.next_ue_ip ≤ state.ue_ip_end + 1
    → take_ue_ips n state ≡ (
        if leb (state.next_ue_ip + n) (state.ue_ip_end + 1)
        then ok (count_up n state.next_ue_ip)
        else err pool_exhausted)
unfolding take_ue_ips
ue_ip_pool zero state h g =
    rw (le→leb (state.next_ue_ip + 0) (state.ue_ip_end + 1) (omega arith)) refl
ue_ip_pool (suc n) state h g = elim (Bool-cases (leb state.next_ue_ip state.ue_ip_end)) [
  | inl e ↦ rw (took state e (omega (tests, e))) (
      ground (
        arith,
        ue_ip_pool n (record state { next_ue_ip = state.next_ue_ip + 1 }) h (omega (tests, e)),
      ))
  | inr e ↦ rw (none_left state e) (ground (arith, e))
]
