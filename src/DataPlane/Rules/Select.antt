-- ===== src/DataPlane/Rules/Select.antt =====
-- `select_far` of upf-edge-ebpf/src/main.rs against a description of what it is to pick.
use upf_edge.Prelude.{
  ℕ, ◌≤◌, ◌<◌, ◌≡◌, refl, ap, ◌∙◌, ◌&&◌, ◌⊎◌, inl, inr, Option, none, some, List, [], ◌∷◌, ◌++◌,
  arith, if◌then◌else◌, ltb, leb, ◌==◌, All, All-append, sym, Bool-cases, tests,
}
use upf_edge.Common.{PdrValue, FarValue, SessionInfo, pdr_key, far_key}
use upf_edge.DataPlane.Rules.{
  Maps, Flow, Best, sdf_matches, slots, u32_max, consider_pdr, select_loop, select_far,
}

pub record Candidate : Type 0 where
  pub pdr : PdrValue
  pub far : FarValue

-- A PDR counts if it is on the interface, its SDF filter matches, and its precedence is not the
-- largest number there is, and if its FAR is in the map.
candidate_of : Maps → ℕ → ℕ → Flow → Option PdrValue → List Candidate
candidate_of m seid iface flow none = []
candidate_of m seid iface flow (some pdr) = elim (m.far_map (far_key seid pdr.far_id)) [
  | none ↦ []
  | some far ↦
      if pdr.source_interface == iface && (sdf_matches pdr flow && ltb pdr.precedence u32_max)
      then record { pdr = pdr; far = far } ∷ []
      else []
]

pub candidates : Maps → ℕ → ℕ → Flow → List ℕ → List Candidate
unfolding candidate_of
candidates m seid iface flow [] = []
candidates m seid iface flow (id ∷ ids) =
    candidate_of m seid iface flow (m.pdr_map (pdr_key seid id)) ++ candidates m seid iface flow ids

abbrev chosen : Candidate → Best
chosen c = record { far = some (c.far, c.pdr.urr_id); precedence = c.pdr.precedence }

-- The loop over the candidates alone.
pick : List Candidate → Best → Best
pick [] best = best
pick (c ∷ cs) best = pick cs (if leb best.precedence c.pdr.precedence then best else chosen c)

pick-append : (cs ds : List Candidate) (best : Best) → pick (cs ++ ds) best ≡ pick ds (pick cs best)
unfolding pick
pick-append [] ds best = refl
pick-append (c ∷ cs) ds best = pick-append cs ds _

module _ (m : Maps) (seid iface : ℕ) (flow : Flow) where
  consider_pdr-pick :
      (o : Option PdrValue) (best : Best)
      → best.precedence ≤ u32_max
      → consider_pdr m seid iface flow o best ≡ pick (candidate_of m seid iface flow o) best
  unfolding consider_pdr candidate_of pick
  consider_pdr-pick none best h = refl
  consider_pdr-pick (some pdr) best h = ground arith

  pick_bound :
      (o : Option PdrValue) (best : Best)
      → best.precedence ≤ u32_max
      → (pick (candidate_of m seid iface flow o) best).precedence ≤ u32_max
  unfolding candidate_of pick
  pick_bound none best h = h
  pick_bound (some pdr) best h = ground arith

  select_loop-pick :
      (ids : List ℕ) (best : Best)
      → best.precedence ≤ u32_max
      → select_loop m seid iface flow ids best ≡ pick (candidates m seid iface flow ids) best
  unfolding select_loop candidates
  select_loop-pick [] best h = unfold pick in refl
  select_loop-pick (id ∷ ids) best h =
      let o = m.pdr_map (pdr_key seid id) in
      rw (consider_pdr-pick o best h) (
        select_loop-pick ids _ (pick_bound o best h)
        ∙ sym (pick-append (candidate_of m seid iface flow o) _ best))

  candidate_below :
      (o : Option PdrValue)
      → All (λ c. c.pdr.precedence < u32_max) (candidate_of m seid iface flow o)
  unfolding candidate_of
  candidate_below none = tt
  candidate_below (some pdr) = ground arith

  candidates_below :
      (ids : List ℕ) → All (λ c. c.pdr.precedence < u32_max) (candidates m seid iface flow ids)
  unfolding candidates
  candidates_below [] = tt
  candidates_below (id ∷ ids) =
      All-append _ (candidate_of m seid iface flow (m.pdr_map (pdr_key seid id))) _
        (candidate_below (m.pdr_map (pdr_key seid id))) (candidates_below ids)

-- The first of those with the least precedence, and its URR ID; nothing if there are none.
abbrev pub Picks : List Candidate → Option (FarValue × ℕ) → Type 0
Picks cs r =
    ((cs ≡ []) × (r ≡ none))
    ⊎ ((before : List Candidate) × (c : Candidate) × (after : List Candidate) × (cs
          ≡ before ++ c ∷ after)
        × (r ≡ some (c.far, c.pdr.urr_id))
        × All (λ d. c.pdr.precedence < d.pdr.precedence) before
        × All (λ d. c.pdr.precedence ≤ d.pdr.precedence) after)

abbrev Improves : List Candidate → Best → Type 0
Improves cs best =
    (before : List Candidate) × (c : Candidate) × (after : List Candidate) × (cs
      ≡ before ++ c ∷ after)
    × (pick cs best ≡ chosen c)
    × (c.pdr.precedence < best.precedence)
    × All (λ d. c.pdr.precedence < d.pdr.precedence) before
    × All (λ d. c.pdr.precedence ≤ d.pdr.precedence) after

pick_cases :
    (cs : List Candidate) (best : Best)
    → ((pick cs best ≡ best) × All (λ d. best.precedence ≤ d.pdr.precedence) cs) ⊎ Improves cs best
unfolding pick
pick_cases [] best = inl (refl, tt)
pick_cases (x ∷ xs) best = elim (Bool-cases (leb best.precedence x.pdr.precedence)) [
  | inl worse ↦ rw worse (elim (pick_cases xs best) [
    | inl (e, all) ↦ inl (e, (omega (tests, worse), all))
    | inr (before, c, after, e, p, lt, bs, as') ↦
        inr (x ∷ before, c, after, ap (◌∷◌ x) e, p, lt, (omega (tests, worse), bs), as')
  ])
  | inr better ↦ rw better (elim (pick_cases xs (chosen x)) [
    | inl (e, all) ↦ inr ([], x, xs, refl, e, omega (tests, better), tt, all)
    | inr (before, c, after, e, p, lt, bs, as') ↦
        inr (x ∷ before, c, after, ap (◌∷◌ x) e, p, omega (tests, better), (lt, bs), as')
  ])
]

none_left :
    (cs : List Candidate)
    → All (λ c. c.pdr.precedence < u32_max) cs
    → All (λ c. u32_max ≤ c.pdr.precedence) cs
    → cs ≡ []
none_left [] h g = refl
none_left (c ∷ cs) h g = absurd (omega arith)

-- On any maps, `select_far` returns the FAR and the URR ID of the first PDR of least precedence among
-- the session's first eight PDRs that are in the map on the given interface with a matching SDF
-- filter, a FAR in the map and a precedence below 2 ^ 32 - 1; and nothing exactly if there is no such
-- PDR.
pub select_far-Picks :
    (m : Maps) (session : SessionInfo) (iface : ℕ) (flow : Flow)
    → Picks (candidates m session.seid iface flow (slots session)) (select_far m session iface flow)
unfolding select_far
select_far-Picks m session iface flow =
    let ids = slots session in
    let cs = candidates m session.seid iface flow ids in
    let start : Best = record { far = none; precedence = u32_max } in
    rw (select_loop-pick m session.seid iface flow ids start (omega arith), select_far)
      (elim (pick_cases cs start) [
        | inl (e, all) ↦
            inl
              (none_left cs (candidates_below m session.seid iface flow ids) all, ap (λ b. b.far) e)
        | inr (before, c, after, e, p, lt, bs, as') ↦
            inr (before, c, after, e, ap (λ b. b.far) p, bs, as')
      ])
