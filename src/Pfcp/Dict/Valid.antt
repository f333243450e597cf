-- ===== src/Pfcp/Dict/Valid.antt =====
-- pfcp-common/src/dict_ext.rs: what the check of mandatory IEs finds, and the requests that pass it.
use upf_edge.Prelude.{
  ℕ, ◌≡◌, ◌↔◌, refl, true, inl, inr, some, List, [], ◌∷◌, arith, Bool-cases, All, ◌==◌,
}
use upf_edge.Bytes.{Bytes}
use upf_edge.Pfcp.Tlv.{Ie, items, iter_ies}
use upf_edge.Pfcp.Messages.{find}
use upf_edge.Pfcp.Dict.{
  IeSpec, MessageSpec, lookup, validate, is_ok, is_required, contains, names_without, mandatory_of,
}

-- The walk found an IE of the type.
abbrev pub HasIe : ℕ → List Ie → Type 0
HasIe t ies = (value : Bytes) × (find t ies ≡ some value)

contains→HasIe : (t : ℕ) (ies : List Ie) → contains t ies ≡ true → HasIe t ies
unfolding find
contains→HasIe t (ie ∷ ies) h = elim (Bool-cases (ie.ie_type == t)) [
  | inl e ↦ (ie.value, rw (e) refl)
  | inr e ↦ let (v, f) = contains→HasIe t ies (rw (e) at h) in (v, rw (e) f)
]
contains→HasIe t [] h = ground (arith, h)

pub HasIe→contains : (t : ℕ) (ies : List Ie) → HasIe t ies → contains t ies ≡ true
unfolding find
HasIe→contains t [] (v, h) = ground (arith, h)
HasIe→contains t (ie ∷ ies) (v, h) = ground (arith, h, HasIe→contains t ies)

abbrev Present : List Ie → IeSpec → Type 0
Present ies s = is_required s.presence ≡ true → HasIe s.ie_type ies

names→Present :
    (ies : List Ie) (specs : List IeSpec)
    → is_ok (names_without ies (mandatory_of specs)) ≡ true
    → All (Present ies) specs
names→Present ies [] h = tt
names→Present ies (s ∷ specs) h = elim (Bool-cases (is_required s.presence)) [
  | inr e ↦ (λ r. ground (arith, e, r), names→Present ies specs (rw (e) at h))
  | inl e ↦ elim (Bool-cases (contains s.ie_type ies)) [
    | inl c ↦ (λ r. contains→HasIe s.ie_type ies c, names→Present ies specs (rw (e, c) at h))
    | inr c ↦ absurd (ground (arith, rw (e, c) at h))
  ]
]

Present→names :
    (ies : List Ie) (specs : List IeSpec)
    → All (Present ies) specs
    → is_ok (names_without ies (mandatory_of specs)) ≡ true
Present→names ies [] h = refl
Present→names ies (s ∷ specs) (p, h) = elim (Bool-cases (is_required s.presence)) [
  | inr e ↦ rw (e) (Present→names ies specs h)
  | inl e ↦ rw (e, HasIe→contains s.ie_type ies (p e)) (Present→names ies specs h)
]

-- The check of a message whose type the dictionary knows passes exactly if the walk over the body finds
-- an IE of each type that the dictionary marks as mandatory for it.
pub validate_iff :
    (msg_type : ℕ) (spec : MessageSpec) (body : Bytes)
    → lookup msg_type ≡ some spec
    → (is_ok (validate msg_type body) ≡ true)
      ↔ All (λ s. is_required s.presence ≡ true → HasIe s.ie_type (items (iter_ies body))) spec.ies
unfolding validate
validate_iff msg_type spec body e = (
  λ h. names→Present (items (iter_ies body)) spec.ies (rw (e) at h),
  λ h. rw (e) (Present→names (items (iter_ies body)) spec.ies h),
)
