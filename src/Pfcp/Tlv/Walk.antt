-- ===== src/Pfcp/Tlv/Walk.antt =====
-- The walk over TLVs of pfcp-common/src/ie.rs: fuel, and what it finds in any buffer.
use upf_edge.Prelude.{
  ℕ, zero, suc, ◌+◌, ◌^◌, ◌≤◌, ◌<◌, ◌≡◌, refl, ap, ◌∙◌, inl, inr, List, [], ◌∷◌, ◌++◌, append_assoc,
  arith, if◌then◌else◌, ltb, tests, Bool-cases, sym, All-drop, take-append-drop, length, take, drop,
  length-take, length-drop, length-append, take-append, drop-append, All,
}
use upf_edge.Bytes.{Bytes, IsByte, IsBytes, of_u16_be}
use upf_edge.Pfcp.Types.{is_grouped_ie}
use upf_edge.Pfcp.Tlv.{end, raw_ie, iter_loop, iter_ies, Ie, items, tlv, tlvs}

-- Any fuel that covers the buffer gives the same items.
iter_loop_fuel :
    (f g : ℕ) (buf : Bytes) → length buf ≤ f → length buf ≤ g → iter_loop f buf ≡ iter_loop g buf
unfolding iter_loop
iter_loop_fuel zero zero buf hf hg = refl
iter_loop_fuel zero (suc g) [] hf hg = refl
iter_loop_fuel zero (suc g) (a ∷ buf) hf hg = absurd (omega arith)
iter_loop_fuel (suc f) zero [] hf hg = refl
iter_loop_fuel (suc f) zero (a ∷ buf) hf hg = absurd (omega arith)
iter_loop_fuel (suc f) (suc g) (t1 ∷ t0 ∷ l1 ∷ l0 ∷ buf) hf hg = ground (
  arith,
  iter_loop_fuel f g (take (of_u16_be l1 l0) buf),
  iter_loop_fuel f g (drop (of_u16_be l1 l0) buf),
  length-take (of_u16_be l1 l0) buf,
  length-drop (of_u16_be l1 l0) buf,
)
iter_loop_fuel (suc f) (suc g) _ hf hg = refl

-- One round of the loop, at a header that announces `value`.
iter_loop_step :
    (fuel t t1 t0 l1 l0 : ℕ) (value rest : Bytes)
    → of_u16_be t1 t0 ≡ t
    → of_u16_be l1 l0 ≡ length value
    → length value < 2 ^ 16
    → length value + length rest ≤ fuel
    → iter_loop (suc fuel) (t1 ∷ t0 ∷ l1 ∷ l0 ∷ (value ++ rest))
      ≡ raw_ie t
          (length value)
          value
          (if is_grouped_ie t then iter_loop (length value) value else end)
          (iter_loop (length rest) rest)
unfolding iter_loop
iter_loop_step fuel t t1 t0 l1 l0 value rest et el hv hf =
    rw (et, el, take-append value rest, drop-append value rest)
      (ground (
        arith,
        length-append value rest,
        iter_loop_fuel fuel (length value) value,
        iter_loop_fuel fuel (length rest) rest,
      ))

-- The walk of a buffer that begins with a complete IE.
pub iter_ies-tlv :
    (t : ℕ) (value rest : Bytes)
    → t < 2 ^ 16
    → length value < 2 ^ 16
    → iter_ies (tlv t value ++ rest)
      ≡ raw_ie t
          (length value)
          value
          (if is_grouped_ie t then iter_ies value else end)
          (iter_ies rest)
unfolding iter_ies
iter_ies-tlv t value rest ht hv =
    iter_loop_step (suc (suc (suc (length (value ++ rest))))) t _ _ _ _ value rest (omega arith)
      (omega arith) hv (omega (arith, length-append value rest))

-- The bytes that end the loop: fewer than a header, or a header that announces more than there is.
abbrev pub IsTruncated : Bytes → Type 0
IsTruncated (t1 ∷ t0 ∷ l1 ∷ l0 ∷ buf) = length buf < of_u16_be l1 l0
IsTruncated _ = Unit {0}

abbrev pub IsIe : Ie → Type 0
IsIe ie = (ie.ie_type < 2 ^ 16) × (length ie.value < 2 ^ 16)

iter_ies-IsTruncated : (buf : Bytes) → IsTruncated buf → iter_ies buf ≡ end
unfolding iter_ies
iter_ies-IsTruncated (t1 ∷ t0 ∷ l1 ∷ l0 ∷ buf) h = ground arith
iter_ies-IsTruncated _ h = refl

-- The walk finds the IEs that were written one after the other, each with its whole value, and
-- stops at a truncated rest.
pub items-iter_ies-tlvs :
    (ies : List Ie) (rest : Bytes)
    → All IsIe ies
    → IsTruncated rest
    → items (iter_ies (tlvs ies ++ rest)) ≡ ies
items-iter_ies-tlvs [] rest h ht = rw (iter_ies-IsTruncated rest ht)
items-iter_ies-tlvs (ie ∷ ies) rest (hi, hs) ht =
    rw (append_assoc (tlv ie.ie_type ie.value) (tlvs ies) rest) (
      rw (iter_ies-tlv ie.ie_type ie.value (tlvs ies ++ rest) hi.0 hi.1)
        (ap (◌∷◌ ie) (items-iter_ies-tlvs ies rest hs ht)))

-- What the walk leaves of the buffer.
left_over : ℕ → Bytes → Bytes
left_over zero buf = buf
left_over (suc fuel) (t1 ∷ t0 ∷ l1 ∷ l0 ∷ buf) =
    let len = of_u16_be l1 l0 in
    let rest = left_over fuel (drop len buf) in
    if ltb (4 + length buf) (4 + len) then t1 ∷ t0 ∷ l1 ∷ l0 ∷ buf else rest
left_over (suc fuel) buf = buf

abbrev IsWalk : Bytes → List Ie → Bytes → Type 0
IsWalk buf ies rest = (buf ≡ tlvs ies ++ rest) × All IsIe ies × IsTruncated rest

-- A header that announces no more than there is.
one_more :
    (t1 t0 l1 l0 : ℕ) (buf : Bytes) (ies : List Ie) (rest : Bytes)
    → IsBytes (t1 ∷ t0 ∷ l1 ∷ l0 ∷ [])
    → of_u16_be l1 l0 ≤ length buf
    → IsWalk (drop (of_u16_be l1 l0) buf) ies rest
    → IsWalk
        (t1 ∷ t0 ∷ l1 ∷ l0 ∷ buf)
        (record { ie_type = of_u16_be t1 t0; value = take (of_u16_be l1 l0) buf } ∷ ies)
        rest
one_more t1 t0 l1 l0 buf ies rest h hl (e, hi, ht) =
    let n = of_u16_be l1 l0 in
    let tail : buf ≡ (take n buf ++ tlvs ies) ++ rest =
      sym (take-append-drop n buf)
      ∙ ap (◌++◌ (take n buf)) e
      ∙ sym (append_assoc (take n buf) (tlvs ies) rest) in
    (
      ground (arith, length-take n buf, tail),
      ((omega arith, omega (arith, length-take n buf)), hi),
      ht,
    )

iter_loop-IsWalk :
    (fuel : ℕ) (buf : Bytes)
    → length buf ≤ fuel
    → IsBytes buf
    → IsWalk buf (items (iter_loop fuel buf)) (left_over fuel buf)
unfolding iter_loop left_over
iter_loop-IsWalk zero [] hf h = (refl, tt, tt)
iter_loop-IsWalk zero (b ∷ buf) hf h = absurd (omega arith)
iter_loop-IsWalk (suc fuel) (t1 ∷ t0 ∷ l1 ∷ l0 ∷ buf) hf h =
    elim (Bool-cases (ltb (4 + length buf) (4 + of_u16_be l1 l0))) [
      | inl cut ↦ rw cut (refl, tt, omega (tests, cut))
      | inr whole ↦
          let len = of_u16_be l1 l0 in
          rw whole (
            one_more t1 t0 l1 l0 buf _ _ (h.0, (h.1.0, (h.1.1.0, (h.1.1.1.0, tt))))
              (omega (tests, whole))
              (iter_loop-IsWalk fuel (drop len buf) (omega (arith, length-drop len buf))
                (All-drop IsByte len buf h.1.1.1.1)))
    ]
iter_loop-IsWalk (suc fuel) _ hf h = (refl, tt, tt)

-- On any bytes, the found IEs and a truncated rest make up the buffer: none is made up or skipped.
pub iter_ies_complete :
    (buf : Bytes)
    → IsBytes buf
    → (rest : Bytes) × (buf ≡ tlvs (items (iter_ies buf)) ++ rest)
      × All IsIe (items (iter_ies buf))
      × IsTruncated rest
unfolding iter_ies
iter_ies_complete buf h =
    let walk = iter_loop-IsWalk (length buf) buf (omega arith) h in
    (left_over (length buf) buf, walk.0, walk.1, walk.2)
