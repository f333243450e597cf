-- ===== src/Pfcp/Builder/Rows.antt =====
-- A value made of complete IEs, as pfcp-common/src/builder.rs writes it, under the parsers of ie.rs.
use upf_edge.Prelude.{
  ℕ, ◌<◌, ◌≡◌, ap, ◌∙◌, sym, Option, none, some, List, [], ◌∷◌, ◌++◌, append-nil, append_assoc, All,
}
use upf_edge.Bytes.{Bytes}
use upf_edge.Pfcp.Ie.Grouped.{for_each}
use upf_edge.Pfcp.Tlv.{Ie, items, iter_ies, tlv, tlvs}
use upf_edge.Pfcp.Tlv.Walk.{IsIe, items-iter_ies-tlvs}
use upf_edge.Pfcp.Builder.{MsgBuilder, add_ie, append_ie}

abbrev pub Below : ℕ → Option ℕ → Type 0
Below bound none = Unit {0}
Below bound (some x) = x < bound

-- Parsing what is a row of complete IEs is a walk over them.
pub for_each-tlvs :
    {S : Type 0} (arm : Ie → S → _) (ies : List Ie) (s : S)
    → All IsIe ies
    → for_each arm (items (iter_ies (tlvs ies))) s ≡ for_each arm ies s
for_each-tlvs arm ies s h =
    ap (λ l. for_each arm l s) (rw (append-nil (tlvs ies)) at (items-iter_ies-tlvs ies [] h tt))

abbrev pub some_ie : {A : Type 0} → ℕ → (A → Bytes) → Option A → List Ie
some_ie t value none = []
some_ie t value (some x) = record { ie_type = t; value = value x } ∷ []

abbrev pub ie : ℕ → Bytes → Ie
ie t value = record { ie_type = t; value = value }

-- A message to which IEs are added one after the other.
abbrev pub add_ies : MsgBuilder → List Ie → MsgBuilder
add_ies msg [] = msg
add_ies msg (x ∷ ies) = add_ies (add_ie msg x.ie_type x.value) ies

pub add_ies-tlvs : (msg : MsgBuilder) (ies : List Ie) → add_ies msg ies ≡ msg ++ tlvs ies
unfolding add_ie append_ie
add_ies-tlvs msg [] = sym (append-nil msg)
add_ies-tlvs msg (x ∷ ies) =
    add_ies-tlvs (msg ++ tlv x.ie_type x.value) ies
    ∙ append_assoc msg (tlv x.ie_type x.value) (tlvs ies)
