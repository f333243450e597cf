-- ===== src/Pfcp/Tlv.antt =====
-- The TLV walk of pfcp-common/src/ie.rs. The source's `Vec<RawIE>`, whose items hold such a
-- vector again, is one data type here: `raw_ie` is the first item in front of the rest.
pub mod Walk
use upf_edge.Prelude.{
  ℕ, zero, suc, ◌+◌, ◌%◌, ◌^◌, List, [], ◌∷◌, ◌++◌, if◌then◌else◌, ltb, length, take, drop,
}
use upf_edge.Bytes.{Bytes, of_u16_be, u16_be}
use upf_edge.Pfcp.Types.{is_grouped_ie}

pub data RawIes : Type 0 where
  end : RawIes
  raw_ie : (ie_type length : ℕ) (value : Bytes) (sub_ie rest : RawIes) → RawIes

-- One round of the loop for each four bytes or more; a truncated IE ends it.
iter_loop : ℕ → Bytes → RawIes
iter_loop zero buf = end
iter_loop (suc fuel) (t1 ∷ t0 ∷ l1 ∷ l0 ∷ buf) =
    let ie_type = of_u16_be t1 t0 in
    let len = of_u16_be l1 l0 in
    let value = take len buf in
    let sub_ie = iter_loop fuel value in
    let rest = iter_loop fuel (drop len buf) in
    if ltb (4 + length buf) (4 + len)
    then end
    else raw_ie ie_type (len % 2 ^ 16) value (if is_grouped_ie ie_type then sub_ie else end) rest
iter_loop (suc fuel) _ = end

-- Each round and each descent takes four bytes, so `length buf` rounds are enough.
unfoldable pub iter_ies : Bytes → RawIes
unfolding iter_loop
iter_ies buf = iter_loop (length buf) buf

-- What the callers read of an item.
pub record Ie : Type 0 where
  pub ie_type : ℕ
  pub value : Bytes

-- `for ie in &ies`: the items of the outer level, in order.
abbrev pub items : RawIes → List Ie
items end = []
items (raw_ie ie_type len value sub_ie rest) =
    record { ie_type = ie_type; value = value } ∷ items rest

-- One IE on the wire; the length field holds `value.len() as u16`.
abbrev pub tlv : ℕ → Bytes → Bytes
tlv ie_type value = u16_be ie_type ++ (u16_be (length value % 2 ^ 16) ++ value)

abbrev pub tlvs : List Ie → Bytes
tlvs [] = []
tlvs (ie ∷ ies) = tlv ie.ie_type ie.value ++ tlvs ies
