-- ===== src/Common/Keys.antt =====
-- The composed map keys of upf-edge-common/src/lib.rs.
use upf_edge.Prelude.{ℕ, ◌+◌, ◌*◌, ◌/◌, ◌%◌, ◌^◌, ◌<◌, ◌≡◌, ◌↔◌, arith, bit_and, bit_or}
use upf_edge.Bytes.Bits.{bit_or_u16, bit_and_u16}
use upf_edge.Common.{pdr_key, far_key, urr_key, swap_u16, swap_u32}

composed :
    (seid id : ℕ)
    → seid < 2 ^ 48
    → bit_or (seid * 2 ^ 16 % 2 ^ 64) (bit_and id 0xFFFF) ≡ seid * 2 ^ 16 + id % 2 ^ 16
composed seid id h =
    let fits : seid * 2 ^ 16 % 2 ^ 64 ≡ seid * 2 ^ 16 = omega arith in
    rw (fits, bit_and_u16 id) (bit_or_u16 seid (id % 2 ^ 16) (omega arith))

pub pdr_key_sum : (seid id : ℕ) → seid < 2 ^ 48 → pdr_key seid id ≡ seid * 2 ^ 16 + id % 2 ^ 16
unfolding pdr_key
pdr_key_sum = composed

pub far_key_sum : (seid id : ℕ) → seid < 2 ^ 48 → far_key seid id ≡ seid * 2 ^ 16 + id % 2 ^ 16
unfolding far_key
far_key_sum = composed

pub urr_key_sum : (seid id : ℕ) → seid < 2 ^ 48 → urr_key seid id ≡ seid * 2 ^ 16 + id % 2 ^ 16
unfolding urr_key
urr_key_sum = composed

-- For SEIDs below 2 ^ 48, two PDR keys are equal exactly when the SEIDs are equal and the PDR IDs
-- agree in their low 16 bits: no PDR of one session is ever taken for one of another session, and
-- within a session PDR IDs of 16 bits never collide.
pub pdr_key_injective :
    (seid seid' id id' : ℕ)
    → seid < 2 ^ 48
    → seid' < 2 ^ 48
    → (pdr_key seid id ≡ pdr_key seid' id') ↔ ((seid ≡ seid') × (id % 2 ^ 16 ≡ id' % 2 ^ 16))
pdr_key_injective seid seid' id id' h h' =
    rw (pdr_key_sum seid id h, pdr_key_sum seid' id' h')
      ((λ e. (omega arith, omega arith)), (λ (p, q). omega arith))

pub far_key_injective :
    (seid seid' id id' : ℕ)
    → seid < 2 ^ 48
    → seid' < 2 ^ 48
    → (far_key seid id ≡ far_key seid' id') ↔ ((seid ≡ seid') × (id % 2 ^ 16 ≡ id' % 2 ^ 16))
far_key_injective seid seid' id id' h h' =
    rw (far_key_sum seid id h, far_key_sum seid' id' h')
      ((λ e. (omega arith, omega arith)), (λ (p, q). omega arith))

-- The reporter splits a URR key back, `key >> 16` and `key & 0xFFFF`: for a SEID below 2 ^ 48 and a
-- URR ID of 16 bits it finds what the data plane composed.
urr_key_split :
    (seid id : ℕ)
    → seid < 2 ^ 48
    → id < 2 ^ 16
    → (urr_key seid id / 2 ^ 16 ≡ seid) × (bit_and (urr_key seid id) 0xFFFF ≡ id)
urr_key_split seid id h hid =
    rw (urr_key_sum seid id h, bit_and_u16 (seid * 2 ^ 16 + id % 2 ^ 16)) (omega arith, omega arith)

-- `to_be` undoes itself.
pub swap_u16_twice : (n : ℕ) → n < 2 ^ 16 → swap_u16 (swap_u16 n) ≡ n
unfolding swap_u16
swap_u16_twice n h = omega arith

pub swap_u32_twice : (n : ℕ) → n < 2 ^ 32 → swap_u32 (swap_u32 n) ≡ n
unfolding swap_u32
swap_u32_twice n h = omega arith
