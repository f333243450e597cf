-- ===== src/DataPlane/Gtpu/Checksum.antt =====
-- The IP checksum of upf-edge-ebpf/src/gtpu.rs, and what becomes of it in the header that
-- upf-edge-ebpf/src/main.rs writes.
use upf_edge.Prelude.{
  ℕ, ◌+◌, ◌-◌, ◌*◌, ◌%◌, ◌^◌, ◌≤◌, ◌<◌, ◌≡◌, ◌↔◌, ap, sym, ◌∙◌, arith, [], ◌∷◌, if◌then◌else◌, ◌==◌,
}
use upf_edge.Bytes.{Bytes, IsByte}
use upf_edge.Common.{swap_u16}
use upf_edge.DataPlane.Gtpu.{IpHdr, ip_bytes, sum_words, carry, ip_checksum, checksum_bytes}

swap_u16-lt : (x : ℕ) → x < 0xFFFF → swap_u16 x < 0xFFFF
unfolding swap_u16
swap_u16-lt x h = omega arith

-- The fields have their width.
pub record IsIpHdr (h : IpHdr) : Type 0 where
  pub version_ihl : IsByte h.version_ihl
  pub tos : IsByte h.tos
  pub tot_len : h.tot_len < 2 ^ 16
  pub id : h.id < 2 ^ 16
  pub frag_off : h.frag_off < 2 ^ 16
  pub ttl : IsByte h.ttl
  pub protocol : IsByte h.protocol
  pub check : h.check < 2 ^ 16
  pub saddr : h.saddr < 2 ^ 32
  pub daddr : h.daddr < 2 ^ 32

-- The checksum field adds the word that its two bytes are in network order.
sum_check :
    (h : IpHdr) (c : ℕ)
    → c < 2 ^ 16
    → sum_words (ip_bytes (record h { check = c }))
      ≡ sum_words (ip_bytes (record h { check = 0 })) + swap_u16 c
unfolding swap_u16
sum_check h c hc = omega arith

-- The reference, as RFC 1071 has it: the one's complement sum of all 16-bit words of the bytes, which is
-- the sum modulo 0xFFFF, where a sum that is not 0 never comes out as 0.
pub word_sum : Bytes → ℕ
word_sum [] = 0
word_sum (b ∷ []) = b * 2 ^ 8
word_sum (b ∷ c ∷ rest) = b * 2 ^ 8 + c + word_sum rest

abbrev pub ones_sum : ℕ → ℕ
ones_sum s = if s == 0 then 0 else (s - 1) % 0xFFFF + 1

-- A receiver adds up the words of the whole header, the checksum included, and wants all ones.
abbrev pub IsIntact : Bytes → Type 0
IsIntact p = ones_sum (word_sum p) ≡ 0xFFFF

ten_words : (h : IpHdr) → sum_words (ip_bytes h) ≡ word_sum (ip_bytes h)
unfolding word_sum
ten_words h = omega arith

folded : (s : ℕ) → s ≤ 10 * 0xFFFF → 0xFFFF - carry (carry s) % 2 ^ 16 ≡ 0xFFFF - ones_sum s
folded s h = ground arith

-- One's complement: only one word completes a sum that is not 0.
complete :
    (s x : ℕ)
    → 0 < s
    → s ≤ 9 * 0xFFFF
    → x < 0xFFFF
    → (ones_sum (s + x) ≡ 0xFFFF) ↔ (x ≡ 0xFFFF - carry (carry s) % 2 ^ 16)
complete s x hs hb hx = ((λ e. ground arith), (λ e. ground arith))

rest_bound : (h : IpHdr) → IsIpHdr h → sum_words (ip_bytes (record h { check = 0 })) ≤ 9 * 0xFFFF
rest_bound h w = omega arith

bound : (h : IpHdr) → IsIpHdr h → sum_words (ip_bytes h) ≤ 10 * 0xFFFF
bound h w = omega arith

-- For a header whose fields have their width, `ip_checksum` is the complement of the one's complement
-- sum of all its 16-bit words: two carries are enough, and the cast to `u16` drops nothing.
pub ip_checksum-complements :
    (h : IpHdr) → IsIpHdr h → ip_checksum h ≡ 0xFFFF - ones_sum (word_sum (ip_bytes h))
unfolding ip_checksum checksum_bytes
ip_checksum-complements h w =
    folded (sum_words (ip_bytes h)) (bound h w) ∙ ap (λ s. 0xFFFF - ones_sum s) (ten_words h)

-- With `x` below 0xFFFF in the checksum field of a header whose first byte is not 0, a receiver finds the
-- header intact exactly if the bytes of `x`, exchanged, are the checksum that `ip_checksum` gives for
-- the header with a zero field: the field is to hold it in network order.
pub checksum_accepted :
    (h : IpHdr) (x : ℕ)
    → IsIpHdr h
    → 0 < h.version_ihl
    → x < 0xFFFF
    → IsIntact (ip_bytes (record h { check = x }))
      ↔ (swap_u16 x ≡ ip_checksum (record h { check = 0 }))
unfolding ip_checksum checksum_bytes
checksum_accepted h x w hv hx =
    let filled : IpHdr = record h { check = x } in
    let rest : ℕ = sum_words (ip_bytes (record h { check = 0 })) in
    let total : ones_sum (word_sum (ip_bytes filled)) ≡ ones_sum (rest + swap_u16 x) =
      ap ones_sum (sym (ten_words filled) ∙ sum_check h x (omega arith)) in
    let (there, back) =
      complete rest (swap_u16 x) (omega arith) (rest_bound h w) (swap_u16-lt x hx) in
    ((λ e. there (sym total ∙ e)), (λ e. total ∙ back e))
