-- ===== src/Bytes/Bits.antt =====
-- `x << 16 | y` and `y & 0xFFFF` as arithmetic, a nibble at a time, from the recursion on binary
-- digits that the native operations stand for.
use Prim.Native.Nat.{max, digits, bit_and-bitwise, bit_or-bitwise}
use native.Mathlib.Decide.{ℕ_discrete}
use upf_edge.Prelude.{
  ℕ, zero, suc, ◌+◌, ◌*◌, ◌/◌, ◌%◌, ◌^◌, ◌≤◌, ◌<◌, ◌≡◌, refl, sym, ◌∙◌, arith, bit_and, bit_or, min,
  subst,
}

-- Fuel beyond the first number changes nothing.
module _ (z : ℕ → ℕ) (f : ℕ → ℕ → ℕ) where
  spare_round : (n a b : ℕ) → a ≤ n → digits z f (suc n) a b ≡ digits z f n a b
  spare_round zero zero b h = refl
  spare_round zero (suc a) b h = absurd (omega arith)
  spare_round (suc n) zero b h = refl
  spare_round (suc n) (suc a) b h = omega (arith, spare_round n (suc a / 2) (b / 2) (omega arith))

  spare_rounds : (m n a b : ℕ) → a ≤ n → n ≤ m → digits z f m a b ≡ digits z f n a b
  spare_rounds zero n a b h g =
      subst (λ k. digits z f 0 a b ≡ digits z f k a b) {x = 0} (omega arith) refl
  spare_rounds (suc m) n a b h g = elim (ℕ_discrete n (suc m)) [
    | yes e ↦ subst (λ k. digits z f (suc m) a b ≡ digits z f k a b) (sym e) refl
    | no ne ↦ spare_round m a b (omega arith) ∙ spare_rounds m n a b h (omega arith)
  ]

pub bit_or_digit : (a b : ℕ) → bit_or a b ≡ bit_or (a / 2) (b / 2) * 2 + max (a % 2) (b % 2)
bit_or_digit zero b = simp bit_or-bitwise (omega arith)
bit_or_digit (suc a) b = simp bit_or-bitwise (
    omega (
      arith,
      spare_rounds (λ y. y) max a (suc a / 2) (suc a / 2) (b / 2) (omega arith) (omega arith),
    ))

pub bit_and_digit : (a b : ℕ) → bit_and a b ≡ bit_and (a / 2) (b / 2) * 2 + min (a % 2) (b % 2)
bit_and_digit zero b = simp bit_and-bitwise (omega arith)
bit_and_digit (suc a) b = simp bit_and-bitwise (
    omega (
      arith,
      spare_rounds (λ y. 0) min a (suc a / 2) (suc a / 2) (b / 2) (omega arith) (omega arith),
    ))

zero_digits : (k a : ℕ) → a ≤ k → (bit_or a 0 ≡ a) × (bit_and a 0 ≡ 0)
zero_digits zero a h =
    subst (λ n. (bit_or n 0 ≡ n) × (bit_and n 0 ≡ 0)) {x = 0} (omega arith) (refl, refl)
zero_digits (suc k) zero h = (refl, refl)
zero_digits (suc k) (suc a) h =
    let half = zero_digits k (suc a / 2) (omega arith) in
    (omega (arith, bit_or_digit (suc a) 0, half.0), omega (arith, bit_and_digit (suc a) 0, half.1))

or_nibble : (q r : ℕ) → bit_or (q * 16) r ≡ bit_or q (r / 16) * 16 + r % 16
or_nibble q r = ground (
  arith,
  bit_or_digit (q * 16) r,
  bit_or_digit (q * 8) (r / 2),
  bit_or_digit (q * 4) (r / 4),
  bit_or_digit (q * 2) (r / 8),
)

and_nibble : (a m : ℕ) → bit_and a (m * 16 + 15) ≡ bit_and (a / 16) m * 16 + a % 16
and_nibble a m = ground (
  arith,
  bit_and_digit a (m * 16 + 15),
  bit_and_digit (a / 2) (m * 8 + 7),
  bit_and_digit (a / 4) (m * 4 + 3),
  bit_and_digit (a / 8) (m * 2 + 1),
)

-- `q << 16 | r` is a sum when `r` has 16 bits.
pub bit_or_u16 : (q r : ℕ) → r < 2 ^ 16 → bit_or (q * 2 ^ 16) r ≡ q * 2 ^ 16 + r
bit_or_u16 q r h = ground (
  arith,
  or_nibble (q * 4096) r,
  or_nibble (q * 256) (r / 16),
  or_nibble (q * 16) (r / 256),
  or_nibble q (r / 4096),
  (zero_digits q q (omega arith)).0,
)

pub bit_and_u16 : (a : ℕ) → bit_and a 0xFFFF ≡ a % 2 ^ 16
bit_and_u16 a = ground (
  arith,
  and_nibble a 0xFFF,
  and_nibble (a / 16) 0xFF,
  and_nibble (a / 256) 0xF,
  and_nibble (a / 4096) 0,
  (zero_digits (a / 65536) (a / 65536) (omega arith)).1,
)
