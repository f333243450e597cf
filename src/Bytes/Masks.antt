-- ===== src/Bytes/Masks.antt =====
-- Masks on one byte as arithmetic; each is a table checked by evaluation.
use upf_edge.Prelude.{ℕ, zero, suc, ◌%◌, ◌<◌, ◌≡◌, refl, Bool, true, ◌&&◌, arith, ◌==◌, bit_and}

module _ (f g : ℕ → ℕ) where
  agree_below : ℕ → Bool
  agree_below zero = true
  agree_below (suc n) = f n == g n && agree_below n

  agree_below→eq : (n : ℕ) → agree_below n ≡ true → (i : ℕ) → i < n → f i ≡ g i
  unfolding agree_below
  agree_below→eq zero e i h = elim h [ ]
  agree_below→eq (suc n) e i h = ground (arith, agree_below→eq n (ground arith) i)

pub bit_and_0x01 : (b : ℕ) → b < 256 → bit_and b 0x01 ≡ b % 2
unfolding agree_below
bit_and_0x01 = agree_below→eq _ _ 256 refl

pub bit_and_0x0f : (b : ℕ) → b < 256 → bit_and b 0x0f ≡ b % 16
unfolding agree_below
bit_and_0x0f = agree_below→eq _ _ 256 refl
