-- ===== src/Bytes.antt =====
-- Byte strings: big-endian fields, as `to_be_bytes` and `from_be_bytes` write and read them, and
-- IPv4 addresses, which are the number `u32::from(addr)`.
pub mod Bits
pub mod Masks
use upf_edge.Prelude.{
  ℕ, zero, suc, ◌+◌, ◌*◌, ◌/◌, ◌%◌, ◌^◌, ◌<◌, ◌≡◌, refl, List, [], ◌∷◌, ◌++◌, arith, Outcome, ok,
  ◌>>=◌, at, at-get_or, length, get_or, All,
}

abbrev pub Bytes : Type 0
Bytes = List ℕ

abbrev pub IsByte : ℕ → Type 0
IsByte b = b < 256

abbrev pub IsBytes : Bytes → Type 0
IsBytes = All IsByte

abbrev pub u16_be : ℕ → Bytes
u16_be n = n / 2 ^ 8 % 256 ∷ n % 256 ∷ []

abbrev pub u32_be : ℕ → Bytes
u32_be n = n / 2 ^ 24 % 256 ∷ n / 2 ^ 16 % 256 ∷ n / 2 ^ 8 % 256 ∷ n % 256 ∷ []

abbrev pub u64_be : ℕ → Bytes
u64_be n =
    n / 2 ^ 56 % 256 ∷ n / 2 ^ 48 % 256 ∷ n / 2 ^ 40 % 256 ∷ n / 2 ^ 32 % 256 ∷ u32_be (n % 2 ^ 32)

-- `uN::from_be_bytes`
abbrev pub of_u16_be : ℕ → ℕ → ℕ
of_u16_be a b = a * 2 ^ 8 + b

abbrev pub of_u32_be : ℕ → ℕ → ℕ → ℕ → ℕ
of_u32_be a b c d = a * 2 ^ 24 + b * 2 ^ 16 + c * 2 ^ 8 + d

abbrev pub of_u64_be : ℕ → ℕ → ℕ → ℕ → ℕ → ℕ → ℕ → ℕ → ℕ
of_u64_be a b c d e f g h = of_u32_be a b c d * 2 ^ 32 + of_u32_be e f g h

-- What stands at an index, where there are enough bytes.
abbrev pub u32_from : Bytes → ℕ → ℕ
u32_from buf i =
    of_u32_be (get_or buf i 0) (get_or buf (i + 1) 0) (get_or buf (i + 2) 0) (get_or buf (i + 3) 0)

module _ {ℓ} {E : Type ℓ} where
  -- The field that starts at index `i`; each byte is read by `buf[i]`.
  unfoldable pub u16_at : Bytes → ℕ → Outcome E ℕ
  unfolding at
  u16_at buf i = do a ← at buf i; b ← at buf (i + 1); ok (of_u16_be a b)

  unfoldable pub u32_at : Bytes → ℕ → Outcome E ℕ
  unfolding at
  u32_at buf i = do
    a ← at buf i
    b ← at buf (i + 1)
    c ← at buf (i + 2)
    d ← at buf (i + 3)
    ok (of_u32_be a b c d)

  unfoldable pub u64_at : Bytes → ℕ → Outcome E ℕ
  unfolding u32_at
  u64_at buf i = do a ← u32_at buf i; b ← u32_at buf (i + 4); ok (a * 2 ^ 32 + b)

  -- Where the bytes are there, the field is read and nothing panics.
  pub u16_at_lem :
      (buf : Bytes) (i : ℕ)
      → i + 1 < length buf
      → u16_at buf i ≡ ok (of_u16_be (get_or buf i 0) (get_or buf (i + 1) 0))
  unfolding u16_at
  u16_at_lem buf i h = rw (at-get_or buf i (omega arith), at-get_or buf (i + 1) h)

  pub u32_at_lem : (buf : Bytes) (i : ℕ) → i + 3 < length buf → u32_at buf i ≡ ok (u32_from buf i)
  unfolding u32_at
  u32_at_lem buf i h = rw (
    at-get_or buf i (omega arith),
    at-get_or buf (i + 1) (omega arith),
    at-get_or buf (i + 2) (omega arith),
    at-get_or buf (i + 3) h,
  )

  pub u64_at_lem :
      (buf : Bytes) (i : ℕ)
      → i + 7 < length buf
      → u64_at buf i ≡ ok (u32_from buf i * 2 ^ 32 + u32_from buf (i + 4))
  unfolding u64_at
  u64_at_lem buf i h = rw (u32_at_lem buf i (omega arith), u32_at_lem buf (i + 4) (omega arith))

pub of_u16_be_lem : (n : ℕ) → n < 2 ^ 16 → of_u16_be (n / 2 ^ 8 % 256) (n % 256) ≡ n
of_u16_be_lem n h = omega arith

pub of_u32_be_lem :
    (n : ℕ)
    → n < 2 ^ 32
    → of_u32_be (n / 2 ^ 24 % 256) (n / 2 ^ 16 % 256) (n / 2 ^ 8 % 256) (n % 256) ≡ n
of_u32_be_lem n h = omega arith
