-- ===== src/Prelude/Results.antt =====
-- Fallible code: `ok`, an error of the caller's choice, or a panic (an index out of bounds).
use Prim.Native.Nat.{ℕ, ◌<◌}
use mathlib.Core.Path.{◌≡◌, refl}
use mathlib.Core.Logic.{◌≢◌}
use mathlib.Core.Bool.{Bool, true, false}
use mathlib.Core.List.{List}
use mathlib.Core.Option.{Option, none, some}
use upf_edge.Prelude.Lists.{length, get_elem?, get_or, get_elem?-get_or}

pub data Outcome {ℓ κ} (E : Type ℓ) (A : Type κ) : Type (ℓ ⊔ κ) where
  ok : A → Outcome E A
  err : E → Outcome E A
  panic : Outcome E A

infixl 5 ◌>>=◌ ◌>>◌
abbrev pub ◌>>=◌ {ℓ κ μ} :
    {E : Type ℓ} {A : Type κ} {B : Type μ} → Outcome E A → (A → Outcome E B) → Outcome E B
ok a >>= f = f a
err e >>= f = err e
panic >>= f = panic

abbrev pub ◌>>◌ {ℓ κ} : {E : Type ℓ} {B : Type κ} → Outcome E (Unit {0}) → Outcome E B → Outcome E B
m >> k = m >>= λ _. k

-- `Err` if the test holds, as in `if test { return Err(e) }`.
abbrev pub fail_if {ℓ} : {E : Type ℓ} → Bool → E → Outcome E (Unit {0})
fail_if true e = err e
fail_if false e = ok tt

abbrev pub ok_or {ℓ κ} : {E : Type ℓ} {A : Type κ} → Option A → E → Outcome E A
ok_or none e = err e
ok_or (some a) e = ok a

-- `r.ok()`
abbrev pub ok? {ℓ κ μ} : {E : Type ℓ} {F : Type κ} {A : Type μ} → Outcome E A → Outcome F (Option A)
ok? (ok a) = ok (some a)
ok? (err e) = ok none
ok? panic = panic

abbrev pub map_err {ℓ κ μ} :
    {E : Type ℓ} {F : Type κ} {A : Type μ} → (E → F) → Outcome E A → Outcome F A
map_err f (ok a) = ok a
map_err f (err e) = err (f e)
map_err f panic = panic

abbrev pub at_option {ℓ} : {E : Type ℓ} → Option ℕ → Outcome E ℕ
at_option none = panic
at_option (some b) = ok b

-- `buf[i]`
unfoldable pub at {ℓ} : {E : Type ℓ} → List ℕ → ℕ → Outcome E ℕ
at buf i = at_option (get_elem? buf i)

pub at-get_or {ℓ} :
    {E : Type ℓ} (buf : List ℕ) (i : ℕ) → i < length buf → at {E = E} buf i ≡ ok (get_or buf i 0)
unfolding at
at-get_or buf i h = rw (get_elem?-get_or buf i 0 h)

pub >>=-total {ℓ κ μ} :
    {E : Type ℓ} {A : Type κ} {B : Type μ} (m : Outcome E A) (f : A → Outcome E B)
    → m ≢ panic
    → ((a : A) → f a ≢ panic)
    → (m >>= f) ≢ panic
>>=-total (ok a) f hm hf = hf a
>>=-total (err e) f hm hf = λ h. cc
>>=-total panic f hm hf = λ h. hm refl
