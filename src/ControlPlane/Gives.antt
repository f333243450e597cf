-- ===== src/ControlPlane/Gives.antt =====
-- What every answer of a handler of upf-edge/src/handle_msg.rs has in common, by the shape of the handler.
use upf_edge.Prelude.{ℕ, ◌≡◌, refl, Bool, true, false, if◌then◌else◌, ◌==◌, ==_iff}
use upf_edge.ControlPlane.{
  World, Failure, Answer, done, failed, crashed, Handler, continue, ◌>>=◌, ◌>>◌, return, raise,
}

-- What is returned, if anything is.
abbrev pub Given : {A : Type 0} → (A → Type 0) → Answer A → Type 0
Given P (done a w) = P a
Given P (failed e w) = Unit {0}
Given P (crashed w) = Unit {0}

pub record Gives {A : Type 0} (P : A → Type 0) (m : Handler A) : Type 0 where
  pub given : (w : World) → Given P (m w)

continue-Given :
    {A B : Type 0} (P : A → Type 0) (x : Answer B) (f : B → Handler A)
    → ((b : B) → Gives P (f b))
    → Given P (continue x f)
continue-Given P (done b w) f g = (g b).given w
continue-Given P (failed e w) f g = tt
continue-Given P (crashed w) f g = tt

module _ {A : Type 0} {P : A → Type 0} where
  pub >>=-Gives :
      {B : Type 0} (m : Handler B) {f : B → Handler A}
      → ((b : B) → Gives P (f b))
      → Gives P (m >>= f)
  >>=-Gives m {f = f} g = record { given = λ w. continue-Given P (m w) f g }

  pub >>-Gives : (m : Handler (Unit {0})) {k : Handler A} → Gives P k → Gives P (m >> k)
  >>-Gives m g = >>=-Gives m (λ _. g)

  pub return-Gives : (a : A) → P a → Gives P (return a)
  return-Gives a p = record { given = λ w. p }

  pub raise-Gives : (e : Failure) → Gives P (raise e)
  raise-Gives e = record { given = λ w. tt }

  tested-Gives :
      (b : Bool) (m k : Handler A)
      → (b ≡ true → Gives P m)
      → Gives P k
      → Gives P (if b then m else k)
  tested-Gives true m k g h = g refl
  tested-Gives false m k g h = h

  -- A match on a number.
  pub ==-Gives :
      (t c : ℕ) (m k : Handler A)
      → (t ≡ c → Gives P m)
      → Gives P k
      → Gives P (if t == c then m else k)
  ==-Gives t c m k g h = tested-Gives (t == c) m k (λ e. g ((==_iff t c).0 e)) h
