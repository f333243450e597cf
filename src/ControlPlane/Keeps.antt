-- ===== src/ControlPlane/Keeps.antt =====
-- What every step of a handler keeps: a predicate of the world that holds before holds after it,
-- whether the step succeeds or fails, and the step does not panic.
use upf_edge.Prelude.{Bool, true, false, ◌≢◌, refl, Option, none, some, Outcome, ok, err, panic}
use upf_edge.DataPlane.Rules.{Maps}
use upf_edge.ControlPlane.{
  PfcpServer, Effect, World, Failure, Answer, done, failed, crashed, Handler, ◌>>=◌, ◌>>◌, return,
  raise, from_outcome, or_fail, asks, on_server, on_maps, emit, require, continue,
}

abbrev pub Ends : {A : Type 0} → (World → Type 0) → Answer A → Type 0
Ends P (done a w) = P w
Ends P (failed e w) = P w
Ends P (crashed w) = ⊥

pub record Keeps {A : Type 0} (P : World → Type 0) (m : Handler A) : Type 0 where
  pub kept : (w : World) → P w → Ends P (m w)

continue-Ends :
    {A B : Type 0} (P : World → Type 0) (a : Answer A) (f : A → Handler B)
    → Ends P a
    → ((x : A) → Keeps P (f x))
    → Ends P (continue a f)
continue-Ends P (done a w) f h g = (g a).kept w h
continue-Ends P (failed e w) f h g = h
continue-Ends P (crashed w) f h g = h

module _ {P : World → Type 0} where
  pub >>=-Keeps :
      {A B : Type 0} {m : Handler A} {f : A → Handler B}
      → Keeps P m
      → ((a : A) → Keeps P (f a))
      → Keeps P (m >>= f)
  >>=-Keeps {m = m} {f = f} hm hf = record {
    kept = λ w h. continue-Ends P (m w) f (hm.kept w h) hf;
  }

  pub >>-Keeps :
      {B : Type 0} {m : Handler (Unit {0})} {k : Handler B}
      → Keeps P m
      → Keeps P k
      → Keeps P (m >> k)
  >>-Keeps hm hk = >>=-Keeps hm (λ _. hk)

  pub return-Keeps : {A : Type 0} (a : A) → Keeps P (return a)
  return-Keeps a = record { kept = λ w h. h }

  pub raise-Keeps : {A : Type 0} (e : Failure) → Keeps P (raise {A = A} e)
  raise-Keeps e = record { kept = λ w h. h }

  pub asks-Keeps : {A : Type 0} (f : World → A) → Keeps P (asks f)
  asks-Keeps f = record { kept = λ w h. h }

  pub or_fail-Keeps : {A : Type 0} (o : Option A) (e : Failure) → Keeps P (or_fail o e)
  or_fail-Keeps none e = record { kept = λ w h. h }
  or_fail-Keeps (some a) e = record { kept = λ w h. h }

  pub require-Keeps : (b : Bool) (e : Failure) → Keeps P (require b e)
  require-Keeps true e = record { kept = λ w h. h }
  require-Keeps false e = record { kept = λ w h. h }

  pub from_outcome-Keeps :
      {E A : Type 0} (f : E → Failure) (m : Outcome E A) → m ≢ panic → Keeps P (from_outcome f m)
  from_outcome-Keeps f (ok a) hm = record { kept = λ w h. h }
  from_outcome-Keeps f (err e) hm = record { kept = λ w h. h }
  from_outcome-Keeps f panic hm = record { kept = λ w h. hm refl }

Ends-continue :
    {A B : Type 0} {P R : World → Type 0} (a : Answer A) (f : A → Handler B)
    → Ends P a
    → ((v : World) → P v → R v)
    → ((x : A) (v : World) → P v → Ends R (f x v))
    → Ends R (continue a f)
Ends-continue (done a w) f h weaken hf = hf a w h
Ends-continue (failed e w) f h weaken hf = weaken w h
Ends-continue (crashed w) f h weaken hf = h

-- A predicate of the server alone.
pub record Of (Q : PfcpServer → Type 0) (w : World) : Type 0 where
  pub of_server : Q w.server

module _ {Q : PfcpServer → Type 0} where
  pub on_maps-Keeps : (f : Maps → Maps) → Keeps (Of Q) (on_maps f)
  on_maps-Keeps f = record { kept = λ w h. record { of_server = h.of_server } }

  pub emit-Keeps : (e : Effect) → Keeps (Of Q) (emit e)
  emit-Keeps e = record { kept = λ w h. record { of_server = h.of_server } }

  pub on_server-Keeps :
      (f : PfcpServer → PfcpServer)
      → ((srv : PfcpServer) → Q srv → Q (f srv))
      → Keeps (Of Q) (on_server f)
  on_server-Keeps f hf = record { kept = λ w h. record { of_server = hf w.server h.of_server } }

-- A step that keeps `P`, before one that takes `P` to `R`.
pub then-Ends :
    {A B : Type 0} {P R : World → Type 0} (m : Handler A) (f : A → Handler B) (w : World)
    → Keeps P m
    → ((v : World) → P v → R v)
    → ((a : A) (v : World) → P v → Ends R (f a v))
    → P w
    → Ends R ((m >>= f) w)
then-Ends {P = P} {R = R} m f w hm weaken hf h = Ends-continue (m w) f (hm.kept w h) weaken hf
