-- ===== src/ControlPlane/Reaches.antt =====
-- Steps of the handlers of upf-edge/src/handle_msg.rs that succeed: the world they end in, and how it is
-- related to the one before.
use upf_edge.Prelude.{ℕ, ◌≡◌, Bool, true, Option, none, some, refl, update}
use upf_edge.ControlPlane.{World, Env, Handler, done, ◌>>◌, put, put_over}

abbrev pub Reaches : (World → World → Type 0) → Handler (Unit {0}) → World → Type 0
Reaches R m w = (v : World) × (m w ≡ done tt v) × R w v

pub then-Reaches :
    (R : World → World → Type 0) (m k : Handler (Unit {0})) (w : World)
    → ((u v x : World) → R u v → R v x → R u x)
    → Reaches R m w
    → ((v : World) → Reaches R k v)
    → Reaches R (m >> k) w
then-Reaches R m k w trans (v, e, h) g = let (u, f, i) = g v in (u, rw (e) f, trans w v u h i)

-- No eBPF map is full.
pub record IsRoomy (env : Env) : Type 0 where
  pub sessions : (key : ℕ) → env.session_room key ≡ true
  pub pdrs : (key : ℕ) → env.pdr_room key ≡ true
  pub fars : (key : ℕ) → env.far_room key ≡ true
  pub urrs : (key : ℕ) → env.urr_room key ≡ true

put_over-roomy : {M V : Type 0} (old : Option V) (map : M) → put_over old true map ≡ some map
put_over-roomy none map = refl
put_over-roomy (some v) map = refl

pub put-roomy :
    {V : Type 0} (room : ℕ → Bool) (map : ℕ → Option V) (key : ℕ) (value : V)
    → room key ≡ true
    → put room map key value ≡ some (update map key (some value))
put-roomy room map key value h = rw (h) (put_over-roomy (map key) (update map key (some value)))
