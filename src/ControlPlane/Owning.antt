-- ===== src/ControlPlane/Owning.antt =====
-- upf-edge/src/pfcp_server.rs: an association that is changed under its node ID.
use upf_edge.Prelude.{ℕ, ◌≡◌, inl, inr, Bool-cases, some, List, [], ◌∷◌, arith, ◌==◌}
use upf_edge.ControlPlane.{SmfAssociation, get_assoc, change_assoc}

pub get-change :
    (k : ℕ) (f : SmfAssociation → SmfAssociation) (entries : List (ℕ × SmfAssociation))
    (a : SmfAssociation)
    → get_assoc k entries ≡ some a
    → get_assoc k (change_assoc f k entries) ≡ some (f a)
get-change k f [] a e = absurd (ground (arith, e))
get-change k f ((j, b) ∷ rest) a e = elim (Bool-cases (k == j)) [
  | inl t ↦ rw (t, t) (ground (arith, rw (t) at e))
  | inr n ↦ rw (n, n) (get-change k f rest a (rw (n) at e))
]
