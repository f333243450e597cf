-- ===== src/ControlPlane/Running/Restore.antt =====
-- The restore of stored sessions in upf-edge/src/pfcp_server.rs, and the counter of local SEIDs.
use upf_edge.Prelude.{ℕ, ◌<◌, ◌≡◌, ◌↔◌, refl, true, some, List, [], ◌∷◌, arith, All, update}
use upf_edge.ControlPlane.{SessionData, PfcpServer, is_some}
use upf_edge.ControlPlane.Running.{restore}
use upf_edge.ControlPlane.Serving.{IsFresh}

abbrev restored : ℕ → SessionData → PfcpServer → PfcpServer
restored seid session srv = record srv { sessions = update srv.sessions seid (some session) }

-- A session in the table stays there.
restore-is_some :
    (stored : List (ℕ × SessionData)) (srv : PfcpServer) (k : ℕ)
    → is_some (srv.sessions k) ≡ true
    → is_some ((restore stored srv).sessions k) ≡ true
unfolding restore
restore-is_some [] srv k h = h
restore-is_some ((seid, session) ∷ stored) srv k h =
    restore-is_some stored (restored seid session srv) k (ground (arith, h))

pub restore-next_seid :
    (stored : List (ℕ × SessionData)) (srv : PfcpServer)
    → (restore stored srv).next_seid ≡ srv.next_seid
unfolding restore
restore-next_seid [] srv = refl
restore-next_seid ((seid, session) ∷ stored) srv =
    restore-next_seid stored (restored seid session srv)

below→IsFresh :
    (stored : List (ℕ × SessionData)) (srv : PfcpServer)
    → IsFresh srv
    → All (λ entry. entry.0 < srv.next_seid) stored
    → IsFresh (restore stored srv)
unfolding restore
below→IsFresh [] srv h g = h
below→IsFresh ((seid, session) ∷ stored) srv h (b, g) =
    below→IsFresh stored (restored seid session srv)
      (record { below = λ s e. ground (arith, h.below s, b, e) }) g

IsFresh→below :
    (stored : List (ℕ × SessionData)) (srv : PfcpServer)
    → IsFresh (restore stored srv)
    → All (λ entry. entry.0 < srv.next_seid) stored
unfolding restore
IsFresh→below [] srv h = tt
IsFresh→below ((seid, session) ∷ stored) srv h =
    let here : is_some ((restored seid session srv).sessions seid) ≡ true = ground arith in
    (
      omega (
        arith,
        restore-next_seid stored (restored seid session srv),
        h.below seid (restore-is_some stored (restored seid session srv) seid here),
      ),
      IsFresh→below stored (restored seid session srv) h,
    )

-- After the restore, every session in the table has a local SEID below the next one to be given out
-- exactly if the stored SEIDs all were below it before: the restore does not move the counter.
pub restore-IsFresh :
    (stored : List (ℕ × SessionData)) (srv : PfcpServer)
    → IsFresh srv
    → IsFresh (restore stored srv) ↔ All (λ entry. entry.0 < srv.next_seid) stored
restore-IsFresh stored srv h = (IsFresh→below stored srv, below→IsFresh stored srv h)
