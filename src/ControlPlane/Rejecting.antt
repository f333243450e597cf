-- ===== src/ControlPlane/Rejecting.antt =====
-- upf-edge/src/handle_msg.rs: who may touch a session. A rejected request leaves everything as it was.
use upf_edge.Prelude.{ℕ, ◌≡◌, ◌≢◌, refl, Option, none, some, Outcome, ok, err, panic}
use upf_edge.Bytes.{Bytes}
use upf_edge.Pfcp.Header.{PfcpHeader}
use upf_edge.Pfcp.Messages.Total.{
  decode_session_establishment-total, decode_session_modification-total,
}
use upf_edge.ControlPlane.{
  SocketAddr, v4, v6, SessionData, SmfAssociation, World, Env, Failure, no_association,
  non_ipv4_source, not_owned, failed, Handler, ◌>>=◌, from_outcome, asks, or_fail, find_by_addr,
  find_source, find_owner,
}
use upf_edge.ControlPlane.Establish.{handle_session_establishment}
use upf_edge.ControlPlane.Modify.{handle_session_modification}
use upf_edge.ControlPlane.Delete.{handle_session_deletion}

-- The handler fails and leaves the world as it was.
unfoldable pub Rejects : {A : Type 0} → Handler A → World → Type 0
Rejects m w = (e : Failure) × (m w ≡ failed e w)

from_outcome-Rejects :
    {E A B : Type 0} (f : E → Failure) (m : Outcome E A) (k : A → Handler B) (w : World)
    → m ≢ panic
    → ((a : A) → Rejects (k a) w)
    → Rejects (from_outcome f m >>= k) w
unfolding Rejects
from_outcome-Rejects f (ok a) k w hm h = h a
from_outcome-Rejects f (err e) k w hm h = (f e, refl)
from_outcome-Rejects f panic k w hm h = elim (hm refl) [ ]

or_fail-Rejects :
    {A B : Type 0} (o : Option A) (e : Failure) (k : A → Handler B) (w : World)
    → ((a : A) → Rejects (k a) w)
    → Rejects (or_fail o e >>= k) w
unfolding Rejects
or_fail-Rejects none e k w h = (e, refl)
or_fail-Rejects (some a) e k w h = h a

or_fail-some :
    {A B : Type 0} (o : Option A) (a : A) (e : Failure) (k : A → Handler B) (w : World)
    → o ≡ some a
    → Rejects (k a) w
    → Rejects (or_fail o e >>= k) w
unfolding Rejects
or_fail-some o a e k w (h) (x, r) = (x, rw (h) r)

first-Rejects :
    {A B : Type 0} (m : Handler A) (k : A → Handler B) (w : World)
    → Rejects m w
    → Rejects (m >>= k) w
unfolding Rejects
first-Rejects m k w (e, h) = (e, rw (h) refl)

asks-Rejects :
    {A B : Type 0} (f : World → A) (k : A → Handler B) (w : World)
    → Rejects (k (f w)) w
    → Rejects (asks f >>= k) w
unfolding Rejects
asks-Rejects f k w h = h

stranger :
    (src : SocketAddr) (w : World)
    → find_by_addr src w.server.associations ≡ none
    → Rejects (find_source src) w
unfolding Rejects find_source
stranger (v4 ip port) w h = (no_association, rw (h) refl)
stranger (v6 ip port f s) w h = (non_ipv4_source, refl)

intruder :
    (src : SocketAddr) (w : World) (assoc : SmfAssociation) (cp_seid : ℕ)
    → find_by_addr src w.server.associations ≡ some assoc
    → assoc.sessions cp_seid ≡ none
    → Rejects (find_owner src cp_seid) w
unfolding Rejects find_source find_owner
intruder (v4 ip port) w assoc cp_seid h g = (not_owned, rw (h, g) refl)
intruder (v6 ip port f s) w assoc cp_seid h g = (non_ipv4_source, refl)

strange_owner :
    (src : SocketAddr) (w : World) (cp_seid : ℕ)
    → find_by_addr src w.server.associations ≡ none
    → Rejects (find_owner src cp_seid) w
unfolding find_owner
strange_owner src w cp_seid h = first-Rejects _ _ w (stranger src w h)

ruleset rejects = (asks-Rejects, or_fail-Rejects, from_outcome-Rejects, first-Rejects)

-- Without an association for the source address, every request about sessions fails, and the server,
-- the eBPF maps and the effects stay as they were.
pub stranger_rejected :
    (env : Env) (header : PfcpHeader) (body : Bytes) (src : SocketAddr) (w : World)
    → find_by_addr src w.server.associations ≡ none
    → Rejects (handle_session_establishment env header body src) w
      × Rejects (handle_session_modification env header body src) w
      × Rejects (handle_session_deletion header src) w
unfolding handle_session_establishment handle_session_modification handle_session_deletion
stranger_rejected env header body src w h =
    let source = stranger src w h in
    let owner : (cp_seid : ℕ) → Rejects (find_owner src cp_seid) w =
      λ cp_seid. strange_owner src w cp_seid h in
    (
      search (rejects, decode_session_establishment-total, source),
      search (rejects, decode_session_modification-total, owner) depth 8,
      search (rejects, owner) depth 8,
    )

-- A session can be changed or deleted only through an association that has a session under its
-- CP SEID: otherwise both requests fail, and everything stays as it was.
pub intruder_rejected :
    (env : Env) (header : PfcpHeader) (body : Bytes) (src : SocketAddr) (w : World) (seid : ℕ)
    (session : SessionData) (assoc : SmfAssociation)
    → header.seid ≡ some seid
    → w.server.sessions seid ≡ some session
    → find_by_addr src w.server.associations ≡ some assoc
    → assoc.sessions session.cp_seid ≡ none
    → Rejects (handle_session_modification env header body src) w
      × Rejects (handle_session_deletion header src) w
unfolding handle_session_modification handle_session_deletion
intruder_rejected env header body src w seid session assoc hh hs ha hn =
    let owner = intruder src w assoc session.cp_seid ha hn in
    (
      search
          (
            asks-Rejects, or_fail-some, from_outcome-Rejects, first-Rejects,
            decode_session_modification-total,
          )
          depth 8,
      rw (hh) (search (asks-Rejects, or_fail-some, first-Rejects) depth 8),
    )
