-- ===== src/SmfSim/Transport/Retries.antt =====
-- smf-sim/src/transport.rs: a request is sent a bounded number of times, and what comes back is a
-- message of the awaited type.
use upf_edge.Prelude.{
  ℕ, zero, suc, ◌+◌, ◌%◌, ◌^◌, ◌≤◌, ◌<◌, ◌≡◌, ◌≢◌, ◌⊎◌, refl, ap, All, ◌++◌, false, Option, none,
  some, List, [], ◌∷◌, arith, Outcome, ok, err, panic, inl, inr, Bool-cases, ◌==◌, ==_iff,
}
use upf_edge.Bytes.{Bytes}
use upf_edge.ControlPlane.{SocketAddr}
use upf_edge.Pfcp.Header.{PfcpHeader, Result, decode}
use upf_edge.Pfcp.Header.RoundTrip.{decode-total}
use upf_edge.SmfSim.{SimError}
use upf_edge.SmfSim.Transport.{
  Network, Arrival, datagram, failure, Heard, response, silence, broken, listen, heard_in, Exchange,
  after, attempts, send_and_recv,
}

-- A message of the type.
abbrev pub IsOfType : ℕ → Bytes → Type 0
IsOfType expected buf =
    (header : PfcpHeader) × (body : Bytes) × (decode buf ≡ ok (header, body))
    × (header.msg_type ≡ expected)

-- A datagram among those that arrive.
abbrev pub IsAmong : Bytes → List Arrival → Type 0
IsAmong buf arrivals =
    (before : List Arrival) × (src : SocketAddr) × (later : List Arrival) × (arrivals
      ≡ before ++ (datagram buf src ∷ later))

-- A message of the type that arrived in an attempt before `bound`, or an error, and no panic.
abbrev pub IsAwaited : Network → ℕ → ℕ → Outcome SimError Bytes → Type 0
IsAwaited network expected bound (ok buf) =
    IsOfType expected buf × ((k : ℕ) × (k < bound) × IsAmong buf (network.arrivals k))
IsAwaited network expected bound (err e) = Unit {0}
IsAwaited network expected bound panic = ⊥

abbrev IsHeard : ℕ → List Arrival → Heard → Type 0
IsHeard expected arrivals (response buf) = IsOfType expected buf × IsAmong buf arrivals
IsHeard expected arrivals (silence e) = Unit {0}
IsHeard expected arrivals broken = ⊥

later-IsHeard :
    (expected : ℕ) (a : Arrival) (arrivals : List Arrival) (heard : Heard)
    → IsHeard expected arrivals heard
    → IsHeard expected (a ∷ arrivals) heard
later-IsHeard expected a arrivals (response buf) (typed, (before, src, later, e)) =
    (typed, (a ∷ before, src, later, ap (λ rest. a ∷ rest) e))
later-IsHeard expected a arrivals (silence e) h = h
later-IsHeard expected a arrivals broken h = h

heard_in-IsHeard :
    (expected ntp : ℕ) (buf : Bytes) (src : SocketAddr) (arrivals : List Arrival)
    (r : Result (PfcpHeader × Bytes)) (later : Heard × List (Bytes × SocketAddr))
    → decode buf ≡ r
    → r ≢ panic
    → IsHeard expected (datagram buf src ∷ arrivals) later.0
    → IsHeard expected (datagram buf src ∷ arrivals) (heard_in expected ntp buf src r later).0
heard_in-IsHeard expected ntp buf src arrivals (ok (hdr, body)) later e n h =
    elim (Bool-cases (hdr.msg_type == expected)) [
      | inl t ↦
          rw (t) ((hdr, body, e, (==_iff hdr.msg_type expected).0 t), ([], src, arrivals, refl))
      | inr t ↦ rw (t) h
    ]
heard_in-IsHeard expected ntp buf src arrivals (err x) later e n h = h
heard_in-IsHeard expected ntp buf src arrivals panic later e n h = n refl

listen-IsHeard :
    (expected ntp : ℕ) (arrivals : List Arrival)
    → IsHeard expected arrivals (listen expected ntp arrivals).0
unfolding listen
listen-IsHeard expected ntp [] = tt
listen-IsHeard expected ntp (failure ∷ arrivals) = tt
listen-IsHeard expected ntp (datagram buf src ∷ arrivals) =
    heard_in-IsHeard expected ntp buf src arrivals (decode buf) (listen expected ntp arrivals) refl
      (decode-total buf)
      (later-IsHeard expected (datagram buf src) arrivals (listen expected ntp arrivals).0
        (listen-IsHeard expected ntp arrivals))

never_broken :
    (expected ntp : ℕ) (arrivals : List Arrival) → (listen expected ntp arrivals).0 ≢ broken
never_broken expected ntp arrivals e =
    let heard : IsHeard expected arrivals (listen expected ntp arrivals).0 =
      listen-IsHeard expected ntp arrivals in
    rw (e) at heard

module _ (network : Network) (expected : ℕ) where
  abbrev IsBounded : ℕ → ℕ → Exchange → Type 0
  IsBounded bound n exchange =
      (exchange.sends ≤ n) × IsAwaited network expected bound exchange.result

  after-IsBounded :
      (bound n i : ℕ) (heard : Heard) (replies : List (Bytes × SocketAddr))
      (others : Option SimError → Exchange)
      → i < bound
      → IsHeard expected (network.arrivals i) heard
      → ((e : SimError) → IsBounded bound n (others (some e)))
      → IsBounded bound (suc n) (after heard replies others)
  after-IsBounded bound n i (response buf) replies others hi (typed, among) g =
      (omega arith, (typed, (i, hi, among)))
  after-IsBounded bound n i (silence e) replies others hi h g = (omega (arith, (g e).0), (g e).1)
  after-IsBounded bound n i broken replies others hi h g = absurd h

  attempt-IsBounded :
      (bound n i : ℕ) (last_err : Option SimError)
      → i < bound
      → ((e : SimError) → IsBounded bound n (attempts network expected n (suc i) (some e)))
      → IsBounded bound (suc n) (attempts network expected (suc n) i last_err)
  unfolding attempts
  attempt-IsBounded bound n i last_err hi h = elim (Bool-cases (network.send_fails i)) [
    | inl f ↦ rw (f) (omega arith, tt)
    | inr f ↦
        let heard = listen expected network.ntp (network.arrivals i) in
        rw (f) (
          after-IsBounded bound n i heard.0 heard.1 (attempts network expected n (suc i)) hi
            (listen-IsHeard expected network.ntp (network.arrivals i)) h)
  ]

  attempts-IsBounded :
      (bound n i : ℕ) (e : SimError)
      → i + n ≤ bound
      → IsBounded bound n (attempts network expected n i (some e))
  unfolding attempts
  attempts-IsBounded bound zero i e h = (omega arith, tt)
  attempts-IsBounded bound (suc n) i e h =
      attempt-IsBounded bound n i (some e) (omega (arith, h))
        (λ x. attempts-IsBounded bound n (suc i) x (omega (arith, h)))

  abbrev Succeeds : Exchange → Type 0
  Succeeds exchange = (rsp : Bytes) × (exchange.result ≡ ok rsp)

  after-Succeeds :
      (heard : Heard) (replies : List (Bytes × SocketAddr)) (others : Option SimError → Exchange)
      (buf : Bytes)
      → heard ≢ broken
      → (heard ≡ response buf) ⊎ ((e : SimError) → Succeeds (others (some e)))
      → Succeeds (after heard replies others)
  after-Succeeds (response b) replies others buf h g = (b, refl)
  after-Succeeds (silence e) replies others buf h (inl p) = absurd (ground (arith, p))
  after-Succeeds (silence e) replies others buf h (inr g) = g e
  after-Succeeds broken replies others buf h g = absurd (h refl)

  -- The response is heard in attempt `k`, among the `n` attempts from `i` on.
  attempts-heard :
      (n i k : ℕ) (last_err : Option SimError) (buf : Bytes)
      → ((j : ℕ) → network.send_fails j ≡ false)
      → i ≤ k
      → k < i + n
      → (listen expected network.ntp (network.arrivals k)).0 ≡ response buf
      → Succeeds (attempts network expected n i last_err)
  unfolding attempts
  attempts-heard zero i k last_err buf hf hi hk e = absurd (omega arith)
  attempts-heard (suc n) i k last_err buf hf hi hk e =
      let heard = listen expected network.ntp (network.arrivals i) in
      rw (hf i) (
        after-Succeeds heard.0 heard.1 (attempts network expected n (suc i)) buf
          (never_broken expected network.ntp (network.arrivals i))
          (elim (Bool-cases (k == i)) [
            | inl t ↦ inl (rw ((==_iff k i).0 t) at e)
            | inr t ↦ inr (λ x.
                attempts-heard n (suc i) k (some x) buf hf (ground (arith, t, hi))
                  (omega (arith, hk)) e)
          ]))

-- No failure of the socket.
abbrev pub IsDatagram : Arrival → Type 0
IsDatagram (datagram buf src) = Unit {0}
IsDatagram failure = ⊥

abbrev Hears : Heard → Type 0
Hears heard = (buf : Bytes) × (heard ≡ response buf)

passed_over :
    (expected ntp : ℕ) (buf : Bytes) (src : SocketAddr) (r : Result (PfcpHeader × Bytes))
    (later : Heard × List (Bytes × SocketAddr))
    → r ≢ panic
    → Hears later.0
    → Hears (heard_in expected ntp buf src r later).0
passed_over expected ntp buf src (ok (hdr, body)) later n h =
    elim (Bool-cases (hdr.msg_type == expected)) [ inl t ↦ rw (t) (buf, refl) | inr t ↦ rw (t) h ]
passed_over expected ntp buf src (err x) later n h = h
passed_over expected ntp buf src panic later n h = absurd (n refl)

-- A message of the type is heard behind any datagrams.
listen-Hears :
    (expected ntp : ℕ) (before later : List Arrival) (buf : Bytes) (src : SocketAddr)
    → All IsDatagram before
    → IsOfType expected buf
    → Hears (listen expected ntp (before ++ (datagram buf src ∷ later))).0
unfolding listen
listen-Hears expected ntp [] later buf src h (hdr, body, e, t) =
    rw (e, (==_iff hdr.msg_type expected).1 t) (buf, refl)
listen-Hears expected ntp (datagram b s ∷ before) later buf src (u, h) typed =
    passed_over expected ntp b s (decode b)
      (listen expected ntp (before ++ (datagram buf src ∷ later))) (decode-total b)
      (listen-Hears expected ntp before later buf src h typed)
listen-Hears expected ntp (failure ∷ before) later buf src (u, h) typed = absurd u

-- A request that can be read is sent at most once more than there are retries. The exchange then ends,
-- without a panic, with an error or with a datagram that arrived in one of the attempts and whose header
-- has the type that follows the request's.
pub send_and_recv-IsBounded :
    (network : Network) (max_retries : ℕ) (msg : Bytes) (header : PfcpHeader) (body : Bytes)
    → decode msg ≡ ok (header, body)
    → ((send_and_recv network max_retries msg).sends ≤ suc max_retries)
      × IsAwaited network
          ((header.msg_type + 1) % 2 ^ 8)
          (suc max_retries)
          (send_and_recv network max_retries msg).result
unfolding send_and_recv
send_and_recv-IsBounded network max_retries msg header body e =
    let expected : ℕ = (header.msg_type + 1) % 2 ^ 8 in
    rw (e) (
      attempt-IsBounded network expected (suc max_retries) max_retries 0 none (omega arith)
        (λ x. attempts-IsBounded network expected (suc max_retries) max_retries 1 x (omega arith)))

-- If no sending fails, and in one of the attempts a message of the awaited type arrives in time, with
-- any datagrams but no failure of the socket before it, the exchange succeeds.
pub send_and_recv-heard :
    (network : Network) (max_retries : ℕ) (msg : Bytes) (header : PfcpHeader) (body buf : Bytes)
    (k : ℕ) (before later : List Arrival) (src : SocketAddr)
    → decode msg ≡ ok (header, body)
    → ((j : ℕ) → network.send_fails j ≡ false)
    → k ≤ max_retries
    → network.arrivals k ≡ before ++ (datagram buf src ∷ later)
    → All IsDatagram before
    → IsOfType ((header.msg_type + 1) % 2 ^ 8) buf
    → (rsp : Bytes) × ((send_and_recv network max_retries msg).result ≡ ok rsp)
unfolding send_and_recv
send_and_recv-heard network max_retries msg header body buf k before later src e hf hk ha hb ht =
    let expected : ℕ = (header.msg_type + 1) % 2 ^ 8 in
    let (rsp, heard) = listen-Hears expected network.ntp before later buf src hb ht in
    rw (e) (
      attempts-heard network expected (suc max_retries) 0 k none rsp hf (omega arith) (omega arith)
        (rw (ha) heard))
