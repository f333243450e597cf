-- ===== src/Pfcp/Header/RoundTrip.antt =====
-- The header codec of pfcp-common/src/header.rs: what `encode` writes `decode` reads back, and no
-- input makes `decode` panic.
use upf_edge.Prelude.{
  ℕ, ◌^◌, ◌<◌, ◌≡◌, ◌≢◌, Bool, true, false, Option, none, some, ◌∷◌, ◌++◌, arith, ok, panic,
}
use upf_edge.Bytes.{Bytes}
use upf_edge.Pfcp.Header.{PfcpHeader, encode, decode}

-- The SEID is there exactly when the S flag says so.
abbrev pub SeidFits : Bool → Option ℕ → Type 0
SeidFits true (some seid) = seid < 2 ^ 64
SeidFits true none = ⊥
SeidFits false (some seid) = ⊥
SeidFits false none = Unit {0}

abbrev pub PriorityFits : Bool → ℕ → Type 0
PriorityFits true priority = priority < 16
PriorityFits false priority = priority ≡ 0

-- A header of this version whose fields fit their width on the wire.
pub record IsEncodable (h : PfcpHeader) : Type 0 where
  pub version : h.version ≡ 1
  pub msg_type : h.msg_type < 256
  pub length : h.length < 2 ^ 16
  pub seid : SeidFits h.s_flag h.seid
  pub seq_num : h.seq_num < 2 ^ 24
  pub priority : PriorityFits h.mp_flag h.priority

fields_round_trip :
    (s m f : Bool) (t l : ℕ) (seid : Option ℕ) (q p : ℕ) (body : Bytes)
    → l < 2 ^ 16
    → SeidFits s seid
    → q < 2 ^ 24
    → PriorityFits m p
    → let h : PfcpHeader = record {
      version = 1;
      s_flag = s;
      mp_flag = m;
      fo_flag = f;
      msg_type = t;
      length = l;
      seid = seid;
      seq_num = q;
      priority = p;
    } in
      decode (encode h ++ body) ≡ ok (h, body)
unfolding decode encode
fields_round_trip true true true t l (some v) q p body hl hs hq hp = ground arith
fields_round_trip true true true t l none q p body hl hs hq hp = absurd hs
fields_round_trip s m f t l seid q p body hl hs hq hp = ground arith

-- `decode` reads back any header that `encode` wrote, whatever its flags, if the version is 1,
-- each field fits its width on the wire, the SEID is there exactly when the S flag is set, and the
-- priority is 0 unless the MP flag is set. What follows the header is returned as the body.
pub decode-encode :
    (h : PfcpHeader) (body : Bytes) → IsEncodable h → decode (encode h ++ body) ≡ ok (h, body)
decode-encode h body w = rw (← w.version) at (
    fields_round_trip h.s_flag h.mp_flag h.fo_flag h.msg_type h.length h.seid h.seq_num h.priority
      body w.length w.seid w.seq_num w.priority)

-- No datagram makes `decode` index out of bounds: it returns a header or an error.
pub decode-total : (buf : Bytes) → decode buf ≢ panic
unfolding decode
decode-total
      (b0 ∷ b1 ∷ b2 ∷ b3 ∷ b4 ∷ b5 ∷ b6 ∷ b7 ∷ b8 ∷ b9 ∷ b10 ∷ b11 ∷ b12 ∷ b13 ∷ b14 ∷ b15 ∷ rest) =
    ground arith
decode-total buf = ground arith
