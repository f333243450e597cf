-- ===== src/Pfcp/Build/Replies.antt =====
-- pfcp-common/src/builder.rs and header.rs: what a peer reads in the header of any built response.
use upf_edge.Prelude.{ℕ, ◌+◌, ◌%◌, ◌^◌, ◌<◌, ◌≡◌, ◌++◌, arith, ok, length}
use upf_edge.Bytes.{Bytes}
use upf_edge.Pfcp.Header.{encode, decode, new_session_msg, new_node_msg}
use upf_edge.Pfcp.Builder.{finish, new}
use upf_edge.Pfcp.Builder.RoundTrip.{finish-encode}

session_header :
    (t l seid seq : ℕ) (body : Bytes)
    → l < 2 ^ 16
    → seq < 2 ^ 24
    → decode (encode (record (new_session_msg t seid seq) { length = l }) ++ body)
      ≡ ok (record (new_session_msg t (seid % 2 ^ 64) seq) { length = l }, body)
unfolding decode encode
session_header t l seid seq body hl hs = ground arith

node_header :
    (t l seq : ℕ) (body : Bytes)
    → l < 2 ^ 16
    → seq < 2 ^ 24
    → decode (encode (record (new_node_msg t seq) { length = l }) ++ body)
      ≡ ok (record (new_node_msg t seq) { length = l }, body)
unfolding decode encode
node_header t l seq body hl hs = ground arith

-- The length field as `finish` leaves it.
abbrev pub session_length : Bytes → ℕ
session_length body = (12 + length body) % 2 ^ 16

abbrev pub node_length : Bytes → ℕ
node_length body = (4 + length body) % 2 ^ 16

-- Whatever the SEID and the length of the body are, a session message is read with its type, its
-- sequence number and its whole body.
pub decode-session_msg :
    (t seid seq : ℕ) (body : Bytes)
    → seq < 2 ^ 24
    → decode (finish (new (new_session_msg t seid seq) ++ body))
      ≡ ok (record (new_session_msg t (seid % 2 ^ 64) seq) { length = session_length body }, body)
unfolding new
decode-session_msg t seid seq body hs =
    rw (finish-encode (new_session_msg t seid seq) body)
      (session_header t (session_length body) seid seq body (omega arith) hs)

pub decode-node_msg :
    (t seq : ℕ) (body : Bytes)
    → seq < 2 ^ 24
    → decode (finish (new (new_node_msg t seq) ++ body))
      ≡ ok (record (new_node_msg t seq) { length = node_length body }, body)
unfolding new
decode-node_msg t seq body hs =
    rw (finish-encode (new_node_msg t seq) body)
      (node_header t (node_length body) seq body (omega arith) hs)
