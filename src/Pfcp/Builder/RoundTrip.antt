-- ===== src/Pfcp/Builder/RoundTrip.antt =====
-- `finish` of pfcp-common/src/builder.rs, read by the header codec.
use upf_edge.Prelude.{
  ℕ, ◌+◌, ◌-◌, ◌%◌, ◌^◌, ◌<◌, ◌≡◌, Bool, true, false, Option, none, some, ◌++◌, arith, ok, length,
}
use upf_edge.Bytes.{Bytes}
use upf_edge.Pfcp.Header.{PfcpHeader, encode, decode, header_len}
use upf_edge.Pfcp.Header.RoundTrip.{IsEncodable, decode-encode}
use upf_edge.Pfcp.Builder.{finish, new}

finish_fields :
    (v : ℕ) (s m f : Bool) (t l : ℕ) (seid : Option ℕ) (q p : ℕ) (body : Bytes)
    → let h : PfcpHeader = record {
      version = v;
      s_flag = s;
      mp_flag = m;
      fo_flag = f;
      msg_type = t;
      length = l;
      seid = seid;
      seq_num = q;
      priority = p;
    } in
      finish (encode h ++ body)
      ≡ encode (record h { length = (header_len h - 4 + length body) % 2 ^ 16 }) ++ body
unfolding finish encode
finish_fields v true m f t l (some x) q p body = ground arith
finish_fields v true m f t l none q p body = ground arith
finish_fields v false m f t l seid q p body = ground arith

pub finish-encode :
    (h : PfcpHeader) (body : Bytes)
    → finish (encode h ++ body)
      ≡ encode (record h { length = (header_len h - 4 + length body) % 2 ^ 16 }) ++ body
finish-encode h body =
    finish_fields h.version h.s_flag h.mp_flag h.fo_flag h.msg_type h.length h.seid h.seq_num
      h.priority body

-- The datagram that `finish` returns decodes to the header that the builder started from, its length
-- field set to the number of bytes behind the first four, and to the IEs that were added, if the
-- header is encodable and that number is below 2 ^ 16.
pub decode-finish :
    (h : PfcpHeader) (body : Bytes)
    → IsEncodable h
    → header_len h - 4 + length body < 2 ^ 16
    → decode (finish (new h ++ body))
      ≡ ok (record h { length = header_len h - 4 + length body }, body)
unfolding new
decode-finish h body w hl =
    let len : ℕ = header_len h - 4 + length body in
    let fits : len % 2 ^ 16 ≡ len = omega arith in
    rw (finish-encode h body, fits)
      (decode-encode (record h { length = len }) body
        (record {
          version = w.version;
          msg_type = w.msg_type;
          length = hl;
          seid = w.seid;
          seq_num = w.seq_num;
          priority = w.priority;
        }))
