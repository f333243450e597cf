-- ===== src/Pfcp/Header.antt =====
-- pfcp-common/src/header.rs: the PFCP message header and the codec's errors.
pub mod RoundTrip
use upf_edge.Prelude.{
  ℕ, ◌+◌, ◌*◌, ◌/◌, ◌%◌, ◌^◌, bit_and, bit_or, Bool, true, false, not, Option, none, some, List, [],
  ◌∷◌, ◌++◌, Outcome, ok, err, ◌>>=◌, ◌>>◌, fail_if, at, if◌then◌else◌, ltb, ◌==◌, length, drop,
}
use upf_edge.Bytes.{Bytes, u16_be, u64_be, u16_at, u64_at, of_u32_be}

abbrev pub pfcp_s_flag : ℕ
pfcp_s_flag = 0b0000_0001

abbrev pub pfcp_mp_flag : ℕ
pfcp_mp_flag = 0b0000_0010

abbrev pub pfcp_fo_flag : ℕ
pfcp_fo_flag = 0b0000_0100

abbrev pub pfcp_version : ℕ
pfcp_version = 1

pub record PfcpHeader : Type 0 where
  pub version : ℕ
  pub s_flag : Bool
  pub mp_flag : Bool
  pub fo_flag : Bool
  pub msg_type : ℕ
  pub length : ℕ
  pub seid : Option ℕ
  pub seq_num : ℕ
  pub priority : ℕ

-- The reasons that the IE parsers give in `IeParseError`.
pub data Reason : Type 0 where
  too_short empty no_ipv4_address no_ipv4 : Reason
  unsupported_type : ℕ → Reason

pub data PfcpError : Type 0 where
  buffer_too_short : (need have : ℕ) → PfcpError
  unsupported_version : ℕ → PfcpError
  ie_parse_error : (ie_type : ℕ) → Reason → PfcpError
  session_not_found : ℕ → PfcpError

-- `Result<A, PfcpError>`; `panic` is an index out of bounds.
abbrev pub Result {ℓ} : Type ℓ → Type ℓ
Result A = Outcome PfcpError A

abbrev pub new_node_msg : ℕ → ℕ → PfcpHeader
new_node_msg msg_type seq_num = record {
  version = pfcp_version;
  s_flag = false;
  mp_flag = false;
  fo_flag = false;
  msg_type = msg_type;
  length = 0;
  seid = none;
  seq_num = seq_num;
  priority = 0;
}

abbrev pub new_session_msg : ℕ → ℕ → ℕ → PfcpHeader
new_session_msg msg_type seid seq_num = record {
  version = pfcp_version;
  s_flag = true;
  mp_flag = false;
  fo_flag = false;
  msg_type = msg_type;
  length = 0;
  seid = some seid;
  seq_num = seq_num;
  priority = 0;
}

abbrev pub header_len : PfcpHeader → ℕ
header_len h = if h.s_flag then 16 else 8

abbrev set_flag : Bool → ℕ → ℕ → ℕ
set_flag on flag flags = if on then bit_or flags flag else flags

-- `self.seid.unwrap_or(0).to_be_bytes()`
abbrev seid_bytes : Option ℕ → Bytes
seid_bytes none = u64_be 0
seid_bytes (some seid) = u64_be seid

-- The shifts and casts are on `u8` and `u32`.
unfoldable pub encode : PfcpHeader → Bytes
encode h =
    let flags = bit_and h.version 0x07 * 2 ^ 5 % 256 in
    let flags = set_flag h.fo_flag pfcp_fo_flag flags in
    let flags = set_flag h.mp_flag pfcp_mp_flag flags in
    let flags = set_flag h.s_flag pfcp_s_flag flags in
    flags
    ∷ h.msg_type
    ∷ (u16_be h.length
        ++ ((if h.s_flag then seid_bytes h.seid else [])
            ++ (h.seq_num / 2 ^ 16 % 256
                ∷ h.seq_num / 2 ^ 8 % 256
                ∷ h.seq_num % 256
                ∷ (if h.mp_flag then h.priority * 2 ^ 4 % 256 else 0)
                ∷ [])))

-- The sequence number and the priority at `pos`, and what follows them.
decode_tail : Bytes → ℕ → ℕ → ℕ → ℕ → Option ℕ → Result (PfcpHeader × Bytes)
unfolding at
decode_tail buf pos flags msg_type length seid = do
  a ← at buf pos
  b ← at buf (pos + 1)
  c ← at buf (pos + 2)
  d ← at buf (pos + 3)
  let mp_flag = not (bit_and flags pfcp_mp_flag == 0)
  ok (
    record {
      version = flags / 2 ^ 5;
      s_flag = not (bit_and flags pfcp_s_flag == 0);
      mp_flag = mp_flag;
      fo_flag = not (bit_and flags pfcp_fo_flag == 0);
      msg_type = msg_type;
      length = length;
      seid = seid;
      seq_num = of_u32_be 0 a b c;
      priority = if mp_flag then d / 2 ^ 4 else 0;
    },
    drop (pos + 4) buf,
  )

-- The header and the body behind it.
unfoldable pub decode : Bytes → Result (PfcpHeader × Bytes)
unfolding decode_tail at u16_at u64_at
decode buf = do
  fail_if (ltb (length buf) 8) (buffer_too_short 8 (length buf))
  flags ← at buf 0
  let version = flags / 2 ^ 5
  fail_if (not (version == pfcp_version)) (unsupported_version version)
  msg_type ← at buf 1
  len ← u16_at buf 2
  let with_seid = do
    fail_if (ltb (length buf) 16) (buffer_too_short 16 (length buf))
    seid ← u64_at buf 4
    decode_tail buf 12 flags msg_type len (some seid)
  if not (bit_and flags pfcp_s_flag == 0)
      then with_seid
      else decode_tail buf 4 flags msg_type len none
