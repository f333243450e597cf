-- ===== src/DataPlane/Xdp.antt =====
-- upf-edge-ebpf/src/main.rs: what the two XDP programs share. What they take from the kernel is the
-- record `Kernel`; a packet is its bytes from `data` to `data_end`.
pub mod Uplink
pub mod Downlink
pub mod Counting
pub mod Quiet
pub mod Dropping
pub mod Tunnel
use upf_edge.Prelude.{
  ℕ, ◌+◌, ◌*◌, ◌%◌, ◌^◌, bit_and, bit_or, Bool, true, false, not, ◌||◌, Option, none, some, List,
  [], ◌∷◌, ◌++◌, if◌then◌else◌, ltb, ◌==◌, length, take, drop, get_or,
}
use upf_edge.Bytes.{Bytes, of_u16_be, u16_be}
use upf_edge.Common.{
  FarValue, SessionInfo, SessionStats, gtp_udp_port, iface_access, iface_core, action_drop,
  action_forw, swap_u16,
}
use upf_edge.DataPlane.Gtpu.{
  IpHdr, ip_bytes, ip_checksum, u32_le, gtpu_flag_s, gtpu_flag_pn, gtpu_flag_e, gtpu_gpdu,
  eth_hdr_len, ip_hdr_len, udp_hdr_len, gtpu_hdr_len, gtpu_opt_len, gtpu_ext_hdr_len,
}
use upf_edge.DataPlane.Rules.{
  Maps, Flow, select_far, downlink_get_far, has_action, urr_count, written, add_u64,
}

pub data Verdict : Type 0 where
  xdp_aborted xdp_drop xdp_pass : Verdict
  returned : ℕ → Verdict

-- `shrink p n` and `grow p n` are `bpf_xdp_adjust_head` by `n` and by `-n`, with `none` for a failure;
-- `redirect` is what `bpf_redirect` returns; the rooms say whether a map takes a new key.
pub record Kernel : Type 0 where
  pub shrink : Bytes → ℕ → Option Bytes
  pub grow : Bytes → ℕ → Option Bytes
  pub redirect : ℕ → ℕ
  pub stats_room : ℕ → Bool
  pub urr_room : ℕ → Bool

-- What a program leaves behind.
pub record Run : Type 0 where
  pub verdict : Verdict
  pub maps : Maps
  pub packet : Bytes

-- A program's early `return Ok(verdict)`.
pub data Step (A : Type 0) : Type 0 where
  stop : Verdict → Step A
  go : A → Step A

infixl 5 ◌>>=◌ ◌>>◌
abbrev pub ◌>>=◌ : {A B : Type 0} → Step A → (A → Step B) → Step B
stop v >>= f = stop v
go a >>= f = f a

abbrev pub ◌>>◌ : {B : Type 0} → Step (Unit {0}) → Step B → Step B
m >> k = m >>= λ _. k

abbrev pub or_pass : {A : Type 0} → Option A → Step A
or_pass none = stop xdp_pass
or_pass (some a) = go a

abbrev pub pass_unless : Bool → Step (Unit {0})
pass_unless true = go tt
pass_unless false = stop xdp_pass

-- `ptr_at::<T>`, with the bytes behind the pointer.
unfoldable pub ptr_at : Bytes → ℕ → ℕ → Option Bytes
ptr_at packet offset size =
    if ltb (length packet) (offset + size) then none else some (take size (drop offset packet))

-- The numbers that such bytes are.
abbrev pub be_u16 : Bytes → ℕ
be_u16 p = of_u16_be (get_or p 0 0) (get_or p 1 0)

abbrev pub raw_u16 : Bytes → ℕ
raw_u16 p = get_or p 0 0 + get_or p 1 0 * 2 ^ 8

abbrev pub raw_u32 : Bytes → ℕ
raw_u32 p = get_or p 0 0 + get_or p 1 0 * 2 ^ 8 + get_or p 2 0 * 2 ^ 16 + get_or p 3 0 * 2 ^ 24

abbrev pub raw_u8 : Bytes → ℕ
raw_u8 p = get_or p 0 0

abbrev pub load : (Bytes → ℕ) → Bytes → ℕ → ℕ → Step ℕ
load value packet offset size = do p ← or_pass (ptr_at packet offset size); go (value p)

-- `matched_urr_id`, unless the selected FAR drops the packet.
judge : Option (FarValue × ℕ) → Step ℕ
unfolding has_action
judge none = go 0
judge (some (far, urr_id)) = if has_action action_drop far then stop xdp_drop else go urr_id

unfoldable pub apply_rules : Maps → SessionInfo → ℕ → Flow → Step ℕ
unfolding judge
apply_rules m session iface flow =
    if ltb 0 session.pdr_count then judge (select_far m session iface flow) else go 0

abbrev pub with_stats : Kernel → Maps → ℕ → SessionStats → Maps
with_stats k m key stats = record m { stats_map = written k.stats_room m.stats_map key stats }

-- The packet as it stands at an exit behind the counters.
abbrev pub at_exit : {A : Type 0} → Option A → Bytes → (A → Verdict × Bytes) → Verdict × Bytes
at_exit none packet f = (xdp_pass, packet)
at_exit (some a) packet f = f a
