-- ===== src/DataPlane/Xdp/Quiet.antt =====
-- upf-edge-ebpf/src/main.rs: reading a packet never ends in a redirection.
use upf_edge.Prelude.{ℕ, inl, inr, Bool-cases, Bool, true, false, ◌||◌, ◌==◌, Option, none, some}
use upf_edge.Bytes.{Bytes}
use upf_edge.DataPlane.Xdp.{
  Verdict, xdp_pass, xdp_drop, xdp_aborted, returned, Step, stop, go, ◌>>=◌, or_pass, pass_unless,
}
use upf_edge.DataPlane.Xdp.Uplink.{load_ports, parse_uplink}
use upf_edge.DataPlane.Xdp.Downlink.{parse_downlink}

-- A step that does not end the program with a redirection.
abbrev pub Stays : Verdict → Type 0
Stays xdp_aborted = Unit {0}
Stays xdp_drop = Unit {0}
Stays xdp_pass = Unit {0}
Stays (returned n) = ⊥

abbrev pub Ends : {A : Type 0} → Step A → Type 0
Ends (stop v) = Stays v
Ends (go a) = Unit {0}

pub record IsQuiet {A : Type 0} (m : Step A) : Type 0 where
  pub ends : Ends m

bind-Ends :
    {A B : Type 0} (m : Step A) (f : A → Step B)
    → Ends m
    → ((a : A) → IsQuiet (f a))
    → Ends (m >>= f)
bind-Ends (stop v) f h g = h
bind-Ends (go a) f h g = (g a).ends

>>=-IsQuiet :
    {A B : Type 0} {m : Step A} {f : A → Step B}
    → IsQuiet m
    → ((a : A) → IsQuiet (f a))
    → IsQuiet (m >>= f)
>>=-IsQuiet {m = m} {f = f} h g = record { ends = bind-Ends m f h.ends g }

go-IsQuiet : {A : Type 0} (a : A) → IsQuiet (go a)
go-IsQuiet a = record { ends = tt }

or_pass-Ends : {A : Type 0} (o : Option A) → Ends (or_pass o)
or_pass-Ends none = tt
or_pass-Ends (some a) = tt

or_pass-IsQuiet : {A : Type 0} (o : Option A) → IsQuiet (or_pass o)
or_pass-IsQuiet o = record { ends = or_pass-Ends o }

pass_unless-Ends : (b : Bool) → Ends (pass_unless b)
pass_unless-Ends true = tt
pass_unless-Ends false = tt

pass_unless-IsQuiet : (b : Bool) → IsQuiet (pass_unless b)
pass_unless-IsQuiet b = record { ends = pass_unless-Ends b }

pub parse_downlink-IsQuiet : (packet : Bytes) → IsQuiet (parse_downlink packet)
unfolding parse_downlink
parse_downlink-IsQuiet packet =
    search (>>=-IsQuiet, go-IsQuiet, or_pass-IsQuiet, pass_unless-IsQuiet) depth 40

load_ports-IsQuiet : (packet : Bytes) (proto offset : ℕ) → IsQuiet (load_ports packet proto offset)
unfolding load_ports
load_ports-IsQuiet packet proto offset = elim (Bool-cases (proto == 6 || proto == 17)) [
  | inl t ↦ rw (t) (search (>>=-IsQuiet, go-IsQuiet, or_pass-IsQuiet) depth 20)
  | inr f ↦ rw (f) (go-IsQuiet (0, 0))
]

pub parse_uplink-IsQuiet : (packet : Bytes) → IsQuiet (parse_uplink packet)
unfolding parse_uplink
parse_uplink-IsQuiet packet =
    search (>>=-IsQuiet, go-IsQuiet, or_pass-IsQuiet, pass_unless-IsQuiet, load_ports-IsQuiet) depth
      40
