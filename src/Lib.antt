-- ===== src/Lib.antt =====
-- A model of upf-edge, a 5G user plane function in Rust: the PFCP codec, the XDP programs that move
-- packets between the access and the data network, the server that turns PFCP requests of an SMF
-- into rules for these programs, and the SMF simulator that talks to this server.
--
-- The parts and their files, with paths from the repository's root:
--   Pfcp/Header.antt             pfcp-common/src/header.rs (encode, decode)
--   Pfcp/Tlv.antt                pfcp-common/src/ie.rs (iter_ies)
--   Pfcp/Ie.antt, Ie/Grouped     pfcp-common/src/ie.rs (the parsers)
--   Pfcp/Builder.antt, Build     pfcp-common/src/builder.rs
--   Pfcp/Messages.antt           pfcp-common/src/messages.rs
--   Pfcp/Dict.antt               pfcp-common/src/dict.rs, dict_ext.rs (mandatory IEs)
--   Pfcp/Types.antt              pfcp-common/src/types.rs (constants, in small letters)
--   Common.antt                  upf-edge-common/src/lib.rs (keys and values of the eBPF maps)
--   DataPlane/Gtpu.antt          upf-edge-ebpf/src/gtpu.rs (ip_checksum)
--   DataPlane/Rules.antt         upf-edge-ebpf/src/main.rs (sdf_matches, select_far, urr_count, ..)
--   DataPlane/Xdp.antt, Xdp/     upf-edge-ebpf/src/main.rs (try_n3_uplink, try_n6_downlink)
--   ControlPlane.antt            upf-edge/src/pfcp_server.rs, association.rs (the state)
--   ControlPlane/Node, Establish, Modify, Delete, Dispatch
--                                upf-edge/src/handle_msg.rs (one file per handler)
--   ControlPlane/Reporter.antt   upf-edge/src/urr_reporter.rs
--   ControlPlane/Running.antt    upf-edge/src/pfcp_server.rs (start, restore, keepalive, receive loop)
--   SmfSim/Validator, State, Config, Transport
--                                smf-sim/src/validator.rs, state.rs, config.rs, transport.rs
--   SmfSim/Reports.antt          smf-sim/src/main.rs (wait_and_handle_reports)
--   SmfSim/Single.antt           smf-sim/src/main.rs (the commands that send a single message)
--   SmfSim/Interactive.antt      smf-sim/src/tui/runner.rs (handle_async_command)
--   SmfSim/Keepalive.antt        smf-sim/src/keepalive.rs
--   SmfSim/Scenario.antt         smf-sim/src/scenario/basic_lifecycle.rs
-- The other files hold proofs, and Tests the theorems at concrete inputs. Prelude and Bytes are the
-- shared lists, options, outcomes and byte orders.
--
-- Conventions. Rust functions keep their names. A byte is a number, a buffer a list of numbers, and
-- the width of a machine word is written out where it wraps. An `Ipv4Addr` is the number
-- `u32::from(addr)`. A `Result` is an `Outcome`, whose `panic` is an index out of bounds. The machine
-- is little-endian, so `to_be` reverses bytes. The loop of `iter_ies` runs on the length of the
-- buffer as its fuel; each round takes four bytes or more, so the fuel is never used up before the
-- buffer. All other loops run over lists.
--
-- The data plane: a packet is its bytes, an eBPF map its lookup, and the counters are those of one
-- CPU. What the kernel does (moving the start of a packet, redirecting, refusing a key where a map
-- is full) is the record `Kernel` of DataPlane/Xdp.antt. An early `return Ok(verdict)` is `stop`.
--
-- The server: the handlers run under its lock, so each is a function from a world (server, eBPF maps,
-- effects started outside) to an answer and a world; an error keeps what was written before it. The
-- control plane and the data plane share the record of maps. A `HashMap` of associations is the list
-- of its entries in the order of iteration, in which a search for an address takes the first. The
-- clock, and whether a full map takes one more key, are the record `Env`; one handler run sees one
-- instant.
--
-- Where this is simpler than the code: a deletion releases the lock before it clears the eBPF maps, which
-- the model does in the same step, so no other task sees the maps in between; the counters of a new URR are
-- entered for all CPUs at once, and their construction does not fail.
--
-- A run of the server (Running/Reach) is a sequence of what its tasks do under the lock: note an
-- activity (which the code does before each datagram), handle a datagram,
-- send a heartbeat, report usage. The order, the instants, the datagrams
-- and what the data plane counts in between are arbitrary.
--
-- The simulator: an exchange runs over a given network, which says for each attempt whether the sending
-- fails and what arrives before the deadline; its loop has one round for each attempt. The scenario
-- takes the transport as a parameter; in Scenario/Passing this is the UPF's handler itself. Its loop of
-- association attempts runs on a number of tries, of which one is enough there. The keepalive is one
-- round of its loop, given how long the transport has been idle; the single commands and
-- those of the interactive mode take the transport as a parameter too, and an interactive command runs
-- to its end before the next one.
--
-- Not modelled: sockets and timers, Redis (effects say when it is written, and the sessions it gives at
-- the start are arbitrary), route commands (also effects), metrics, the configuration of the UPF and
-- its start-up, the start of the simulator's tasks, the printer of PFCP messages, and the reading of
-- command lines and the display of the terminal interfaces, which are input and output. The check of
-- mandatory IEs in handle_message is only logged there; the simulator's is modelled.
pub mod Prelude
pub mod Bytes
pub mod Common
pub mod Pfcp
pub mod DataPlane
pub mod ControlPlane
pub mod SmfSim
pub mod Tests
