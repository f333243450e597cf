-- ===== src/DataPlane.antt =====
-- upf-edge-ebpf: the XDP programs.
pub mod Gtpu
pub mod Rules
pub mod Xdp
