-- ===== src/Tests.antt =====
-- The theorems at concrete inputs, by part of the program.
mod Codec
mod Plane
mod Server
mod Running
mod Peer
mod Sending
