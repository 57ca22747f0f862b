-- ===== src/Tracker/Udp.antt =====
-- udptracker.go: the tracker protocol over UDP (BEP 15).
pub mod Packets
pub mod Connect
pub mod Announce
pub mod Timeouts
