-- ===== src/Service.antt =====
-- pkg/serviceprobe: which web endpoints a container may have, in Discover with its Ports, and which
-- targets a probe refuses, in Probe; Tasks: the TCP targets of pkg/prober.
pub mod Ports
pub mod Discover
pub mod Probe
pub mod Tasks
