-- ===== src/Hardware.antt =====
-- libtorque/hardware: what the library learns of the machine that it runs on.
pub mod Desc
pub mod Cpuid
pub mod Topology
pub mod Memory
pub mod Arch
