-- ===== src/Hardware/Cpuid.antt =====
-- libtorque/hardware/x86cpuid.c: processors, caches and TLBs as the CPUID instruction tells them.
pub mod Regs
pub mod Tables
pub mod Arrays
pub mod Intel
pub mod Flags
pub mod Amd
pub mod Place
pub mod Brand
pub mod Ident
mod Tests
