-- ===== src/Hardware/Cpuid/Place/Dead.antt =====
-- hardware/x86cpuid.c: the extended leaf that id_amd_topology never reads.
use libtorque.Base.{
  ℕ, ◌≡◌, ◌<◌, refl, arith, true, ltb, ◌==◌, lt→ltb, Leaves, if-Leaves, call-Leaves, if◌then◌else◌,
  nonzero,
}
use libtorque.Hardware.Desc.{Cpu}
use libtorque.Hardware.Cpuid.Regs.{Machine, bits}
use libtorque.Hardware.Cpuid.Flags.{FeatureFlags}
use libtorque.Hardware.Cpuid.Place.{id_amd_topology, id_x86_topology, threads_rounded}

abbrev OneCore : Cpu → Type 0
OneCore c = c.coresperpackage ≡ 1

id_x86_topology-OneCore :
    (m : Machine) (maxfunc : ℕ) (ff : FeatureFlags) (cpu : Cpu)
    → OneCore cpu
    → Leaves OneCore (id_x86_topology m maxfunc ff cpu)
unfolding id_x86_topology
id_x86_topology-OneCore m maxfunc ff cpu v =
    let threads = if nonzero ff.ht then bits (m.cpuid 1 0).ebx 16 8 else 1 in
    if-Leaves OneCore (ltb maxfunc 1) _ _ v (
      if-Leaves OneCore (threads == 0) _ _ v
        (call-Leaves OneCore (threads_rounded threads) cpu _ v λ t. v))

-- Where the highest standard leaf is below 0x80000000 and id_amd_topology returns, it has given
-- the package one core, whatever leaf 0x80000008 says, with or without success.
pub id_amd_topology_alone :
    (fuel : ℕ) (m : Machine) (maxfunc : ℕ) (ff : FeatureFlags) (cpu : Cpu)
    → maxfunc < 0x80000000
    → Leaves (λ c. c.coresperpackage ≡ 1) (id_amd_topology fuel m maxfunc ff cpu)
unfolding id_amd_topology
id_amd_topology_alone fuel m maxfunc ff cpu h =
    let few : ltb maxfunc 0x80000008 ≡ true = lt→ltb _ _ (omega arith) in
    rw (few) (id_x86_topology-OneCore m maxfunc ff _ refl)
