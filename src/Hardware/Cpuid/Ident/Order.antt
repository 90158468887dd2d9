-- ===== src/Hardware/Cpuid/Ident/Order.antt =====
-- hardware/x86cpuid.c: the arrays that x86cpuid leaves.
use libtorque.Base.{
  ℕ, Run, ok, err, fault, out_of_fuel, arith, if◌then◌else◌, Leaves, Leaves-bind, call-Leaves,
  if-Leaves, ltb, ◌==◌, Bool-cases, Option-cases, inl, inr, not, nonzero,
}
use libtorque.Hardware.Desc.{Cpu}
use libtorque.Hardware.Cpuid.Regs.{Machine, bits}
use libtorque.Hardware.Cpuid.Flags.{
  x86_getprocsig, Signature, FeatureFlags, identify_extended_cpuid,
}
use libtorque.Hardware.Cpuid.Intel.Order.{IsOrdered, id_intel_caches-IsOrdered, add_hwmem-IsOrdered}
use libtorque.Hardware.Cpuid.Amd.Order.{id_amd_caches-IsOrdered}
use libtorque.Hardware.Cpuid.Amd.{id_via_caches}
use libtorque.Hardware.Cpuid.Brand.{x86_getbrandname}
use libtorque.Hardware.Cpuid.Place.{
  Place, x86topology, threads_rounded, id_x86_topology, id_amd_topology, id_intel_topology,
  store_apic, x86apic, apic_of,
}
use libtorque.Hardware.Cpuid.Ident.{
  Fuel, Vendor, intel, amd, via, Identity, lookup_vendor, topfxn, memfxn, identify, x86cpuid, blank,
  placed, described,
}

store_apic-Ordered : (cpu : Cpu) (r : Run ℕ) → IsOrdered cpu → Leaves IsOrdered (store_apic cpu r)
store_apic-Ordered cpu (ok a) v = record { memories = v.memories; tlbs = v.tlbs }
store_apic-Ordered cpu (err a) v = record { memories = v.memories; tlbs = v.tlbs }
store_apic-Ordered cpu fault v = tt
store_apic-Ordered cpu out_of_fuel v = tt

id_x86_topology-Ordered :
    (m : Machine) (maxfunc : ℕ) (ff : FeatureFlags) (cpu : Cpu)
    → IsOrdered cpu
    → Leaves IsOrdered (id_x86_topology m maxfunc ff cpu)
unfolding id_x86_topology
id_x86_topology-Ordered m maxfunc ff cpu v =
    let threads = if nonzero ff.ht then bits (m.cpuid 1 0).ebx 16 8 else 1 in
    let kept : (n : ℕ) → IsOrdered (record cpu { threadspercore = n }) =
      λ n. record { memories = v.memories; tlbs = v.tlbs } in
    if-Leaves IsOrdered (ltb maxfunc 1) _ _ v (
      if-Leaves IsOrdered (threads == 0) _ _ (kept threads)
        (call-Leaves IsOrdered (threads_rounded threads) cpu _ v λ t. kept t))

topfxn-Ordered :
    (fuel : Fuel) (vendor : Vendor) (m : Machine) (maxlevel : ℕ) (ff : FeatureFlags) (cpu : Cpu)
    → IsOrdered cpu
    → Leaves IsOrdered (topfxn fuel vendor m maxlevel ff cpu)
unfolding topfxn id_intel_topology id_amd_topology
topfxn-Ordered fuel intel m maxlevel ff cpu v = ground (
  arith,
  id_x86_topology-Ordered m maxlevel ff cpu v,
  store_apic-Ordered
      (record cpu {
        threadspercore = bits (m.cpuid 0xb 0).ebx 0 16;
        coresperpackage = bits (m.cpuid 0xb 1).ebx 0 16;
      })
      (x86apic fuel.levels m maxlevel (apic_of cpu.spec))
      (record { memories = v.memories; tlbs = v.tlbs }),
)
topfxn-Ordered fuel amd m maxlevel ff cpu v =
    let shared : (n : ℕ)
        → Leaves IsOrdered (id_x86_topology m maxlevel ff (record cpu { coresperpackage = n })) =
      λ n.
        id_x86_topology-Ordered m maxlevel ff _ (record { memories = v.memories; tlbs = v.tlbs }) in
    let r = m.cpuid 0x80000008 0 in
    if-Leaves IsOrdered (ltb maxlevel 0x80000008) _ _ (shared 1) (
      if-Leaves IsOrdered (bits r.edx 1 1 == 0) _ _ (shared _) (
        store_apic-Ordered _ (x86apic fuel.levels m maxlevel (apic_of cpu.spec))
          (record { memories = v.memories; tlbs = v.tlbs })))
topfxn-Ordered fuel via m maxlevel ff cpu v = v

memfxn-Ordered :
    (fuel : Fuel) (vendor : Vendor) (m : Machine) (maxlevel : ℕ) (ff : FeatureFlags) (cpu : Cpu)
    → IsOrdered cpu
    → Leaves IsOrdered (memfxn fuel vendor m maxlevel ff cpu)
unfolding memfxn id_via_caches
memfxn-Ordered fuel intel m maxlevel ff cpu v = id_intel_caches-IsOrdered _ m maxlevel cpu v
memfxn-Ordered fuel amd m maxlevel ff cpu v = id_amd_caches-IsOrdered m ff cpu v
memfxn-Ordered fuel via m maxlevel ff cpu v = add_hwmem-IsOrdered m _ cpu v

x86_getbrandname-Ordered :
    (m : Machine) (cpu : Cpu) → IsOrdered cpu → Leaves IsOrdered (x86_getbrandname m cpu)
unfolding x86_getbrandname
x86_getbrandname-Ordered m cpu v = ground arith

abbrev Described : Identity → Type 0
Described i = IsOrdered i.cpu

placed-Ordered : (c : Cpu) (r : Run Place) → IsOrdered c → Leaves Described (placed c r)
placed-Ordered c (ok p) v = v
placed-Ordered c (err p) v = v
placed-Ordered c fault v = tt
placed-Ordered c out_of_fuel v = tt

described-Ordered :
    (old : Place) (r : Run Cpu)
    → Leaves IsOrdered r
    → Leaves Described (described old r (λ c. placed c (x86topology c old)))
described-Ordered old (ok c) v = placed-Ordered c (x86topology c old) v
described-Ordered old (err c) v = v
described-Ordered old fault v = tt
described-Ordered old out_of_fuel v = tt

identify-Ordered :
    (fuel : Fuel) (vendor : Vendor) (m : Machine) (maxlevel : ℕ) (s : Signature) (old : Place)
    → Leaves Described (identify fuel vendor m maxlevel s old)
unfolding identify
identify-Ordered fuel vendor m maxlevel s old = described-Ordered old _ (
    Leaves-bind IsOrdered _ _
      (Leaves-bind IsOrdered _ _
        (topfxn-Ordered fuel vendor m maxlevel s.ff _ (record { memories = tt; tlbs = tt }))
        (memfxn-Ordered fuel vendor m maxlevel s.ff))
      (x86_getbrandname-Ordered m))

-- Wherever x86cpuid returns, with or without success, it leaves the memories and the TLBs of the
-- description in order, whatever the machine answers.
pub x86cpuid-IsOrdered :
    (fuel : Fuel) (m : Machine) (old : Place) → Leaves (λ i. IsOrdered i.cpu) (x86cpuid fuel m old)
unfolding x86cpuid x86_getprocsig
x86cpuid-IsOrdered fuel m old =
    let empty : IsOrdered blank = record { memories = tt; tlbs = tt } in
    let maxlevel = (m.cpuid 0 0).eax in
    if-Leaves Described (not m.cpuid_available) _ _ empty
      (elim (Option-cases (lookup_vendor (m.cpuid 0 0))) [
        | inl e ↦ rw (e) empty
        | inr (v, e) ↦ rw (e) (elim (Bool-cases (ltb maxlevel 1)) [
          | inl few ↦ rw (few) empty
          | inr more ↦ rw (more) (elim (Bool-cases (ltb (identify_extended_cpuid m) 0x80000001)) [
            | inl q ↦ rw (q) (identify-Ordered fuel v m maxlevel _ old)
            | inr q ↦ rw (q) (identify-Ordered fuel v m maxlevel _ old)
          ])
        ])
      ])
