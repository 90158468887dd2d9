-- ===== src/Hardware/Arch/Tests.antt =====
-- The theorems on arch.c at concrete inputs: two AMD processors.
use libtorque.Base.{
  Run, zero, suc, refl, ok, arith, ◌<◌, ℕ, ◌*◌, ◌≡◌, ◌↔◌, true, [], ◌∷◌, some, ◌==◌, ◌||◌,
  if◌then◌else◌,
}
use libtorque.Hardware.Desc.{Cpu, isa_x86, no_details}
use libtorque.Hardware.Cpuid.Regs.{Regs, Machine}
use libtorque.Hardware.Cpuid.Ident.{
  Fuel, Identity, x86cpuid, lookup_vendor, identify, topfxn, memfxn,
}
use libtorque.Hardware.Cpuid.Flags.{
  x86_getprocsig, extend_signature, leaf1_signature, family_field, identify_extended_cpuid,
  model_field, x86type_field,
}
use libtorque.Hardware.Cpuid.Place.{
  id_amd_topology, id_x86_topology, threads_rounded, shift_by, x86apic, x86topology,
}
use libtorque.Hardware.Cpuid.Amd.{
  id_amd_caches, decode_amd_l1cache, decode_amd_l1tlb, add_amd_l1, amd_l1assoc,
  determine_amd_pagesize, id_amd_23caches,
}
use libtorque.Hardware.Cpuid.Arrays.{add_hwmem, add_tlb, compare_memdetails, compare_tlbdetails}
use libtorque.Hardware.Cpuid.Brand.{brandname, squeeze, until_nul, x86_getbrandname}
use libtorque.Base.Sorted.{insert}
use libtorque.Hardware.Topology.{CpuSet, desc, lookup_aid}
use libtorque.Hardware.Topology.Success.{working}
use libtorque.Hardware.Arch.{
  System, torque_cpu_getdesc, Detected, portable_cpuset_count, count_from, detect_cputypes,
  compare_cpudetails,
}
use libtorque.Hardware.Arch.Same.{compare_cpudetails_lem}
use libtorque.Hardware.Arch.Detect.{Detects, detect_cputypes-Detects}
use libtorque.Hardware.Arch.Described.{detect_cputypes-describes}
use libtorque.Hardware.Arch.Success.{Works, detect_cputypes-succeeds}
use libtorque.Errors.{done}

abbrev regs : ℕ → ℕ → ℕ → ℕ → Regs
regs a b c d = record { eax = a; ebx = b; ecx = c; edx = d }

-- A processor by its APIC id: "AuthenticAMD" with the brand name "AMD".
abbrev leaf : ℕ → ℕ → Regs
leaf apic n =
    if n == 0
    then regs 1 0x68747541 0x444d4163 0x69746e65
    else if n == 1
    then regs 0x100f22 (apic * 0x1000000) 0 0
    else if n == 0x80000000
    then regs 0x80000005 0 0 0
    else if n == 0x80000002
    then regs 0x444d41 0 0 0
    else if n == 0x80000005
    then regs 0xff08ff08 0xff20ff20 0x40020140 0x40020140
    else regs 0 0 0 0

abbrev machine : ℕ → Machine
machine apic = record {
  cpuid_available = true;
  cpuid = λ n sub. leaf apic n;
  grow_memdescs = λ n. true;
  grow_tlbdescs = λ n. true;
  strdup_works = true;
}

abbrev pub system : System
system = record {
  mask = some (λ z. (z == 0) || (z == 1));
  topmap_works = true;
  pin_works = λ z. true;
  machine = machine;
  grow_types = λ n. true;
  allocs = λ z. working;
  spawn_works = λ z. true;
  spawn_leaves = λ z. true;
  remaining = λ ts. [];
  unpin_works = true;
  garbage = record { thread = 0; core = 0; pkg = 0 };
}

abbrev pub fuel : Fuel
fuel = record { caches = 4; levels = 4 }

detect_cputypes-Detects_example : Detects 4 system system.mask (detect_cputypes fuel 4 system)
detect_cputypes-Detects_example = detect_cputypes-Detects fuel 4 system

-- A processor by the count of its elements and its APIC id.
abbrev pub processor : ℕ → ℕ → Cpu
processor elements apic = record {
  elements = elements;
  threadspercore = 1;
  coresperpackage = 2;
  tlbdescs = [];
  strdescription = 65 ∷ [];
  memdescs = [];
  spec = isa_x86 (record no_details { apic = apic });
}

compare_cpudetails_lem_example :
    (compare_cpudetails (processor 3 1) (processor 1 2) ≡ true)
    ↔ (record (processor 3 1) { elements = 1 } ≡ processor 1 2)
compare_cpudetails_lem_example = compare_cpudetails_lem (processor 3 1) (processor 1 2)

-- The mask of `system`.
abbrev pub first_two : CpuSet
first_two z = (z == 0) || (z == 1)

pub first_two-dense : (z : ℕ) → first_two z ≡ true → z < 2
first_two-dense z h = ground (arith, h)

-- x86cpuid describes both of them.
abbrev identity : Run Identity → Identity
identity (ok i) = i
identity r = record { cpu = processor 0 0; place = system.garbage }

identified : (z : ℕ) → z < 2 → (i : Identity) × (x86cpuid fuel (machine z) system.garbage ≡ ok i)
unfolding x86cpuid lookup_vendor x86_getprocsig identify topfxn id_amd_topology id_x86_topology
    extend_signature leaf1_signature threads_rounded memfxn id_amd_caches decode_amd_l1cache
    decode_amd_l1tlb add_amd_l1 add_hwmem add_tlb amd_l1assoc determine_amd_pagesize
    compare_memdetails compare_tlbdetails brandname squeeze until_nul x86_getbrandname family_field
    identify_extended_cpuid model_field x86type_field shift_by x86apic x86topology insert
    id_amd_23caches
identified zero below = (identity (x86cpuid fuel (machine 0) system.garbage), refl)
identified (suc zero) below = (identity (x86cpuid fuel (machine 1) system.garbage), refl)
identified (suc (suc z)) below = absurd (omega (arith, below))

pub system-Works : Works fuel system first_two
system-Works = record {
  pins = λ z h. refl;
  identifies = λ z h. identified z (first_two-dense z h);
  grows = λ k. refl;
  allocates = λ z. refl;
  spawns = λ z h. refl;
}

-- The run of detect_cputypes on this system.
abbrev pub detection : (s : Detected) × (detect_cputypes fuel 4 system ≡ done s)
unfolding portable_cpuset_count count_from
detection =
    detect_cputypes-succeeds fuel 4 system first_two refl system-Works refl refl (omega arith)
      first_two-dense

detect_cputypes-describes_example :
    (d : ℕ) × (cpu : Cpu) × (lookup_aid detection.0.topology 1 ≡ desc d)
    × (torque_cpu_getdesc detection.0 d ≡ some cpu)
detect_cputypes-describes_example =
    detect_cputypes-describes fuel 4 system detection.0 first_two 1 detection.1 refl refl
      (omega arith)

detect_cputypes-succeeds_example : (s : Detected) × (detect_cputypes fuel 4 system ≡ done s)
unfolding portable_cpuset_count count_from
detect_cputypes-succeeds_example =
    detect_cputypes-succeeds fuel 4 system first_two refl system-Works refl refl (omega arith)
      first_two-dense
