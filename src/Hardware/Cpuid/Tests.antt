-- ===== src/Hardware/Cpuid/Tests.antt =====
-- The theorems on x86cpuid.c at concrete inputs: an Intel processor with caches in leaf 2 and in
-- leaf 4, an AMD processor with line sizes in leaf 0x80000005, and a VIA processor.
use libtorque.Base.{ℕ, ◌≡◌, refl, true, List, [], ◌∷◌, arith, ◌==◌, if◌then◌else◌, Returns, Leaves}
use libtorque.Hardware.Desc.{Cpu, isa_x86, no_details}
use libtorque.Hardware.Cpuid.Regs.{Regs, Machine}
use libtorque.Hardware.Cpuid.Intel.{decode_intel_func2, id_intel_caches}
use libtorque.Hardware.Cpuid.Intel.Bytes.{decode_all, descriptor_bytes, decode_intel_func2_reads}
use libtorque.Hardware.Cpuid.Intel.Order.{IsOrdered}
use libtorque.Hardware.Cpuid.Intel.Halts.{id_intel_caches-Returns}
use libtorque.Hardware.Cpuid.Amd.{amd_cache_presentp}
use libtorque.Hardware.Cpuid.Amd.Divide.{LineSizes}
use libtorque.Hardware.Cpuid.Place.{Place, x86topology, shift_by}
use libtorque.Hardware.Cpuid.Place.Split.{x86topology_injective, join_place}
use libtorque.Hardware.Cpuid.Ident.{Fuel, x86cpuid}
use libtorque.Hardware.Cpuid.Ident.Order.{x86cpuid-IsOrdered}

abbrev regs : ℕ → ℕ → ℕ → ℕ → Regs
regs a b c d = record { eax = a; ebx = b; ecx = c; edx = d }

-- A machine that grants every allocation and answers every leaf by a list; other leaves are zero.
abbrev answer : List (ℕ × (ℕ × Regs)) → ℕ → ℕ → Regs
answer [] leaf sub = regs 0 0 0 0
answer (x ∷ xs) leaf sub =
    let rest = answer xs leaf sub in
    if x.0 == leaf then (if x.1.0 == sub then x.1.1 else rest) else rest

abbrev machine : List (ℕ × (ℕ × Regs)) → Machine
machine xs = record {
  cpuid_available = true;
  cpuid = answer xs;
  grow_memdescs = λ n. true;
  grow_tlbdescs = λ n. true;
  strdup_works = true;
}

-- Leaf 2: 66 5b 50 01, 0 0 7a 70; leaf 4: a data cache of level 1, then the end of the list.
abbrev intel_machine : Machine
intel_machine =
    machine ((2, (0, regs 0x665b5001 0 0 0x007a7000)) ∷ (4, (0, regs 0x121 0x01c0003f 0x3f 0)) ∷ [])

abbrev amd_lines : Machine
amd_lines = machine (
    (0x80000000, (0, regs 0x80000005 0 0 0))
    ∷ (0x80000005, (0, regs 0xff08ff08 0xff20ff20 0x40020140 0x40020140))
    ∷ [])

-- "CentaurHauls"
abbrev via_machine : Machine
via_machine =
    machine ((0, (0, regs 1 0x746e6543 0x736c7561 0x48727561)) ∷ (1, (0, regs 0x6f0 0 0 0)) ∷ [])

abbrev cpu_of : ℕ → ℕ → ℕ → Cpu
cpu_of tpc cpp apic = record {
  elements = 1;
  threadspercore = tpc;
  coresperpackage = cpp;
  tlbdescs = [];
  strdescription = [];
  memdescs = [];
  spec = isa_x86 (record no_details { apic = apic });
}

abbrev cpu : Cpu
cpu = cpu_of 1 1 0

abbrev fuel : Fuel
fuel = record { caches = 4; levels = 4 }

abbrev nowhere : Place
nowhere = record { thread = 0; core = 0; pkg = 0 }

empty-IsOrdered : IsOrdered cpu
empty-IsOrdered = record { memories = tt; tlbs = tt }

decode_intel_func2_reads_example :
    decode_intel_func2 intel_machine (regs 0x665b5001 0 0 0x007a7000) cpu
    ≡ decode_all intel_machine (descriptor_bytes (regs 0x665b5001 0 0 0x007a7000)) cpu
decode_intel_func2_reads_example =
    decode_intel_func2_reads intel_machine (regs 0x665b5001 0 0 0x007a7000) cpu

id_intel_caches-Returns_example : Returns (id_intel_caches 4 intel_machine 4 cpu)
id_intel_caches-Returns_example =
    id_intel_caches-Returns 4 intel_machine 4 1 cpu refl (omega arith) (omega arith)

x86cpuid-IsOrdered_example : Leaves (λ i. IsOrdered i.cpu) (x86cpuid fuel via_machine nowhere)
x86cpuid-IsOrdered_example = x86cpuid-IsOrdered fuel via_machine nowhere

lines : LineSizes amd_lines
unfolding amd_cache_presentp
lines = record {
  code_lines = omega arith;
  data_lines = omega arith;
  l2_lines = λ h. cc h;
  l3_lines = λ h. cc h;
}

x86topology_injective_example : join_place 2 4 (record { thread = 1; core = 2; pkg = 1 }) ≡ 13
unfolding x86topology shift_by
x86topology_injective_example =
    x86topology_injective (cpu_of 2 4 13) nowhere (record { thread = 1; core = 2; pkg = 1 }) 1 2
      refl refl (omega arith) (omega arith) refl
