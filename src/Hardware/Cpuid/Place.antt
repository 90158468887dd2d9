-- ===== src/Hardware/Cpuid/Place.antt =====
-- hardware/x86cpuid.c: threads per core, cores per package, and the place of a processor in them
-- by its APIC id.
pub mod Round
pub mod Split
pub mod Collide
pub mod Dead
use libtorque.Base.{
  ℕ, zero, suc, ◌+◌, ◌-◌, ◌*◌, ◌/◌, ◌%◌, ◌^◌, bit_and, Bool, Run, ok, err, out_of_fuel, ◌>>=◌, call,
  ltb, ◌==◌, if◌then◌else◌, nonzero, not,
}
use libtorque.Hardware.Desc.{Cpu, Spec, isa_x86, isa_nvidia, X86Details}
use libtorque.Hardware.Cpuid.Regs.{Regs, Machine, bits, u32}
use libtorque.Hardware.Cpuid.Flags.{FeatureFlags}

-- `while(t & (t - 1)) ++t;`
round_up : ℕ → ℕ → Run ℕ
round_up zero t = out_of_fuel
round_up (suc fuel) t =
    let rest = round_up fuel (t + 1) in if nonzero (bit_and t (t - 1)) then rest else ok t

-- Eight bits are rounded, so 256 rounds are enough.
unfoldable pub threads_rounded : ℕ → Run ℕ
unfolding round_up
threads_rounded t = round_up 256 t

unfoldable pub id_x86_topology : Machine → ℕ → FeatureFlags → Cpu → Run Cpu
id_x86_topology m maxfunc ff cpu =
    let threads = if nonzero ff.ht then bits (m.cpuid 1 0).ebx 16 8 else 1 in
    if ltb maxfunc 1
    then err cpu
    else if threads == 0
    then err (record cpu { threadspercore = threads })
    else call (threads_rounded threads) cpu (λ t. ok (record cpu { threadspercore = t }))

-- The levels that leaf 0xb enumerates, from the level type in ECX on: only threads and cores are
-- known, and each must show the same APIC id.
apic_levels : ℕ → Machine → ℕ → Regs → Run ℕ
apic_levels zero m apic r = out_of_fuel
apic_levels (suc fuel) m apic r =
    let lev = bits r.ecx 8 8 in
    let r' = m.cpuid 0xb (lev + 1) in
    let rest = apic_levels fuel m apic r' in
    let known = if r'.edx == apic then rest else err apic in
    if lev == 0 then ok apic else if lev == 1 then known else if lev == 2 then known else err apic

-- `*apic` as it is left; `old` is its value before.
unfoldable pub x86apic : ℕ → Machine → ℕ → ℕ → Run ℕ
unfolding apic_levels
x86apic fuel m maxlevel old =
    let legacy = bits (m.cpuid 1 0).ebx 24 8 in
    let r = m.cpuid 0xb 0 in
    if ltb maxlevel 1
    then err old
    else if ltb maxlevel 0xb
    then ok legacy
    else if bits r.edx 0 8 == legacy
    then apic_levels fuel m r.edx r
    else err legacy

-- `cpu->spec.x86.apic`; x86cpuid has set the member `x86` of the union before.
abbrev pub apic_of : Spec → ℕ
apic_of (isa_x86 d) = d.apic
apic_of (isa_nvidia d) = 0

abbrev pub with_apic : ℕ → Spec → Spec
with_apic a (isa_x86 d) = isa_x86 (record d { apic = a })
with_apic a (isa_nvidia d) = isa_nvidia d

abbrev pub store_apic : Cpu → Run ℕ → Run Cpu
store_apic cpu (ok a) = ok (record cpu { spec = with_apic a cpu.spec })
store_apic cpu (err a) = err (record cpu { spec = with_apic a cpu.spec })
store_apic cpu Run.fault = Run.fault
store_apic cpu out_of_fuel = out_of_fuel

-- `maxfunc` is the highest standard leaf here, also where it is compared with 0x80000008.
unfoldable pub id_amd_topology : ℕ → Machine → ℕ → FeatureFlags → Cpu → Run Cpu
id_amd_topology fuel m maxfunc ff cpu =
    let r = m.cpuid 0x80000008 0 in
    let one = record cpu { coresperpackage = 1 } in
    let corebits = bits r.ecx 12 4 in
    let cores = if nonzero corebits then 2 ^ corebits else bits r.ecx 0 8 + 1 in
    let cpu' = record cpu { coresperpackage = cores } in
    if ltb maxfunc 0x80000008
    then id_x86_topology m maxfunc ff one
    else if bits r.edx 1 1 == 0
    then id_x86_topology m maxfunc ff cpu'
    else let cpu'' = record cpu { coresperpackage = cores; threadspercore = 1 } in
      store_apic cpu'' (x86apic fuel m maxfunc (apic_of cpu.spec))

unfoldable pub id_intel_topology : ℕ → Machine → ℕ → FeatureFlags → Cpu → Run Cpu
id_intel_topology fuel m maxfunc ff cpu =
    let r0 = m.cpuid 0xb 0 in
    let r1 = m.cpuid 0xb 1 in
    let threads = bits r0.ebx 0 16 in
    let cores = bits r1.ebx 0 16 in
    if ltb maxfunc 0xb
    then id_x86_topology m maxfunc ff cpu
    else if not (bits r0.ecx 8 8 == 1)
    then err cpu
    else if threads == 0
    then err (record cpu { threadspercore = threads })
    else if not (bits r1.ecx 8 8 == 2)
    then err (record cpu { threadspercore = threads })
    else if cores == 0
    then err (record cpu { threadspercore = threads; coresperpackage = cores })
    else store_apic (record cpu { threadspercore = threads; coresperpackage = cores })
        (x86apic fuel m maxfunc (apic_of cpu.spec))

-- `while( (n /= 2) ) apic >>= 1;`
unfoldable pub shift_by : ℕ → ℕ → ℕ → Run ℕ
shift_by zero n apic = out_of_fuel
shift_by (suc fuel) n apic =
    let rest = shift_by fuel (n / 2) (apic / 2) in if nonzero (n / 2) then rest else ok apic

-- `*thread`, `*core` and `*pkg`
pub record Place : Type 0 where
  pub thread : ℕ
  pub core : ℕ
  pub pkg : ℕ

-- The counts have 32 bits, so 32 rounds of each loop are enough.
unfoldable pub x86topology : Cpu → Place → Run Place
unfolding shift_by
x86topology cpu old =
    let tpc = cpu.threadspercore in
    let cpp = cpu.coresperpackage in
    let apic = apic_of cpu.spec in
    let cleared = record old { thread = 0; core = 0 } in
    if tpc == 0
    then err cleared
    else if cpp == 0
    then err cleared
    else call (shift_by 32 tpc apic) cleared (λ above.
      call (shift_by 32 cpp above) cleared (λ above_all. ok (record {
        thread = bit_and apic (tpc - 1);
        core = bit_and above (cpp - 1);
        pkg = above_all;
      })))
