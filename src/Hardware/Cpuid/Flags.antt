-- ===== src/Hardware/Cpuid/Flags.antt =====
-- hardware/x86cpuid.c: the processor's signature and its feature flags.
pub mod Laws
use Prim.Native.Nat.{bit_or}
use libtorque.Base.{ℕ, ◌*◌, Run, ok, err, ltb, ◌==◌, if◌then◌else◌}
use libtorque.Hardware.Desc.{
  X86Type, processor_x86_oem, processor_x86_overdrive, processor_x86_dual, processor_x86_unknown,
  X86Details, Features,
}
use libtorque.Hardware.Cpuid.Regs.{Machine, Regs, bits}

-- `struct feature_flags`
pub record FeatureFlags : Type 0 where
  pub dca : ℕ
  pub x2apic : ℕ
  pub pse : ℕ
  pub pae : ℕ
  pub pse36 : ℕ
  pub ht : ℕ
  pub gbpt : ℕ
  pub lme : ℕ

-- `CPUID_EXTENDED_MAX_SUPPORT`
unfoldable pub identify_extended_cpuid : Machine → ℕ
identify_extended_cpuid m = (m.cpuid 0x80000000 0).eax

-- `torque_x86typet` by its number.
abbrev pub x86type_of : ℕ → X86Type
x86type_of n =
    if n == 0
    then processor_x86_oem
    else if n == 1
    then processor_x86_overdrive
    else if n == 2
    then processor_x86_dual
    else processor_x86_unknown

-- `(eax >> 12) & 0x2`
unfoldable pub x86type_field : ℕ → X86Type
x86type_field eax = x86type_of (bits eax 13 1 * 2)

-- `((eax >> 12) & 0xf0) | ((eax >> 4) & 0xf)`
unfoldable pub model_field : ℕ → ℕ
model_field eax = bit_or (bits eax 16 4 * 16) (bits eax 4 4)

-- `((eax >> 17) & 0x7f8) | ((eax >> 8) & 0xf)`
unfoldable pub family_field : ℕ → ℕ
family_field eax = bit_or (bits eax 20 8 * 8) (bits eax 8 4)

-- The two structures that x86_getprocsig fills.
pub record Signature : Type 0 where
  pub cpu : X86Details
  pub ff : FeatureFlags

-- From leaf 1. `ff` is cleared before; `avx`, `cvt16` and `apic` are left alone.
unfoldable pub leaf1_signature : Regs → X86Details → Signature
leaf1_signature r cpu = record {
  cpu = record cpu {
    stepping = bits r.eax 0 4;
    x86type = x86type_field r.eax;
    model = model_field r.eax;
    family = family_field r.eax;
    features = record features {
      sse3 = bits r.ecx 0 1;
      ssse3 = bits r.ecx 9 1;
      sse41 = bits r.ecx 19 1;
      sse42 = bits r.ecx 20 1;
      sse4a = bits r.ecx 6 1;
      mmx = bits r.edx 23 1;
      sse = bits r.edx 25 1;
      sse2 = bits r.edx 26 1;
    };
  };
  ff = record {
    dca = bits r.ecx 18 1;
    x2apic = bits r.ecx 21 1;
    pse = bits r.edx 3 1;
    pae = bits r.edx 6 1;
    pse36 = bits r.edx 17 1;
    ht = bits r.edx 28 1;
    gbpt = 0;
    lme = 0;
  };
}
  where
    open cpu use {features}

-- From leaf 0x80000001, where the processor has it.
unfoldable pub extend_signature : Regs → Signature → Signature
extend_signature r s = record {
  cpu = record cpu {
    features = record (cpu.features) { xop = bits r.ecx 11 1; fma4 = bits r.ecx 16 1 };
  };
  ff = record ff { lme = bits r.edx 29 1; gbpt = bits r.edx 26 1 };
}
  where
    open s use {cpu, ff}

unfoldable pub x86_getprocsig : Machine → ℕ → Signature → Run Signature
unfolding identify_extended_cpuid
x86_getprocsig m maxfunc s =
    if ltb maxfunc 1
    then err s
    else let s' = leaf1_signature (m.cpuid 1 0) s.cpu in
      if ltb (identify_extended_cpuid m) 0x80000001
      then ok s'
      else ok (extend_signature (m.cpuid 0x80000001 0) s')
