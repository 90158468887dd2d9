-- ===== src/Hardware/Cpuid/Ident.antt =====
-- hardware/x86cpuid.c, x86cpuid: the description of the processor under the calling thread.
pub mod Via
pub mod Order
use libtorque.Base.{
  ℕ, ◌+◌, ◌*◌, ◌^◌, Bool, true, false, ◌&&◌, not, List, [], Option, none, some, Run, ok, err, fault,
  out_of_fuel, ◌>>=◌, call, ltb, ◌==◌, if◌then◌else◌,
}
use libtorque.Hardware.Desc.{
  Cpu, X86Details, processor_x86_unknown, isa_x86, isa_nvidia, no_details,
}
use libtorque.Hardware.Cpuid.Regs.{Regs, Machine}
use libtorque.Hardware.Cpuid.Flags.{FeatureFlags, Signature, x86_getprocsig}
use libtorque.Hardware.Cpuid.Intel.{id_intel_caches}
use libtorque.Hardware.Cpuid.Amd.{id_amd_caches, id_via_caches}
use libtorque.Hardware.Cpuid.Place.{Place, id_intel_topology, id_amd_topology, x86topology}
use libtorque.Hardware.Cpuid.Brand.{x86_getbrandname}

-- The entries of `vendors[]`, each with its two functions below.
pub data Vendor : Type 0 where
  intel amd via : Vendor

-- Four characters as a register holds them.
abbrev word : ℕ → ℕ → ℕ → ℕ → ℕ
word a b c d = a + b * 2 ^ 8 + c * 2 ^ 16 + d * 2 ^ 24

-- Twelve characters as EBX, ECX and EDX hold them, in this order.
abbrev signet : Regs → ℕ → ℕ → ℕ → Bool
signet r b c d = (r.ebx == b) && ((r.ecx == c) && (r.edx == d))

unfoldable pub lookup_vendor : Regs → Option Vendor
lookup_vendor r =
    if signet r (word b'G' b'e' b'n' b'u') (word b'n' b't' b'e' b'l') (word b'i' b'n' b'e' b'I')
    then some intel
    else if signet r (word b'A' b'u' b't' b'h') (word b'c' b'A' b'M' b'D')
        (word b'e' b'n' b't' b'i')
    then some amd
    else if signet r (word b'C' b'e' b'n' b't') (word b'a' b'u' b'l' b's')
        (word b'a' b'u' b'r' b'H')
    then some via
    else none

-- The bounds of the loops: subleaves of leaf 4, and of leaf 0xb.
pub record Fuel : Type 0 where
  pub caches : ℕ
  pub levels : ℕ

-- `vendor->topfxn && vendor->topfxn(…)`: VIA has none.
unfoldable pub topfxn : Fuel → Vendor → Machine → ℕ → FeatureFlags → Cpu → Run Cpu
topfxn fuel intel m maxlevel ff cpu = id_intel_topology fuel.levels m maxlevel ff cpu
topfxn fuel amd m maxlevel ff cpu = id_amd_topology fuel.levels m maxlevel ff cpu
topfxn fuel via m maxlevel ff cpu = ok cpu

unfoldable pub memfxn : Fuel → Vendor → Machine → ℕ → FeatureFlags → Cpu → Run Cpu
memfxn fuel intel m maxlevel ff cpu = id_intel_caches fuel.caches m maxlevel cpu
memfxn fuel amd m maxlevel ff cpu = id_amd_caches m ff cpu
memfxn fuel via m maxlevel ff cpu = id_via_caches m cpu

-- The description as x86cpuid clears it.
abbrev pub blank : Cpu
blank = record {
  elements = 0;
  threadspercore = 0;
  coresperpackage = 0;
  tlbdescs = [];
  strdescription = [];
  memdescs = [];
  spec = isa_x86 (record no_details { x86type = processor_x86_unknown });
}

-- What a call of x86cpuid leaves: the description, and the place where it succeeds.
pub record Identity : Type 0 where
  pub cpu : Cpu
  pub place : Place

abbrev pub placed : Cpu → Run Place → Run Identity
placed cpu (ok p) = ok (record { cpu = cpu; place = p })
placed cpu (err p) = err (record { cpu = cpu; place = p })
placed cpu fault = fault
placed cpu out_of_fuel = out_of_fuel

abbrev pub described : Place → Run Cpu → (Cpu → Run Identity) → Run Identity
described p (ok cpu) f = f cpu
described p (err cpu) f = err (record { cpu = cpu; place = p })
described p fault f = fault
described p out_of_fuel f = out_of_fuel

-- The flags before x86_getprocsig clears them.
abbrev no_flags : FeatureFlags
no_flags = record { dca = 0; x2apic = 0; pse = 0; pae = 0; pse36 = 0; ht = 0; gbpt = 0; lme = 0 }

abbrev blank_signature : Signature
blank_signature = record {
  cpu = record no_details { x86type = processor_x86_unknown };
  ff = no_flags;
}

-- Once the vendor is known and the signature is read.
unfoldable pub identify : Fuel → Vendor → Machine → ℕ → Signature → Place → Run Identity
identify fuel vendor m maxlevel s old =
    let cpu = record blank { spec = isa_x86 (s.cpu) } in
    described old
      (topfxn fuel vendor m maxlevel s.ff cpu
        >>= memfxn fuel vendor m maxlevel s.ff
        >>= x86_getbrandname m)
      (λ c. placed c (x86topology c old))

-- `isa` is the union's tag, which `isa_x86` sets from the start.
unfoldable pub x86cpuid : Fuel → Machine → Place → Run Identity
x86cpuid fuel m old =
    let r = m.cpuid 0 0 in
    let failed = err (record { cpu = blank; place = old }) in
    if not m.cpuid_available then failed else elim (lookup_vendor r) [
      | none ↦ failed
      | some vendor ↦ elim (x86_getprocsig m r.eax blank_signature) [
        | ok s ↦ identify fuel vendor m r.eax s old
        | err s ↦ failed
        | fault ↦ fault
        | out_of_fuel ↦ out_of_fuel
      ]
    ]
