-- ===== src/Hardware/Cpuid/Ident/Via.antt =====
-- hardware/x86cpuid.c: VIA processors.
use libtorque.Base.{
  ℕ, ◌≡◌, refl, some, Run, ok, err, fault, out_of_fuel, arith, Bool-cases, inl, inr, ltb,
}
use libtorque.Hardware.Cpuid.Regs.{Machine}
use libtorque.Hardware.Cpuid.Arrays.{add_hwmem}
use libtorque.Hardware.Cpuid.Flags.{x86_getprocsig, Signature, identify_extended_cpuid}
use libtorque.Hardware.Cpuid.Amd.{id_via_caches}
use libtorque.Hardware.Cpuid.Brand.{x86_getbrandname}
use libtorque.Hardware.Cpuid.Place.{Place, x86topology}
use libtorque.Hardware.Cpuid.Ident.{
  Fuel, via, Identity, lookup_vendor, topfxn, memfxn, identify, x86cpuid,
}

abbrev Fails : Run Identity → Type 0
Fails (ok i) = ⊥
Fails (err i) = Unit
Fails fault = ⊥
Fails out_of_fuel = ⊥

identify-via :
    (fuel : Fuel) (m : Machine) (maxlevel : ℕ) (s : _) (old : Place)
    → Fails (identify fuel via m maxlevel s old)
unfolding identify topfxn memfxn id_via_caches add_hwmem x86_getbrandname x86topology
identify-via fuel m maxlevel s old = ground arith

Fails-err : (r : Run Identity) → Fails r → (i : Identity) × (r ≡ err i)
Fails-err (ok i) h = absurd h
Fails-err (err i) h = (i, refl)
Fails-err fault h = absurd h
Fails-err out_of_fuel h = absurd h

-- x86cpuid reports an error on every VIA processor, whatever its registers hold.
pub x86cpuid-via :
    (fuel : Fuel) (m : Machine) (old : Place)
    → lookup_vendor (m.cpuid 0 0) ≡ some via
    → (i : Identity) × (x86cpuid fuel m old ≡ err i)
unfolding x86cpuid x86_getprocsig
x86cpuid-via fuel m old e = Fails-err (x86cpuid fuel m old) fails
  where
    signed : (s : Signature) → Fails (identify fuel via m (m.cpuid 0 0).eax s old)
    signed s = identify-via fuel m _ s old

    fails : Fails (x86cpuid fuel m old)
    fails = elim (Bool-cases (m.cpuid_available)) [
      | inr off ↦ rw (off) tt
      | inl on ↦
          rw (on, e)
            (elim (Bool-cases (ltb (m.cpuid 0 0).eax 1)) [
              | inl few ↦ rw (few) tt
              | inr more ↦
                  rw (more) (elim (Bool-cases (ltb (identify_extended_cpuid m) 0x80000001)) [
                    | inl q ↦ rw (q) (signed _)
                    | inr q ↦ rw (q) (signed _)
                  ])
            ])
    ]
