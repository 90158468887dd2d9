-- ===== src/Hardware/Arch/Same.antt =====
-- hardware/arch.c: which processors compare_cpudetails takes for the same type.
use mathlib.Core.Bool.{decide, decide_iff}
use libtorque.Base.{◌≡◌, ◌≢◌, ◌↔◌, refl, ap, Bool, true, false, ◌&&◌, ==_iff, Bool-cases, inl, inr}
use libtorque.Hardware.Desc.{Cpu}
use libtorque.Hardware.Cpuid.Place.{apic_of}
use libtorque.Hardware.Arch.{
  compare_cpudetails, Spec-discrete, tlbs-discrete, mems-discrete, chars-discrete,
}

split : (a b : Bool) → (a && b) ≡ true → (a ≡ true) × (b ≡ true)
split true b h = (refl, h)
split false b h = absurd (cc h)

both : (a b : Bool) → a ≡ true → b ≡ true → (a && b) ≡ true
both a b h k = rw (h) k

decided : {P : Type 0} (e : Dec P) → decide e ≡ true → P
decided e h = (decide_iff e).0 h

deciding : {P : Type 0} (e : Dec P) → P → decide e ≡ true
deciding e h = (decide_iff e).1 h

cpu_cong :
    (a b : Cpu)
    → a.spec ≡ b.spec
    → a.tlbdescs ≡ b.tlbdescs
    → a.memdescs ≡ b.memdescs
    → a.threadspercore ≡ b.threadspercore
    → a.coresperpackage ≡ b.coresperpackage
    → a.strdescription ≡ b.strdescription
    → record a { elements = b.elements } ≡ b
cpu_cong a b s l m t c d = λ i. record {
  elements = b.elements;
  threadspercore = t i;
  coresperpackage = c i;
  tlbdescs = l i;
  strdescription = d i;
  memdescs = m i;
  spec = s i;
}

-- compare_cpudetails takes two processors for the same exactly where they differ in nothing but the
-- count of their elements.
pub compare_cpudetails_lem :
    (a b : Cpu) → (compare_cpudetails a b ≡ true) ↔ (record a { elements = b.elements } ≡ b)
unfolding compare_cpudetails
compare_cpudetails_lem a b = (
  (λ h.
      let s0 = split _ _ h in
      let s1 = split _ _ s0.1 in
      let s2 = split _ _ s1.1 in
      let s3 = split _ _ s2.1 in
      let s4 = split _ _ s3.1 in
      cpu_cong a b (decided (Spec-discrete _ _) s0.0) (decided (tlbs-discrete _ _) s1.0)
        (decided (mems-discrete _ _) s2.0) ((==_iff _ _).0 s3.0) ((==_iff _ _).0 s4.0)
        (decided (chars-discrete _ _) s4.1)),
  (λ h. both _ _ (deciding (Spec-discrete _ _) (ap (λ (c : Cpu). c.spec) h)) (
      both _ _ (deciding (tlbs-discrete _ _) (ap (λ (c : Cpu). c.tlbdescs) h)) (
        both _ _ (deciding (mems-discrete _ _) (ap (λ (c : Cpu). c.memdescs) h)) (
          both _ _ ((==_iff _ _).1 (ap (λ (c : Cpu). c.threadspercore) h)) (
            both _ _ ((==_iff _ _).1 (ap (λ (c : Cpu). c.coresperpackage) h))
              (deciding (chars-discrete _ _) (ap (λ (c : Cpu). c.strdescription) h))))))),
)

-- So processors with different APIC ids are of different types.
pub compare_cpudetails-apic :
    (a b : Cpu) → apic_of a.spec ≢ apic_of b.spec → compare_cpudetails a b ≡ false
compare_cpudetails-apic a b h = elim (Bool-cases (compare_cpudetails a b)) [
  | inr e ↦ e
  | inl e ↦ absurd (h (ap (λ (c : Cpu). apic_of c.spec) ((compare_cpudetails_lem a b).0 e)))
]
