-- ===== src/Hardware/Arch/Described.antt =====
-- hardware/arch.c and hardware/topology.c: every usable CPU has a description.
use libtorque.Base.{
  ℕ, zero, suc, ◌+◌, ◌≤◌, ◌<◌, ◌≡◌, refl, sym, ap, ◌∙◌, subst, true, inl, inr, List, ◌∷◌, some,
  length, get_elem?-inside, ltb, lt→ltb, ◌==◌, ==_iff, Bool-cases, if_cases, arith,
}
use libtorque.Errors.{done}
use libtorque.Hardware.Desc.{Cpu}
use libtorque.Hardware.Cpuid.Ident.{Fuel}
use libtorque.Hardware.Topology.{CpuSet, desc, lookup_aid}
use libtorque.Hardware.Topology.Lookup.{lookup_aid-finds}
use libtorque.Hardware.Topology.Described.{FoundBelow, lookup_aid_intop-FoundBelow}
use libtorque.Hardware.Arch.{
  System, Detected, detect_cputypes, torque_cpu_getdesc, torque_cpu_typecount,
}
use libtorque.Hardware.Arch.Loop.{members}
use libtorque.Hardware.Arch.Gains.{elem}
use libtorque.Hardware.Arch.Detect.{Detects, detect_cputypes-Detects}

elem-later : (aid z : ℕ) (xs : List ℕ) → elem aid xs ≡ true → elem aid (z ∷ xs) ≡ true
unfolding elem
elem-later aid z xs h = elim (Bool-cases (aid == z)) [ inl e ↦ rw (e) refl | inr e ↦ rw (e) h ]

elem-first : (aid z : ℕ) (xs : List ℕ) → (aid == z) ≡ true → elem aid (z ∷ xs) ≡ true
unfolding elem
elem-first aid z xs h = rw (h) refl

elem-members :
    (n z aid : ℕ) (mask : CpuSet)
    → mask aid ≡ true
    → z ≤ aid
    → aid < n + z
    → elem aid (members n z mask) ≡ true
unfolding members
elem-members zero z aid mask member low high = absurd (omega (arith, low, high))
elem-members (suc n) z aid mask member low high = elim (Bool-cases (aid == z)) [
  | inl e ↦
      let same = (==_iff aid z).0 e in
      let here : mask z ≡ true = ap mask (sym same) ∙ member in
      rw (here) (elem-first aid z (members n (suc z) mask) e)
  | inr e ↦
      let above : suc z ≤ aid = ground (arith, e, low) in
      let rest = elem-members n (suc z) aid mask member above (omega (arith, high)) in
      if_cases (λ xs. elem aid xs ≡ true) (mask z) _ _
        (λ _. elem-later aid z (members n (suc z) mask) rest) (λ _. rest)
]

-- Where detect_cputypes succeeds, lookup_aid finds an index for each CPU of the mask, and
-- torque_cpu_getdesc has a description for that index.
pub detect_cputypes-describes :
    (fuel : Fuel) (cpu_setsize : ℕ) (h : System) (s : Detected) (mask : CpuSet) (aid : ℕ)
    → detect_cputypes fuel cpu_setsize h ≡ done s
    → h.mask ≡ some mask
    → mask aid ≡ true
    → aid < cpu_setsize
    → (d : ℕ) × (cpu : Cpu) × (lookup_aid s.topology aid ≡ desc d)
      × (torque_cpu_getdesc s d ≡ some cpu)
unfolding lookup_aid torque_cpu_getdesc torque_cpu_typecount
detect_cputypes-describes fuel n h s mask aid success given member possible =
    let left = subst (Detects n h h.mask) success (detect_cputypes-Detects fuel n h) in
    let same : mask ≡ left.0 = some_injective (sym given ∙ left.1) in
    let detected = left.2.detected in
    let started = left.2.threads in
    let found = lookup_aid-finds n s.topology aid detected.topology (
      detected.scheduled aid
      ∙ ap (elem aid) started
      ∙ elem-members n 0 aid left.0 (sym (ap (λ (m : CpuSet). m aid) same) ∙ member) (omega arith)
          (omega (arith, possible))) in
    let below : found.0 < length s.types =
      subst (FoundBelow (length s.types)) found.1 (
        lookup_aid_intop-FoundBelow (length s.types) aid s.topology.sched_zone
          detected.described) in
    let listed = get_elem?-inside s.types found.0 below in
    let inside : ltb found.0 (length s.types) ≡ true = lt→ltb found.0 (length s.types) below in
    (found.0, listed.0, found.1, rw (inside) listed.1)
  where
    some_injective : {A : Type 0} {a b : A} → some a ≡ some b → a ≡ b
    some_injective e = cc e
