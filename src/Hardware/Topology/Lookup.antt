-- ===== src/Hardware/Topology/Lookup.antt =====
-- hardware/topology.c: what lookup_aid finds in a topology that keeps the rules.
use libtorque.Base.{ℕ, ◌≡◌, ◌∙◌, refl, true, false, ◌||◌, Bool-cases, inl, inr}
use libtorque.Hardware.Topology.{
  CpuSet, Topt, null, node, Topology, Found, desc, missing, crash, descend, continue,
  lookup_aid_intop, lookup_aid,
}
use libtorque.Hardware.Topology.Rules.{union, AllGroups, IsCore, IsPackage, IsTopology, Agrees}

abbrev IsDesc : Found → Type 0
IsDesc (desc d) = Unit
IsDesc missing = ⊥
IsDesc crash = ⊥

later_in :
    (s : CpuSet) (rest : Topt) (z : ℕ)
    → s z ≡ false
    → (s z || union rest z) ≡ true
    → union rest z ≡ true
later_in s rest z off h = cc (off, h)

continue-IsDesc :
    (next : Topt) (aid : ℕ) (later : Found)
    → union next aid ≡ true
    → (union next aid ≡ true → IsDesc later)
    → IsDesc (continue next later)
continue-IsDesc null aid later h k = cc h
continue-IsDesc (node g d s sub next) aid later h k = k h

module _ (n : ℕ) (aid : ℕ) where
  in_cores :
      (zone : Topt)
      → AllGroups (IsCore n) zone
      → union zone aid ≡ true
      → IsDesc (lookup_aid_intop zone aid)
  unfolding lookup_aid_intop
  in_cores null all h = cc h
  in_cores (node g d s (node i c t u x) next) all h = absurd (all.0.leaf)
  in_cores (node g d s null next) all h = elim (Bool-cases (s aid)) [
    | inl on ↦ rw (on) tt
    | inr off ↦
        rw (off) (continue-IsDesc next aid _ (later_in s next aid off h) (in_cores next all.1))
  ]

  in_packages :
      (zone : Topt)
      → AllGroups (IsPackage n) zone
      → union zone aid ≡ true
      → IsDesc (lookup_aid_intop zone aid)
  unfolding lookup_aid_intop
  in_packages null all h = cc h
  in_packages (node g d s sub next) all h = elim (Bool-cases (s aid)) [
    | inl on ↦ rw (on) (under sub all.0.cores all.0.agrees on)
    | inr off ↦
        rw (off) (continue-IsDesc next aid _ (later_in s next aid off h) (in_packages next all.1))
  ]
    where
      under :
          (below : Topt)
          → AllGroups (IsCore n) below
          → Agrees s below
          → s aid ≡ true
          → IsDesc (descend d below (lookup_aid_intop below aid))
      under null cores agrees on = tt
      under (node i c t u x) cores agrees on = in_cores (node i c t u x) cores (agrees aid ∙ on)

IsDesc-desc : (f : Found) → IsDesc f → (d : ℕ) × (f ≡ desc d)
IsDesc-desc (desc d) h = (d, refl)
IsDesc-desc missing h = absurd h
IsDesc-desc crash h = absurd h

-- In a topology that keeps the rules, lookup_aid finds a description for each of its CPUs.
pub lookup_aid-finds :
    (cpu_setsize : ℕ) (t : Topology) (aid : ℕ)
    → IsTopology cpu_setsize t.sched_zone
    → union t.sched_zone aid ≡ true
    → (d : ℕ) × (lookup_aid t aid ≡ desc d)
unfolding lookup_aid
lookup_aid-finds n t aid v h = IsDesc-desc _ (in_packages n aid t.sched_zone v.packages h)
