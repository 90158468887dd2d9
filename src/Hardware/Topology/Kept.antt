-- ===== src/Hardware/Topology/Kept.antt =====
-- hardware/topology.c: topologize keeps the rules for the topology.
use libtorque.Base.{ℕ, ◌<◌, refl, ltb, Bool-cases, inl, inr, List, length, ltb→lt}
use libtorque.Hardware.Topology.{
  CpuSet, cpu_zero, Topt, null, Change, done, failed, fault, change, Group, TopMap, share_level,
  Allocs, joined, join_package, Topology, topologize, mapped,
}
use libtorque.Hardware.Topology.Rules.{
  union, Siblings, AllGroups, IsPackage, IsTopology, Leaves, Joins,
}
use libtorque.Hardware.Topology.Finder.{
  cpus, find_sched_group-Siblings, find_sched_group-AllGroups, find_sched_group-Joins,
}
use libtorque.Hardware.Topology.Package.{share_from-zero, join_package-IsPackage, alone-IsPackage}

mapped-keeps :
    (P : Topt → Type 0) (tm : List TopMap) (aid : ℕ) (seen : TopMap) (r : Change Topt)
    → Leaves P r
    → Leaves (λ t. P t.sched_zone) (mapped tm aid seen r)
mapped-keeps P tm aid seen (done z) p = elim (Bool-cases (ltb aid (length tm))) [
  | inl e ↦ rw (e) p
  | inr e ↦ rw (e) tt
]
mapped-keeps P tm aid seen (failed e z) p = p
mapped-keeps P tm aid seen fault p = tt

both :
    (n : ℕ) (r : Change Topt)
    → Leaves Siblings r
    → Leaves (AllGroups (IsPackage n)) r
    → Leaves (IsTopology n) r
both n (done z) a b = record { siblings = a; packages = b }
both n (failed e z) a b = record { siblings = a; packages = b }
both n fault a b = tt

new-IsPackage :
    (n aid : ℕ) (a : Allocs) (tm : List TopMap) (core cputype : ℕ)
    → aid < n
    → Leaves
        (IsPackage n)
        (join_package n a tm aid core cputype (record { schedulable = cpu_zero; sub = null }))
unfolding join_package share_level
new-IsPackage n aid a tm core cputype h =
    let fresh = share_from-zero n 0 in rw (fresh) (alone-IsPackage n aid h)

-- Where topologize stays inside its array, it keeps the rules for the topology, whatever malloc
-- answers and with or without success: sibling groups have ascending numbers, each group has a
-- CPU, the CPUs of a group are those of its subgroups, and a package without subgroups has one
-- CPU.
pub topologize-IsTopology :
    (cpu_setsize : ℕ) (a : Allocs) (t : Topology) (aid thread core pkg cputype : ℕ)
    → IsTopology cpu_setsize t.sched_zone
    → Leaves
        (λ t'. IsTopology cpu_setsize t'.sched_zone)
        (topologize cpu_setsize a t aid thread core pkg cputype)
unfolding topologize
topologize-IsTopology n a t aid thread core pkg cputype v = elim (Bool-cases (ltb aid n)) [
  | inr e ↦ rw (e) v
  | inl e ↦
      let fits = ltb→lt aid n e in
      let k = join_package n a t.tm aid core cputype in
      rw (e) (
        mapped-keeps (IsTopology n) t.tm aid _ _ (
          both n _ (find_sched_group-Siblings a.package_works pkg cputype k t.sched_zone v.siblings)
            (find_sched_group-AllGroups a.package_works pkg cputype k (IsPackage n)
              (join_package-IsPackage n aid fits a t.tm core cputype)
              (new-IsPackage n aid a t.tm core cputype fits) t.sched_zone v.packages)))
]

joined-Joins : (aid : ℕ) (s : CpuSet) (r : Change Topt) → Joins aid s (change cpus (joined aid s r))
joined-Joins aid s (done sub) = λ z. refl
joined-Joins aid s (failed e sub) = λ z. refl
joined-Joins aid s fault = tt

join_package-Joins :
    (n : ℕ) (a : Allocs) (tm : List TopMap) (aid core cputype : ℕ) (g : Group)
    → Joins aid g.schedulable (change cpus (join_package n a tm aid core cputype g))
unfolding join_package
join_package-Joins n a tm aid core cputype g = elim (Bool-cases (share_level n g.schedulable)) [
  | inl e ↦ rw (e) (joined-Joins aid g.schedulable _)
  | inr e ↦ rw (e) (λ z. refl)
]

mapped-Joins :
    (s : CpuSet) (tm : List TopMap) (aid : ℕ) (seen : TopMap) (r : Change Topt)
    → Joins aid s (change union r)
    → Joins aid s (change (λ t. union t.sched_zone) (mapped tm aid seen r))
mapped-Joins s tm aid seen (done z) p = elim (Bool-cases (ltb aid (length tm))) [
  | inl e ↦ rw (e) p
  | inr e ↦ rw (e) tt
]
mapped-Joins s tm aid seen (failed e z) p = p
mapped-Joins s tm aid seen fault p = tt

-- Where topologize succeeds, the CPUs of the topology are those of before and the new one, and
-- where it fails, they are those of before.
pub topologize-Joins :
    (cpu_setsize : ℕ) (a : Allocs) (t : Topology) (aid thread core pkg cputype : ℕ)
    → Joins aid (union t.sched_zone) (
        change (λ t'. union t'.sched_zone) (topologize cpu_setsize a t aid thread core pkg cputype))
unfolding topologize
topologize-Joins n a t aid thread core pkg cputype = elim (Bool-cases (ltb aid n)) [
  | inr e ↦ rw (e) (λ z. refl)
  | inl e ↦ rw (e) (
      mapped-Joins (union t.sched_zone) t.tm aid _ _ (
        find_sched_group-Joins a.package_works pkg cputype _ aid
          (join_package-Joins n a t.tm aid core cputype) t.sched_zone))
]
