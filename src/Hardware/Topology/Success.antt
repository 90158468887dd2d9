-- ===== src/Hardware/Topology/Success.antt =====
-- hardware/topology.c: when topologize succeeds, and when it writes outside its array.
use libtorque.Base.{
  ℕ, ◌≤◌, ◌<◌, ◌≡◌, refl, Bool, true, false, ◌||◌, List, length, get_elem?-inside, arith,
  Bool-cases, inl, inr, ltb, ◌==◌, lt→ltb, le→ltb,
}
use libtorque.Hardware.Topology.{
  CpuSet, cpu_zero, Topt, null, node, Change, done, failed, fault, change, Group, TopMap,
  find_sched_group, create_zone, first_aid, share_level, Allocs, subgroups, join, joined, then_find,
  join_package, Topology, topologize, mapped,
}
use libtorque.Hardware.Topology.Rules.{AllGroups, IsPackage, IsTopology, IsUsed, union}
use libtorque.Hardware.Topology.Package.{first_aid-finds, share_from-zero}

abbrev IsDone : {S : Type 0} → Change S → Type 0
IsDone (done s) = Unit
IsDone (failed e s) = ⊥
IsDone fault = ⊥

change-IsDone : {S T : Type 0} (f : S → T) (r : Change S) → IsDone r → IsDone (change f r)
change-IsDone f (done s) h = tt
change-IsDone f (failed e s) h = h
change-IsDone f fault h = h

module _ (id cputype : ℕ) (k : Group → Change Group) (P : Group → Type 0)
    (keep : (g : Group) → P g → IsDone (k g))
    (new : IsDone (k (record { schedulable = cpu_zero; sub = null }))) where
  find_sched_group-IsDone :
      (zone : Topt) → AllGroups P zone → IsDone (find_sched_group true id cputype k zone)
  unfolding find_sched_group create_zone
  find_sched_group-IsDone null all = change-IsDone _ (k _) new
  find_sched_group-IsDone (node g d s sub next) all = elim (Bool-cases (g == id)) [
    | inl e ↦ rw (e) (change-IsDone _ (k _) (keep _ all.0))
    | inr e ↦ rw (e) (elim (Bool-cases (ltb id g)) [
      | inl f ↦ rw (f) (change-IsDone _ (k _) new)
      | inr f ↦ rw (f) (change-IsDone _ _ (find_sched_group-IsDone next all.1))
    ])
  ]

anything : (zone : Topt) → AllGroups (λ _. Unit) zone
anything null = tt
anything (node g d s sub next) = (tt, anything next)

-- An allocator that always answers.
abbrev pub working : Allocs
working = record { package_works = true; first_works = true; core_works = true }

-- The array has an entry for each CPU of a set.
abbrev pub Fits : List TopMap → CpuSet → Type 0
Fits tm s = (z : ℕ) → s z ≡ true → z < length tm

subgroups-IsDone :
    (n : ℕ) (tm : List TopMap) (cputype : ℕ) (s : CpuSet) (sub : Topt)
    → Fits tm s
    → IsUsed n s
    → IsDone (subgroups n working tm cputype s sub)
unfolding subgroups
subgroups-IsDone n tm cputype s (node i d t u x) fits used = tt
subgroups-IsDone n tm cputype s null fits used =
    let oid = first_aid n s in
    let found = first_aid-finds n s used in
    let inside : ltb oid n ≡ true = lt→ltb oid n found.1 in
    let seen = get_elem?-inside tm oid (fits oid found.0) in rw (inside, seen.1) tt

then_find-IsDone :
    (aid core cputype : ℕ) (s : CpuSet) (r : Change Topt)
    → IsDone r
    → IsDone (joined aid s (then_find r (find_sched_group true core cputype (join aid))))
then_find-IsDone aid core cputype s (done sub) h =
    joined-IsDone _ (
      find_sched_group-IsDone core cputype (join aid) (λ _. Unit) (λ g _. tt) tt sub (anything sub))
  where
    joined-IsDone : (r : Change Topt) → IsDone r → IsDone (joined aid s r)
    joined-IsDone (done z) h = tt
    joined-IsDone (failed e z) h = h
    joined-IsDone fault h = h
then_find-IsDone aid core cputype s (failed e sub) h = absurd h
then_find-IsDone aid core cputype s fault h = absurd h

join_package-IsDone :
    (n : ℕ) (tm : List TopMap) (aid core cputype : ℕ) (g : Group)
    → IsPackage n g × Fits tm g.schedulable
    → IsDone (join_package n working tm aid core cputype g)
unfolding join_package
join_package-IsDone n tm aid core cputype g p = elim (Bool-cases (share_level n g.schedulable)) [
  | inr e ↦ rw (e) tt
  | inl e ↦ rw (e) (
      then_find-IsDone aid core cputype g.schedulable _
        (subgroups-IsDone n tm cputype g.schedulable g.sub p.1 p.0.used))
]

new_package-IsDone :
    (n : ℕ) (tm : List TopMap) (aid core cputype : ℕ)
    → IsDone
        (join_package n working tm aid core cputype (record { schedulable = cpu_zero; sub = null }))
unfolding join_package share_level
new_package-IsDone n tm aid core cputype = let fresh = share_from-zero n 0 in rw (fresh) tt

mapped-done :
    (tm : List TopMap) (aid : ℕ) (seen : TopMap) (r : Change Topt)
    → aid < length tm
    → IsDone r
    → (t : Topology) × (mapped tm aid seen r ≡ done t)
mapped-done tm aid seen (done z) h k =
    let inside : ltb aid (length tm) ≡ true = lt→ltb aid (length tm) h in rw (inside) (_, refl)
mapped-done tm aid seen (failed e z) h k = absurd k
mapped-done tm aid seen fault h k = absurd k

-- A package whose CPUs have entries, for each package.
all_fit :
    (n : ℕ) (tm : List TopMap) (zone : Topt)
    → AllGroups (IsPackage n) zone
    → Fits tm (union zone)
    → AllGroups (λ g. IsPackage n g × Fits tm g.schedulable) zone
all_fit n tm null all fits = tt
all_fit n tm (node g d s sub next) all fits =
    ((all.0, λ z e. fits z (rw (e) refl)), all_fit n tm next all.1 (λ z e. fits z (either (s z) e)))
  where
    either : (b : Bool) {c : Bool} → c ≡ true → (b || c) ≡ true
    either true h = refl
    either false h = h

-- In a topology that keeps the rules topologize succeeds where malloc does, for every CPU that a
-- set can hold, if the array has an entry for it and for each CPU of the topology.
pub topologize-succeeds_within :
    (cpu_setsize : ℕ) (t : Topology) (aid thread core pkg cputype : ℕ)
    → IsTopology cpu_setsize t.sched_zone
    → aid < cpu_setsize
    → aid < length t.tm
    → Fits t.tm (union t.sched_zone)
    → (t' : Topology) × (topologize cpu_setsize working t aid thread core pkg cputype ≡ done t')
unfolding topologize
topologize-succeeds_within n t aid thread core pkg cputype v h inside fits =
    let possible : ltb aid n ≡ true = lt→ltb aid n h in
    rw (possible) (
      mapped-done t.tm aid _ _ inside (
        find_sched_group-IsDone pkg cputype _ (λ g. IsPackage n g × Fits t.tm g.schedulable)
          (λ g. join_package-IsDone n t.tm aid core cputype g)
          (new_package-IsDone n t.tm aid core cputype) t.sched_zone
          (all_fit n t.tm t.sched_zone v.packages fits)))

bounded_union :
    (n : ℕ) (zone : Topt) → AllGroups (IsPackage n) zone → (z : ℕ) → union zone z ≡ true → z < n
bounded_union n null all z e = absurd (cc e)
bounded_union n (node g d s sub next) all z e = elim (Bool-cases (s z)) [
  | inl f ↦ all.0.used.bounded z f
  | inr f ↦ bounded_union n next all.1 z (rw (f) at e)
]

-- In a topology that keeps the rules topologize succeeds where malloc does, for every CPU that a
-- set can hold, if the array has an entry for each of them.
pub topologize-succeeds :
    (cpu_setsize : ℕ) (t : Topology) (aid thread core pkg cputype : ℕ)
    → IsTopology cpu_setsize t.sched_zone
    → aid < cpu_setsize
    → cpu_setsize ≤ length t.tm
    → (t' : Topology) × (topologize cpu_setsize working t aid thread core pkg cputype ≡ done t')
topologize-succeeds n t aid thread core pkg cputype v h long =
    topologize-succeeds_within n t aid thread core pkg cputype v h (omega (arith, h, long))
      (λ z e. let below = bounded_union n t.sched_zone v.packages z e in omega (arith, below, long))

-- Where there is no group yet and malloc works, topologize goes outside its array if the CPU's
-- number is a possible one but not below the array's length.
pub topologize-overruns :
    (cpu_setsize : ℕ) (t : Topology) (aid thread core pkg cputype : ℕ)
    → t.sched_zone ≡ null
    → aid < cpu_setsize
    → length t.tm ≤ aid
    → topologize cpu_setsize working t aid thread core pkg cputype ≡ fault
unfolding topologize find_sched_group create_zone join_package share_level
topologize-overruns n t aid thread core pkg cputype first h short =
    let fits : ltb aid n ≡ true = lt→ltb aid n h in
    let outside : ltb aid (length t.tm) ≡ false = le→ltb aid (length t.tm) short in
    let fresh = share_from-zero n 0 in rw (fits, first, fresh, outside) refl
