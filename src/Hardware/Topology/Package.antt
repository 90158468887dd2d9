-- ===== src/Hardware/Topology/Package.antt =====
-- hardware/topology.c: the group of a package keeps its rules when a CPU joins it.
use libtorque.Base.{
  ℕ, zero, suc, ◌+◌, ◌≤◌, ◌<◌, ◌≡◌, ◌≢◌, ap, refl, sym, ◌∙◌, Bool, true, false, ◌||◌, ◌==◌, arith,
  ltb, Bool-cases, inl, inr, List, get_elem?, Option-cases, lt→ltb, ==_iff,
}
use libtorque.Hardware.Topology.{
  CpuSet, cpu_set, cpu_zero, Topt, null, node, Change, done, failed, fault, change, Group, TopMap,
  find_sched_group, first_from, first_aid, share_from, share_level, Allocs, subgroups, join, joined,
  then_find, join_package,
}
use libtorque.Hardware.Topology.Rules.{
  union, Siblings, AllGroups, IsUsed, IsCore, IsPackage, Agrees, Leaves, Joins,
}
use libtorque.Hardware.Topology.Finder.{
  find_sched_group-Siblings, find_sched_group-AllGroups, find_sched_group-Joins,
}

-- The CPU at hand is not the one that is there.
go_on : (s : CpuSet) (z w : ℕ) → z ≤ w → s z ≡ false → s w ≡ true → suc z ≤ w
go_on s z w h off on = omega (arith, h, differ)
  where
    differ : z ≢ w
    differ e = cc (on, off, ap s e)

-- The loops find a CPU that is there.
first_from-finds :
    (n z w : ℕ) (s : CpuSet)
    → z ≤ w
    → w < z + n
    → s w ≡ true
    → (s (first_from n z s) ≡ true) × (first_from n z s < z + n)
unfolding first_from
first_from-finds zero z w s h k e = absurd (omega (arith, h, k))
first_from-finds (suc n) z w s h k e = elim (Bool-cases (s z)) [
  | inl on ↦ rw (on, first_from) (on, omega arith)
  | inr off ↦
      let rest = first_from-finds n (suc z) w s (go_on s z w h off e) (omega arith) e in
      rw (off, first_from) (rest.0, omega (arith, rest.1))
]

share_from-finds :
    (n z w : ℕ) (s : CpuSet) → z ≤ w → w < z + n → s w ≡ true → share_from n z s ≡ true
unfolding share_from
share_from-finds zero z w s h k e = absurd (omega (arith, h, k))
share_from-finds (suc n) z w s h k e = elim (Bool-cases (s z)) [
  | inl on ↦ rw (on, share_from) refl
  | inr off ↦
      rw (off, share_from) (share_from-finds n (suc z) w s (go_on s z w h off e) (omega arith) e)
]

-- In a set with a CPU, first_aid finds one.
pub first_aid-finds :
    (n : ℕ) (s : CpuSet) → IsUsed n s → (s (first_aid n s) ≡ true) × (first_aid n s < n)
unfolding first_aid
first_aid-finds n s u =
    let found = first_from-finds n 0 u.first s (omega arith) (omega (arith, bound)) u.first_in in
    (found.0, omega (arith, found.1))
  where
    bound : u.first < n
    bound = u.bounded u.first u.first_in

share_level-finds : (n : ℕ) (s : CpuSet) → IsUsed n s → share_level n s ≡ true
unfolding share_level
share_level-finds n s u =
    share_from-finds n 0 u.first s (omega arith) (omega (arith, u.bounded u.first u.first_in))
      u.first_in

pub share_from-zero : (n z : ℕ) → share_from n z cpu_zero ≡ false
unfolding share_from
share_from-zero zero z = refl
share_from-zero (suc n) z = share_from-zero n (suc z)

cpu_set-IsUsed :
    (n aid : ℕ) (s : CpuSet) → aid < n → ((z : ℕ) → s z ≡ true → z < n) → IsUsed n (cpu_set aid s)
cpu_set-IsUsed n aid s h b = record {
  first = aid;
  first_in = ground arith;
  bounded = λ z e. ground (arith, h, b z);
}

only :
    (s : CpuSet) (oid z : ℕ)
    → s oid ≡ true
    → (s z ≡ true → z ≡ oid)
    → (cpu_set oid cpu_zero z || false) ≡ s z
only s oid z h k = elim (Bool-cases (z == oid)) [
  | inl e ↦ rw (e) (sym (ap s ((==_iff z oid).0 e) ∙ h))
  | inr e ↦
      rw (e)
        (elim (Bool-cases (s z)) [ inl on ↦ cc (e, (==_iff z oid).1 (k on)) | inr off ↦ sym off ])
]

module _ (n : ℕ) (aid : ℕ) (fits : aid < n) where
  join-IsCore :
      (g : Group) → IsCore n g → IsCore n (record g { schedulable = cpu_set aid g.schedulable })
  join-IsCore g c = record {
    used = cpu_set-IsUsed n aid g.schedulable fits (c.used).bounded;
    leaf = c.leaf;
  }

  -- A set of one CPU is a package without cores.
  pub alone-IsPackage : IsPackage n (record { schedulable = cpu_set aid cpu_zero; sub = null })
  alone-IsPackage = record {
    used = cpu_set-IsUsed n aid cpu_zero fits λ z e. ground arith;
    siblings = tt;
    cores = tt;
    agrees = λ z w h k. ground arith;
  }

  -- The one CPU of a package that has no cores yet, in a group of its own.
  first-IsCore :
      (s : CpuSet)
      → IsUsed n s
      → IsCore n (record { schedulable = cpu_set (first_aid n s) cpu_zero; sub = null })
  first-IsCore s u = record {
    used = cpu_set-IsUsed n (first_aid n s) cpu_zero (first_aid-finds n s u).1 λ z e. ground arith;
    leaf = tt;
  }

  -- What the two steps below a shared package work on.
  record IsSub (s : CpuSet) (sub : Topt) : Type 0 where
    siblings : Siblings sub
    cores : AllGroups (IsCore n) sub
    same : (z : ℕ) → union sub z ≡ s z

  abbrev Whole : CpuSet → Topt → Type 0
  Whole s sub = IsPackage n (record { schedulable = s; sub = sub })

  -- After subgroups.
  abbrev Ready : CpuSet → Change Topt → Type 0
  Ready s (done sub) = IsSub s sub
  Ready s (failed e sub) = Whole s sub
  Ready s fault = Unit

  subgroups-Ready :
      (a : Allocs) (tm : List TopMap) (cputype : ℕ) (s : CpuSet) (sub : Topt)
      → Whole s sub
      → Ready s (subgroups n a tm cputype s sub)
  unfolding subgroups
  subgroups-Ready a tm cputype s (node i d t u x) p = record {
    siblings = p.siblings;
    cores = p.cores;
    same = p.agrees;
  }
  subgroups-Ready a tm cputype s null p =
      let oid = first_aid n s in
      let found = first_aid-finds n s p.used in
      let inside : ltb oid n ≡ true = lt→ltb oid n found.1 in
      rw (inside) (elim (Option-cases (get_elem? tm oid)) [
        | inl e ↦ rw (e) tt
        | inr (seen, e) ↦ rw (e) (elim (Bool-cases a.first_works) [
          | inl w ↦ rw (w) (record {
            siblings = (tt, tt);
            cores = (first-IsCore s p.used, tt);
            same = λ z. only s oid z found.0 (λ h. p.agrees z oid h found.0);
          })
          | inr w ↦ rw (w) p
        ])
      ])

  Agrees-of : (s : CpuSet) (sub : Topt) → IsUsed n s → ((z : ℕ) → union sub z ≡ s z) → Agrees s sub
  Agrees-of s null u same = λ z w h k. cc (same z, h)
  Agrees-of s (node g d t u x) _ same = same

  new-IsCore : IsCore n (record { schedulable = cpu_set aid cpu_zero; sub = null })
  new-IsCore = record { used = cpu_set-IsUsed n aid cpu_zero fits λ z e. ground arith; leaf = tt }

  whole :
      (s : CpuSet) (sub : Topt)
      → IsUsed n s
      → IsSub s sub
      → (r : Change Topt) → Leaves Siblings r
      → Leaves (AllGroups (IsCore n)) r
      → Joins aid (union sub) (change union r)
      → Leaves (IsPackage n) (joined aid s r)
  whole s sub u v (done t) b c j =
      let used = cpu_set-IsUsed n aid s fits u.bounded in
      record {
        used = used;
        siblings = b;
        cores = c;
        agrees = Agrees-of (cpu_set aid s) t used λ z. rw (j z, v.same z) refl;
      }
  whole s sub u v (failed e t) b c j = record {
    used = u;
    siblings = b;
    cores = c;
    agrees = Agrees-of s t u λ z. j z ∙ v.same z;
  }
  whole s sub u v fault b c j = tt

  then_find-Whole :
      (s : CpuSet) (r : Change Topt) (works : Bool) (core cputype : ℕ)
      → IsUsed n s
      → Ready s r
      → Leaves
          (IsPackage n)
          (joined aid s (then_find r (find_sched_group works core cputype (join aid))))
  then_find-Whole s (done sub) works core cputype u v =
      whole s sub u v _ (find_sched_group-Siblings works core cputype (join aid) sub v.siblings)
        (find_sched_group-AllGroups works core cputype (join aid) (IsCore n) join-IsCore new-IsCore
          sub v.cores)
        (find_sched_group-Joins works core cputype (join aid) aid (λ g z. refl) sub)
  then_find-Whole s (failed e sub) works core cputype u v = v
  then_find-Whole s fault works core cputype u v = tt

  pub join_package-IsPackage :
      (a : Allocs) (tm : List TopMap) (core cputype : ℕ) (g : Group)
      → IsPackage n g
      → Leaves (IsPackage n) (join_package n a tm aid core cputype g)
  unfolding join_package
  join_package-IsPackage a tm core cputype g p =
      let shared = share_level-finds n g.schedulable p.used in
      rw (shared) (
        then_find-Whole g.schedulable _ a.core_works core cputype p.used
          (subgroups-Ready a tm cputype g.schedulable g.sub p))
