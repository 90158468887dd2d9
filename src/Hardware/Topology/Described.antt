-- ===== src/Hardware/Topology/Described.antt =====
-- hardware/topology.c: the groups carry indices of types that are there.
use libtorque.Base.{
  ℕ, ◌<◌, ◌≤◌, Bool, Option-cases, inl, inr, List, get_elem?, ltb, ◌==◌, not, length, if_cases,
  arith,
}
use libtorque.Hardware.Topology.{
  CpuSet, Topt, null, node, TopMap, Change, done, failed, fault, Group, find_sched_group,
  create_zone, subgroups, join, joined, then_find, join_package, Allocs, Topology, topologize,
  mapped, Found, desc, missing, crash, descend, continue, lookup_aid_intop, share_level, first_aid,
}
use libtorque.Hardware.Topology.Rules.{Leaves, change-Leaves}

-- Every group of a list and below it has an index below `k`.
abbrev pub DescsBelow : ℕ → Topt → Type 0
DescsBelow k null = Unit
DescsBelow k (node g d s sub next) = (d < k) × DescsBelow k sub × DescsBelow k next

pub DescsBelow_mono : (k l : ℕ) (zone : Topt) → k ≤ l → DescsBelow k zone → DescsBelow l zone
DescsBelow_mono k l null h below = tt
DescsBelow_mono k l (node g d s sub next) h below =
    let low = below.0 in
    (omega (arith, low, h), DescsBelow_mono k l sub h below.1, DescsBelow_mono k l next h below.2)

module _ (k : ℕ) (cputype : ℕ) (small : cputype < k) where
  module _ (works : Bool) (id : ℕ) (f : Group → Change Group)
      (keep : (g : Group) → DescsBelow k g.sub → Leaves (λ g'. DescsBelow k g'.sub) (f g)) where
    create_zone-DescsBelow :
        (next : Topt)
        → DescsBelow k next
        → Leaves (DescsBelow k) (create_zone works id cputype f next)
    unfolding create_zone
    create_zone-DescsBelow next below =
        if_cases (Leaves (DescsBelow k)) works _ _
          (λ _.
            change-Leaves (λ g. DescsBelow k g.sub) (DescsBelow k) _ (f _) (keep _ tt)
              (λ g p. (small, p, below)))
          (λ _. below)

    find_sched_group-DescsBelow :
        (zone : Topt)
        → DescsBelow k zone
        → Leaves (DescsBelow k) (find_sched_group works id cputype f zone)
    unfolding find_sched_group
    find_sched_group-DescsBelow null below = create_zone-DescsBelow null tt
    find_sched_group-DescsBelow (node g d s sub next) below =
        if_cases (Leaves (DescsBelow k)) (g == id) _ _
          (λ _.
            change-Leaves (λ g'. DescsBelow k g'.sub) (DescsBelow k) _ (f _) (keep _ below.1)
              (λ g' p. (below.0, p, below.2)))
          (λ _.
            if_cases (Leaves (DescsBelow k)) (ltb id g) _ _
              (λ _. create_zone-DescsBelow (node g d s sub next) below)
              (λ _.
                change-Leaves (DescsBelow k) (DescsBelow k) _ _
                  (find_sched_group-DescsBelow next below.2) (λ z p. (below.0, below.1, p))))

  subgroups-DescsBelow :
      (n : ℕ) (a : Allocs) (tm : List TopMap) (s : CpuSet) (sub : Topt)
      → DescsBelow k sub
      → Leaves (DescsBelow k) (subgroups n a tm cputype s sub)
  unfolding subgroups
  subgroups-DescsBelow n a tm s (node i d t u x) below = below
  subgroups-DescsBelow n a tm s null below =
      if_cases (Leaves (DescsBelow k)) (not (ltb (first_aid n s) n)) _ _ (λ _. tt)
        (λ _. elim (Option-cases (get_elem? tm (first_aid n s))) [
          | inl e ↦ rw (e) tt
          | inr e ↦
              rw (e.1) (
                if_cases (Leaves (DescsBelow k)) a.first_works _ _ (λ _. (small, tt, tt)) (λ _. tt))
        ])

  then_find-DescsBelow :
      (r : Change Topt) (f : Topt → Change Topt)
      → Leaves (DescsBelow k) r
      → ((sub : Topt) → DescsBelow k sub → Leaves (DescsBelow k) (f sub))
      → Leaves (DescsBelow k) (then_find r f)
  then_find-DescsBelow (done sub) f p step = step sub p
  then_find-DescsBelow (failed e sub) f p step = p
  then_find-DescsBelow fault f p step = tt

  joined-DescsBelow :
      (aid : ℕ) (s : CpuSet) (r : Change Topt)
      → Leaves (DescsBelow k) r
      → Leaves (λ g. DescsBelow k g.sub) (joined aid s r)
  joined-DescsBelow aid s (done sub) p = p
  joined-DescsBelow aid s (failed e sub) p = p
  joined-DescsBelow aid s fault p = tt

  join_package-DescsBelow :
      (n : ℕ) (a : Allocs) (tm : List TopMap) (aid core : ℕ) (g : Group)
      → DescsBelow k g.sub
      → Leaves (λ g'. DescsBelow k g'.sub) (join_package n a tm aid core cputype g)
  unfolding join_package
  join_package-DescsBelow n a tm aid core g below =
      if_cases (Leaves (λ g'. DescsBelow k g'.sub)) (share_level n g.schedulable) _ _
        (λ _. joined-DescsBelow aid g.schedulable _ (
          then_find-DescsBelow _ _ (subgroups-DescsBelow n a tm g.schedulable g.sub below)
            (find_sched_group-DescsBelow a.core_works core (join aid) (λ g' p. p))))
        (λ _. below)

  mapped-DescsBelow :
      (tm : List TopMap) (aid : ℕ) (seen : TopMap) (r : Change Topt)
      → Leaves (DescsBelow k) r
      → Leaves (λ t. DescsBelow k t.sched_zone) (mapped tm aid seen r)
  mapped-DescsBelow tm aid seen (done z) p =
      if_cases (Leaves (λ t. DescsBelow k t.sched_zone)) (ltb aid (length tm)) _ _ (λ _. p)
        (λ _. tt)
  mapped-DescsBelow tm aid seen (failed e z) p = p
  mapped-DescsBelow tm aid seen fault p = tt

  pub topologize-DescsBelow :
      (n : ℕ) (a : Allocs) (t : Topology) (aid thread core pkg : ℕ)
      → DescsBelow k t.sched_zone
      → Leaves (λ t'. DescsBelow k t'.sched_zone) (topologize n a t aid thread core pkg cputype)
  unfolding topologize
  topologize-DescsBelow n a t aid thread core pkg below =
      if_cases (Leaves (λ t'. DescsBelow k t'.sched_zone)) (not (ltb aid n)) _ _ (λ _. below)
        (λ _. mapped-DescsBelow t.tm aid _ _ (
          find_sched_group-DescsBelow a.package_works pkg _
            (join_package-DescsBelow n a t.tm aid core) t.sched_zone below))

-- What a search finds is below `k`.
abbrev pub FoundBelow : ℕ → Found → Type 0
FoundBelow k (desc d) = d < k
FoundBelow k missing = Unit
FoundBelow k crash = Unit

pub lookup_aid_intop-FoundBelow :
    (k aid : ℕ) (zone : Topt) → DescsBelow k zone → FoundBelow k (lookup_aid_intop zone aid)
unfolding lookup_aid_intop
lookup_aid_intop-FoundBelow k aid null below = tt
lookup_aid_intop-FoundBelow k aid (node g d s sub next) below =
    if_cases (FoundBelow k) (s aid) _ _
      (λ _. within sub (lookup_aid_intop sub aid) (lookup_aid_intop-FoundBelow k aid sub below.1))
      (λ _.
        further next (lookup_aid_intop next aid) (lookup_aid_intop-FoundBelow k aid next below.2))
  where
    within : (u : Topt) (f : Found) → FoundBelow k f → FoundBelow k (descend d u f)
    within null f p = below.0
    within (node i c t u x) f p = p

    further : (u : Topt) (f : Found) → FoundBelow k f → FoundBelow k (continue u f)
    further null f p = tt
    further (node i c t u x) f p = p
