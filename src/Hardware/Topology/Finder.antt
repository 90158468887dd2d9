-- ===== src/Hardware/Topology/Finder.antt =====
-- hardware/topology.c: what find_sched_group keeps, whatever its caller does with the group.
use libtorque.Base.{
  ℕ, ◌<◌, ◌≡◌, refl, Bool, true, false, ◌||◌, ◌==◌, arith, ltb, Bool-cases, inl, inr, ltb→lt,
}
use libtorque.Hardware.Topology.{
  CpuSet, Topt, null, node, Change, done, failed, fault, change, Group, find_sched_group,
  create_zone, node_of, cpu_zero,
}
use libtorque.Hardware.Topology.Rules.{
  union, Above, Siblings, AllGroups, Leaves, change-Leaves, Joins,
}

change-Leaves-all :
    {S T : Type 0} (Q : T → Type 0) (f : S → T) (r : Change S)
    → ((s : S) → Q (f s))
    → Leaves Q (change f r)
change-Leaves-all Q f (done s) k = k s
change-Leaves-all Q f (failed e s) k = k s
change-Leaves-all Q f fault k = tt

beyond : (g id : ℕ) → (g == id) ≡ false → ltb id g ≡ false → g < id
beyond g id e f = ground arith

or_assoc : (a b c : Bool) → ((a || b) || c) ≡ (a || (b || c))
or_assoc true b c = refl
or_assoc false b c = refl

or_swap : (a b c : Bool) → (a || (b || c)) ≡ (b || (a || c))
or_swap true true c = refl
or_swap true false c = refl
or_swap false b c = refl

-- The set of a changed group, and the union over a changed list.
abbrev pub cpus : Group → CpuSet
cpus g = g.schedulable

Joins-here :
    (aid g d : ℕ) (old : CpuSet) (next : Topt) (r : Change Group)
    → Joins aid old (change cpus r)
    → Joins aid (λ z. old z || union next z) (change union (change (node_of g d next) r))
Joins-here aid g d old next (done s) j = λ z. rw (j z) (or_assoc (z == aid) (old z) (union next z))
Joins-here aid g d old next (failed e s) j = λ z. rw (j z) refl
Joins-here aid g d old next fault j = tt

Joins-later :
    (aid g d : ℕ) (s : CpuSet) (sub next : Topt) (r : Change Topt)
    → Joins aid (union next) (change union r)
    → Joins aid (λ z. s z || union next z) (change union (change (node g d s sub) r))
Joins-later aid g d s sub next (done t) j = λ z. rw (j z) (or_swap (s z) (z == aid) (union next z))
Joins-later aid g d s sub next (failed e t) j = λ z. rw (j z) refl
Joins-later aid g d s sub next fault j = tt

module _ (works : Bool) (id cputype : ℕ) (k : Group → Change Group) where
  abbrev empty : Group
  empty = record { schedulable = cpu_zero; sub = null }

  create_zone-Above :
      (low : ℕ) (next : Topt)
      → low < id
      → Above low next
      → Leaves (Above low) (create_zone works id cputype k next)
  unfolding create_zone
  create_zone-Above low next h a = elim (Bool-cases works) [
    | inl e ↦ rw (e) (change-Leaves-all (Above low) (node_of id cputype next) (k empty) λ s. h)
    | inr e ↦ rw (e) a
  ]

  create_zone-Siblings :
      (next : Topt)
      → Above id next
      → Siblings next
      → Leaves Siblings (create_zone works id cputype k next)
  unfolding create_zone
  create_zone-Siblings next a s = elim (Bool-cases works) [
    | inl e ↦ rw (e) (change-Leaves-all Siblings (node_of id cputype next) (k empty) λ _. (a, s))
    | inr e ↦ rw (e) s
  ]

  find_sched_group-Above :
      (low : ℕ) (zone : Topt)
      → low < id
      → Above low zone
      → Leaves (Above low) (find_sched_group works id cputype k zone)
  unfolding find_sched_group
  find_sched_group-Above low null h a = create_zone-Above low null h a
  find_sched_group-Above low (node g d s sub next) h a = elim (Bool-cases (g == id)) [
    | inl e ↦ rw (e) (change-Leaves-all (Above low) (node_of g d next) (k _) λ _. a)
    | inr e ↦ rw (e) (elim (Bool-cases (ltb id g)) [
      | inl f ↦ rw (f) (create_zone-Above low _ h a)
      | inr f ↦ rw (f) (
          change-Leaves-all (Above low) (node g d s sub) (find_sched_group works id cputype k next)
            λ _. a)
    ])
  ]

  pub find_sched_group-Siblings :
      (zone : Topt) → Siblings zone → Leaves Siblings (find_sched_group works id cputype k zone)
  unfolding find_sched_group
  find_sched_group-Siblings null v = create_zone-Siblings null tt tt
  find_sched_group-Siblings (node g d s sub next) v = elim (Bool-cases (g == id)) [
    | inl e ↦ rw (e) (change-Leaves-all Siblings (node_of g d next) (k _) λ _. v)
    | inr e ↦ rw (e) (elim (Bool-cases (ltb id g)) [
      | inl f ↦ rw (f) (create_zone-Siblings _ (ltb→lt id g f) v)
      | inr f ↦ rw (f) (
          later (find_sched_group works id cputype k next)
            (find_sched_group-Above g next (beyond g id e f) v.0)
            (find_sched_group-Siblings next v.1))
    ])
  ]
    where
      later :
          (r : Change Topt)
          → Leaves (Above g) r
          → Leaves Siblings r
          → Leaves Siblings (change (node g d s sub) r)
      later (done t) a b = (a, b)
      later (failed e t) a b = (a, b)
      later fault a b = tt

  module _ (P : Group → Type 0) (keep : (g : Group) → P g → Leaves P (k g))
      (new : Leaves P (k empty)) where
    create_zone-AllGroups :
        (next : Topt)
        → AllGroups P next
        → Leaves (AllGroups P) (create_zone works id cputype k next)
    unfolding create_zone
    create_zone-AllGroups next all = elim (Bool-cases works) [
      | inl e ↦
          rw (e)
            (change-Leaves P (AllGroups P) (node_of id cputype next) (k empty) new λ _ p. (p, all))
      | inr e ↦ rw (e) all
    ]

    pub find_sched_group-AllGroups :
        (zone : Topt)
        → AllGroups P zone
        → Leaves (AllGroups P) (find_sched_group works id cputype k zone)
    unfolding find_sched_group
    find_sched_group-AllGroups null all = create_zone-AllGroups null tt
    find_sched_group-AllGroups (node g d s sub next) all = elim (Bool-cases (g == id)) [
      | inl e ↦
          rw (e) (
            change-Leaves P (AllGroups P) (node_of g d next) (k _) (keep _ all.0) λ _ p. (p, all.1))
      | inr e ↦ rw (e) (elim (Bool-cases (ltb id g)) [
        | inl f ↦ rw (f) (create_zone-AllGroups _ all)
        | inr f ↦ rw (f) (
            change-Leaves (AllGroups P) (AllGroups P) (node g d s sub) _
              (find_sched_group-AllGroups next all.1) λ _ rest. (all.0, rest))
      ])
    ]

  module _ (aid : ℕ) (adds : (g : Group) → Joins aid g.schedulable (change cpus (k g))) where
    create_zone-Joins :
        (next : Topt) → Joins aid (union next) (change union (create_zone works id cputype k next))
    unfolding create_zone
    create_zone-Joins next = elim (Bool-cases works) [
      | inl e ↦ rw (e) (Joins-here aid id cputype cpu_zero next (k empty) (adds empty))
      | inr e ↦ rw (e) (λ z. refl)
    ]

    pub find_sched_group-Joins :
        (zone : Topt)
        → Joins aid (union zone) (change union (find_sched_group works id cputype k zone))
    unfolding find_sched_group
    find_sched_group-Joins null = create_zone-Joins null
    find_sched_group-Joins (node g d s sub next) = elim (Bool-cases (g == id)) [
      | inl e ↦ rw (e) (Joins-here aid g d s next (k _) (adds _))
      | inr e ↦ rw (e) (elim (Bool-cases (ltb id g)) [
        | inl f ↦ rw (f) (create_zone-Joins _)
        | inr f ↦ rw (f) (Joins-later aid g d s sub next _ (find_sched_group-Joins next))
      ])
    ]
