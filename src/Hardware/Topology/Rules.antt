-- ===== src/Hardware/Topology/Rules.antt =====
-- internal.h and hardware/topology.h: the rules for the topology, as the comments there give them.
use libtorque.Base.{ℕ, ◌<◌, ◌≡◌, true, false, ◌||◌}
use libtorque.Hardware.Topology.{
  CpuSet, cpu_set, Topt, null, node, Change, done, failed, fault, change, Group,
}

-- The CPUs of the groups of a list.
abbrev pub union : Topt → CpuSet
union null z = false
union (node g d s sub next) z = s z || union next z

-- The first group has a higher number.
abbrev pub Above : ℕ → Topt → Type 0
Above low null = Unit
Above low (node g d s sub next) = low < g

-- Siblings have different numbers, in ascending order.
abbrev pub Siblings : Topt → Type 0
Siblings null = Unit
Siblings (node g d s sub next) = Above g next × Siblings next

abbrev pub AllGroups : (Group → Type 0) → Topt → Type 0
AllGroups P null = Unit
AllGroups P (node g d s sub next) = P (record { schedulable = s; sub = sub }) × AllGroups P next

abbrev pub IsNull : Topt → Type 0
IsNull null = Unit
IsNull (node g d s sub next) = ⊥

-- At least one schedulable CPU, and none beyond the set's size.
pub record IsUsed (n : ℕ) (s : CpuSet) : Type 0 where
  pub first : ℕ
  pub first_in : s first ≡ true
  pub bounded : (z : ℕ) → s z ≡ true → z < n

pub record IsCore (n : ℕ) (g : Group) : Type 0 where
  pub used : IsUsed n g.schedulable
  pub leaf : IsNull g.sub

-- The CPUs of a group are those of its subgroups; without subgroups it has one CPU.
abbrev pub Agrees : CpuSet → Topt → Type 0
Agrees s null = (z w : ℕ) → s z ≡ true → s w ≡ true → z ≡ w
Agrees s (node g d t sub next) = (z : ℕ) → union (node g d t sub next) z ≡ s z

pub record IsPackage (n : ℕ) (g : Group) : Type 0 where
  pub used : IsUsed n g.schedulable
  pub siblings : Siblings g.sub
  pub cores : AllGroups (IsCore n) g.sub
  pub agrees : Agrees g.schedulable g.sub

-- The rules for a whole topology.
pub record IsTopology (n : ℕ) (zone : Topt) : Type 0 where
  pub siblings : Siblings zone
  pub packages : AllGroups (IsPackage n) zone

-- Whatever state a change leaves satisfies `P`.
abbrev pub Leaves : {S : Type 0} → (S → Type 0) → Change S → Type 0
Leaves P (done s) = P s
Leaves P (failed e s) = P s
Leaves P fault = Unit

pub change-Leaves :
    {S T : Type 0} (P : S → Type 0) (Q : T → Type 0) (f : S → T) (r : Change S)
    → Leaves P r
    → ((s : S) → P s → Q (f s))
    → Leaves Q (change f r)
change-Leaves P Q f (done s) p k = k s p
change-Leaves P Q f (failed e s) p k = k s p
change-Leaves P Q f fault p k = tt

-- A change adds one CPU to a set, or fails and leaves the set as it was.
abbrev pub Joins : ℕ → CpuSet → Change CpuSet → Type 0
Joins aid s (done t) = (z : ℕ) → t z ≡ cpu_set aid s z
Joins aid s (failed e t) = (z : ℕ) → t z ≡ s z
Joins aid s fault = Unit
