-- ===== src/Hardware/Topology.antt =====
-- hardware/topology.c: the scheduling groups, a list of packages that each may have a list of
-- cores. `cpu_set_t` is its membership test, and CPU_SETSIZE, the system's, a parameter.
pub mod Rules
pub mod Finder
pub mod Package
pub mod Kept
pub mod Lookup
pub mod Success
pub mod Described
mod Tests
use libtorque.Base.{
  ℕ, zero, suc, ◌+◌, ◌-◌, ◌≡◌, Bool, true, false, ◌||◌, not, Option, none, some, List, length,
  get_elem?, set, ltb, ◌==◌, if◌then◌else◌,
}
use libtorque.Errors.{TorqueErr, assert, resource}

-- `cpu_set_t`, by `CPU_ISSET`
abbrev pub CpuSet : Type 0
CpuSet = ℕ → Bool

-- `CPU_ZERO`
abbrev pub cpu_zero : CpuSet
cpu_zero z = false

-- `CPU_SET`
abbrev pub cpu_set : ℕ → CpuSet → CpuSet
cpu_set aid s z = (z == aid) || s z

-- `torque_topt`, the list from one group on.
pub data Topt : Type 0 where
  null : Topt
  node : (groupid cpudesc : ℕ) (schedulable : CpuSet) (sub next : Topt) → Topt

-- `struct top_map`
pub record TopMap : Type 0 where
  pub thread : ℕ
  pub core : ℕ
  pub pkg : ℕ

-- How a change ends: with an error it leaves its state behind too.
pub data Change (S : Type 0) : Type 0 where
  done : S → Change S
  failed : TorqueErr → S → Change S
  fault : Change S

abbrev pub change : {S T : Type 0} → (S → T) → Change S → Change T
change f (done s) = done (f s)
change f (failed e s) = failed e (f s)
change f fault = fault

-- The part of a group that its finder changes: `schedulable` and `sub`.
pub record Group : Type 0 where
  pub schedulable : CpuSet
  pub sub : Topt

abbrev pub node_of : ℕ → ℕ → Topt → Group → Topt
node_of id cputype next g = node id cputype g.schedulable g.sub next

-- `create_zone`, then its place before `next`; `works` is malloc's answer. `k` is what the caller
-- does with the group.
unfoldable pub create_zone : Bool → ℕ → ℕ → (Group → Change Group) → Topt → Change Topt
create_zone works id cputype k next =
    if works
    then change (node_of id cputype next) (k (record { schedulable = cpu_zero; sub = null }))
    else failed resource next

-- `find_sched_group` returns a pointer into the list; `k` is what its caller does with the group
-- that it points to.
unfoldable pub find_sched_group : Bool → ℕ → ℕ → (Group → Change Group) → Topt → Change Topt
unfolding create_zone
find_sched_group works id cputype k null = create_zone works id cputype k null
find_sched_group works id cputype k (node g d s sub next) =
    let later = change (node g d s sub) (find_sched_group works id cputype k next) in
    if g == id
    then change (node_of g d next) (k (record { schedulable = s; sub = sub }))
    else if ltb id g
    then create_zone works id cputype k (node g d s sub next)
    else later

-- The loops over the CPUs from `z` on, `n` of them left.
unfoldable pub first_from : ℕ → ℕ → CpuSet → ℕ
first_from zero z s = z
first_from (suc n) z s = let later = first_from n (suc z) s in if s z then z else later

unfoldable pub share_from : ℕ → ℕ → CpuSet → Bool
share_from zero z s = false
share_from (suc n) z s = let later = share_from n (suc z) s in if s z then true else later

unfoldable pub share_level : ℕ → CpuSet → Bool
share_level cpu_setsize s = share_from cpu_setsize 0 s

unfoldable pub first_aid : ℕ → CpuSet → ℕ
first_aid cpu_setsize s = first_from cpu_setsize 0 s

-- malloc's answers to one call of topologize, for a package, for the first of its cores, and for
-- the core of the new CPU.
pub record Allocs : Type 0 where
  pub package_works : Bool
  pub first_works : Bool
  pub core_works : Bool

-- `sg->sub`, made where it is NULL.
unfoldable pub subgroups : ℕ → Allocs → List TopMap → ℕ → CpuSet → Topt → Change Topt
unfolding first_aid
subgroups cpu_setsize a tm cputype s (node i d t u n) = done (node i d t u n)
subgroups cpu_setsize a tm cputype s null =
    let oid = first_aid cpu_setsize s in
    if not (ltb oid cpu_setsize) then failed assert null else elim (get_elem? tm oid) [
      | none ↦ fault
      | some seen ↦
          if a.first_works
          then done (node seen.core cputype (cpu_set oid cpu_zero) null null)
          else failed resource null
    ]

-- `CPU_SET(aid,&sc->schedulable)`
abbrev pub join : ℕ → Group → Change Group
join aid g = done (record g { schedulable = cpu_set aid g.schedulable })

abbrev pub then_find : Change Topt → (Topt → Change Topt) → Change Topt
then_find (done sub) f = f sub
then_find (failed e sub) f = failed e sub
then_find fault f = fault

-- `CPU_SET(aid,&sg->schedulable)` once the core is found.
abbrev pub joined : ℕ → CpuSet → Change Topt → Change Group
joined aid s (done sub) = done (record { schedulable = cpu_set aid s; sub = sub })
joined aid s (failed e sub) = failed e (record { schedulable = s; sub = sub })
joined aid s fault = fault

-- What topologize does with the package's group.
unfoldable pub join_package : ℕ → Allocs → List TopMap → ℕ → ℕ → ℕ → Group → Change Group
unfolding share_level subgroups find_sched_group first_aid
join_package cpu_setsize a tm aid core cputype g =
    let s = g.schedulable in
    let sub =
      then_find (subgroups cpu_setsize a tm cputype s g.sub)
        (find_sched_group a.core_works core cputype (join aid)) in
    if share_level cpu_setsize s then joined aid s sub else join aid g

-- `ctx->sched_zone` and `tm`
pub record Topology : Type 0 where
  pub sched_zone : Topt
  pub tm : List TopMap

-- The writes to `tm[aid]` at the end.
abbrev pub mapped : List TopMap → ℕ → TopMap → Change Topt → Change Topology
mapped tm aid seen (done z) =
    if ltb aid (length tm) then done (record { sched_zone = z; tm = set tm aid seen }) else fault
mapped tm aid seen (failed e z) = failed e (record { sched_zone = z; tm = tm })
mapped tm aid seen fault = fault

unfoldable pub topologize : ℕ → Allocs → Topology → ℕ → ℕ → ℕ → ℕ → ℕ → Change Topology
unfolding join_package find_sched_group
topologize cpu_setsize a t aid thread core pkg cputype =
    let zone =
      find_sched_group a.package_works pkg cputype
        (join_package cpu_setsize a t.tm aid core cputype) t.sched_zone in
    if not (ltb aid cpu_setsize)
    then failed assert t
    else mapped t.tm aid (record { thread = thread; core = core; pkg = pkg }) zone

-- `free_topology` ends with no group, and reset_topology stores NULL.
unfoldable pub reset_topology : Topology → Topology
reset_topology t = record t { sched_zone = null }

-- What lookup_aid finds: an index into `cpudescs`, NULL, or undefined behaviour, where it reads the
-- group that a NULL list does not have.
pub data Found : Type 0 where
  desc : ℕ → Found
  missing : Found
  crash : Found

abbrev pub descend : ℕ → Topt → Found → Found
descend d null below = desc d
descend d (node i c t u n) below = below

-- `while( (top = top->next) )`
abbrev pub continue : Topt → Found → Found
continue null later = missing
continue (node i c t u n) later = later

unfoldable pub lookup_aid_intop : Topt → ℕ → Found
lookup_aid_intop null aid = crash
lookup_aid_intop (node g d s sub next) aid =
    let below = lookup_aid_intop sub aid in
    let later = lookup_aid_intop next aid in
    if s aid then descend d sub below else continue next later

unfoldable pub lookup_aid : Topology → ℕ → Found
unfolding lookup_aid_intop
lookup_aid t aid = lookup_aid_intop t.sched_zone aid
