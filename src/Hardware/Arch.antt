-- ===== src/Hardware/Arch.antt =====
-- hardware/arch.c: the processors that the process may use, each pinned to in turn, described by
-- x86cpuid, counted by type, placed by topologize and given a thread.
pub mod Same
pub mod Loop
pub mod Gains
pub mod Detect
pub mod Success
pub mod Described
pub mod Whole
pub mod Tests
use mathlib.Core.Bool.{decide}
use libtorque.Base.{
  ℕ, zero, suc, ◌+◌, ◌-◌, ℕ_discrete, Bool, true, false, ◌&&◌, not, List, [], ◌∷◌, ◌++◌, Option,
  none, some, Run, ok, err, length, ltb, get_elem?, ◌==◌, if◌then◌else◌,
}
use libtorque.Errors.{
  TorqueErr, assert, cpudetect, affinity, resource, Outcome, done, failed, fault, out_of_fuel,
  and_then,
}
use libtorque.Hardware.Desc.{Spec, Tlb, Mem, Cpu}
use libtorque.Hardware.Cpuid.Regs.{Machine}
use libtorque.Hardware.Cpuid.Place.{Place}
use libtorque.Hardware.Cpuid.Ident.{Fuel, Identity, x86cpuid}
use libtorque.Hardware.Topology
use libtorque.Hardware.Topology.{
  CpuSet, Topt, null, TopMap, Allocs, Topology, topologize, first_from,
}

-- Comparison by `memcmp`, of structures that hold numbers only.
pub Spec-discrete : Discrete Spec
Spec-discrete = hlevel (ℕ_discrete)

pub tlbs-discrete : Discrete (List Tlb)
tlbs-discrete = hlevel (ℕ_discrete)

pub mems-discrete : Discrete (List Mem)
mems-discrete = hlevel (ℕ_discrete)

pub chars-discrete : Discrete (List ℕ)
chars-discrete = hlevel (ℕ_discrete)

-- Whether compare_cpudetails returns 0. The constructor of the specification stands for `isa`.
unfoldable pub compare_cpudetails : Cpu → Cpu → Bool
compare_cpudetails a b =
    decide (Spec-discrete a.spec b.spec)
    && (decide (tlbs-discrete a.tlbdescs b.tlbdescs)
        && (decide (mems-discrete a.memdescs b.memdescs)
            && ((a.threadspercore == b.threadspercore)
                && ((a.coresperpackage == b.coresperpackage)
                    && decide (chars-discrete a.strdescription b.strdescription)))))

-- The index of the first type that compares equal.
unfoldable pub match_cputype : List Cpu → Cpu → Option ℕ
match_cputype [] acpu = none
match_cputype (t ∷ ts) acpu =
    let later = elim (match_cputype ts acpu) as (λ _. Option ℕ) [
      | none ↦ none
      | some n ↦ some (suc n)
    ] in
    if compare_cpudetails t acpu then some 0 else later

-- `++cputype->elements`; the count is at most CPU_SETSIZE, so it does not overflow.
unfoldable pub count_element : List Cpu → ℕ → List Cpu
count_element [] n = []
count_element (t ∷ ts) zero = record t { elements = t.elements + 1 } ∷ ts
count_element (t ∷ ts) (suc n) = t ∷ count_element ts n

-- `portable_cpuset_count`, from CPU `z` on with `n` left.
unfoldable pub count_from : ℕ → ℕ → CpuSet → ℕ
count_from zero z s = 0
count_from (suc n) z s = let rest = count_from n (suc z) s in if s z then suc rest else rest

unfoldable pub portable_cpuset_count : ℕ → CpuSet → ℕ
portable_cpuset_count cpu_setsize s = count_from cpu_setsize 0 s

-- The system: the affinity mask where it can be read, and per CPU whether the thread can be pinned
-- to it, its processor, malloc's answers and whether spawn_thread works, or else leaves the stack that
-- it mapped; `remaining` is which of the threads still run once reap_threads has sent its signal and
-- its join of one thread has returned, and `garbage` what the places hold that x86cpuid fills.
pub record System : Type 0 where
  pub mask : Option CpuSet
  pub topmap_works : Bool
  pub pin_works : ℕ → Bool
  pub machine : ℕ → Machine
  pub grow_types : ℕ → Bool
  pub allocs : ℕ → Allocs
  pub spawn_works : ℕ → Bool
  pub spawn_leaves : ℕ → Bool
  pub remaining : List ℕ → List ℕ
  pub unpin_works : Bool
  pub garbage : Place

-- The part of the context that detection fills: `cpudescs` with `cpu_typecount`, `sched_zone` with
-- the array of maps, the CPUs that have a thread, and how many stacks are mapped for threads.
pub record Detected : Type 0 where
  pub types : List Cpu
  pub topology : Topology
  pub threads : List ℕ
  pub stacks : ℕ

pub data Details : Type 0 where
  found : Identity → Details
  refused : TorqueErr → Details
  crash : Details
  cut_short : Details

-- A description is freed where x86cpuid fails.
abbrev pub described : Run Identity → Details
described (ok i) = found i
described (err i) = refused cpudetect
described Run.fault = crash
described Run.out_of_fuel = cut_short

unfoldable pub detect_cpudetails : Fuel → System → ℕ → Details
detect_cpudetails fuel h id =
    if not (h.pin_works id)
    then refused affinity
    else described (x86cpuid fuel (h.machine id) h.garbage)

-- spawn_thread, once topologize succeeded.
abbrev pub spawned : System → ℕ → Detected → Topology.Change Topology → Outcome Detected
spawned h aid s (Topology.done t) =
    let placed = record s { topology = t } in
    if h.spawn_works aid
    then done (record placed { threads = s.threads ++ (aid ∷ []); stacks = suc s.stacks })
    else failed resource
        (record placed { stacks = if h.spawn_leaves aid then suc s.stacks else s.stacks })
spawned h aid s (Topology.failed e t) = failed e (record s { topology = t })
spawned h aid s Topology.fault = fault

unfoldable pub place_cpu : ℕ → System → ℕ → Place → Detected → ℕ → Outcome Detected
place_cpu cpu_setsize h aid p s cputype =
    spawned h aid s
      (topologize cpu_setsize (h.allocs aid) s.topology aid p.thread p.core p.pkg cputype)

-- match_cputype, or add_cputype, which appends.
unfoldable pub count_cpu : ℕ → System → ℕ → Identity → Detected → Outcome Detected
count_cpu cpu_setsize h aid i s =
    let types = s.types in
    let new = types ++ (record (i.cpu) { elements = 1 } ∷ []) in
    elim (match_cputype types i.cpu) [
      | some n ↦ place_cpu cpu_setsize h aid i.place (record s { types = count_element types n }) n
      | none ↦
          if h.grow_types (length types)
          then place_cpu cpu_setsize h aid i.place (record s { types = new }) (length types)
          else failed resource s
    ]

abbrev pub counted : ℕ → System → ℕ → Detected → Details → Outcome Detected
counted cpu_setsize h aid s (found i) = count_cpu cpu_setsize h aid i s
counted cpu_setsize h aid s (refused e) = failed e s
counted cpu_setsize h aid s crash = fault
counted cpu_setsize h aid s cut_short = out_of_fuel

-- The loop over `z`, by the CPUs left.
unfoldable pub detect_loop : Fuel → ℕ → System → CpuSet → ℕ → ℕ → Detected → Outcome Detected
detect_loop fuel cpu_setsize h mask zero aid s = done s
detect_loop fuel cpu_setsize h mask (suc left) aid s =
    let next = first_from (cpu_setsize - aid) aid mask in
    let cpu = counted cpu_setsize h next s (detect_cpudetails fuel h next) in
    if next == cpu_setsize
    then failed affinity s
    else and_then cpu (λ s'. detect_loop fuel cpu_setsize h mask left (suc next) s')

-- reap_threads, which does nothing where there is no `ctx->ev`. Its result is ignored, and it joins one
-- thread, so which threads are left is the system's answer.
abbrev pub reaped : (List ℕ → List ℕ) → List ℕ → List ℕ
reaped remaining [] = []
reaped remaining (t ∷ ts) = remaining (t ∷ ts)

-- The end of detect_cputypes: the types are freed and the threads reaped on an error. The stacks stay.
abbrev pub released : System → Outcome Detected → Outcome Detected
released h (done s) = done s
released h (failed e s) = failed e (record s { types = []; threads = reaped h.remaining s.threads })
released h fault = fault
released h out_of_fuel = out_of_fuel

abbrev pub unpinned : System → Outcome Detected → Outcome Detected
unpinned h r = and_then r (λ s. if h.unpin_works then done s else failed affinity s)

abbrev pub zeroed : ℕ → List TopMap
zeroed zero = []
zeroed (suc n) = record { thread = 0; core = 0; pkg = 0 } ∷ zeroed n

abbrev pub empty : Detected
empty = record {
  types = [];
  topology = record { sched_zone = null; tm = [] };
  threads = [];
  stacks = 0;
}

-- What follows detect_cpucount, which reads the mask.
unfoldable pub detect_masked : Fuel → ℕ → System → Option CpuSet → Outcome Detected
detect_masked fuel cpu_setsize h none = failed affinity empty
detect_masked fuel cpu_setsize h (some mask) =
    let count = portable_cpuset_count cpu_setsize mask in
    let start = record empty { topology = record { sched_zone = null; tm = zeroed count } } in
    if count == 0
    then failed affinity empty
    else if not h.topmap_works
    then failed resource empty
    else released h (unpinned h (detect_loop fuel cpu_setsize h mask count 0 start))

-- From the context as create_torque_ctx leaves it.
unfoldable pub detect_cputypes : Fuel → ℕ → System → Outcome Detected
detect_cputypes fuel cpu_setsize h = detect_masked fuel cpu_setsize h h.mask

unfoldable pub torque_cpu_typecount : Detected → ℕ
torque_cpu_typecount s = length s.types

unfoldable pub torque_cpu_getdesc : Detected → ℕ → Option Cpu
torque_cpu_getdesc s n = if not (ltb n (torque_cpu_typecount s)) then none else get_elem? s.types n
