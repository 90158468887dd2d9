-- ===== src/Hardware/Arch/Whole/Ends.antt =====
-- hardware/arch.c: how detect_architecture ends, with the threads that detect_cputypes started.
use libtorque.Base.{ℕ, ◌≡◌, refl, List, [], some, Run, length}
use libtorque.Errors.{Outcome, done, failed}
use libtorque.Hardware.Desc.{Cpu, Node}
use libtorque.Hardware.Cpuid.Ident.{Fuel}
use libtorque.Hardware.Topology.{null, CpuSet, Topology}
use libtorque.Hardware.Memory.Nodes.{MemorySystem, detect_memories}
use libtorque.Hardware.Memory.Nodes.Detected.{OneNode, detect_memories-OneNode}
use libtorque.Hardware.Arch.{System, Detected, detect_cputypes}
use libtorque.Hardware.Arch.Loop.{members}
use libtorque.Hardware.Arch.Detect.{Detects, Reaps, detect_cputypes-Detects}
use libtorque.Hardware.Arch.Whole.{
  Machinery, Found, ready, refused, minus_one, crash, cut_short, Cuda, detect_cuda,
  free_architecture, with_memories, with_cuda, with_cputypes, detect_architecture,
}

-- Nothing is left of the description.
abbrev pub IsFreed : Machinery → Type 0
IsFreed m = (m.detected.types ≡ []) × (m.nodes ≡ []) × (m.detected.topology.sched_zone ≡ null)

-- The threads and stacks that detect_cputypes leaves: one of each for every CPU of the mask, or on an
-- error what reap_threads leaves.
abbrev pub LeavesThreads : ℕ → System → Outcome Detected → Detected → Type 0
LeavesThreads n h (done d) left =
    (mask : CpuSet) × (h.mask ≡ some mask)
    × (left.threads ≡ members n 0 mask)
    × (left.stacks ≡ length left.threads)
LeavesThreads n h (failed e d) left = Reaps n h h.mask left
LeavesThreads n h Outcome.fault left = ⊥
LeavesThreads n h Outcome.out_of_fuel left = ⊥

-- The descriptions do not matter to it.
LeavesThreads-described :
    (n : ℕ) (h : System) (cpus : Outcome Detected) (d : Detected) (types : List Cpu) (t : Topology)
    → LeavesThreads n h cpus d
    → LeavesThreads n h cpus (record d { types = types; topology = t })
LeavesThreads-described n h (done d') d types t leaves = leaves
LeavesThreads-described n h (failed e d') d types t leaves = record {
  started = leaves.started;
  first_ones = leaves.first_ones;
  threads = leaves.threads;
  stacks = leaves.stacks;
}
LeavesThreads-described n h Outcome.fault d types t leaves = leaves
LeavesThreads-described n h Outcome.out_of_fuel d types t leaves = leaves

module _ (n : ℕ) (h : System) (s : MemorySystem) (cpus : Outcome Detected) where
  -- How detect_architecture ends, after detect_cputypes.
  abbrev pub Ends : Found Machinery → Type 0
  Ends (ready m) = LeavesThreads n h cpus m.detected × OneNode s m.detected.types (Run.ok m.nodes)
  Ends (refused e m) = IsFreed m × LeavesThreads n h cpus m.detected
  Ends (minus_one m) = IsFreed m × LeavesThreads n h cpus m.detected
  Ends crash = Unit
  Ends cut_short = Unit

  with_memories-Ends :
      (d : Detected) (r : Run (List Node))
      → LeavesThreads n h cpus d
      → OneNode s d.types r
      → Ends (with_memories d r)
  unfolding free_architecture
  with_memories-Ends d (Run.ok nodes) threads one = (threads, one)
  with_memories-Ends d (Run.err nodes) threads one =
      ((refl, refl, refl), LeavesThreads-described n h cpus d _ _ threads)
  with_memories-Ends d Run.fault threads one = tt
  with_memories-Ends d Run.out_of_fuel threads one = tt

  with_cuda-Ends :
      (d : Detected) (r : Found (List Cpu)) → LeavesThreads n h cpus d → Ends (with_cuda s d r)
  unfolding free_architecture
  with_cuda-Ends d (ready types) threads =
      with_memories-Ends (record d { types = types }) (detect_memories s types [])
        (LeavesThreads-described n h cpus d types d.topology threads)
        (detect_memories-OneNode s types)
  with_cuda-Ends d (refused e types) threads =
      ((refl, refl, refl), LeavesThreads-described n h cpus d _ _ threads)
  with_cuda-Ends d (minus_one types) threads =
      ((refl, refl, refl), LeavesThreads-described n h cpus d _ _ threads)
  with_cuda-Ends d crash threads = tt
  with_cuda-Ends d cut_short threads = tt

with_cputypes-Ends :
    (n : ℕ) (h : System) (c : Cuda) (s : MemorySystem) (cpus : Outcome Detected)
    → Detects n h h.mask cpus
    → Ends n h s cpus (with_cputypes c s cpus)
unfolding free_architecture
with_cputypes-Ends n h c s (done d) (mask, given, complete, elements) =
    with_cuda-Ends n h s (done d) d (detect_cuda c d.types)
      (mask, given, complete.threads, complete.detected.stacks)
with_cputypes-Ends n h c s (failed e d) (types, threads, topology) =
    ((refl, refl, refl), LeavesThreads-described n h (failed e d) d _ _ threads)
with_cputypes-Ends n h c s Outcome.fault detects = tt
with_cputypes-Ends n h c s Outcome.out_of_fuel detects = tt

-- After a success of detect_architecture there is a thread for each CPU of the affinity mask, and one
-- node of memory. After every failure nothing is left of the description; but where detect_cputypes
-- had succeeded, so that it was CUDA's or the memory's detection that failed, each of its threads
-- still runs.
pub detect_architecture-Ends :
    (fuel : Fuel) (n : ℕ) (h : System) (c : Cuda) (s : MemorySystem)
    → Ends n h s (detect_cputypes fuel n h) (detect_architecture fuel n h c s)
unfolding detect_architecture
detect_architecture-Ends fuel n h c s =
    with_cputypes-Ends n h c s (detect_cputypes fuel n h) (detect_cputypes-Detects fuel n h)
