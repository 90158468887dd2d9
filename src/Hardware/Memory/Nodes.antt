-- ===== src/Hardware/Memory/Nodes.antt =====
-- hardware/memory.c: the size of memory and the list of nodes.
pub mod Detected
pub mod Success
use libtorque.Base.{
  ℕ, ◌*◌, ◌%◌, ◌^◌, ◌-◌, Bool, true, false, ◌&&◌, not, List, [], ◌∷◌, ◌++◌, Option, none, some, Run,
  ok, err, ltb, ◌==◌, if◌then◌else◌, nonzero,
}
use libtorque.Hardware.Desc.{Cpu, Node}
use libtorque.Hardware.Memory.{determine_pagesizes}

abbrev pub uintmax : ℕ
uintmax = 2 ^ 64

-- What sysconf gives, where it is positive, `rlim_cur` where getrlimit works, malloc's answers for
-- the arrays of page sizes and for the array of nodes.
pub record MemorySystem : Type 0 where
  pub phys_pages : Option ℕ
  pub pagesize : Option ℕ
  pub rlimit_as : Option ℕ
  pub grow_psizes : ℕ → Bool
  pub grow_nodes : Bool

-- RLIM_INFINITY
abbrev pub rlim_infinity : ℕ
rlim_infinity = uintmax - 1

abbrev pub limited : ℕ → Option ℕ → ℕ
limited ret none = ret
limited ret (some rlim_cur) =
    if nonzero rlim_cur && not (rlim_cur == rlim_infinity)
    then (if ltb rlim_cur ret then rlim_cur else ret)
    else ret

abbrev pub sysmem_of : Option ℕ → Option ℕ → Option ℕ → ℕ
sysmem_of none psize rlim = 0
sysmem_of (some pages) none rlim = 0
sysmem_of (some pages) (some psize) rlim = limited (pages * psize % uintmax) rlim

unfoldable pub determine_sysmem : MemorySystem → ℕ
determine_sysmem s = sysmem_of s.phys_pages s.pagesize s.rlimit_as

-- add_node
abbrev pub add_node : Bool → List Node → Node → Option (List Node)
add_node works nodes node = if works then some (nodes ++ (node ∷ [])) else none

-- hardware/numa.c: it succeeds with libNUMA and without, and adds nothing.
abbrev pub detect_numa : List Node → Run (List Node)
detect_numa nodes = ok nodes

abbrev pub with_nodes : Option (List Node) → Run (List Node)
with_nodes none = err []
with_nodes (some nodes) = detect_numa nodes

abbrev pub with_psizes : MemorySystem → List Node → Run (List ℕ) → Run (List Node)
with_psizes s nodes (ok vals) =
    let size = determine_sysmem s in
    if size == 0
    then err []
    else with_nodes
        (add_node s.grow_nodes nodes (record { size = size; psizevals = vals; count = 1 }))
with_psizes s nodes (err vals) = err []
with_psizes s nodes Run.fault = Run.fault
with_psizes s nodes Run.out_of_fuel = Run.out_of_fuel

-- `ctx->manodes` after it, which free_memories empties on an error.
unfoldable pub detect_memories : MemorySystem → List Cpu → List Node → Run (List Node)
detect_memories s cpus nodes =
    with_psizes s nodes (determine_pagesizes s.grow_psizes s.pagesize cpus [])
