-- ===== src/Hardware/Memory/Nodes/Detected.antt =====
-- hardware/memory.c: what detect_memories leaves behind.
use libtorque.Base.{
  ℕ, zero, suc, ◌*◌, ◌%◌, ◌<◌, ◌≤◌, ◌≡◌, ◌≢◌, refl, true, false, List, [], ◌∷◌, Option, none, some,
  Run, ok, err, ltb, ◌==◌, ==_iff, if◌then◌else◌, if_cases, arith, nonzero,
}
use libtorque.Hardware.Desc.{Cpu, Node}
use libtorque.Hardware.Memory.{determine_pagesizes, large_system_pagesize}
use libtorque.Hardware.Memory.Pages.{OnOk, IsNode, top_cpus, determine_pagesizes-IsNode}
use libtorque.Hardware.Memory.Nodes.{
  MemorySystem, limited, sysmem_of, rlim_infinity, determine_sysmem, with_psizes, with_nodes,
  detect_memories, uintmax,
}

-- A finite limit other than 0 bounds a size.
abbrev pub WithinLimit : Option ℕ → ℕ → Type 0
WithinLimit none size = Unit
WithinLimit (some limit) size = 0 < limit → limit < rlim_infinity → size ≤ limit

limited-WithinLimit : (ret : ℕ) (rlim : Option ℕ) → WithinLimit rlim (limited ret rlim)
limited-WithinLimit ret none = tt
limited-WithinLimit ret (some limit) = λ positive finite.
    let set : nonzero limit ≡ true = positive_nonzero limit positive in
    let other : (limit == rlim_infinity) ≡ false = ground (arith, finite) in
    rw (set, other) (lesser limit ret)
  where
    positive_nonzero : (n : ℕ) → 0 < n → nonzero n ≡ true
    positive_nonzero zero h = absurd (omega (arith, h))
    positive_nonzero (suc n) h = refl

    lesser : (a b : ℕ) → (if ltb a b then a else b) ≤ a
    lesser a b = ground arith

sysmem_of-WithinLimit :
    (pages psize rlim : Option ℕ) → WithinLimit rlim (sysmem_of pages psize rlim)
sysmem_of-WithinLimit none psize none = tt
sysmem_of-WithinLimit none psize (some limit) = λ positive finite. omega arith
sysmem_of-WithinLimit (some pages) none none = tt
sysmem_of-WithinLimit (some pages) none (some limit) = λ positive finite. omega arith
sysmem_of-WithinLimit (some pages) (some psize) rlim =
    limited-WithinLimit (pages * psize % uintmax) rlim

-- What detect_memories leaves from an empty list: one node, or none on an error.
abbrev pub OneNode : MemorySystem → List Cpu → Run (List Node) → Type 0
OneNode s cpus (ok nodes) =
    (node : Node) × (psize : ℕ) × (nodes ≡ node ∷ [])
    × (node.size ≢ 0)
    × WithinLimit s.rlimit_as node.size
    × (s.pagesize ≡ some psize)
    × (large_system_pagesize nodes ≡ top_cpus psize cpus)
OneNode s cpus (err nodes) = nodes ≡ []
OneNode s cpus Run.fault = Unit
OneNode s cpus Run.out_of_fuel = Unit

with_psizes-OneNode :
    (s : MemorySystem) (cpus : List Cpu) (psize : ℕ) (r : Run (List ℕ))
    → s.pagesize ≡ some psize
    → OnOk (IsNode psize cpus) r
    → OneNode s cpus (with_psizes s [] r)
unfolding determine_sysmem
with_psizes-OneNode s cpus psize (ok vals) known v =
    let size = sysmem_of s.phys_pages s.pagesize s.rlimit_as in
    let node : Node = record { size = size; psizevals = vals; count = 1 } in
    if_cases (OneNode s cpus) (size == 0) _ _ (λ _. refl)
      (λ e.
        if_cases (λ o. OneNode s cpus (with_nodes o)) s.grow_nodes _ _
          (λ _. (
            node,
            psize,
            refl,
            nonzero_size size e,
            sysmem_of-WithinLimit s.phys_pages s.pagesize s.rlimit_as,
            known,
            v.largest size 1,
          ))
          (λ _. refl))
  where
    nonzero_size : (size : ℕ) → (size == 0) ≡ false → size ≢ 0
    nonzero_size size e = λ zero_size. cc ((==_iff size 0).1 zero_size)
with_psizes-OneNode s cpus psize (err vals) known v = refl
with_psizes-OneNode s cpus psize Run.fault known v = tt
with_psizes-OneNode s cpus psize Run.out_of_fuel known v = tt

-- From an empty list detect_memories leaves one node on success: its size is not 0 and is within a
-- finite limit on the address space, and large_system_pagesize gives the largest of the system's
-- page size and of all TLBs' page sizes. On an error it leaves no node.
pub detect_memories-OneNode :
    (s : MemorySystem) (cpus : List Cpu) → OneNode s cpus (detect_memories s cpus [])
unfolding detect_memories determine_pagesizes
detect_memories-OneNode s cpus = by_pagesize s.pagesize refl
  where
    by_pagesize :
        (psize : Option ℕ)
        → s.pagesize ≡ psize
        → OneNode s cpus (with_psizes s [] (determine_pagesizes s.grow_psizes psize cpus []))
    by_pagesize none known = refl
    by_pagesize (some psize) known =
        with_psizes-OneNode s cpus psize _ known
          (determine_pagesizes-IsNode s.grow_psizes psize cpus)
