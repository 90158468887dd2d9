-- ===== src/Hardware/Memory.antt =====
-- hardware/memory.c: the node of memory that the library describes, and its page sizes.
pub mod Pages
pub mod Nodes
use Prim.Native.Nat.{compare}
use libtorque.Base.{
  ℕ, zero, suc, ◌+◌, ◌*◌, ◌%◌, ◌^◌, Bool, true, false, ◌||◌, not, List, [], ◌∷◌, ◌++◌, Option, none,
  some, Run, ok, err, ◌>>=◌, length, ltb, leb, ◌==◌, if◌then◌else◌, get_elem?,
}
use libtorque.Base.Sorted.{insert}
use libtorque.Hardware.Desc.{Tlb, Cpu, Node}

-- `grow` is the allocator's answer for an array of each length.
unfoldable pub add_pagesize : (ℕ → Bool) → ℕ → List ℕ → Run (List ℕ)
add_pagesize grow psize vals =
    if grow (length vals) then ok (insert compare psize vals) else err vals

unfoldable pub match_pagesize : List ℕ → ℕ → Bool
match_pagesize [] ps = false
match_pagesize (v ∷ vs) ps = leb ps v || match_pagesize vs ps

-- The body of the inner loop.
unfoldable pub see_pagesize : (ℕ → Bool) → ℕ → List ℕ → Run (List ℕ)
unfolding match_pagesize add_pagesize
see_pagesize grow ps vals = if match_pagesize vals ps then ok vals else add_pagesize grow ps vals

unfoldable pub see_tlbs : (ℕ → Bool) → List Tlb → List ℕ → Run (List ℕ)
unfolding see_pagesize
see_tlbs grow [] vals = ok vals
see_tlbs grow (tlb ∷ tlbs) vals = see_pagesize grow tlb.pagesize vals >>= see_tlbs grow tlbs

unfoldable pub see_cpus : (ℕ → Bool) → List Cpu → List ℕ → Run (List ℕ)
unfolding see_tlbs
see_cpus grow [] vals = ok vals
see_cpus grow (cpu ∷ cpus) vals = see_tlbs grow cpu.tlbdescs vals >>= see_cpus grow cpus

-- `psize` is what sysconf gives, where it is positive.
unfoldable pub determine_pagesizes : (ℕ → Bool) → Option ℕ → List Cpu → List ℕ → Run (List ℕ)
unfolding add_pagesize see_cpus
determine_pagesizes grow none cpus vals = err vals
determine_pagesizes grow (some psize) cpus vals =
    add_pagesize grow psize vals >>= see_cpus grow cpus

-- The inner loop of large_system_pagesize, over one node.
unfoldable pub larger : ℕ → List ℕ → ℕ
larger ret [] = ret
larger ret (v ∷ vs) = if ltb ret v then larger v vs else larger ret vs

unfoldable pub larger_nodes : ℕ → List Node → ℕ
unfolding larger
larger_nodes ret [] = ret
larger_nodes ret (n ∷ ns) = larger_nodes (larger ret n.psizevals) ns

unfoldable pub large_system_pagesize : List Node → ℕ
unfolding larger_nodes
large_system_pagesize nodes = larger_nodes 0 nodes
