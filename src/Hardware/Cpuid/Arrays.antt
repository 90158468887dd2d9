-- ===== src/Hardware/Cpuid/Arrays.antt =====
-- hardware/x86cpuid.c: the order of cache and TLB descriptions, and the arrays kept in it.
pub mod Laws
use Prim.Native.Nat.{compare, Ordering, lt, eq, gt}
use libtorque.Base.{ℕ, ◌+◌, Bool, true, false, List, [], ◌∷◌, Run, ok, err, length, if◌then◌else◌}
use libtorque.Base.Sorted.{then_compare, insert}
use libtorque.Hardware.Desc.{MemType, memtype_value, Mem, Tlb, Cpu}
use libtorque.Hardware.Cpuid.Regs.{Machine}

-- -1, 0 and 1 are `lt`, `eq` and `gt`. Sharing is not compared.
unfoldable pub compare_memdetails : Mem → Mem → Ordering
compare_memdetails a b = then_compare (compare a.level b.level) (
    then_compare (compare (memtype_value a.memtype) (memtype_value b.memtype)) (
      then_compare (compare a.totalsize b.totalsize)
        (then_compare (compare a.linesize b.linesize) (compare a.associativity b.associativity))))

unfoldable pub compare_tlbdetails : Tlb → Tlb → Ordering
compare_tlbdetails a b = then_compare (compare a.level b.level) (
    then_compare (compare (memtype_value a.tlbtype) (memtype_value b.tlbtype)) (
      then_compare (compare a.pagesize b.pagesize)
        (then_compare (compare a.entries b.entries) (compare a.associativity b.associativity))))

-- `realloc` first; the array is as it was where that fails. The slot returned is not modelled:
-- callers only test it against NULL.
unfoldable pub add_hwmem : Machine → Mem → Cpu → Run Cpu
add_hwmem m amem cpu =
    if m.grow_memdescs (length cpu.memdescs + 1)
    then ok (record cpu { memdescs = insert compare_memdetails amem cpu.memdescs })
    else err cpu

unfoldable pub add_tlb : Machine → Tlb → Cpu → Run Cpu
add_tlb m tlb cpu =
    if m.grow_tlbdescs (length cpu.tlbdescs + 1)
    then ok (record cpu { tlbdescs = insert compare_tlbdetails tlb cpu.tlbdescs })
    else err cpu

abbrev is_eq : Ordering → Bool
is_eq eq = true
is_eq _ = false

-- Whether some entry equals the new one but for its sharing.
unfoldable pub match_memtype : List Mem → Mem → Bool
match_memtype [] amem = false
match_memtype (x ∷ xs) amem =
    if is_eq (compare_memdetails x amem) then true else match_memtype xs amem
