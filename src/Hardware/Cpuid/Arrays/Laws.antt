-- ===== src/Hardware/Cpuid/Arrays/Laws.antt =====
-- hardware/x86cpuid.c: the comparisons are antisymmetric, and the arrays stay in their order.
use Prim.Native.Nat.{lt, eq}
use mathlib.Core.List.{Perm}
use libtorque.Base.{◌+◌, ◌≡◌, ◌≢◌, true, false, List, [], ◌∷◌, ok, arith, length, All, Leaves}
use libtorque.Base.Sorted.{
  swap, insert, Ascending, StrictlyAscending, insert-perm, insert-Ascending,
  insert-StrictlyAscending,
}
use libtorque.Hardware.Desc.{Mem, Tlb, Cpu}
use libtorque.Hardware.Cpuid.Regs.{Machine}
use libtorque.Hardware.Cpuid.Arrays.{
  compare_memdetails, compare_tlbdetails, add_hwmem, add_tlb, match_memtype,
}

pub memdetails-swap : (a b : Mem) → compare_memdetails b a ≡ swap (compare_memdetails a b)
unfolding compare_memdetails
memdetails-swap a b = ground arith

pub tlbdetails-swap : (a b : Tlb) → compare_tlbdetails b a ≡ swap (compare_tlbdetails a b)
unfolding compare_tlbdetails
tlbdetails-swap a b = ground arith

pub memdetails_trans :
    (a b c : Mem)
    → compare_memdetails a b ≡ lt
    → compare_memdetails b c ≡ lt
    → compare_memdetails a c ≡ lt
unfolding compare_memdetails
memdetails_trans a b c p q = ground arith

abbrev pub OrderedMemories : Cpu → Type 0
OrderedMemories cpu = Ascending compare_memdetails cpu.memdescs

abbrev pub DistinctMemories : Cpu → Type 0
DistinctMemories cpu = StrictlyAscending compare_memdetails cpu.memdescs

abbrev pub OrderedTlbs : Cpu → Type 0
OrderedTlbs cpu = Ascending compare_tlbdetails cpu.tlbdescs

-- Where `realloc` grants one more element, add_hwmem adds the description to memories that
-- are in order and keeps them so. It changes nothing else.
pub add_hwmem_inserts :
    (m : Machine) (amem : Mem) (cpu : Cpu)
    → m.grow_memdescs (length cpu.memdescs + 1) ≡ true
    → OrderedMemories cpu
    → (mems : List Mem) × (add_hwmem m amem cpu ≡ ok (record cpu { memdescs = mems }))
      × Ascending compare_memdetails mems
      × Perm mems (amem ∷ cpu.memdescs)
unfolding add_hwmem
add_hwmem_inserts m amem cpu grant s = (
  insert compare_memdetails amem cpu.memdescs,
  rw grant,
  insert-Ascending compare_memdetails memdetails-swap amem cpu.memdescs s,
  insert-perm compare_memdetails amem cpu.memdescs,
)

-- Where `realloc` grants one more element, add_tlb adds the TLB to TLBs that are in order and
-- keeps them so. It changes nothing else.
pub add_tlb_inserts :
    (m : Machine) (tlb : Tlb) (cpu : Cpu)
    → m.grow_tlbdescs (length cpu.tlbdescs + 1) ≡ true
    → OrderedTlbs cpu
    → (tlbs : List Tlb) × (add_tlb m tlb cpu ≡ ok (record cpu { tlbdescs = tlbs }))
      × Ascending compare_tlbdetails tlbs
      × Perm tlbs (tlb ∷ cpu.tlbdescs)
unfolding add_tlb
add_tlb_inserts m tlb cpu grant s = (
  insert compare_tlbdetails tlb cpu.tlbdescs,
  rw grant,
  insert-Ascending compare_tlbdetails tlbdetails-swap tlb cpu.tlbdescs s,
  insert-perm compare_tlbdetails tlb cpu.tlbdescs,
)

pub add_hwmem-Ordered :
    (m : Machine) (amem : Mem) (cpu : Cpu)
    → OrderedMemories cpu
    → Leaves OrderedMemories (add_hwmem m amem cpu)
unfolding add_hwmem
add_hwmem-Ordered m amem cpu s =
    ground (arith, insert-Ascending compare_memdetails memdetails-swap amem cpu.memdescs s)

pub add_tlb-Ordered :
    (m : Machine) (tlb : Tlb) (cpu : Cpu) → OrderedTlbs cpu → Leaves OrderedTlbs (add_tlb m tlb cpu)
unfolding add_tlb
add_tlb-Ordered m tlb cpu s =
    ground (arith, insert-Ascending compare_tlbdetails tlbdetails-swap tlb cpu.tlbdescs s)

unmatched :
    (xs : List Mem) (a : Mem)
    → match_memtype xs a ≡ false
    → All (λ x. compare_memdetails x a ≢ eq) xs
unfolding match_memtype
unmatched [] a h = tt
unmatched (x ∷ xs) a h = ((λ e. ground arith), unmatched xs a (ground arith))

-- Where match_memtype does not find the description, add_hwmem keeps memories that are in order
-- without a repetition so, with or without success.
pub add_hwmem-Distinct :
    (m : Machine) (amem : Mem) (cpu : Cpu)
    → match_memtype cpu.memdescs amem ≡ false
    → DistinctMemories cpu
    → Leaves DistinctMemories (add_hwmem m amem cpu)
unfolding add_hwmem
add_hwmem-Distinct m amem cpu h s =
    let done =
      insert-StrictlyAscending compare_memdetails memdetails-swap amem cpu.memdescs
        (unmatched cpu.memdescs amem h) s in
    ground (arith, done)
