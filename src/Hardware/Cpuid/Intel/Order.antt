-- ===== src/Hardware/Cpuid/Intel/Order.antt =====
-- hardware/x86cpuid.c: what the Intel decoders keep of the description that they fill.
use libtorque.Base.{
  ℕ, zero, suc, ◌+◌, ◌≡◌, false, List, Run, ok, err, fault, out_of_fuel, ◌>>=◌, arith, Leaves,
  Leaves-bind, ◌==◌, ltb, [], ◌∷◌, inl, inr, Bool-cases, Option-cases,
}
use libtorque.Hardware.Desc.{Cpu, Mem, Tlb, MemType}
use libtorque.Hardware.Cpuid.Regs.{Regs, Machine, bits}
use libtorque.Hardware.Cpuid.Tables.{get_intel_cache, get_intel_tlb}
use libtorque.Hardware.Cpuid.Arrays.{add_hwmem, add_tlb, match_memtype}
use libtorque.Hardware.Cpuid.Arrays.Laws.{
  OrderedMemories, DistinctMemories, OrderedTlbs, add_hwmem-Ordered, add_tlb-Ordered,
  add_hwmem-Distinct,
}
use libtorque.Hardware.Cpuid.Intel.{
  decode_descriptor, decode_intel_func2, repeat_func2, id_intel_caches_old, Scan, resume, scanned,
  share_cores, add_leaf4, see_cache, scan_caches, scan_levels, id_intel_caches, cache_type,
  CacheType, nullcache, unknown_cache, cache_of,
}
use libtorque.Hardware.Cpuid.Intel.Bytes.{decode_all, descriptor_bytes, decode_intel_func2_reads}

-- A property that no addition breaks, whichever of the two guards the addition has passed.
module _ (P : Cpu → Type 0)
    (mem_step : (m : Machine) (mem : Mem) (cpu : Cpu)
      → match_memtype cpu.memdescs mem ≡ false
      → P cpu
      → Leaves P (add_hwmem m mem cpu))
    (tlb_step : (m : Machine) (tlb : Tlb) (cpu : Cpu) → P cpu → Leaves P (add_tlb m tlb cpu)) where
  decode_descriptor-keeps :
      (m : Machine) (d : ℕ) (cpu : Cpu) → P cpu → Leaves P (decode_descriptor m d cpu)
  unfolding decode_descriptor
  decode_descriptor-keeps m d cpu v = elim (Option-cases (get_intel_cache d cpu.threadspercore)) [
    | inl e ↦ elim (Option-cases (get_intel_tlb d cpu.threadspercore)) [
      | inl e' ↦ rw (e, e', decode_descriptor) (ground arith)
      | inr (tlb, e') ↦ rw (e, e', decode_descriptor) (tlb_step m tlb cpu v)
    ]
    | inr (mem, e) ↦ elim (Bool-cases (match_memtype cpu.memdescs mem)) [
      | inl known ↦ rw (e, known, decode_descriptor) v
      | inr new ↦ rw (e, new, decode_descriptor) (mem_step m mem cpu new v)
    ]
  ]

  decode_all-keeps :
      (m : Machine) (ds : List ℕ) (cpu : Cpu) → P cpu → Leaves P (decode_all m ds cpu)
  unfolding decode_all
  decode_all-keeps m [] cpu v = v
  decode_all-keeps m (d ∷ ds) cpu v =
      Leaves-bind P (decode_descriptor m d cpu) _ (decode_descriptor-keeps m d cpu v)
        (decode_all-keeps m ds)

  decode_intel_func2-keeps :
      (m : Machine) (r : Regs) (cpu : Cpu) → P cpu → Leaves P (decode_intel_func2 m r cpu)
  decode_intel_func2-keeps m r cpu v =
      rw (decode_intel_func2_reads m r cpu) (decode_all-keeps m (descriptor_bytes r) cpu v)

  repeat_func2-keeps :
      (m : Machine) (callreps : ℕ) (cpu : Cpu) → P cpu → Leaves P (repeat_func2 m callreps cpu)
  unfolding repeat_func2
  repeat_func2-keeps m zero cpu v = tt
  repeat_func2-keeps m (suc callreps) cpu v =
      Leaves-bind P (decode_intel_func2 m (m.cpuid 2 0) cpu) _
        (decode_intel_func2-keeps m (m.cpuid 2 0) cpu v)
        λ c w. ground (arith, repeat_func2-keeps m callreps c w)

  id_intel_caches_old-keeps :
      (m : Machine) (maxlevel : ℕ) (cpu : Cpu)
      → P cpu
      → Leaves P (id_intel_caches_old m maxlevel cpu)
  unfolding id_intel_caches_old
  id_intel_caches_old-keeps m maxlevel cpu v =
      ground (arith, repeat_func2-keeps m (bits (m.cpuid 2 0).eax 0 8) cpu v)

-- Memories without a repetition, TLBs in order.
pub record IsTidy (cpu : Cpu) : Type 0 where
  pub distinct : DistinctMemories cpu
  pub tlbs : OrderedTlbs cpu

add_hwmem-IsTidy :
    (m : Machine) (mem : Mem) (cpu : Cpu)
    → match_memtype cpu.memdescs mem ≡ false
    → IsTidy cpu
    → Leaves IsTidy (add_hwmem m mem cpu)
unfolding add_hwmem
add_hwmem-IsTidy m mem cpu h v = ground (arith, add_hwmem-Distinct m mem cpu h v.distinct)

add_tlb-IsTidy :
    (m : Machine) (tlb : Tlb) (cpu : Cpu) → IsTidy cpu → Leaves IsTidy (add_tlb m tlb cpu)
unfolding add_tlb
add_tlb-IsTidy m tlb cpu v = ground (arith, add_tlb-Ordered m tlb cpu v.tlbs)

-- Wherever id_intel_caches_old returns, with or without success, it has kept memories that were in
-- order without a repetition so, and TLBs that were in order, whatever leaf 2 holds.
pub id_intel_caches_old-IsTidy :
    (m : Machine) (maxlevel : ℕ) (cpu : Cpu)
    → IsTidy cpu
    → Leaves IsTidy (id_intel_caches_old m maxlevel cpu)
id_intel_caches_old-IsTidy = id_intel_caches_old-keeps IsTidy add_hwmem-IsTidy add_tlb-IsTidy

-- Leaf 4 may repeat a memory, so there the order is not strict.
pub record IsOrdered (cpu : Cpu) : Type 0 where
  pub memories : OrderedMemories cpu
  pub tlbs : OrderedTlbs cpu

pub add_hwmem-IsOrdered :
    (m : Machine) (mem : Mem) (cpu : Cpu) → IsOrdered cpu → Leaves IsOrdered (add_hwmem m mem cpu)
unfolding add_hwmem
add_hwmem-IsOrdered m mem cpu v = ground (arith, add_hwmem-Ordered m mem cpu v.memories)

pub add_tlb-IsOrdered :
    (m : Machine) (tlb : Tlb) (cpu : Cpu) → IsOrdered cpu → Leaves IsOrdered (add_tlb m tlb cpu)
unfolding add_tlb
add_tlb-IsOrdered m tlb cpu v = ground (arith, add_tlb-Ordered m tlb cpu v.tlbs)

abbrev ScanOrdered : Scan → Type 0
ScanOrdered s = IsOrdered s.cpu

resume-Ordered :
    (maxdc : ℕ) (r : Run Cpu) → Leaves IsOrdered r → Leaves ScanOrdered (resume maxdc r)
resume-Ordered maxdc (ok c) v = v
resume-Ordered maxdc (err c) v = v
resume-Ordered maxdc fault v = tt
resume-Ordered maxdc out_of_fuel v = tt

scanned-Ordered : (r : Run Scan) → Leaves ScanOrdered r → Leaves IsOrdered (scanned r)
scanned-Ordered (ok c) v = v
scanned-Ordered (err c) v = v
scanned-Ordered fault v = tt
scanned-Ordered out_of_fuel v = tt

share_cores-Ordered :
    (maxlevel cpp : ℕ) (cpu : Cpu) → IsOrdered cpu → Leaves IsOrdered (share_cores maxlevel cpp cpu)
unfolding share_cores
share_cores-Ordered maxlevel cpp cpu v = ground arith

see_cache-Ordered :
    (m : Machine) (maxlevel level : ℕ) (type : MemType) (r : Regs) (s : Scan)
    → ScanOrdered s
    → Leaves ScanOrdered (see_cache m maxlevel level type r s)
unfolding see_cache add_leaf4
see_cache-Ordered m maxlevel level type r s v = elim (Bool-cases (bits r.eax 5 3 == level)) [
  | inl e ↦
      rw (e, see_cache)
        (resume-Ordered _ (add_leaf4 m maxlevel type r s.cpu) (
          Leaves-bind IsOrdered _ _ (share_cores-Ordered maxlevel (bits r.eax 26 6 + 1) s.cpu v)
            λ c w. add_hwmem-IsOrdered m _ c w))
  | inr e ↦ rw (e, see_cache) v
]

scan_caches-Ordered :
    (fuel : ℕ) (m : Machine) (maxlevel level n : ℕ) (s : Scan)
    → ScanOrdered s
    → Leaves ScanOrdered (scan_caches fuel m maxlevel level n s)
unfolding scan_caches
scan_caches-Ordered zero m maxlevel level n s v = tt
scan_caches-Ordered (suc fuel) m maxlevel level n s v =
    round (cache_type (bits (m.cpuid 4 n).eax 0 5))
      (scan_caches-Ordered fuel m maxlevel level (n + 1))
  where
    round :
        (c : CacheType)
        → ((s' : Scan)
            → ScanOrdered s'
            → Leaves ScanOrdered (scan_caches fuel m maxlevel level (n + 1) s'))
        → Leaves ScanOrdered (elim c [
          | nullcache ↦ ok s
          | unknown_cache ↦ err s
          | cache_of type ↦
              see_cache m maxlevel level type (m.cpuid 4 n) s
              >>= scan_caches fuel m maxlevel level (n + 1)
        ])
    round nullcache ih = v
    round unknown_cache ih = v
    round (cache_of type) ih =
        Leaves-bind ScanOrdered _ _ (see_cache-Ordered m maxlevel level type (m.cpuid 4 n) s v) ih

scan_levels-Ordered :
    (fuel inner : ℕ) (m : Machine) (maxlevel level : ℕ) (s : Scan)
    → ScanOrdered s
    → Leaves ScanOrdered (scan_levels fuel inner m maxlevel level s)
unfolding scan_levels
scan_levels-Ordered zero inner m maxlevel level s v = tt
scan_levels-Ordered (suc fuel) inner m maxlevel level s v =
    Leaves-bind ScanOrdered _ _ (scan_caches-Ordered inner m maxlevel level 0 s v)
      λ s' w. ground (arith, scan_levels-Ordered fuel inner m maxlevel (level + 1) s' w)

-- Wherever id_intel_caches returns, with or without success, it has kept memories and TLBs that
-- were in order so, whatever the processor answers.
pub id_intel_caches-IsOrdered :
    (inner : ℕ) (m : Machine) (maxlevel : ℕ) (cpu : Cpu)
    → IsOrdered cpu
    → Leaves IsOrdered (id_intel_caches inner m maxlevel cpu)
unfolding id_intel_caches
id_intel_caches-IsOrdered inner m maxlevel cpu v =
    let old =
      id_intel_caches_old-keeps IsOrdered (λ m mem c _. add_hwmem-IsOrdered m mem c)
        add_tlb-IsOrdered m maxlevel in
    elim (Bool-cases (ltb maxlevel 4)) [
      | inl e ↦
          rw (e, id_intel_caches)
            (old (record cpu { coresperpackage = 1 })
              (record { memories = v.memories; tlbs = v.tlbs }))
      | inr e ↦
          rw (e, id_intel_caches)
            (Leaves-bind IsOrdered _ _
              (scanned-Ordered _ (scan_levels-Ordered 8 inner m maxlevel 1 _ v)) old)
    ]
