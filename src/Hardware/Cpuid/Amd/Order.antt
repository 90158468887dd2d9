-- ===== src/Hardware/Cpuid/Amd/Order.antt =====
-- hardware/x86cpuid.c: the AMD decoders keep the arrays in order.
use libtorque.Base.{ℕ, ltb, ◌==◌, Leaves, Leaves-bind, call-Leaves, if-Leaves}
use libtorque.Hardware.Desc.{Cpu}
use libtorque.Hardware.Cpuid.Regs.{Machine}
use libtorque.Hardware.Cpuid.Flags.{FeatureFlags, identify_extended_cpuid}
use libtorque.Hardware.Cpuid.Intel.Order.{IsOrdered, add_hwmem-IsOrdered, add_tlb-IsOrdered}
use libtorque.Hardware.Cpuid.Amd.{
  CacheFields, L1Tlbs, see_dtlb, see_itlb, see_l23cache, id_amd_gbtlbs, id_amd_23caches, add_amd_l1,
  id_amd_caches, decode_amd_l1cache, decode_amd_l1tlb, decode_amd_l23cache, decode_amd_l23dtlb,
  decode_amd_l23itlb, amd_dtlb_presentp, amd_itlb_presentp, amd_cache_presentp,
}

module _ (m : Machine) where
  see_dtlb-Ordered :
      (reg page level : ℕ) (cpu : Cpu)
      → IsOrdered cpu
      → Leaves IsOrdered (see_dtlb m reg page level cpu)
  unfolding see_dtlb
  see_dtlb-Ordered reg page level cpu v =
      if-Leaves IsOrdered (amd_dtlb_presentp reg) _ _
        (call-Leaves IsOrdered (decode_amd_l23dtlb reg page) cpu _ v
          λ f. add_tlb-IsOrdered m _ cpu v)
        v

  see_itlb-Ordered :
      (reg page level : ℕ) (cpu : Cpu)
      → IsOrdered cpu
      → Leaves IsOrdered (see_itlb m reg page level cpu)
  unfolding see_itlb
  see_itlb-Ordered reg page level cpu v =
      if-Leaves IsOrdered (amd_itlb_presentp reg) _ _
        (call-Leaves IsOrdered (decode_amd_l23itlb reg page) cpu _ v
          λ f. add_tlb-IsOrdered m _ cpu v)
        v

  see_l23cache-Ordered :
      (reg shift mul ways level : ℕ) (cpu : Cpu)
      → IsOrdered cpu
      → Leaves IsOrdered (see_l23cache m reg shift mul ways level cpu)
  unfolding see_l23cache
  see_l23cache-Ordered reg shift mul ways level cpu v =
      if-Leaves IsOrdered (amd_cache_presentp reg) _ _
        (call-Leaves IsOrdered (decode_amd_l23cache reg shift mul) cpu _ v
          λ f. add_hwmem-IsOrdered m _ cpu v)
        v

  id_amd_gbtlbs-Ordered :
      (maxex : ℕ) (ff : FeatureFlags) (cpu : Cpu)
      → IsOrdered cpu
      → Leaves IsOrdered (id_amd_gbtlbs m maxex ff cpu)
  unfolding id_amd_gbtlbs
  id_amd_gbtlbs-Ordered maxex ff cpu v = if-Leaves IsOrdered (ff.gbpt == 0) _ _ v (
      if-Leaves IsOrdered (ltb maxex 0x80000019) _ _ v (
        Leaves-bind IsOrdered _ _
          (Leaves-bind IsOrdered _ _
            (Leaves-bind IsOrdered _ _ (see_dtlb-Ordered _ _ _ cpu v) (see_itlb-Ordered _ _ _))
            (see_dtlb-Ordered _ _ _))
          (see_itlb-Ordered _ _ _)))

  id_amd_23caches-Ordered :
      (maxex : ℕ) (ff : FeatureFlags) (cpu : Cpu)
      → IsOrdered cpu
      → Leaves IsOrdered (id_amd_23caches m maxex ff cpu)
  unfolding id_amd_23caches
  id_amd_23caches-Ordered maxex ff cpu v = if-Leaves IsOrdered (ltb maxex 0x80000006) _ _ v (
      Leaves-bind IsOrdered _ _
        (Leaves-bind IsOrdered _ _
          (Leaves-bind IsOrdered _ _
            (Leaves-bind IsOrdered _ _
              (Leaves-bind IsOrdered _ _
                (Leaves-bind IsOrdered _ _ (see_l23cache-Ordered _ _ _ _ _ cpu v)
                  (see_l23cache-Ordered _ _ _ _ _))
                (see_dtlb-Ordered _ _ _))
              (see_itlb-Ordered _ _ _))
            (see_dtlb-Ordered _ _ _))
          (see_itlb-Ordered _ _ _))
        (id_amd_gbtlbs-Ordered maxex ff))

  add_amd_l1-Ordered :
      (ff : FeatureFlags) (l1i l1d : CacheFields) (large small : L1Tlbs) (cpu : Cpu)
      → IsOrdered cpu
      → Leaves IsOrdered (add_amd_l1 m ff l1i l1d large small cpu)
  unfolding add_amd_l1
  add_amd_l1-Ordered ff l1i l1d large small cpu v =
      Leaves-bind IsOrdered _ _
        (Leaves-bind IsOrdered _ _
          (Leaves-bind IsOrdered _ _
            (Leaves-bind IsOrdered _ _
              (Leaves-bind IsOrdered _ _ (add_hwmem-IsOrdered m _ cpu v) (add_hwmem-IsOrdered m _))
              (add_tlb-IsOrdered m _))
            (add_tlb-IsOrdered m _))
          (add_tlb-IsOrdered m _))
        (add_tlb-IsOrdered m _)

  -- Wherever id_amd_caches returns, with or without success, it has kept memories and TLBs that
  -- were in order so.
  pub id_amd_caches-IsOrdered :
      (ff : FeatureFlags) (cpu : Cpu) → IsOrdered cpu → Leaves IsOrdered (id_amd_caches m ff cpu)
  unfolding id_amd_caches
  id_amd_caches-IsOrdered ff cpu v =
      let r = m.cpuid 0x80000005 0 in
      if-Leaves IsOrdered (ltb (identify_extended_cpuid m) 0x80000005) _ _ v (
        call-Leaves IsOrdered (decode_amd_l1cache r.ecx) cpu _ v λ l1i.
          call-Leaves IsOrdered (decode_amd_l1cache r.edx) cpu _ v λ l1d.
            call-Leaves IsOrdered (decode_amd_l1tlb r.eax) cpu _ v λ large.
              call-Leaves IsOrdered (decode_amd_l1tlb r.ebx) cpu _ v λ small.
                Leaves-bind IsOrdered _ _ (add_amd_l1-Ordered ff l1i l1d large small cpu v)
                  (id_amd_23caches-Ordered _ ff))
