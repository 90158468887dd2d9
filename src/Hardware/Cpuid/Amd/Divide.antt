-- ===== src/Hardware/Cpuid/Amd/Divide.antt =====
-- hardware/x86cpuid.c: when the AMD decoders divide by a line size of zero.
use libtorque.Base.{
  ℕ, ◌≤◌, ◌≡◌, ◌≢◌, true, fault, arith, ltb, ◌==◌, Returns, Returns-then, Bool-cases, inl, inr,
  fail_if-Returns, call-Returns, if-Returns, ==_iff,
}
use libtorque.Hardware.Desc.{Cpu, Mem, Tlb}
use libtorque.Hardware.Cpuid.Regs.{Machine, bits}
use libtorque.Hardware.Cpuid.Arrays.{add_hwmem, add_tlb}
use libtorque.Hardware.Cpuid.Flags.{FeatureFlags, identify_extended_cpuid}
use libtorque.Hardware.Cpuid.Amd.{
  decode_amd_l1cache, decode_amd_l1tlb, decode_amd_l23cache, decode_amd_l23dtlb, decode_amd_l23itlb,
  see_dtlb, see_itlb, see_l23cache, id_amd_gbtlbs, id_amd_23caches, add_amd_l1, id_amd_caches,
  amd_cache_presentp, amd_dtlb_presentp, amd_itlb_presentp, CacheFields, L1Tlbs,
}

-- A processor with leaf 0x80000005 whose ECX gives a line size of zero makes id_amd_caches divide
-- by zero.
pub id_amd_caches_faults :
    (m : Machine) (ff : FeatureFlags) (cpu : Cpu)
    → 0x80000005 ≤ identify_extended_cpuid m
    → bits (m.cpuid 0x80000005 0).ecx 0 8 ≡ 0
    → id_amd_caches m ff cpu ≡ fault
unfolding id_amd_caches decode_amd_l1cache
id_amd_caches_faults m ff cpu h z = ground arith

module _ (m : Machine) where
  -- What the registers must give for the divisions to be defined: a line size wherever a cache is
  -- said to be present.
  pub record LineSizes : Type 0 where
    pub code_lines : bits (m.cpuid 0x80000005 0).ecx 0 8 ≢ 0
    pub data_lines : bits (m.cpuid 0x80000005 0).edx 0 8 ≢ 0
    pub l2_lines :
        amd_cache_presentp (m.cpuid 0x80000006 0).ecx ≡ true
        → bits (m.cpuid 0x80000006 0).ecx 0 8 ≢ 0
    pub l3_lines :
        amd_cache_presentp (m.cpuid 0x80000006 0).edx ≡ true
        → bits (m.cpuid 0x80000006 0).edx 0 8 ≢ 0

  add_tlb-Returns : (tlb : Tlb) (cpu : Cpu) → Returns (add_tlb m tlb cpu)
  unfolding add_tlb
  add_tlb-Returns tlb cpu = ground arith

  add_hwmem-Returns : (mem : Mem) (cpu : Cpu) → Returns (add_hwmem m mem cpu)
  unfolding add_hwmem
  add_hwmem-Returns mem cpu = ground arith

  see_dtlb-Returns : (reg page level : ℕ) (cpu : Cpu) → Returns (see_dtlb m reg page level cpu)
  unfolding see_dtlb decode_amd_l23dtlb
  see_dtlb-Returns reg page level cpu = elim (Bool-cases (amd_dtlb_presentp reg)) [
    | inl e ↦
        rw (e, see_dtlb) (call-Returns _ cpu _ (fail_if-Returns _ _) (λ f. add_tlb-Returns _ cpu))
    | inr e ↦ rw (e, see_dtlb) tt
  ]

  see_itlb-Returns : (reg page level : ℕ) (cpu : Cpu) → Returns (see_itlb m reg page level cpu)
  unfolding see_itlb decode_amd_l23itlb
  see_itlb-Returns reg page level cpu = elim (Bool-cases (amd_itlb_presentp reg)) [
    | inl e ↦
        rw (e, see_itlb) (call-Returns _ cpu _ (fail_if-Returns _ _) (λ f. add_tlb-Returns _ cpu))
    | inr e ↦ rw (e, see_itlb) tt
  ]

  l23cache-Returns :
      (reg shift mul : ℕ) → bits reg 0 8 ≢ 0 → Returns (decode_amd_l23cache reg shift mul)
  unfolding decode_amd_l23cache
  l23cache-Returns reg shift mul h = elim (Bool-cases (bits reg 0 8 == 0)) [
    | inl e ↦ absurd (h ((==_iff _ _).0 e))
    | inr e ↦ rw (e, decode_amd_l23cache) (ground arith)
  ]

  l1cache-Returns : (reg : ℕ) → bits reg 0 8 ≢ 0 → Returns (decode_amd_l1cache reg)
  unfolding decode_amd_l1cache
  l1cache-Returns reg h = elim (Bool-cases (bits reg 0 8 == 0)) [
    | inl e ↦ absurd (h ((==_iff _ _).0 e))
    | inr e ↦ rw (e, decode_amd_l1cache) (fail_if-Returns _ _)
  ]

  l1tlb-Returns : (reg : ℕ) → Returns (decode_amd_l1tlb reg)
  unfolding decode_amd_l1tlb
  l1tlb-Returns reg = fail_if-Returns _ _

  see_l23cache-Returns :
      (reg shift mul ways level : ℕ) (cpu : Cpu)
      → (amd_cache_presentp reg ≡ true → bits reg 0 8 ≢ 0)
      → Returns (see_l23cache m reg shift mul ways level cpu)
  unfolding see_l23cache
  see_l23cache-Returns reg shift mul ways level cpu h = elim (Bool-cases (amd_cache_presentp reg)) [
    | inl e ↦
        rw (e, see_l23cache)
          (call-Returns _ cpu _ (l23cache-Returns reg shift mul (h e))
            (λ f. add_hwmem-Returns _ cpu))
    | inr e ↦ rw (e, see_l23cache) tt
  ]

  id_amd_gbtlbs-Returns :
      (maxex : ℕ) (ff : FeatureFlags) (cpu : Cpu) → Returns (id_amd_gbtlbs m maxex ff cpu)
  unfolding id_amd_gbtlbs
  id_amd_gbtlbs-Returns maxex ff cpu = if-Returns (ff.gbpt == 0) _ _ tt (
      if-Returns (ltb maxex 0x80000019) _ _ tt (
        Returns-then _ _
          (Returns-then _ _ (Returns-then _ _ (see_dtlb-Returns _ _ _ cpu) (see_itlb-Returns _ _ _))
            (see_dtlb-Returns _ _ _))
          (see_itlb-Returns _ _ _)))

  id_amd_23caches-Returns :
      (maxex : ℕ) (ff : FeatureFlags) (cpu : Cpu)
      → LineSizes
      → Returns (id_amd_23caches m maxex ff cpu)
  unfolding id_amd_23caches
  id_amd_23caches-Returns maxex ff cpu h = if-Returns (ltb maxex 0x80000006) _ _ tt (
      Returns-then _ _
        (Returns-then _ _
          (Returns-then _ _
            (Returns-then _ _
              (Returns-then _ _
                (Returns-then _ _ (see_l23cache-Returns _ _ _ _ _ cpu h.l2_lines)
                  (λ c. see_l23cache-Returns _ _ _ _ _ c h.l3_lines))
                (see_dtlb-Returns _ _ _))
              (see_itlb-Returns _ _ _))
            (see_dtlb-Returns _ _ _))
          (see_itlb-Returns _ _ _))
        (id_amd_gbtlbs-Returns maxex ff))

  add_amd_l1-Returns :
      (ff : FeatureFlags) (l1i l1d : CacheFields) (large small : L1Tlbs) (cpu : Cpu)
      → Returns (add_amd_l1 m ff l1i l1d large small cpu)
  unfolding add_amd_l1
  add_amd_l1-Returns ff l1i l1d large small cpu =
      Returns-then _ _
        (Returns-then _ _
          (Returns-then _ _
            (Returns-then _ _ (Returns-then _ _ (add_hwmem-Returns _ cpu) (add_hwmem-Returns _))
              (add_tlb-Returns _))
            (add_tlb-Returns _))
          (add_tlb-Returns _))
        (add_tlb-Returns _)

  -- Where the registers give a line size for each cache that they announce, id_amd_caches does
  -- not divide by zero: it succeeds or reports an error.
  pub id_amd_caches-Returns :
      (ff : FeatureFlags) (cpu : Cpu) → LineSizes → Returns (id_amd_caches m ff cpu)
  unfolding id_amd_caches
  id_amd_caches-Returns ff cpu h = if-Returns (ltb (identify_extended_cpuid m) 0x80000005) _ _ tt (
      call-Returns _ cpu _ (l1cache-Returns _ h.code_lines) λ l1i.
        call-Returns _ cpu _ (l1cache-Returns _ h.data_lines) λ l1d.
          call-Returns _ cpu _ (l1tlb-Returns _) λ large.
            call-Returns _ cpu _ (l1tlb-Returns _) λ small.
              Returns-then _ _ (add_amd_l1-Returns ff l1i l1d large small cpu)
                (λ c. id_amd_23caches-Returns _ ff c h))
