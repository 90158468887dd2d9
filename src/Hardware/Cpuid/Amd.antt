-- ===== src/Hardware/Cpuid/Amd.antt =====
-- hardware/x86cpuid.c: caches and TLBs of AMD and VIA processors.
pub mod Divide
pub mod Order
use libtorque.Base.{
  ℕ, ◌*◌, ◌/◌, ◌%◌, ◌^◌, Bool, true, false, ◌&&◌, not, Run, ok, err, fault, out_of_fuel, ◌>>=◌,
  call, fail_if, ◌-◌, ltb, ◌==◌, if◌then◌else◌, nonzero,
}
use libtorque.Hardware.Desc.{
  Mem, Tlb, Cpu, MemType, memtype_unknown, memtype_code, memtype_data, memtype_unified,
}
use libtorque.Hardware.Cpuid.Regs.{Regs, Machine, bits, u32}
use libtorque.Hardware.Cpuid.Arrays.{add_hwmem, add_tlb}
use libtorque.Hardware.Cpuid.Flags.{FeatureFlags, identify_extended_cpuid}

unfoldable pub amd_dtlb_presentp : ℕ → Bool
amd_dtlb_presentp reg = nonzero (bits reg 28 4) && nonzero (bits reg 16 12)

unfoldable pub amd_itlb_presentp : ℕ → Bool
amd_itlb_presentp reg = nonzero (bits reg 12 4) && nonzero (bits reg 0 12)

unfoldable pub amd_cache_presentp : ℕ → Bool
amd_cache_presentp reg = nonzero (bits reg 12 4)

unfoldable pub amd_l23assoc : ℕ → ℕ → ℕ
amd_l23assoc idx lines =
    if idx == 0xf
    then lines
    else if idx == 0xe
    then 128
    else if idx == 0xd
    then 96
    else if idx == 0xc
    then 64
    else if idx == 0xb
    then 48
    else if idx == 0xa
    then 32
    else if idx == 0x8
    then 16
    else if idx == 0x6
    then 8
    else if idx == 0x4
    then 4
    else if idx == 0x2
    then 2
    else if idx == 0x1
    then 1
    else 0

unfoldable pub scale_amd_l23tlb : ℕ → ℕ → ℕ
scale_amd_l23tlb dents psize =
    if psize == 4 * 1024 * 1024
    then dents / 2
    else if psize == 2 * 1024 * 1024
    then dents
    else if psize == 1 * 1024 * 1024 * 1024
    then dents
    else if psize == 4 * 1024
    then dents
    else 0

pub record TlbFields : Type 0 where
  pub assoc : ℕ
  pub ents : ℕ

unfoldable pub decode_amd_l23dtlb : ℕ → ℕ → Run TlbFields
unfolding scale_amd_l23tlb amd_l23assoc
decode_amd_l23dtlb reg psize =
    let ents = scale_amd_l23tlb (bits reg 16 12) psize in
    let assoc = amd_l23assoc (bits reg 28 4) ents in
    fail_if (not (nonzero ents && nonzero assoc)) (record { assoc = assoc; ents = ents })

unfoldable pub decode_amd_l23itlb : ℕ → ℕ → Run TlbFields
unfolding scale_amd_l23tlb amd_l23assoc
decode_amd_l23itlb reg psize =
    let ents = scale_amd_l23tlb (bits reg 0 12) psize in
    let assoc = amd_l23assoc (bits reg 12 4) ents in
    fail_if (not (nonzero ents && nonzero assoc)) (record { assoc = assoc; ents = ents })

pub record CacheFields : Type 0 where
  pub size : ℕ
  pub assoc : ℕ
  pub lsize : ℕ

-- `*size / *lsize` stands before the test of `*lsize`, and is above UINT_MAX for no size of 32 bits.
unfoldable pub decode_amd_l23cache : ℕ → ℕ → ℕ → Run CacheFields
unfolding amd_l23assoc
decode_amd_l23cache reg shift mul =
    let size = reg / 2 ^ shift * 1024 % u32 * mul % u32 in
    let lsize = bits reg 0 8 in
    let lines = size / lsize in
    let assoc = amd_l23assoc (bits reg 12 4) lines in
    let fields : CacheFields = record { size = size; assoc = assoc; lsize = lsize } in
    if lsize == 0
    then fault
    else if ltb (u32 - 1) lines
    then err fields
    else fail_if (not (nonzero size && (nonzero assoc && nonzero lsize))) fields

unfoldable pub amd_l1assoc : ℕ → ℕ → ℕ
amd_l1assoc idx lines = if idx == 0xff then lines else idx

-- The data and the instruction TLB of one register.
pub record L1Tlbs : Type 0 where
  pub dtlb : TlbFields
  pub itlb : TlbFields

unfoldable pub decode_amd_l1tlb : ℕ → Run L1Tlbs
unfolding amd_l1assoc
decode_amd_l1tlb reg =
    let dents = bits reg 16 8 in
    let ients = bits reg 0 8 in
    let dassoc = amd_l1assoc (bits reg 24 8) dents in
    let iassoc = amd_l1assoc (bits reg 8 8) ients in
    fail_if (not (nonzero dassoc && (nonzero iassoc && (nonzero dents && nonzero ients)))) (record {
      dtlb = record { assoc = dassoc; ents = dents };
      itlb = record { assoc = iassoc; ents = ients };
    })

unfoldable pub decode_amd_l1cache : ℕ → Run CacheFields
unfolding amd_l1assoc
decode_amd_l1cache reg =
    let size = bits reg 24 8 * 1024 in
    let lsize = bits reg 0 8 in
    let assoc = amd_l1assoc (bits reg 16 8) (size / lsize % u32) in
    let fields : CacheFields = record { size = size; assoc = assoc; lsize = lsize } in
    if lsize == 0
    then fault
    else fail_if (not (nonzero size && (nonzero assoc && nonzero lsize))) fields

abbrev pub tlb_of : TlbFields → ℕ → ℕ → MemType → ℕ → Tlb
tlb_of f pagesize sharedways type level = record {
  entries = f.ents;
  pagesize = pagesize;
  associativity = f.assoc;
  sharedways = sharedways;
  tlbtype = type;
  level = level;
}

abbrev pub mem_of : CacheFields → ℕ → MemType → ℕ → Mem
mem_of f sharedways type level = record {
  totalsize = f.size;
  linesize = f.lsize;
  associativity = f.assoc;
  sharedways = sharedways;
  memtype = type;
  level = level;
}

-- "If present, decode, then add", for a data TLB, an instruction TLB and a cache.
unfoldable pub see_dtlb : Machine → ℕ → ℕ → ℕ → Cpu → Run Cpu
see_dtlb m reg pagesize level cpu =
    if amd_dtlb_presentp reg
    then call (decode_amd_l23dtlb reg pagesize) cpu
        (λ f. add_tlb m (tlb_of f pagesize cpu.threadspercore memtype_data level) cpu)
    else ok cpu

unfoldable pub see_itlb : Machine → ℕ → ℕ → ℕ → Cpu → Run Cpu
see_itlb m reg pagesize level cpu =
    if amd_itlb_presentp reg
    then call (decode_amd_l23itlb reg pagesize) cpu
        (λ f. add_tlb m (tlb_of f pagesize cpu.threadspercore memtype_code level) cpu)
    else ok cpu

unfoldable pub see_l23cache : Machine → ℕ → ℕ → ℕ → ℕ → ℕ → Cpu → Run Cpu
see_l23cache m reg shift mul sharedways level cpu =
    if amd_cache_presentp reg
    then call (decode_amd_l23cache reg shift mul) cpu
        (λ f. add_hwmem m (mem_of f sharedways memtype_unified level) cpu)
    else ok cpu

unfoldable pub id_amd_gbtlbs : Machine → ℕ → FeatureFlags → Cpu → Run Cpu
id_amd_gbtlbs m maxexlevel ff cpu =
    let r = m.cpuid 0x80000019 0 in
    let gb = 1024 * 1024 * 1024 in
    if ff.gbpt == 0
    then ok cpu
    else if ltb maxexlevel 0x80000019
    then ok cpu
    else see_dtlb m r.eax gb 1 cpu
      >>= see_itlb m r.eax gb 1
      >>= see_dtlb m r.ebx gb 2
      >>= see_itlb m r.ebx gb 2

unfoldable pub determine_amd_pagesize : FeatureFlags → ℕ
determine_amd_pagesize ff = if ff.lme == 1 then 1024 * 1024 * 4 else 1024 * 1024 * 2

unfoldable pub id_amd_23caches : Machine → ℕ → FeatureFlags → Cpu → Run Cpu
id_amd_23caches m maxexlevel ff cpu =
    let r = m.cpuid 0x80000006 0 in
    let large = determine_amd_pagesize ff in
    if ltb maxexlevel 0x80000006
    then ok cpu
    else see_l23cache m r.ecx 16 1 cpu.threadspercore 2 cpu
      >>= see_l23cache m r.edx 18 512 cpu.coresperpackage 3
      >>= see_dtlb m r.eax large 2
      >>= see_itlb m r.eax large 2
      >>= see_dtlb m r.ebx 4096 2
      >>= see_itlb m r.ebx 4096 2
      >>= id_amd_gbtlbs m maxexlevel ff

-- The six additions of id_amd_caches, once all four registers are decoded.
unfoldable pub add_amd_l1 :
    Machine → FeatureFlags → CacheFields → CacheFields → L1Tlbs → L1Tlbs → Cpu → Run Cpu
add_amd_l1 m ff l1i l1d large small cpu =
    let ways = cpu.threadspercore in
    let page = determine_amd_pagesize ff in
    add_hwmem m (mem_of l1i ways memtype_code 1) cpu
    >>= add_hwmem m (mem_of l1d ways memtype_data 1)
    >>= add_tlb m (tlb_of small.dtlb 4096 ways memtype_data 1)
    >>= add_tlb m (tlb_of large.dtlb page ways memtype_data 1)
    >>= add_tlb m (tlb_of small.itlb 4096 ways memtype_code 1)
    >>= add_tlb m (tlb_of large.itlb page ways memtype_code 1)

unfoldable pub id_amd_caches : Machine → FeatureFlags → Cpu → Run Cpu
id_amd_caches m ff cpu =
    let maxex = identify_extended_cpuid m in
    let r = m.cpuid 0x80000005 0 in
    if ltb maxex 0x80000005
    then err cpu
    else call (decode_amd_l1cache r.ecx) cpu λ l1i. call (decode_amd_l1cache r.edx) cpu λ l1d.
      call (decode_amd_l1tlb r.eax) cpu λ large.
        call (decode_amd_l1tlb r.ebx) cpu
          λ small. add_amd_l1 m ff l1i l1d large small cpu >>= id_amd_23caches m maxex ff

unfoldable pub id_via_caches : Machine → Cpu → Run Cpu
id_via_caches m cpu =
    add_hwmem m
      (record {
        totalsize = 0;
        linesize = 32;
        associativity = 0;
        sharedways = 0;
        memtype = memtype_unknown;
        level = 1;
      })
      cpu
