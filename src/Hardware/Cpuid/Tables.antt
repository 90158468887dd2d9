-- ===== src/Hardware/Cpuid/Tables.antt =====
-- The descriptor tables of hardware/x86cpuid.c and the lookups in them.
mod Entry
mod Caches
mod CachesHigh
mod Tlbs
pub mod Disjoint
pub mod Geometry
pub use Entry.{CacheDescriptor, TlbDescriptor}
use libtorque.Base.{
  ℕ, List, [], ◌∷◌, ◌++◌, Option, none, some, Bool, true, false, ◌==◌, if◌then◌else◌,
}
use libtorque.Hardware.Desc.{Mem, Tlb}
use Caches.{cache_descriptors_06_2c, cache_descriptors_30_45}
use CachesHigh.{cache_descriptors_46_68, cache_descriptors_76_87, cache_descriptors_d0_ec}
use Tlbs.{tlb_descriptors_01_5b, tlb_descriptors_5c_b6, tlb_descriptors_ba_ca}

abbrev pub intel_cache_descriptors : List CacheDescriptor
intel_cache_descriptors =
    cache_descriptors_06_2c
    ++ (cache_descriptors_30_45
        ++ (cache_descriptors_46_68 ++ (cache_descriptors_76_87 ++ cache_descriptors_d0_ec)))

abbrev pub intel_tlb_descriptors : List TlbDescriptor
intel_tlb_descriptors = tlb_descriptors_01_5b ++ (tlb_descriptors_5c_b6 ++ tlb_descriptors_ba_ca)

abbrev pub intel_trace_descriptors : List ℕ
intel_trace_descriptors = 0x70 ∷ 0x71 ∷ 0x72 ∷ 0x73 ∷ []

-- The loop of `get_intel_cache` over a table: the first entry with the descriptor.
pub find_cache : ℕ → List CacheDescriptor → ℕ → Option Mem
find_cache descriptor [] sharedways = none
find_cache descriptor (d ∷ ds) sharedways =
    if d.descriptor == descriptor
    then some (record {
      memtype = d.memtype;
      linesize = d.linesize;
      totalsize = d.totalsize;
      associativity = d.associativity;
      level = d.level;
      sharedways = sharedways;
    })
    else find_cache descriptor ds sharedways

unfoldable pub get_intel_cache : ℕ → ℕ → Option Mem
unfolding find_cache
get_intel_cache descriptor sharedways = find_cache descriptor intel_cache_descriptors sharedways

pub find_tlb : ℕ → List TlbDescriptor → ℕ → Option Tlb
find_tlb descriptor [] sharedways = none
find_tlb descriptor (d ∷ ds) sharedways =
    if d.descriptor == descriptor
    then some (record {
      pagesize = d.pagesize;
      entries = d.entries;
      associativity = d.associativity;
      tlbtype = d.tlbtype;
      level = d.level;
      sharedways = sharedways;
    })
    else find_tlb descriptor ds sharedways

unfoldable pub get_intel_tlb : ℕ → ℕ → Option Tlb
unfolding find_tlb
get_intel_tlb descriptor sharedways = find_tlb descriptor intel_tlb_descriptors sharedways

-- `true` where the source returns 0.
find_trace : ℕ → List ℕ → Bool
find_trace descriptor [] = false
find_trace descriptor (d ∷ ds) = if d == descriptor then true else find_trace descriptor ds

unfoldable pub get_intel_trace : ℕ → Bool
unfolding find_trace
get_intel_trace descriptor = find_trace descriptor intel_trace_descriptors
