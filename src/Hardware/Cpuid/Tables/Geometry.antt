-- ===== src/Hardware/Cpuid/Tables/Geometry.antt =====
-- hardware/x86cpuid.c: the sizes in the cache table.
use libtorque.Base.{
  ℕ, ◌*◌, ◌%◌, ◌≤◌, ◌<◌, ◌≡◌, refl, ◌≢◌, Bool, true, ◌&&◌, List, [], ◌∷◌, some, arith, all, ◌==◌,
  ltb, leb, if◌then◌else◌, ◌⊎◌,
}
use libtorque.Hardware.Desc.{Mem}
use libtorque.Hardware.Cpuid.Tables.{
  CacheDescriptor, find_cache, get_intel_cache, intel_cache_descriptors,
}

-- A test on a description that does not look at its sharing.
abbrev describes : CacheDescriptor → ℕ → Mem
describes e s = record {
  memtype = e.memtype;
  linesize = e.linesize;
  totalsize = e.totalsize;
  associativity = e.associativity;
  level = e.level;
  sharedways = s;
}

find_cache-all :
    (p : ℕ → Mem → Bool) (d s : ℕ) (ds : List CacheDescriptor) (mem : Mem)
    → all (λ e. p e.descriptor (describes e s)) ds ≡ true
    → find_cache d ds s ≡ some mem
    → p d mem ≡ true
unfolding find_cache
find_cache-all p d s [] mem h e = cc
find_cache-all p d s (x ∷ ds) mem h e = ground (arith, find_cache-all p d s ds mem)

-- Sets of whole lines, on one of three levels.
abbrev is_regular : Mem → Bool
is_regular mem =
    leb 1 mem.level
    && leb mem.level 3
    && ltb 0 mem.linesize
    && ltb 0 mem.associativity
    && ltb 0 mem.totalsize
    && mem.totalsize % (mem.linesize * mem.associativity) == 0

caches_regular :
    (s : ℕ)
    → all (λ (e : CacheDescriptor). is_regular (describes e s)) intel_cache_descriptors ≡ true
caches_regular s = refl

-- Every description that get_intel_cache returns is on level 1, 2 or 3, has a line size, an
-- associativity and a total size above zero, and holds a whole number of sets.
pub get_intel_cache_regular :
    (d s : ℕ) (mem : Mem)
    → get_intel_cache d s ≡ some mem
    → (1 ≤ mem.level)
      × (mem.level ≤ 3)
      × (0 < mem.linesize)
      × (0 < mem.associativity)
      × (0 < mem.totalsize)
      × (mem.totalsize % (mem.linesize * mem.associativity) ≡ 0)
unfolding get_intel_cache
get_intel_cache_regular d s mem e =
    let h =
      find_cache-all (λ _ mem. is_regular mem) d s intel_cache_descriptors mem (caches_regular s)
        e in
    ground arith

abbrev outer_size : ℕ → Mem → Bool
outer_size d mem =
    if ltb mem.level 2
    then true
    else if d == 0x87
    then mem.totalsize == 1024
    else leb (128 * 1024) mem.totalsize

outer_sizes :
    (s : ℕ)
    → all (λ (e : CacheDescriptor). outer_size e.descriptor (describes e s)) intel_cache_descriptors
      ≡ true
outer_sizes s = refl

-- The table gives descriptor 0x87 a total of one kilobyte, and every other cache of level 2 or 3
-- at least 128.
pub outer_caches_large :
    (d s : ℕ) (mem : Mem)
    → get_intel_cache d s ≡ some mem
    → 2 ≤ mem.level
    → ((d ≡ 0x87) × (mem.totalsize ≡ 1024)) ⊎ ((d ≢ 0x87) × (128 * 1024 ≤ mem.totalsize))
unfolding get_intel_cache
outer_caches_large d s mem e outer =
    let h = find_cache-all outer_size d s intel_cache_descriptors mem (outer_sizes s) e in
    ground arith
