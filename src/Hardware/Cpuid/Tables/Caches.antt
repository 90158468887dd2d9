-- ===== src/Hardware/Cpuid/Tables/Caches.antt =====
-- hardware/x86cpuid.c, `intel_cache_descriptors`, up to descriptor 0x45: line size, total size,
-- associativity, level and type, in the order of the source.
use libtorque.Base.{◌*◌, List, [], ◌∷◌}
use libtorque.Hardware.Desc.{memtype_code, memtype_data, memtype_unified}
use libtorque.Hardware.Cpuid.Tables.Entry.{CacheDescriptor, cache}

abbrev pub cache_descriptors_06_2c : List CacheDescriptor
cache_descriptors_06_2c =
    cache 0x06 32 (8 * 1024) 4 1 memtype_code
    ∷ cache 0x08 32 (16 * 1024) 4 1 memtype_code
    ∷ cache 0x09 64 (32 * 1024) 4 1 memtype_code
    ∷ cache 0x0a 32 (8 * 1024) 2 1 memtype_data
    ∷ cache 0x0c 32 (16 * 1024) 4 1 memtype_data
    ∷ cache 0x0d 64 (16 * 1024) 4 1 memtype_data
    ∷ cache 0x21 64 (256 * 1024) 8 2 memtype_unified
    ∷ cache 0x22 64 (512 * 1024) 4 3 memtype_unified
    ∷ cache 0x23 64 (1024 * 1024) 8 3 memtype_unified
    ∷ cache 0x25 64 (2 * 1024 * 1024) 8 3 memtype_unified
    ∷ cache 0x29 64 (4 * 1024 * 1024) 8 3 memtype_unified
    ∷ cache 0x2c 64 (32 * 1024) 8 1 memtype_data
    ∷ []

abbrev pub cache_descriptors_30_45 : List CacheDescriptor
cache_descriptors_30_45 =
    cache 0x30 64 (32 * 1024) 8 1 memtype_code
    ∷ cache 0x39 64 (128 * 1024) 4 2 memtype_unified
    ∷ cache 0x3a 64 (192 * 1024) 6 2 memtype_unified
    ∷ cache 0x3b 64 (128 * 1024) 2 2 memtype_unified
    ∷ cache 0x3c 64 (256 * 1024) 4 2 memtype_unified
    ∷ cache 0x3d 64 (384 * 1024) 6 2 memtype_unified
    ∷ cache 0x3e 64 (512 * 1024) 4 2 memtype_unified
    ∷ cache 0x41 32 (128 * 1024) 4 2 memtype_unified
    ∷ cache 0x42 32 (256 * 1024) 4 2 memtype_unified
    ∷ cache 0x43 32 (512 * 1024) 4 2 memtype_unified
    ∷ cache 0x44 32 (1024 * 1024) 4 2 memtype_unified
    ∷ cache 0x45 32 (2 * 1024 * 1024) 4 2 memtype_unified
    ∷ []
