-- ===== src/Hardware/Cpuid/Tables/CachesHigh.antt =====
-- hardware/x86cpuid.c, `intel_cache_descriptors`, from descriptor 0x46 on.
use libtorque.Base.{◌*◌, ◌+◌, List, [], ◌∷◌}
use libtorque.Hardware.Desc.{memtype_data, memtype_unified}
use libtorque.Hardware.Cpuid.Tables.Entry.{CacheDescriptor, cache}

abbrev pub cache_descriptors_46_68 : List CacheDescriptor
cache_descriptors_46_68 =
    cache 0x46 64 (4 * 1024 * 1024) 4 3 memtype_unified
    ∷ cache 0x47 64 (8 * 1024 * 1024) 8 3 memtype_unified
    ∷ cache 0x48 64 (3 * 1024 * 1024) 12 2 memtype_unified
    ∷ cache 0x49 64 (4 * 1024 * 1024) 16 2 memtype_unified
    ∷ cache 0x4a 64 (6 * 1024 * 1024) 12 3 memtype_unified
    ∷ cache 0x4b 64 (8 * 1024 * 1024) 16 3 memtype_unified
    ∷ cache 0x4c 64 (12 * 1024 * 1024) 12 3 memtype_unified
    ∷ cache 0x4d 64 (16 * 1024 * 1024) 16 3 memtype_unified
    ∷ cache 0x4e 64 (6 * 1024 * 1024) 24 2 memtype_unified
    ∷ cache 0x60 64 (16 * 1024) 8 1 memtype_data
    ∷ cache 0x66 64 (8 * 1024) 4 1 memtype_data
    ∷ cache 0x67 64 (16 * 1024) 4 1 memtype_data
    ∷ cache 0x68 64 (32 * 1024) 4 1 memtype_data
    ∷ []

abbrev pub cache_descriptors_76_87 : List CacheDescriptor
cache_descriptors_76_87 =
    cache 0x76 64 (1024 * 1024) 4 2 memtype_unified
    ∷ cache 0x78 64 (1024 * 1024) 4 2 memtype_unified
    ∷ cache 0x79 64 (128 * 1024) 8 2 memtype_unified
    ∷ cache 0x7a 64 (256 * 1024) 8 2 memtype_unified
    ∷ cache 0x7b 64 (512 * 1024) 8 2 memtype_unified
    ∷ cache 0x7c 64 (1 * 1024 * 1024) 8 2 memtype_unified
    ∷ cache 0x7d 64 (2 * 1024 * 1024) 8 2 memtype_unified
    ∷ cache 0x7f 64 (512 * 1024) 2 2 memtype_unified
    ∷ cache 0x80 64 (512 * 1024) 8 2 memtype_unified
    ∷ cache 0x82 32 (256 * 1024) 8 2 memtype_unified
    ∷ cache 0x83 32 (512 * 1024) 8 2 memtype_unified
    ∷ cache 0x84 32 (1 * 1024 * 1024) 8 2 memtype_unified
    ∷ cache 0x85 32 (2 * 1024 * 1024) 8 2 memtype_unified
    ∷ cache 0x86 64 (512 * 1024) 4 2 memtype_unified
    ∷ cache 0x87 64 (1 * 1024) 8 2 memtype_unified
    ∷ []

abbrev pub cache_descriptors_d0_ec : List CacheDescriptor
cache_descriptors_d0_ec =
    cache 0xd0 64 (512 * 1024) 4 3 memtype_unified
    ∷ cache 0xd1 64 (1024 * 1024) 4 3 memtype_unified
    ∷ cache 0xd2 64 (2 * 1024 * 1024) 4 3 memtype_unified
    ∷ cache 0xd6 64 (12 * 1024 * 1024) 8 3 memtype_unified
    ∷ cache 0xd7 64 (18 * 1024 * 1024) 8 3 memtype_unified
    ∷ cache 0xd8 64 (24 * 1024 * 1024) 8 3 memtype_unified
    ∷ cache 0xdc 64 ((1024 + 512) * 1024) 12 3 memtype_unified
    ∷ cache 0xdd 64 (3 * 1024 * 1024) 12 3 memtype_unified
    ∷ cache 0xde 64 (6 * 1024 * 1024) 12 3 memtype_unified
    ∷ cache 0xe2 64 (2 * 1024 * 1024) 16 3 memtype_unified
    ∷ cache 0xe3 64 (4 * 1024 * 1024) 16 3 memtype_unified
    ∷ cache 0xe4 64 (8 * 1024 * 1024) 16 3 memtype_unified
    ∷ cache 0xea 64 (12 * 1024 * 1024) 24 3 memtype_unified
    ∷ cache 0xeb 64 (18 * 1024 * 1024) 24 3 memtype_unified
    ∷ cache 0xec 64 (24 * 1024 * 1024) 24 3 memtype_unified
    ∷ []
