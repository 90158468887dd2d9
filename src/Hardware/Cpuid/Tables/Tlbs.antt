-- ===== src/Hardware/Cpuid/Tables/Tlbs.antt =====
-- hardware/x86cpuid.c, `intel_tlb_descriptors`: page size, entries, associativity, level and type,
-- in the order of the source.
use libtorque.Base.{◌*◌, List, [], ◌∷◌}
use libtorque.Hardware.Desc.{memtype_code, memtype_data, memtype_unified}
use libtorque.Hardware.Cpuid.Tables.Entry.{TlbDescriptor, tlb}

abbrev pub tlb_descriptors_01_5b : List TlbDescriptor
tlb_descriptors_01_5b =
    tlb 0x01 (4 * 1024) 32 4 2 memtype_code
    ∷ tlb 0x02 (4 * 1024 * 1024) 2 2 2 memtype_code
    ∷ tlb 0x03 (4 * 1024) 64 4 2 memtype_data
    ∷ tlb 0x04 (4 * 1024 * 1024) 8 4 2 memtype_data
    ∷ tlb 0x05 (4 * 1024 * 1024) 32 4 2 memtype_data
    ∷ tlb 0x50 (4 * 1024 * 1024) 64 64 1 memtype_code
    ∷ tlb 0x51 (4 * 1024) 128 128 1 memtype_code
    ∷ tlb 0x52 (4 * 1024 * 1024) 256 256 1 memtype_code
    ∷ tlb 0x55 (4 * 1024) 7 7 2 memtype_code
    ∷ tlb 0x56 (4 * 1024 * 1024) 16 4 1 memtype_data
    ∷ tlb 0x57 (4 * 1024) 16 4 1 memtype_data
    ∷ tlb 0x5a (4 * 1024 * 1024) 32 4 1 memtype_data
    ∷ tlb 0x5b (4 * 1024) 64 64 2 memtype_data
    ∷ []

abbrev pub tlb_descriptors_5c_b6 : List TlbDescriptor
tlb_descriptors_5c_b6 =
    tlb 0x5c (4 * 1024) 128 128 2 memtype_data
    ∷ tlb 0x5d (4 * 1024) 256 256 2 memtype_data
    ∷ tlb 0x61 (4 * 1024) 48 48 2 memtype_code
    ∷ tlb 0x63 (1 * 1024 * 1024 * 1024) 4 4 3 memtype_data
    ∷ tlb 0xb0 (4 * 1024) 128 4 1 memtype_code
    ∷ tlb 0xb1 (2 * 1024 * 1024) 8 4 1 memtype_code
    ∷ tlb 0xb2 (4 * 1024) 64 4 1 memtype_code
    ∷ tlb 0xb3 (4 * 1024) 128 4 1 memtype_data
    ∷ tlb 0xb4 (4 * 1024) 256 4 1 memtype_data
    ∷ tlb 0xb5 (4 * 1024) 64 8 1 memtype_code
    ∷ tlb 0xb6 (4 * 1024) 128 8 1 memtype_code
    ∷ []

abbrev pub tlb_descriptors_ba_ca : List TlbDescriptor
tlb_descriptors_ba_ca =
    tlb 0xba (4 * 1024) 64 4 1 memtype_data
    ∷ tlb 0xc0 (4 * 1024) 8 4 1 memtype_data
    ∷ tlb 0xc1 (4 * 1024) 1024 8 2 memtype_unified
    ∷ tlb 0xc2 (4 * 1024) 16 4 1 memtype_data
    ∷ tlb 0xc3 (4 * 1024) 1536 6 2 memtype_unified
    ∷ tlb 0xc4 (4 * 1024) 32 4 1 memtype_data
    ∷ tlb 0xca (4 * 1024) 512 4 2 memtype_data
    ∷ []
