-- ===== src/Hardware/Cpuid/Tables/Entry.antt =====
-- hardware/x86cpuid.c: an entry of each descriptor table.
use libtorque.Base.{ℕ}
use libtorque.Hardware.Desc.{MemType}

-- `intel_cache_descriptor`
pub record CacheDescriptor : Type 0 where
  pub descriptor : ℕ
  pub linesize : ℕ
  pub totalsize : ℕ
  pub associativity : ℕ
  pub level : ℕ
  pub memtype : MemType

-- `intel_tlb_descriptor`
pub record TlbDescriptor : Type 0 where
  pub descriptor : ℕ
  pub pagesize : ℕ
  pub entries : ℕ
  pub associativity : ℕ
  pub level : ℕ
  pub tlbtype : MemType

-- The fields in the order in which the tables write them.
abbrev pub cache : ℕ → ℕ → ℕ → ℕ → ℕ → MemType → CacheDescriptor
cache d line total assoc level type = record {
  descriptor = d;
  linesize = line;
  totalsize = total;
  associativity = assoc;
  level = level;
  memtype = type;
}

abbrev pub tlb : ℕ → ℕ → ℕ → ℕ → ℕ → MemType → TlbDescriptor
tlb d page entries assoc level type = record {
  descriptor = d;
  pagesize = page;
  entries = entries;
  associativity = assoc;
  level = level;
  tlbtype = type;
}
