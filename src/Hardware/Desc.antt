-- ===== src/Hardware/Desc.antt =====
-- libtorque/internal.h: the descriptions of caches, TLBs, processors and memory nodes. An array with
-- its count is a list.
use libtorque.Base.{ℕ, List}

-- `torque_memtypet`, with the values that C gives to the enumerators.
pub data MemType : Type 0 where
  memtype_unknown memtype_code memtype_data memtype_unified : MemType

abbrev pub memtype_value : MemType → ℕ
memtype_value memtype_unknown = 0
memtype_value memtype_code = 1
memtype_value memtype_data = 2
memtype_value memtype_unified = 3

-- `torque_tlbt`
pub record Tlb : Type 0 where
  pub entries : ℕ
  pub pagesize : ℕ
  pub associativity : ℕ
  pub sharedways : ℕ
  pub tlbtype : MemType
  pub level : ℕ

-- `torque_memt`
pub record Mem : Type 0 where
  pub totalsize : ℕ
  pub linesize : ℕ
  pub associativity : ℕ
  pub sharedways : ℕ
  pub memtype : MemType
  pub level : ℕ

-- `torque_x86typet`
pub data X86Type : Type 0 where
  processor_x86_oem processor_x86_overdrive processor_x86_dual processor_x86_unknown : X86Type

-- The bit-fields `features` of `x86_details`, 0 or 1 each.
pub record Features : Type 0 where
  pub mmx : ℕ
  pub sse : ℕ
  pub sse2 : ℕ
  pub sse3 : ℕ
  pub ssse3 : ℕ
  pub sse41 : ℕ
  pub sse42 : ℕ
  pub sse4a : ℕ
  pub avx : ℕ
  pub xop : ℕ
  pub fma4 : ℕ
  pub cvt16 : ℕ

-- `x86_details`
pub record X86Details : Type 0 where
  pub family : ℕ
  pub model : ℕ
  pub stepping : ℕ
  pub x86type : X86Type
  pub features : Features
  pub apic : ℕ

-- An `int`.
pub data ℤ : Type 0 where
  pos : ℕ → ℤ
  negsuc : ℕ → ℤ

-- `cuda_details`
pub record CudaDetails : Type 0 where
  pub major : ℤ
  pub minor : ℤ

-- `torque_isat` with the union `spec` that it selects.
pub data Spec : Type 0 where
  isa_x86 : X86Details → Spec
  isa_nvidia : CudaDetails → Spec

-- `torque_cput`. The counts `memories` and `tlbs` are the lengths of the lists, and the
-- description is its bytes up to the NUL.
pub record Cpu : Type 0 where
  pub elements : ℕ
  pub threadspercore : ℕ
  pub coresperpackage : ℕ
  pub tlbdescs : List Tlb
  pub strdescription : List ℕ
  pub memdescs : List Mem
  pub spec : Spec

-- `torque_nodet`; `psizevals` with its count `psizes`.
pub record Node : Type 0 where
  pub size : ℕ
  pub psizevals : List ℕ
  pub count : ℕ

-- A structure that `memset` cleared.
abbrev pub no_features : Features
no_features = record {
  mmx = 0;
  sse = 0;
  sse2 = 0;
  sse3 = 0;
  ssse3 = 0;
  sse41 = 0;
  sse42 = 0;
  sse4a = 0;
  avx = 0;
  xop = 0;
  fma4 = 0;
  cvt16 = 0;
}

abbrev pub no_details : X86Details
no_details = record {
  family = 0;
  model = 0;
  stepping = 0;
  x86type = processor_x86_oem;
  features = no_features;
  apic = 0;
}
