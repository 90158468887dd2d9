-- ===== src/Hardware/Cpuid/Tables/Disjoint.antt =====
-- hardware/x86cpuid.c: a descriptor byte means one thing only, so the order in which
-- decode_intel_func2 tries the tables does not matter.
use libtorque.Base.{
  ℕ, ◌≡◌, refl, Bool, true, false, not, ◌&&◌, List, [], ◌∷◌, Option, none, some, arith, all, ◌==◌,
  if◌then◌else◌,
}
use libtorque.Hardware.Desc.{Mem, Tlb}
use libtorque.Hardware.Cpuid.Tables.{
  CacheDescriptor, TlbDescriptor, find_cache, find_tlb, get_intel_cache, get_intel_tlb,
  get_intel_trace, intel_cache_descriptors, intel_tlb_descriptors,
}

abbrev is_none {ℓ} : {A : Type ℓ} → Option A → Bool
is_none none = true
is_none (some a) = false

-- The bytes with a meaning of their own, which stand in no table.
abbrev pub is_reserved : ℕ → Bool
is_reserved d =
    if d == 0xf0
    then true
    else if d == 0xf1
    then true
    else if d == 0x40
    then true
    else if d == 0xff
    then true
    else d == 0

find_cache-all :
    (p : ℕ → Bool) (d s : ℕ) (ds : List CacheDescriptor) (mem : Mem)
    → all (λ e. p e.descriptor) ds ≡ true
    → find_cache d ds s ≡ some mem
    → p d ≡ true
unfolding find_cache
find_cache-all p d s [] mem h e = cc
find_cache-all p d s (x ∷ ds) mem h e = ground (arith, find_cache-all p d s ds mem)

find_tlb-all :
    (p : ℕ → Bool) (d s : ℕ) (ds : List TlbDescriptor) (tlb : Tlb)
    → all (λ e. p e.descriptor) ds ≡ true
    → find_tlb d ds s ≡ some tlb
    → p d ≡ true
unfolding find_tlb
find_tlb-all p d s [] tlb h e = cc
find_tlb-all p d s (x ∷ ds) tlb h e = ground (arith, find_tlb-all p d s ds tlb)

cache_only : ℕ → ℕ → Bool
cache_only s d = is_none (get_intel_tlb d s) && (not (get_intel_trace d) && not (is_reserved d))

caches_alone :
    (s : ℕ)
    → all (λ (e : CacheDescriptor). cache_only s e.descriptor) intel_cache_descriptors ≡ true
unfolding cache_only get_intel_tlb get_intel_trace
caches_alone s = refl

tlb_only : ℕ → ℕ → Bool
tlb_only s d = is_none (get_intel_cache d s) && (not (get_intel_trace d) && not (is_reserved d))

tlbs_alone :
    (s : ℕ) → all (λ (e : TlbDescriptor). tlb_only s e.descriptor) intel_tlb_descriptors ≡ true
unfolding tlb_only get_intel_cache get_intel_trace
tlbs_alone s = refl

alone :
    {A : Type 0} (o : Option A) (t r : Bool)
    → (is_none o && (not t && not r)) ≡ true
    → (o ≡ none) × (t ≡ false) × (r ≡ false)
alone o t r h = ground arith

-- A byte of the cache table stands in no other table and is none of the bytes that
-- decode_intel_func2 knows by itself.
pub cache_descriptor_alone :
    (d s : ℕ) (mem : Mem)
    → get_intel_cache d s ≡ some mem
    → (get_intel_tlb d s ≡ none) × (get_intel_trace d ≡ false) × (is_reserved d ≡ false)
unfolding get_intel_cache cache_only
cache_descriptor_alone d s mem e =
    alone (get_intel_tlb d s) (get_intel_trace d) (is_reserved d)
      (find_cache-all (cache_only s) d s intel_cache_descriptors mem (caches_alone s) e)

-- A byte of the TLB table stands in no other table and is none of the bytes that
-- decode_intel_func2 knows by itself.
pub tlb_descriptor_alone :
    (d s : ℕ) (tlb : Tlb)
    → get_intel_tlb d s ≡ some tlb
    → (get_intel_cache d s ≡ none) × (get_intel_trace d ≡ false) × (is_reserved d ≡ false)
unfolding get_intel_tlb tlb_only
tlb_descriptor_alone d s tlb e =
    alone (get_intel_cache d s) (get_intel_trace d) (is_reserved d)
      (find_tlb-all (tlb_only s) d s intel_tlb_descriptors tlb (tlbs_alone s) e)
