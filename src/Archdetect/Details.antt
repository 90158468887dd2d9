-- ===== src/Archdetect/Details.antt =====
-- archdetect/archdetect.c: the descriptions of caches, TLBs and processors. What goes to stderr is left
-- out. `described` says where the description of a processor is not NULL.
use Prim.Native.String.{String}
use libtorque.Base.{
  ℕ, zero, suc, ◌-◌, ◌/◌, ◌^◌, ◌||◌, not, true, false, Bool, List, [], ◌∷◌, Option, none, some,
  ◌==◌, if◌then◌else◌, nonzero, length, Run, ok, err, ◌>>=◌, fail_if,
}
use libtorque.Hardware.Desc.{
  MemType, memtype_unknown, memtype_code, memtype_data, memtype_unified, Tlb, Mem, X86Type,
  processor_x86_oem, processor_x86_overdrive, processor_x86_dual, processor_x86_unknown, Features,
  ℤ, pos, negsuc, X86Details, CudaDetails, Spec, isa_x86, isa_nvidia, Cpu,
}
use libtorque.Archdetect.{Text, words, number, bytes, fprintf_bunit}

abbrev pub memory_type : MemType → Option String
memory_type memtype_unknown = none
memory_type memtype_code = some "code"
memory_type memtype_data = some "data"
memory_type memtype_unified = some "unified"

abbrev pub tlb_type : MemType → Option String
tlb_type memtype_unknown = none
tlb_type memtype_code = some "code"
tlb_type memtype_data = some "data"
tlb_type memtype_unified = some "mixed"

abbrev pub x86_type : X86Type → Option String
x86_type processor_x86_oem = some "OEM"
x86_type processor_x86_overdrive = some "OverDrive"
x86_type processor_x86_dual = some "MP"
x86_type processor_x86_unknown = none

-- `if((name = ...) == NULL){ return -1; }`
unfoldable pub with_name : Option String → List Text → (String → Run (List Text)) → Run (List Text)
with_name none out f = err out
with_name (some name) out f = f name

-- `if(n <= 0){ return -1; }` for each of these in turn.
unfoldable pub require : List ℕ → List Text → Run (List Text)
require [] out = ok out
require (n ∷ ns) out = fail_if (n == 0) out >>= require ns

-- "%u-assoc, ", then "unshared " or "%u-shared ", then "(L%u %s)\n".
abbrev pub sharing : ℕ → ℕ → ℕ → String → List Text → List Text
sharing associativity sharedways level name out =
    let out = words "-assoc, " ∷ number associativity ∷ out in
    let out =
      if sharedways == 1
      then words "unshared " ∷ out
      else words "-shared " ∷ number sharedways ∷ out in
    words ")\n" ∷ words name ∷ words " " ∷ number level ∷ words "(L" ∷ out

unfoldable pub detail_memory : (Text → Bool) → Mem → List Text → Run (List Text)
detail_memory writes mem out = with_name (memory_type mem.memtype) out (λ memt.
    require (mem.totalsize ∷ mem.linesize ∷ mem.associativity ∷ mem.sharedways ∷ mem.level ∷ []) out
    >>= λ out. fprintf_bunit writes "B" mem.totalsize out >>= λ out.
        fprintf_bunit writes "B" mem.linesize (words " total, " ∷ out) >>= λ out.
        ok (sharing mem.associativity mem.sharedways mem.level memt (words " line, " ∷ out)))

unfoldable pub detail_tlb : (Text → Bool) → Tlb → List Text → Run (List Text)
detail_tlb writes tlb out = with_name (tlb_type tlb.tlbtype) out (λ tlbt.
    require (tlb.pagesize ∷ tlb.associativity ∷ tlb.sharedways ∷ tlb.entries ∷ tlb.level ∷ []) out
    >>= λ out. fprintf_bunit writes "B" tlb.pagesize out >>= λ out.
        fprintf_bunit writes "-entry" tlb.entries (words " pages, " ∷ out) >>= λ out.
        ok (sharing tlb.associativity tlb.sharedways tlb.level tlbt (words ", " ∷ out)))

abbrev pub extensions : List (ℕ × String) → List Text → List Text
extensions [] out = out
extensions ((flag, name) ∷ flags) out =
    extensions flags (if nonzero flag then words name ∷ out else out)

abbrev pub feature_names : Features → List (ℕ × String)
feature_names f =
    (f.mmx, "MMX ")
    ∷ (f.sse, "SSE ")
    ∷ (f.sse2, "SSE2 ")
    ∷ (f.sse3, "SSE3 ")
    ∷ (f.ssse3, "SSSE3 ")
    ∷ (f.sse41, "SSE4.1 ")
    ∷ (f.sse42, "SSE4.2 ")
    ∷ (f.sse4a, "SSE4a ")
    ∷ (f.avx, "AVX ")
    ∷ (f.xop, "XOP ")
    ∷ (f.fma4, "FMA4 ")
    ∷ (f.cvt16, "CVT16 ")
    ∷ []

-- Each number stands for both its hexadecimal and its decimal form.
unfoldable pub detail_family : X86Details → List Text → Run (List Text)
detail_family x86 out = with_name (x86_type x86.x86type) out (λ x86type.
    require (x86.family ∷ []) out >>= λ out. ok (
      words ")\n"
      ∷ words x86type
      ∷ words " ("
      ∷ number x86.stepping
      ∷ words " Stepping: "
      ∷ number x86.model
      ∷ words " Model: "
      ∷ number x86.family
      ∷ words "\tFamily: "
      ∷ out))

unfoldable pub detail_x86 : X86Details → List Text → Run (List Text)
detail_x86 x86 out =
    detail_family x86
      (words "\n" ∷ extensions (feature_names x86.features) (words "\n\tExtensions: " ∷ out))

abbrev pub is_positive : ℤ → Bool
is_positive (pos n) = nonzero n
is_positive (negsuc n) = false

abbrev pub is_negative : ℤ → Bool
is_negative (pos n) = false
is_negative (negsuc n) = true

-- What "%u" makes of an `int`.
abbrev pub as_unsigned : ℤ → ℕ
as_unsigned (pos n) = n
as_unsigned (negsuc n) = 2 ^ 32 - suc n

unfoldable pub detail_nvidia : CudaDetails → List Text → Run (List Text)
detail_nvidia nv out = fail_if (not (is_positive nv.major) || is_negative nv.minor) out >>= λ out.
    ok (
      words "\n"
      ∷ number (as_unsigned nv.minor)
      ∷ words "."
      ∷ number (as_unsigned nv.major)
      ∷ words "\n\tCUDA compute capabilities: "
      ∷ out)

unfoldable pub detail_spec : Spec → List Text → Run (List Text)
detail_spec (isa_x86 x86) out = detail_x86 x86 (words "x86" ∷ out)
detail_spec (isa_nvidia nv) out = detail_nvidia nv (words "CUDA" ∷ out)

abbrev pub plural : ℕ → List Text → List Text
plural n out = words (if n == 1 then "" else "s") ∷ words " core" ∷ number n ∷ out

abbrev pub threads_and_cores : ℕ → ℕ → List Text → List Text
threads_and_cores threadspercore coresperpackage out =
    if threadspercore == 1
    then words " per package\n"
      ∷ plural coresperpackage (words "\t1 thread per processing core, " ∷ out)
    else words " logical) per package\n"
      ∷ number (coresperpackage - coresperpackage / threadspercore)
      ∷ words " ("
      ∷ plural coresperpackage
          (words " threads per processing core, " ∷ number threadspercore ∷ words "\t" ∷ out)

-- A numbered list, each entry after "Cache %u of %u: " or "TLB %u of %u: ".
unfoldable pub numbered :
    {A : Type 0}
    → String
    → ℕ
    → ℕ
    → (A → List Text → Run (List Text))
    → List A
    → List Text
    → Run (List Text)
numbered name n total detail [] out = ok out
numbered name n total detail (x ∷ xs) out =
    detail x (words ": " ∷ number total ∷ words " of " ∷ number (suc n) ∷ words name ∷ out)
    >>= numbered name (suc n) total detail xs

unfoldable pub detail_processing_unit :
    (Text → Bool) → (Cpu → Bool) → Cpu → List Text → Run (List Text)
detail_processing_unit writes described pudesc out = detail_spec pudesc.spec out >>= λ out.
    fail_if (not (described pudesc)) out >>= λ out.
    require (pudesc.threadspercore ∷ [])
      (words "\n" ∷ bytes pudesc.strdescription ∷ words "\tBrand name: " ∷ out)
    >>= λ out.
        numbered "\tCache " 0 (length pudesc.memdescs) (detail_memory writes) pudesc.memdescs
          (threads_and_cores pudesc.threadspercore pudesc.coresperpackage out)
        >>= numbered "\tTLB " 0 (length pudesc.tlbdescs) (detail_tlb writes) pudesc.tlbdescs

-- A round of the loop over the types, by what torque_cpu_getdesc returns.
unfoldable pub detail_type :
    (Text → Bool) → (Cpu → Bool) → ℕ → ℕ → Option Cpu → List Text → Run (List Text)
detail_type writes described n total none out = err out
detail_type writes described n total (some pudesc) out =
    require (pudesc.elements ∷ []) out >>= λ out. detail_processing_unit writes described pudesc (
      words ": "
      ∷ number total
      ∷ words " of "
      ∷ number (suc n)
      ∷ words "x) Processing unit type "
      ∷ number pudesc.elements
      ∷ words "("
      ∷ out)

unfoldable pub detail_processing_units :
    (Text → Bool) → (Cpu → Bool) → (ℕ → Option Cpu) → ℕ → ℕ → ℕ → List Text → Run (List Text)
detail_processing_units writes described getdesc zero n total out = ok out
detail_processing_units writes described getdesc (suc left) n total out =
    detail_type writes described n total (getdesc n) out
    >>= detail_processing_units writes described getdesc left (suc n) total
