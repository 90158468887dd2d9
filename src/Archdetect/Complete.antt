-- ===== src/Archdetect/Complete.antt =====
-- archdetect/archdetect.c: which descriptions the tool prints to the end.
use Prim.Native.String.{String}
use libtorque.Base.{
  fail_if, not, ◌||◌, ℕ, zero, suc, ◌+◌, ◌^◌, ◌<◌, ◌≡◌, refl, sym, ◌∙◌, ap, subst, ◌↔◌, inl, inr,
  Bool, true, false, List, [], ◌∷◌, Option, none, some, ltb, ◌==◌, length, get_elem?,
  get_elem?-beyond, All, Run, ok, err, fault, out_of_fuel, ◌>>=◌, arith, Bool-cases,
}
use libtorque.Hardware.Desc.{Tlb, Mem, X86Details, CudaDetails, Spec, isa_x86, isa_nvidia, Cpu}
use libtorque.Hardware.Arch.{Detected, torque_cpu_getdesc, torque_cpu_typecount}
use libtorque.Archdetect.{Text, words, fprintf_bunit}
use libtorque.Archdetect.Units.{Prints, fprintf_bunit-Prints}
use libtorque.Archdetect.Details.{
  is_positive, is_negative, memory_type, tlb_type, x86_type, with_name, require, detail_memory,
  detail_tlb, detail_x86, detail_nvidia, detail_family, detail_spec, numbered,
  detail_processing_unit, detail_processing_units, detail_type,
}

abbrev pub Succeeds : Run (List Text) → Type 0
Succeeds (ok text) = Unit
Succeeds (err text) = ⊥
Succeeds fault = ⊥
Succeeds out_of_fuel = ⊥

abbrev pub IsNamed : Option String → Type 0
IsNamed none = ⊥
IsNamed (some name) = Unit

abbrev pub Positive : ℕ → Type 0
Positive n = 0 < n

-- A cache of a known type whose every number is given.
abbrev pub MemIsComplete : Mem → Type 0
MemIsComplete mem =
    IsNamed (memory_type mem.memtype)
    × All Positive
        (mem.totalsize ∷ mem.linesize ∷ mem.associativity ∷ mem.sharedways ∷ mem.level ∷ [])

abbrev pub TlbIsComplete : Tlb → Type 0
TlbIsComplete tlb =
    IsNamed (tlb_type tlb.tlbtype)
    × All Positive
        (tlb.pagesize ∷ tlb.associativity ∷ tlb.sharedways ∷ tlb.entries ∷ tlb.level ∷ [])

abbrev pub SpecIsComplete : Spec → Type 0
SpecIsComplete (isa_x86 x86) = IsNamed (x86_type x86.x86type) × Positive x86.family
SpecIsComplete (isa_nvidia nv) = (is_positive nv.major ≡ true) × (is_negative nv.minor ≡ false)

-- `described` is whether there is a description.
abbrev pub CpuIsComplete : (Cpu → Bool) → Cpu → Type 0
CpuIsComplete described c =
    SpecIsComplete c.spec
    × ((described c ≡ true)
        × (Positive c.threadspercore
            × (All MemIsComplete c.memdescs × All TlbIsComplete c.tlbdescs)))

-- The sizes are machine integers.
abbrev pub CpuFits : Cpu → Type 0
CpuFits c =
    All (λ (m : Mem). (m.totalsize < 2 ^ 64) × (m.linesize < 2 ^ 64)) c.memdescs
    × All (λ (t : Tlb). (t.pagesize < 2 ^ 64) × (t.entries < 2 ^ 64)) c.tlbdescs

-- The printing succeeds exactly where `P` holds, whatever was printed before.
abbrev pub Demands : Type 0 → (List Text → Run (List Text)) → Type 0
Demands P f = (out : List Text) → Succeeds (f out) ↔ P

then-Demands :
    (P Q : Type 0) (f g : List Text → Run (List Text))
    → Demands P f
    → Demands Q g
    → Demands (P × Q) (λ out. f out >>= g)
then-Demands P Q f g p q out = after (f out) (p out)
  where
    after : (r : Run (List Text)) → (Succeeds r ↔ P) → Succeeds (r >>= g) ↔ (P × Q)
    after (ok text) same = (λ s. (same.0 tt, (q text).0 s), λ both. (q text).1 both.1)
    after (err text) same = (λ s. absurd s, λ both. same.1 both.0)
    after fault same = (λ s. absurd s, λ both. same.1 both.0)
    after out_of_fuel same = (λ s. absurd s, λ both. same.1 both.0)

then_free-Demands :
    (P : Type 0) (f g : List Text → Run (List Text))
    → Demands P f
    → Demands Unit g
    → Demands P (λ out. f out >>= g)
then_free-Demands P f g p q out =
    let same = then-Demands P Unit f g p q out in (λ s. (same.0 s).0, λ r. same.1 (r, tt))

with_name-Demands :
    (Q : Type 0) (name : Option String) (f : List Text → String → Run (List Text))
    → ((s : String) → Demands Q (λ out. f out s))
    → Demands (IsNamed name × Q) (λ out. with_name name out (f out))
unfolding with_name
with_name-Demands Q none f q out = (λ s. absurd s, λ both. both.0)
with_name-Demands Q (some name) f q out =
    (λ s. (tt, (q name out).0 s), λ both. (q name out).1 both.1)

require-Demands : (ns : List ℕ) → Demands (All Positive ns) (require ns)
unfolding require
require-Demands [] out = (λ s. tt, λ p. tt)
require-Demands (zero ∷ ns) out = (λ s. absurd s, λ p. absurd (omega (arith, p.0)))
require-Demands (suc n ∷ ns) out =
    let later = require-Demands ns out in
    let given : (suc n == 0) ≡ false = ground arith in
    let here : Succeeds (require (suc n ∷ ns) out) ↔ (Positive (suc n) × All Positive ns) =
      rw (given) (λ s. (omega arith, later.0 s), λ p. later.1 p.1) in
    here

require_one-Demands : (n : ℕ) → Demands (Positive n) (require (n ∷ []))
require_one-Demands n out =
    let same = require-Demands (n ∷ []) out in (λ s. (same.0 s).0, λ p. same.1 (p, tt))

ok-Demands : (end : List Text → List Text) → Demands Unit (λ out. ok (end out))
ok-Demands end out = (λ s. tt, λ u. tt)

detail_family-Demands :
    (x86 : X86Details)
    → Demands (IsNamed (x86_type x86.x86type) × Positive x86.family) (detail_family x86)
unfolding detail_family
detail_family-Demands x86 =
    with_name-Demands (Positive x86.family) (x86_type x86.x86type) _ (λ name.
      then_free-Demands (Positive x86.family) _ _ (require_one-Demands x86.family)
        (λ out. (λ s. tt, λ u. tt)))

fail_if-Demands : (b : Bool) → Demands (b ≡ false) (fail_if b)
fail_if-Demands true out = (λ s. absurd s, λ e. cc e)
fail_if-Demands false out = (λ s. refl, λ e. tt)

same-Demands : (P Q : Type 0) (f : List Text → Run (List Text)) → Demands P f → P ↔ Q → Demands Q f
same-Demands P Q f d same out = (λ s. same.0 ((d out).0 s), λ q. (d out).1 (same.1 q))

negated : (b : Bool) → (not b ≡ false) ↔ (b ≡ true)
negated true = (λ e. refl, λ e. refl)
negated false = (λ e. cc e, λ e. cc e)

neither : (b c : Bool) → ((not b || c) ≡ false) ↔ ((b ≡ true) × (c ≡ false))
neither true c = (λ e. (refl, e), λ e. e.1)
neither false c = (λ e. cc e, λ e. absurd (cc (e.0)))

detail_nvidia-Demands :
    (nv : CudaDetails)
    → Demands ((is_positive nv.major ≡ true) × (is_negative nv.minor ≡ false)) (detail_nvidia nv)
unfolding detail_nvidia
detail_nvidia-Demands nv =
    then_free-Demands ((is_positive nv.major ≡ true) × (is_negative nv.minor ≡ false)) _ _
      (same-Demands _ _ _ (fail_if-Demands _)
        (neither (is_positive nv.major) (is_negative nv.minor)))
      (λ out. (λ s. tt, λ u. tt))

detail_spec-Demands : (s : Spec) → Demands (SpecIsComplete s) (detail_spec s)
unfolding detail_spec detail_x86
detail_spec-Demands (isa_x86 x86) out = detail_family-Demands x86 _
detail_spec-Demands (isa_nvidia nv) out = detail_nvidia-Demands nv _

module _ (writes : Text → Bool) (works : (t : Text) → writes t ≡ true)
    (described : Cpu → Bool) where
  fprintf_bunit-Demands :
      (suffix : String) (val : ℕ) → val < 2 ^ 64 → Demands Unit (fprintf_bunit writes suffix val)
  fprintf_bunit-Demands suffix val small out = (
    λ s. tt,
    λ u.
        prints (fprintf_bunit writes suffix val out)
          (fprintf_bunit-Prints writes suffix val out small),
  )
    where
      prints : (r : Run (List Text)) → Prints writes val out r → Succeeds r
      prints (ok text) p = tt
      prints (err text) (t, fails, _) = let w = works t in cc (w, fails)
      prints fault p = p
      prints out_of_fuel p = p

  -- Two numbers, each after what stands before it, and the end of the line.
  two_numbers-Demands :
      (s s' w : String) (v v' : ℕ) (end : List Text → List Text)
      → v < 2 ^ 64
      → v' < 2 ^ 64
      → Demands Unit (λ out. fprintf_bunit writes s v out >>= λ out.
          fprintf_bunit writes s' v' (words w ∷ out) >>= λ out. ok (end out))
  two_numbers-Demands s s' w v v' end fits fits' =
      then_free-Demands Unit _ _ (fprintf_bunit-Demands s v fits) (
        then_free-Demands Unit _ _ (λ out. fprintf_bunit-Demands s' v' fits' (words w ∷ out))
          (ok-Demands end))

  detail_memory-Demands :
      (m : Mem)
      → (m.totalsize < 2 ^ 64) × (m.linesize < 2 ^ 64)
      → Demands (MemIsComplete m) (detail_memory writes m)
  unfolding detail_memory
  detail_memory-Demands m fits = with_name-Demands _ (memory_type m.memtype) _ (λ name.
      then_free-Demands _ _ _ (require-Demands _)
        (two_numbers-Demands "B" "B" " total, " m.totalsize m.linesize _ fits.0 fits.1))

  detail_tlb-Demands :
      (t : Tlb)
      → (t.pagesize < 2 ^ 64) × (t.entries < 2 ^ 64)
      → Demands (TlbIsComplete t) (detail_tlb writes t)
  unfolding detail_tlb
  detail_tlb-Demands t fits = with_name-Demands _ (tlb_type t.tlbtype) _ (λ name.
      then_free-Demands _ _ _ (require-Demands _)
        (two_numbers-Demands "B" "-entry" " pages, " t.pagesize t.entries _ fits.0 fits.1))

  numbered-Demands :
      {A : Type 0} (P Q : A → Type 0) (name : String) (detail : A → List Text → Run (List Text))
      → ((x : A) → P x → Demands (Q x) (detail x))
      → (xs : List A) (n total : ℕ) → All P xs
      → Demands (All Q xs) (numbered name n total detail xs)
  unfolding numbered
  numbered-Demands P Q name detail each [] n total fits = ok-Demands (λ out. out)
  numbered-Demands P Q name detail each (x ∷ xs) n total fits =
      then-Demands (Q x) (All Q xs) _ _ (λ out. each x fits.0 _)
        (numbered-Demands P Q name detail each xs (suc n) total fits.1)

  -- Where all can be written and the sizes are machine integers, detail_processing_unit succeeds
  -- exactly on a complete description: a known type and a version or family, a text, a number of threads, and
  -- caches and TLBs of known types whose numbers are all given.
  pub detail_processing_unit_lem :
      (c : Cpu)
      → CpuFits c
      → Demands (CpuIsComplete described c) (detail_processing_unit writes described c)
  unfolding detail_processing_unit
  detail_processing_unit_lem c fits =
      then-Demands (SpecIsComplete c.spec) _ _ _ (detail_spec-Demands c.spec) (
        then-Demands (described c ≡ true) _ _ _
          (same-Demands _ _ _ (fail_if-Demands _) (negated (described c)))
          (then-Demands (Positive c.threadspercore) _ _ _
            (λ out. require_one-Demands c.threadspercore _)
            (then-Demands (All MemIsComplete c.memdescs) (All TlbIsComplete c.tlbdescs) _ _
              (λ out. numbered-Demands _ _ _ _ detail_memory-Demands c.memdescs 0 _ fits.0 _)
              (numbered-Demands _ _ _ _ detail_tlb-Demands c.tlbdescs 0 _ fits.1))))

  detail_type-Demands :
      (n total : ℕ) (c : Cpu)
      → CpuFits c
      → Demands
          (Positive c.elements × CpuIsComplete described c)
          (detail_type writes described n total (some c))
  unfolding detail_type
  detail_type-Demands n total c fits =
      then-Demands (Positive c.elements) (CpuIsComplete described c) _ _
        (require_one-Demands c.elements) (λ out. detail_processing_unit_lem c fits _)

  looked_up : (s : Detected) (k : ℕ) → torque_cpu_getdesc s k ≡ get_elem? s.types k
  unfolding torque_cpu_getdesc torque_cpu_typecount
  looked_up s k = elim (Bool-cases (ltb k (length s.types))) [
    | inl e ↦ rw (e) refl
    | inr e ↦ rw (e) (sym (get_elem?-beyond s.types k (ground (arith, e))))
  ]

  -- Where all can be written and the sizes are machine integers, archdetect's loop over the types that
  -- were detected succeeds exactly where each type has an element and a complete description: a known
  -- type with a family, or a CUDA version whose major part is positive and whose minor one is not
  -- negative, a text, a number of threads, and caches and TLBs of known types whose numbers are all
  -- positive.
  pub detail_processing_units_lem :
      (s : Detected)
      → All CpuFits s.types
      → (out : List Text)
      → Succeeds (
          detail_processing_units writes described
            (torque_cpu_getdesc s)
            (torque_cpu_typecount s)
            0
            (torque_cpu_typecount s)
            out)
        ↔ All (λ (c : Cpu). Positive c.elements × CpuIsComplete described c) s.types
  unfolding torque_cpu_typecount detail_processing_units
  detail_processing_units_lem s fits out =
      over s.types (torque_cpu_getdesc s) 0 (length s.types) looks_up fits out
    where
      looks_up : (i k : ℕ) → k ≡ 0 + i → torque_cpu_getdesc s k ≡ get_elem? s.types i
      looks_up i k e =
          let e' : k ≡ i = omega (arith, e) in looked_up s k ∙ ap (λ m. get_elem? s.types m) e'

      over :
          (types : List Cpu) (getdesc : ℕ → Option Cpu) (n total : ℕ)
          → ((i k : ℕ) → k ≡ n + i → getdesc k ≡ get_elem? types i)
          → All CpuFits types
          → Demands
              (All (λ (c : Cpu). Positive c.elements × CpuIsComplete described c) types)
              (detail_processing_units writes described getdesc (length types) n total)
      over [] getdesc n total looks fits = λ out. (λ s. tt, λ u. tt)
      over (c ∷ types) getdesc n total looks fits =
          then-Demands (Positive c.elements × CpuIsComplete described c) _ _ _
            (subst
              (λ o.
                Demands (Positive c.elements × CpuIsComplete described c)
                  (detail_type writes described n total o))
              (sym (looks 0 n (omega arith))) (detail_type-Demands n total c fits.0))
            (over types getdesc (suc n) total (λ i k e. looks (suc i) k (omega (arith, e))) fits.1)
