-- ===== src/Hardware/Cpuid/Brand.antt =====
-- hardware/x86cpuid.c, x86_getbrandname: the processor's name, without leading and repeated spaces.
pub mod Spaces
use libtorque.Base.{
  ℕ, Bool, true, false, ◌&&◌, List, [], ◌∷◌, ◌++◌, Run, ok, err, ltb, ◌==◌, if◌then◌else◌,
}
use libtorque.Hardware.Desc.{Cpu}
use libtorque.Hardware.Cpuid.Regs.{Regs, Machine, bits}
use libtorque.Hardware.Cpuid.Flags.{identify_extended_cpuid}

-- The four bytes of a register as they lie in memory.
abbrev pub register_chars : ℕ → List ℕ
register_chars r = bits r 0 8 ∷ bits r 8 8 ∷ bits r 16 8 ∷ bits r 24 8 ∷ []

abbrev pub leaf_chars : Regs → List ℕ
leaf_chars r =
    register_chars r.eax ++ (register_chars r.ebx ++ (register_chars r.ecx ++ register_chars r.edx))

-- The loop over the characters, with `hadspace`.
unfoldable pub squeeze : Bool → List ℕ → List ℕ
squeeze hadspace [] = []
squeeze hadspace (c ∷ cs) =
    let keep = c ∷ squeeze (c == b' ') cs in
    let skip = squeeze hadspace cs in if (c == b' ') && hadspace then skip else keep

-- What `strdup` copies: up to the first NUL.
unfoldable pub until_nul : List ℕ → List ℕ
until_nul [] = []
until_nul (c ∷ cs) = if c == 0 then [] else c ∷ until_nul cs

-- `brandname` before its final NUL.
unfoldable pub brandname : Machine → List ℕ
unfolding squeeze
brandname m = squeeze true (
    leaf_chars (m.cpuid 0x80000002 0)
    ++ (leaf_chars (m.cpuid 0x80000003 0) ++ leaf_chars (m.cpuid 0x80000004 0)))

unfoldable pub x86_getbrandname : Machine → Cpu → Run Cpu
unfolding until_nul
x86_getbrandname m cpu =
    if ltb (identify_extended_cpuid m) 0x80000004
    then err cpu
    else if m.strdup_works
    then ok (record cpu { strdescription = until_nul (brandname m) })
    else err (record cpu { strdescription = [] })
