-- ===== src/Hardware/Cpuid/Brand/Spaces.antt =====
-- hardware/x86cpuid.c, x86_getbrandname: the name fits its buffer and has no space too many.
use libtorque.Base.{
  ℕ, ◌+◌, ◌*◌, ◌≤◌, ◌≡◌, refl, Bool, true, false, ◌&&◌, List, [], ◌∷◌, ◌++◌, arith, ◌==◌,
  if◌then◌else◌, length, Bool-cases, inl, inr,
}
use libtorque.Hardware.Cpuid.Regs.{Machine}
use libtorque.Hardware.Cpuid.Brand.{leaf_chars, squeeze, until_nul, brandname}

-- No space after a space, nor at the start where `after` is set.
abbrev pub SingleSpaces : Bool → List ℕ → Type 0
SingleSpaces after [] = Unit
SingleSpaces after (c ∷ cs) = (((c == b' ') && after) ≡ false) × SingleSpaces (c == b' ') cs

-- The characters that are no spaces.
pub words : List ℕ → List ℕ
words [] = []
words (c ∷ cs) = if c == b' ' then words cs else c ∷ words cs

length-squeeze : (h : Bool) (cs : List ℕ) → length (squeeze h cs) ≤ length cs
unfolding squeeze
length-squeeze h [] = omega arith
length-squeeze h (c ∷ cs) = ground (arith, length-squeeze h cs, length-squeeze (c == b' ') cs)

squeeze-SingleSpaces : (h : Bool) (cs : List ℕ) → SingleSpaces h (squeeze h cs)
unfolding squeeze
squeeze-SingleSpaces h [] = tt
squeeze-SingleSpaces h (c ∷ cs) = elim (Bool-cases ((c == b' ') && h)) [
  | inl e ↦ rw (e, squeeze) (squeeze-SingleSpaces h cs)
  | inr e ↦ rw (e, squeeze) (e, squeeze-SingleSpaces (c == b' ') cs)
]

words-squeeze : (h : Bool) (cs : List ℕ) → words (squeeze h cs) ≡ words cs
unfolding squeeze words
words-squeeze h [] = refl
words-squeeze h (c ∷ cs) = ground (arith, words-squeeze h cs, words-squeeze (c == b' ') cs)

until_nul-SingleSpaces :
    (h : Bool) (cs : List ℕ) → SingleSpaces h cs → SingleSpaces h (until_nul cs)
unfolding until_nul
until_nul-SingleSpaces h [] s = tt
until_nul-SingleSpaces h (c ∷ cs) s = elim (Bool-cases (c == 0)) [
  | inl e ↦ rw (e, until_nul) tt
  | inr e ↦ rw (e, until_nul) (s.0, until_nul-SingleSpaces (c == b' ') cs s.1)
]

-- The 48 characters that the three leaves hold.
abbrev pub all_chars : Machine → List ℕ
all_chars m =
    leaf_chars (m.cpuid 0x80000002 0)
    ++ (leaf_chars (m.cpuid 0x80000003 0) ++ leaf_chars (m.cpuid 0x80000004 0))

-- Whatever the leaves hold, the name fits the buffer of 49 characters with its NUL, has all their
-- characters but spaces, in order, and the string in the buffer has no leading or repeated space.
pub brandname_lem :
    (m : Machine)
    → (length (brandname m) + 1 ≤ 16 * 3 + 1)
      × (words (brandname m) ≡ words (all_chars m))
      × SingleSpaces true (until_nul (brandname m))
unfolding brandname
brandname_lem m = (
  omega (arith, length-squeeze true (all_chars m)),
  words-squeeze true (all_chars m),
  until_nul-SingleSpaces true _ (squeeze-SingleSpaces true (all_chars m)),
)
