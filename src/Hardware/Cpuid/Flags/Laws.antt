-- ===== src/Hardware/Cpuid/Flags/Laws.antt =====
-- hardware/x86cpuid.c: what the shifts and masks of x86_getprocsig lose.
use Prim.Native.Nat.{bit_or}
use libtorque.Base.{
  ℕ, ◌+◌, ◌*◌, ◌^◌, ◌<◌, ◌≡◌, refl, ◌≢◌, Bool, true, arith, ◌==◌, all_below, all_below_sound,
  ==_iff,
}
use libtorque.Hardware.Cpuid.Regs.{bits}
use libtorque.Hardware.Cpuid.Flags.{x86type_of, x86type_field, family_field}

-- The processor type is the one that bits 13 and 12 together give where bit 12 is clear, and
-- another one where bit 12 is set.
pub x86type_field_lem :
    (eax : ℕ)
    → (bits eax 12 1 ≡ 0 → x86type_field eax ≡ x86type_of (bits eax 12 2))
      × (bits eax 12 1 ≡ 1 → x86type_field eax ≢ x86type_of (bits eax 12 2))
unfolding x86type_field
x86type_field_lem eax = ground arith

-- An extended family in bits 27 to 20, moved right by 17, meets the upper bit of the family.
unfoldable meets : ℕ → Bool
meets e = all_below 8 (λ f. bit_or ((2 * e + 1) * 8) (f + 8) == bit_or (2 * e * 8) (f + 8))

meets_all : all_below 128 meets ≡ true
unfolding all_below meets
meets_all = refl

meets_lem :
    (e f : ℕ) → e < 128 → f < 8 → bit_or ((2 * e + 1) * 8) (f + 8) ≡ bit_or (2 * e * 8) (f + 8)
unfolding meets
meets_lem e f h k =
    let row = all_below_sound 128 meets e meets_all h in
    let cell =
      all_below_sound 8 (λ n. bit_or ((2 * e + 1) * 8) (n + 8) == bit_or (2 * e * 8) (n + 8)) f row
        k in
    (==_iff _ _).0 cell

-- A signature with bit 20, the lowest of the extended family, clear and bit 11, the highest of the
-- family, set gets the same family as the signature with bit 20 set.
pub family_field_collides :
    (eax : ℕ)
    → bits eax 20 1 ≡ 0
    → bits eax 11 1 ≡ 1
    → family_field (eax + 2 ^ 20) ≡ family_field eax
unfolding family_field
family_field_collides eax even upper =
    let e = bits eax 21 7 in
    let f = bits eax 8 3 in
    let old_extended : bits eax 20 8 ≡ 2 * e = omega arith in
    let new_extended : bits (eax + 2 ^ 20) 20 8 ≡ 2 * e + 1 = omega arith in
    let old_family : bits eax 8 4 ≡ f + 8 = omega arith in
    let new_family : bits (eax + 2 ^ 20) 8 4 ≡ f + 8 = omega arith in
    rw (new_extended, new_family, old_extended, old_family)
      (meets_lem e f (omega arith) (omega arith))
