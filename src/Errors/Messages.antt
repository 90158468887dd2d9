-- ===== src/Errors/Messages.antt =====
-- libtorque/internal.c: the messages of the errors.
use Prim.Native.String.{String}
use text.Mathlib.Text.{◌==◌ as ◌≟◌}
use libtorque.Base.{
  ℕ, suc, ◌-◌, ◌<◌, ◌≡◌, refl, Bool, true, false, not, List, [], ◌∷◌, Option, none, some, length,
  get_elem?, ltb, ◌==◌, ==_iff, if◌then◌else◌, all_below, all_below_sound,
}
use libtorque.Errors.{err_syscall}

abbrev pub errstrs : List String
errstrs =
    "Unknown error" ∷ "Assertion failure" ∷ "Processor detection failure"
    ∷ "Graphic processor detection failure" ∷ "Memory detection failure"
    ∷ "Affinity subsystem failure" ∷ "Insufficient system resources" ∷ "Invalid parameter"
    ∷ "Functionality unavailable on platform" ∷ []

-- By what `strerror` answers; an index outside the array is not reached.
unfoldable pub torque_errstr : (ℕ → Option String) → ℕ → String
torque_errstr strerror e =
    let ours = elim (get_elem? errstrs e) as (λ _. String) [ none ↦ "" | some s ↦ s ] in
    let theirs = elim (strerror (e - err_syscall)) as (λ _. String) [
      | none ↦ "Oh shit, there's a horse in the hospital!"
      | some s ↦ s
    ] in
    if not (ltb e (length errstrs)) then theirs else ours

-- The index of a message.
unfoldable pub index_of : String → List String → Option ℕ
index_of s [] = none
index_of s (t ∷ ts) =
    let later = elim (index_of s ts) as (λ _. Option ℕ) [ none ↦ none | some n ↦ some (suc n) ] in
    if t ≟ s then some 0 else later

abbrev is_index : Option ℕ → ℕ → Bool
is_index none e = false
is_index (some n) e = n == e

is_index_sound : (o : Option ℕ) (e : ℕ) → is_index o e ≡ true → o ≡ some e
is_index_sound none e h = absurd (cc h)
is_index_sound (some n) e h = let same = (==_iff n e).0 h in cc

-- Each value below TORQUE_ERR_SYSCALL is the index of its message, so no two values have one
-- message, and there is one for each error of the library.
pub torque_errstr_roundtrip :
    (strerror : ℕ → Option String) (e : ℕ)
    → e < err_syscall
    → index_of (torque_errstr strerror e) errstrs ≡ some e
unfolding torque_errstr index_of all_below
torque_errstr_roundtrip strerror e inside = is_index_sound _ e (
    all_below_sound 9 (λ n. is_index (index_of (torque_errstr strerror n) errstrs) n) e refl inside)
