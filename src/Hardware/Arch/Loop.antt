-- ===== src/Hardware/Arch/Loop.antt =====
-- hardware/arch.c: what the walks over the affinity mask and over the types find.
use libtorque.Base.{
  ℕ, zero, suc, ◌+◌, ◌-◌, ◌≤◌, ◌<◌, ◌≡◌, refl, ap, ◌∙◌, inl, inr, List, [], ◌∷◌, ◌++◌, none, some,
  length, Bool-cases, true, Option-cases, if◌then◌else◌, arith,
}
use libtorque.Hardware.Desc.{Cpu}
use libtorque.Hardware.Topology.{CpuSet, first_from}
use libtorque.Hardware.Arch.{count_from, match_cputype, compare_cpudetails, count_element}

-- The CPUs of a set, from CPU `z` on with `n` left.
unfoldable pub members : ℕ → ℕ → CpuSet → List ℕ
members zero z s = []
members (suc n) z s = let rest = members n (suc z) s in if s z then z ∷ rest else rest

pub count_from-members : (n z : ℕ) (s : CpuSet) → count_from n z s ≡ length (members n z s)
unfolding count_from members
count_from-members zero z s = refl
count_from-members (suc n) z s =
    let rest = count_from-members n (suc z) s in
    elim (Bool-cases (s z)) [ inl e ↦ rw (e) (ap suc rest) | inr e ↦ rw (e) rest ]

-- While CPUs are left, the first of them is the one that the loop goes to.
pub first_from-members :
    (n z left : ℕ) (s : CpuSet)
    → count_from n z s ≡ suc left
    → (first_from n z s < n + z)
      × (z ≤ first_from n z s)
      × (members n z s
          ≡ first_from n z s ∷ members (n + z - suc (first_from n z s)) (suc (first_from n z s)) s)
      × (s (first_from n z s) ≡ true)
unfolding count_from members first_from
first_from-members zero z left s h = absurd (omega (arith, h))
first_from-members (suc n) z left s h = elim (Bool-cases (s z)) [
  | inl e ↦
      let same : suc n + z - suc z ≡ n = omega arith in
      rw (e) (omega arith, omega arith, rw (same) refl, e)
  | inr e ↦
      let rest = first_from-members n (suc z) left s (rw (e) at h) in
      let f = first_from n (suc z) s in
      let same : n + suc z ≡ suc n + z = omega arith in
      rw (e) (
        omega (arith, rest.0),
        omega (arith, rest.1),
        rest.2 ∙ ap (λ (t : ℕ). f ∷ members (t - suc f) (suc f) s) same,
        rest.3,
      )
]

-- The elements of all types.
unfoldable pub total : List Cpu → ℕ
total [] = 0
total (t ∷ ts) = t.elements + total ts

pub total-snoc : (ts : List Cpu) (c : Cpu) → total (ts ++ (c ∷ [])) ≡ total ts + c.elements
unfolding total
total-snoc [] c = omega arith
total-snoc (t ∷ ts) c = omega (arith, total-snoc ts c)

pub count_element-total :
    (ts : List Cpu) (n : ℕ) → n < length ts → total (count_element ts n) ≡ suc (total ts)
unfolding total count_element
count_element-total [] n h = absurd (omega (arith, h))
count_element-total (t ∷ ts) zero h = omega arith
count_element-total (t ∷ ts) (suc n) h = omega (arith, count_element-total ts n (omega (arith, h)))

pub length-count_element : (ts : List Cpu) (n : ℕ) → length (count_element ts n) ≡ length ts
unfolding count_element
length-count_element [] n = refl
length-count_element (t ∷ ts) zero = refl
length-count_element (t ∷ ts) (suc n) = ap suc (length-count_element ts n)

pub match_cputype-inside :
    (ts : List Cpu) (c : Cpu) (n : ℕ) → match_cputype ts c ≡ some n → n < length ts
unfolding match_cputype
match_cputype-inside [] c n h = absurd (cc h)
match_cputype-inside (t ∷ ts) c n h = elim (Bool-cases (compare_cpudetails t c)) [
  | inl e ↦ let first : some 0 ≡ some n = rw (e) at h in ground (arith, first)
  | inr e ↦ elim (Option-cases (match_cputype ts c)) [
    | inl f ↦ let no_one : none ≡ some n = rw (e, f) at h in absurd (cc no_one)
    | inr f ↦
        let one : some (suc f.0) ≡ some n = rw (e, f.1) at h in
        ground (arith, one, match_cputype-inside ts c f.0 f.1)
  ]
]
