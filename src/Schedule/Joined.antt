-- ===== src/Schedule/Joined.antt =====
-- schedule.c: the handlers form a ring through all started threads.
use libtorque.Base.{
  ℕ, ◌≡◌, ◌≢◌, refl, sym, ◌∙◌, subst, List, [], ◌∷◌, none, some, ◌==◌, ==_iff, All, Bool-cases, inl,
  inr,
}
use libtorque.Schedule.{Ring, write, joined, join_ring}

-- From `x` the handlers lead through the threads of a list to `end`.
abbrev pub Leads : (ℕ → ℕ) → ℕ → List ℕ → ℕ → Type 0
Leads nexttid x [] end = nexttid x ≡ end
Leads nexttid x (y ∷ ys) end = (nexttid x ≡ y) × Leads nexttid y ys end

-- A ring: from the first thread through the others, back to it.
abbrev pub IsRing : Ring → List ℕ → Type 0
IsRing r [] = r.leader ≡ none
IsRing r (x ∷ xs) = (r.leader ≡ some x) × Leads r.nexttid x xs x

-- The specification: a new thread takes the place after the first one.
abbrev pub join_list : ℕ → List ℕ → List ℕ
join_list self [] = self ∷ []
join_list self (x ∷ xs) = x ∷ self ∷ xs

write_same : (tid next : ℕ) (f : ℕ → ℕ) → write tid next f tid ≡ next
write_same tid next f = let same = (==_iff tid tid).1 refl in rw (same) refl

write_other : (tid next z : ℕ) (f : ℕ → ℕ) → z ≢ tid → write tid next f z ≡ f z
write_other tid next z f apart = elim (Bool-cases (z == tid)) [
  | inl e ↦ absurd (apart ((==_iff z tid).0 e))
  | inr e ↦ rw (e) refl
]

Leads-write :
    (tid next : ℕ) (f : ℕ → ℕ) (x : ℕ) (xs : List ℕ) (end : ℕ)
    → All (λ z. z ≢ tid) (x ∷ xs)
    → Leads f x xs end
    → Leads (write tid next f) x xs end
Leads-write tid next f x [] end apart leads = write_other tid next x f apart.0 ∙ leads
Leads-write tid next f x (y ∷ ys) end apart leads =
    (write_other tid next x f apart.0 ∙ leads.0, Leads-write tid next f y ys end apart.1 leads.1)

-- The threads of a list are different.
abbrev pub Distinct : List ℕ → Type 0
Distinct [] = Unit
Distinct (x ∷ xs) = All (λ z. z ≢ x) xs × Distinct xs

-- A new thread joins the ring after its first thread.
join_ring-IsRing :
    (self : ℕ) (r : Ring) (xs : List ℕ)
    → IsRing r xs
    → Distinct xs
    → All (λ z. z ≢ self) xs
    → IsRing (join_ring self r) (join_list self xs)
unfolding join_ring
join_ring-IsRing self r [] ring distinct new =
    subst (λ o. IsRing (joined self r.nexttid o) (self ∷ [])) (sym ring)
      (refl, write_same self self r.nexttid)
join_ring-IsRing self r (x ∷ xs) ring distinct new =
    subst (λ o. IsRing (joined self r.nexttid o) (x ∷ self ∷ xs)) (sym ring.0)
      (
        refl,
        (
          write_same x self (write self (r.nexttid x) r.nexttid),
          after_first xs ring.1 distinct.0 new.1,
        ),
      )
  where
    apart : self ≢ x
    apart e = new.0 (sym e)

    passed : write x self (write self (r.nexttid x) r.nexttid) self ≡ r.nexttid x
    passed =
        write_other x self self (write self (r.nexttid x) r.nexttid) apart
        ∙ write_same self (r.nexttid x) r.nexttid

    after_first :
        (ys : List ℕ)
        → Leads r.nexttid x ys x
        → All (λ z. z ≢ x) ys
        → All (λ z. z ≢ self) ys
        → Leads (write x self (write self (r.nexttid x) r.nexttid)) self ys x
    after_first [] leads others new' = passed ∙ leads
    after_first (y ∷ ys) leads others new' = (
      passed ∙ leads.0,
      Leads-write x self _ y ys x others (Leads-write self _ _ y ys x new' leads.1),
    )

-- The threads that start one after the other.
abbrev pub join_all : List ℕ → List ℕ → List ℕ
join_all xs [] = xs
join_all xs (t ∷ ts) = join_all (join_list t xs) ts

unfoldable pub join_rings : Ring → List ℕ → Ring
join_rings r [] = r
join_rings r (t ∷ ts) = join_rings (join_ring t r) ts

-- Each thread is new to the ring when it joins.
abbrev pub AllNew : List ℕ → List ℕ → Type 0
AllNew xs [] = Unit
AllNew xs (t ∷ ts) = All (λ z. z ≢ t) xs × AllNew (join_list t xs) ts

join_list-Distinct :
    (t : ℕ) (xs : List ℕ) → Distinct xs → All (λ z. z ≢ t) xs → Distinct (join_list t xs)
join_list-Distinct t [] distinct new = (tt, tt)
join_list-Distinct t (x ∷ xs) distinct new = ((λ e. new.0 (sym e), distinct.0), (new.1, distinct.1))

-- Whatever threads start, in the order in which they take the lock, the handlers lead from the first
-- thread through every other one and back: a new thread is always the second.
pub join_rings-IsRing :
    (ts : List ℕ) (r : Ring) (xs : List ℕ)
    → IsRing r xs
    → Distinct xs
    → AllNew xs ts
    → IsRing (join_rings r ts) (join_all xs ts)
unfolding join_rings
join_rings-IsRing [] r xs ring distinct new = ring
join_rings-IsRing (t ∷ ts) r xs ring distinct new =
    join_rings-IsRing ts (join_ring t r) (join_list t xs)
      (join_ring-IsRing t r xs ring distinct new.0) (join_list-Distinct t xs distinct new.0) new.1
