-- ===== src/Schedule/Reaped/Cycle.antt =====
-- schedule.c: the ring of threads as a circle of `nexttid`.
use libtorque.Base.{
  ◌-◌, dec_lt, ℕ, zero, suc, ◌+◌, ◌<◌, ◌≤◌, ◌≡◌, ◌≢◌, refl, sym, ap, ◌∙◌, subst, List, [], ◌∷◌,
  length, All, arith, get_elem?, some, All-get_elem?,
}
use libtorque.Schedule.Joined.{Leads, Distinct}
use libtorque.Schedule.Reaped.{iterate}

-- From `first` the handlers lead through `n` different threads and back.
pub record IsCycle (next : ℕ → ℕ) (first n : ℕ) : Type 0 where
  pub some_thread : 0 < n
  pub closed : iterate next n first ≡ first
  pub different : (j k : ℕ) → j < n → k < n → iterate next j first ≡ iterate next k first → j ≡ k

pub iterate_first : (next : ℕ → ℕ) (n x : ℕ) → iterate next n (next x) ≡ iterate next (suc n) x
iterate_first next zero x = refl
iterate_first next (suc n) x = ap next (iterate_first next n x)

pub iterate_add :
    (next : ℕ → ℕ) (a b x : ℕ) → iterate next a (iterate next b x) ≡ iterate next (a + b) x
iterate_add next zero b x = ap (λ n. iterate next n x) (omega arith)
iterate_add next (suc a) b x =
    let e : suc (a + b) ≡ suc a + b = omega arith in
    ap next (iterate_add next a b x) ∙ ap (λ n. iterate next n x) e

-- The threads of a ring's list, by their places.
pub Leads-get_elem? :
    (next : ℕ → ℕ) (x : ℕ) (xs : List ℕ) (end k : ℕ)
    → Leads next x xs end
    → k < suc (length xs)
    → get_elem? (x ∷ xs) k ≡ some (iterate next k x)
Leads-get_elem? next x xs end zero leads inside = refl
Leads-get_elem? next x [] end (suc k) leads inside = absurd (omega (arith, inside))
Leads-get_elem? next x (y ∷ ys) end (suc k) leads inside =
    Leads-get_elem? next y ys end k leads.1 (omega (arith, inside))
    ∙ ap (λ z. some (iterate next k z)) (sym leads.0)
    ∙ ap some (iterate_first next k x)

Leads-closed :
    (next : ℕ → ℕ) (x : ℕ) (xs : List ℕ) (end : ℕ)
    → Leads next x xs end
    → iterate next (suc (length xs)) x ≡ end
Leads-closed next x [] end leads = leads
Leads-closed next x (y ∷ ys) end leads =
    sym (iterate_first next (suc (length ys)) x)
    ∙ ap (iterate next (suc (length ys))) leads.0
    ∙ Leads-closed next y ys end leads.1

Distinct-get_elem? :
    (xs : List ℕ) (j k v : ℕ)
    → Distinct xs
    → get_elem? xs j ≡ some v
    → get_elem? xs k ≡ some v
    → j ≡ k
Distinct-get_elem? [] j k v distinct h h' = absurd (cc h)
Distinct-get_elem? (x ∷ xs) zero zero v distinct h h' = refl
Distinct-get_elem? (x ∷ xs) zero (suc k) v distinct h h' =
    absurd (All-get_elem? (λ z. z ≢ x) xs k v distinct.0 h' (cc h))
Distinct-get_elem? (x ∷ xs) (suc j) zero v distinct h h' =
    absurd (All-get_elem? (λ z. z ≢ x) xs j v distinct.0 h (cc h'))
Distinct-get_elem? (x ∷ xs) (suc j) (suc k) v distinct h h' =
    ap suc (Distinct-get_elem? xs j k v distinct.1 h h')

-- A ring of different threads is a circle.
pub Leads-IsCycle :
    (next : ℕ → ℕ) (x : ℕ) (xs : List ℕ)
    → Leads next x xs x
    → Distinct (x ∷ xs)
    → IsCycle next x (suc (length xs))
Leads-IsCycle next x xs leads distinct = record {
  some_thread = omega arith;
  closed = Leads-closed next x xs x leads;
  different = λ j k in_j in_k e.
      Distinct-get_elem? (x ∷ xs) j k (iterate next k x) distinct
        (Leads-get_elem? next x xs x j leads in_j ∙ ap some e)
        (Leads-get_elem? next x xs x k leads in_k);
}

-- A circle from any of its threads.
pub IsCycle-iterate :
    {next : ℕ → ℕ} {first n : ℕ} (k : ℕ)
    → k < n
    → IsCycle next first n
    → IsCycle next (iterate next k first) n
IsCycle-iterate {next} {first} {n} k below c = record {
  some_thread = c.some_thread;
  closed =
      iterate_add next n k first
      ∙ ap (λ m. iterate next m first) (swapped n k)
      ∙ sym (iterate_add next k n first)
      ∙ ap (iterate next k) c.closed;
  different = λ i j in_i in_j e.
      by_place i j in_i in_j (sym (iterate_add next i k first) ∙ e ∙ iterate_add next j k first);
}
  where
    swapped : (a b : ℕ) → a + b ≡ b + a
    swapped a b = omega arith

    -- Beyond the first round.
    back : (m : ℕ) → n ≤ m → iterate next m first ≡ iterate next (m - n) first
    back m over =
        let e : m ≡ (m - n) + n = omega arith in
        ap (λ z. iterate next z first) e
        ∙ sym (iterate_add next (m - n) n first)
        ∙ ap (iterate next (m - n)) c.closed

    by_place :
        (i j : ℕ) → i < n → j < n → iterate next (i + k) first ≡ iterate next (j + k) first → i ≡ j
    by_place i j in_i in_j e = elim (dec_lt (i + k) n) [
      | yes near ↦ elim (dec_lt (j + k) n) [
        | yes near' ↦ let same = c.different (i + k) (j + k) near near' e in omega (arith, same)
        | no far' ↦
            let same =
              c.different (i + k) (j + k - n) near (omega arith) (e ∙ back (j + k) (omega arith)) in
            absurd (omega (arith, same, in_j, in_i))
      ]
      | no far ↦ elim (dec_lt (j + k) n) [
        | yes near' ↦
            let same =
              c.different (i + k - n) (j + k) (omega arith) near'
                (sym (back (i + k) (omega arith)) ∙ e) in
            absurd (omega (arith, same, in_i, in_j))
        | no far' ↦
            let same =
              c.different (i + k - n) (j + k - n) (omega arith) (omega arith)
                (sym (back (i + k) (omega arith)) ∙ e ∙ back (j + k) (omega arith)) in
            omega (arith, same)
      ]
    ]

-- Every thread is some places after any other.
pub reaches_all :
    {next : ℕ → ℕ} {first n : ℕ} (k m : ℕ)
    → k < n
    → m < n
    → IsCycle next first n
    → (j : ℕ) × (j < n) × (iterate next j (iterate next k first) ≡ iterate next m first)
reaches_all {next} {first} {n} k m in_k in_m c = elim (dec_lt m k) [
  | yes less ↦
      let e : (m + n - k) + k ≡ m + n = omega arith in
      (
        m + n - k,
        omega arith,
        iterate_add next (m + n - k) k first
            ∙ ap (λ z. iterate next z first) e
            ∙ sym (iterate_add next m n first)
            ∙ ap (iterate next m) c.closed,
      )
  | no geq ↦
      let e : (m - k) + k ≡ m = omega arith in
      (m - k, omega arith, iterate_add next (m - k) k first ∙ ap (λ z. iterate next z first) e)
]

-- What holds of every place of a ring holds of all its threads.
pub Leads-All :
    (P : ℕ → Type 0) (next : ℕ → ℕ) (x : ℕ) (xs : List ℕ) (end : ℕ)
    → Leads next x xs end
    → ((m : ℕ) → m < suc (length xs) → P (iterate next m x))
    → All P (x ∷ xs)
Leads-All P next x [] end leads holds = (holds 0 (omega arith), tt)
Leads-All P next x (y ∷ ys) end leads holds = (
  holds 0 (omega arith),
  Leads-All P next y ys end leads.1 (λ m inside.
      subst P (sym (iterate_first next m x) ∙ ap (iterate next m) leads.0)
        (holds (suc m) (omega (arith, inside)))),
)
