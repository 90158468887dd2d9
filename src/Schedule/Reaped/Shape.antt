-- ===== src/Schedule/Reaped/Shape.antt =====
-- events/thread.c: the two shapes of the threads while they end, and the steps between them.
use libtorque.Base.{
  ℕ, zero, suc, ◌<◌, ◌≤◌, ◌≡◌, ◌≢◌, ◌⊎◌, inl, inr, refl, sym, ap, ◌∙◌, subst, true, ◌==◌, ==_iff,
  Bool-cases, dec_lt, arith,
}
use libtorque.Schedule.Reaped.{
  Phase, running, joining, exited, Threads, with_value, iterate, Closes, passed_on,
}
use libtorque.Schedule.Reaped.Cycle.{IsCycle, iterate_first}

pub same_value : {A : Type 0} (i : ℕ) (v : A) (f : ℕ → A) → with_value i v f i ≡ v
same_value i v f = let same = (==_iff i i).1 refl in rw (same) refl

pub other_value : {A : Type 0} (i z : ℕ) (v : A) (f : ℕ → A) → z ≢ i → with_value i v f z ≡ f z
other_value i z v f apart = elim (Bool-cases (z == i)) [
  | inl e ↦ absurd (apart ((==_iff z i).0 e))
  | inr e ↦ rw (e) refl
]

pub is_it : (z i : ℕ) → (z ≡ i) ⊎ (z ≢ i)
is_it z i = elim (Bool-cases (z == i)) [
  | inl e ↦ inl ((==_iff z i).0 e)
  | inr e ↦ inr (λ same. cc ((==_iff z i).1 same))
]

pub joining_running : {x : Phase} → x ≡ joining → x ≡ running → ⊥
joining_running e e' = cc (e, e')

exited_running : {x : Phase} → x ≡ exited → x ≡ running → ⊥
exited_running e e' = cc (e, e')

pub joining_exited : {x : Phase} → x ≡ joining → x ≡ exited → ⊥
joining_exited e e' = cc (e, e')

module _ (next : ℕ → ℕ) (first n : ℕ) (c : IsCycle next first n) where
  -- The thread at a place of the ring.
  abbrev pub at : ℕ → ℕ
  at k = iterate next k first

  apart : (j k : ℕ) → j < n → k < n → j ≢ k → at j ≢ at k
  apart j k in_j in_k differ e = differ (c.different j k in_j in_k e)

  -- The signal is at place `k`: the threads before it join, the others run.
  pub record Passing (k : ℕ) (s : Threads) : Type 0 where
    pub inside : k < n
    pub before : (j : ℕ) → j < k → s.phase (at j) ≡ joining
    pub after : (j : ℕ) → k ≤ j → j < n → s.phase (at j) ≡ running
    pub pending : s.signalled (at k) ≡ true
    pub only : (i : ℕ) → s.phase i ≡ running → s.signalled i ≡ true → i ≡ at k
    pub joined : (i : ℕ) → s.phase i ≡ joining → (j : ℕ) × (j < k) × (i ≡ at j)

  -- The threads from place `k` on have exited, and those before it join.
  pub record Unwinding (k : ℕ) (s : Threads) : Type 0 where
    pub inside : k < n
    pub before : (j : ℕ) → j < k → s.phase (at j) ≡ joining
    pub after : (j : ℕ) → k ≤ j → j < n → s.phase (at j) ≡ exited
    pub only : (i : ℕ) → s.phase i ≡ running → s.signalled i ≡ true → ⊥
    pub joined : (i : ℕ) → s.phase i ≡ joining → (j : ℕ) × (j < k) × (i ≡ at j)

  pub around : (k j : ℕ) → suc k ≡ n → iterate next (suc j) (at k) ≡ at j
  around k j last =
      sym (iterate_first next j (at k))
      ∙ ap (λ m. iterate next j (at m)) last
      ∙ ap (iterate next j) c.closed

  pub last-Closes : (k : ℕ) (s : Threads) → Passing k s → suc k ≡ n → Closes next s (at k)
  last-Closes k s p last =
      (k, around k k last, λ j below. ap s.phase (around k j last) ∙ p.before j below)

  pub not_last-Closes : (k : ℕ) (s : Threads) → Passing k s → suc k < n → ¬ Closes next s (at k)
  not_last-Closes k s p more (zero, back, joins) =
      absurd (apart (suc k) k more p.inside (λ e. absurd (omega (arith, e))) back)
  not_last-Closes k s p more (suc m, back, joins) =
      let runs = p.after (suc k) (omega arith) more in
      let joins_next = joins 0 (omega arith) in cc (runs, joins_next)

  pub blocks-Passing :
      (k : ℕ) (s : Threads)
      → Passing k s
      → suc k < n
      → Passing (suc k) (passed_on next (at k) joining s)
  blocks-Passing k s p more = record {
    inside = more;
    before = before';
    after = λ j from inside.
        other_value (at k) (at j) joining s.phase
          (apart j k inside p.inside (λ e. absurd (omega (arith, e, from))))
        ∙ p.after j (omega (arith, from)) inside;
    pending = same_value (at (suc k)) true s.signalled;
    only = only';
    joined = joined';
  }
    where
      before' : (j : ℕ) → j < suc k → with_value (at k) joining s.phase (at j) ≡ joining
      before' j below = elim (dec_lt j k) [
        | yes less ↦
            other_value (at k) (at j) joining s.phase (
              apart j k (omega (arith, less, p.inside)) p.inside
                (λ e. absurd (omega (arith, e, less))))
            ∙ p.before j less
        | no geq ↦
            let e : j ≡ k = omega (arith, below) in
            ap (λ z. with_value (at k) joining s.phase (at z)) e ∙ same_value (at k) joining s.phase
      ]

      only' :
          (i : ℕ)
          → with_value (at k) joining s.phase i ≡ running
          → with_value (at (suc k)) true s.signalled i ≡ true
          → i ≡ at (suc k)
      only' i runs pends = elim (is_it i (at (suc k))) [
        | inl e ↦ e
        | inr differ ↦ elim (is_it i (at k)) [
          | inl e ↦
              let joins =
                ap (with_value (at k) joining s.phase) e ∙ same_value (at k) joining s.phase in
              absurd (joining_running joins runs)
          | inr differ' ↦ absurd (
              differ' (
                p.only i (sym (other_value (at k) i joining s.phase differ') ∙ runs)
                  (sym (other_value (at (suc k)) i true s.signalled differ) ∙ pends)))
        ]
      ]

      joined' :
          (i : ℕ)
          → with_value (at k) joining s.phase i ≡ joining
          → (j : ℕ) × (j < suc k) × (i ≡ at j)
      joined' i joins = elim (is_it i (at k)) [
        | inl e ↦ (k, omega arith, e)
        | inr differ ↦
            let (j, less, e) =
              p.joined i (sym (other_value (at k) i joining s.phase differ) ∙ joins) in
            (j, omega (arith, less), e)
      ]

  pub detects-Unwinding :
      (k : ℕ) (s : Threads) → Passing k s → suc k ≡ n → Unwinding k (passed_on next (at k) exited s)
  detects-Unwinding k s p last = record {
    inside = p.inside;
    before = λ j below.
        other_value (at k) (at j) exited s.phase (
          apart j k (omega (arith, below, p.inside)) p.inside
            (λ e. absurd (omega (arith, e, below))))
        ∙ p.before j below;
    after = λ j from inside.
        let e : j ≡ k = omega (arith, from, inside, last) in
        ap (λ z. with_value (at k) exited s.phase (at z)) e ∙ same_value (at k) exited s.phase;
    only = only';
    joined = λ i joins. elim (is_it i (at k)) [
      | inl e ↦ absurd (
          joining_exited joins
            (ap (with_value (at k) exited s.phase) e ∙ same_value (at k) exited s.phase))
      | inr differ ↦ p.joined i (sym (other_value (at k) i exited s.phase differ) ∙ joins)
    ];
  }
    where
      -- The first thread does not run any more, unless it is the only one.
      first_runs : s.phase first ≡ running → first ≡ at k
      first_runs runs = elim (dec_lt 0 k) [
        | yes more ↦ absurd (joining_running (p.before 0 more) runs)
        | no none_before ↦ let e : k ≡ 0 = omega arith in sym (ap at e)
      ]

      only' :
          (i : ℕ)
          → with_value (at k) exited s.phase i ≡ running
          → with_value (at (suc k)) true s.signalled i ≡ true
          → ⊥
      only' i runs pends = elim (is_it i (at k)) [
        | inl e ↦
            exited_running
              (ap (with_value (at k) exited s.phase) e ∙ same_value (at k) exited s.phase) runs
        | inr differ ↦
            let runs' = sym (other_value (at k) i exited s.phase differ) ∙ runs in
            elim (is_it i (at (suc k))) [
              | inl e ↦
                  let first_is = e ∙ ap at last ∙ c.closed in
                  differ (first_is ∙ first_runs (sym (ap s.phase first_is) ∙ runs'))
              | inr differ' ↦ differ (
                  p.only i runs'
                    (sym (other_value (at (suc k)) i true s.signalled differ') ∙ pends))
            ]
      ]

  pub returns_never :
      (k i : ℕ) (s : Threads) → Passing k s → s.phase i ≡ joining → s.phase (next i) ≡ exited → ⊥
  returns_never k i s p joins ends =
      let (j, below, e) = p.joined i joins in
      let ends' = ap (λ z. s.phase (next z)) (sym e) ∙ ends in
      elim (dec_lt (suc j) k) [
        | yes less ↦ joining_exited (p.before (suc j) less) ends'
        | no geq ↦
            exited_running ends' (p.after (suc j) (omega arith) (omega (arith, below, p.inside)))
      ]

  pub returns-Unwinding :
      (k i : ℕ) (s : Threads)
      → Unwinding k s
      → s.phase i ≡ joining
      → s.phase (next i) ≡ exited
      → (j : ℕ) × (suc j ≡ k) × Unwinding j (record s { phase = with_value i exited s.phase })
  returns-Unwinding k i s u joins ends =
      let (j, below, e) = u.joined i joins in
      let ends' = ap (λ z. s.phase (next z)) (sym e) ∙ ends in
      elim (dec_lt (suc j) k) [
        | yes less ↦ absurd (joining_exited (u.before (suc j) less) ends')
        | no geq ↦
            let last : suc j ≡ k = omega (arith, below) in
            (
              j,
              last,
              subst (λ z. Unwinding j (record s { phase = with_value z exited s.phase })) (sym e)
                  (unwound j s (subst (λ m. Unwinding m s) (sym last) u)),
            )
      ]
    where
      unwound :
          (j : ℕ) (s : Threads)
          → Unwinding (suc j) s
          → Unwinding j (record s { phase = with_value (at j) exited s.phase })
      unwound j s u = record {
        inside = omega (arith, u.inside);
        before = λ m below.
            other_value (at j) (at m) exited s.phase (
              apart m j (omega (arith, below, u.inside)) (omega (arith, u.inside))
                (λ e. absurd (omega (arith, e, below))))
            ∙ u.before m (omega (arith, below));
        after = λ m from inside. elim (is_it m j) [
          | inl e ↦
              ap (λ z. with_value (at j) exited s.phase (at z)) e ∙ same_value (at j) exited s.phase
          | inr differ ↦
              other_value (at j) (at m) exited s.phase
                (apart m j inside (omega (arith, u.inside)) differ)
              ∙ u.after m (above m j from differ) inside
        ];
        only = λ i runs pends. elim (is_it i (at j)) [
          | inl e ↦
              exited_running
                (ap (with_value (at j) exited s.phase) e ∙ same_value (at j) exited s.phase) runs
          | inr differ ↦ u.only i (sym (other_value (at j) i exited s.phase differ) ∙ runs) pends
        ];
        joined = λ i joins. elim (is_it i (at j)) [
          | inl e ↦ absurd (
              joining_exited joins
                (ap (with_value (at j) exited s.phase) e ∙ same_value (at j) exited s.phase))
          | inr differ ↦
              let (m, below, e) =
                u.joined i (sym (other_value (at j) i exited s.phase differ) ∙ joins) in
              (m, under m j below (λ same. differ (e ∙ ap at same)), e)
        ];
      }
        where
          above : (m j : ℕ) → j ≤ m → m ≢ j → suc j ≤ m
          above m j from differ = omega (arith, from, differ)

          under : (m j : ℕ) → m < suc j → m ≢ j → m < j
          under m j below differ = omega (arith, below, differ)
