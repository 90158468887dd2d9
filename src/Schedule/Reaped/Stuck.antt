-- ===== src/Schedule/Reaped/Stuck.antt =====
-- events/thread.c: where pthread_join does not report the circle, every thread waits for the next.
use libtorque.Base.{ℕ, suc, ◌<◌, ◌≡◌, inl, inr, sym, ap, ◌∙◌, true, dec_lt, arith}
use libtorque.Schedule.Reaped.{running, joining, exited, Threads, with_value, Closes, passed_on}
use libtorque.Schedule.Reaped.Cycle.{IsCycle}
use libtorque.Schedule.Reaped.Shape.{
  same_value, other_value, is_it, joining_running, joining_exited, at, Passing, around,
}

module _ (next : ℕ → ℕ) (first n : ℕ) (c : IsCycle next first n) where
  -- A circle that closes is the whole ring.
  pub Closes-last :
      (k : ℕ) (s : Threads)
      → Passing next first n c k s
      → suc k ≡ n
      → (closes : Closes next s (at next first n c k)) → suc closes.0 ≡ n
  Closes-last k s p last (m, back, joins) = elim (dec_lt m k) [
    | yes less ↦
        let same =
          c.different m k (omega (arith, less, last)) p.inside
            (sym (around next first n c k m last) ∙ back) in
        absurd (omega (arith, same, less))
    | no geq ↦ elim (dec_lt k m) [
      | yes more ↦
          let runs = p.after k (omega arith) p.inside in
          absurd
            (joining_running (joins k more) (ap s.phase (around next first n c k k last) ∙ runs))
      | no leq ↦ omega (arith, last)
    ]
  ]

  -- All threads join, and no other has a signal.
  pub record Stuck (s : Threads) : Type 0 where
    pub waits : (j : ℕ) → j < n → s.phase (at next first n c j) ≡ joining
    pub only : (i : ℕ) → s.phase i ≡ running → s.signalled i ≡ true → ⊥
    pub joined : (i : ℕ) → s.phase i ≡ joining → (j : ℕ) × (j < n) × (i ≡ at next first n c j)

  pub blocks-Stuck :
      (k : ℕ) (s : Threads)
      → Passing next first n c k s
      → suc k ≡ n
      → Stuck (passed_on next (at next first n c k) joining s)
  blocks-Stuck k s p last = record { waits = waits'; only = only'; joined = joined' }
    where
      here : ℕ
      here = at next first n c k

      waits' : (j : ℕ) → j < n → with_value here joining s.phase (at next first n c j) ≡ joining
      waits' j inside = elim (is_it (at next first n c j) here) [
        | inl e ↦ ap (with_value here joining s.phase) e ∙ same_value here joining s.phase
        | inr differ ↦ elim (dec_lt j k) [
          | yes less ↦ other_value here _ joining s.phase differ ∙ p.before j less
          | no geq ↦
              let e : j ≡ k = omega (arith, inside, last) in
              absurd (differ (ap (λ m. at next first n c m) e))
        ]
      ]

      only' :
          (i : ℕ)
          → with_value here joining s.phase i ≡ running
          → with_value (next here) true s.signalled i ≡ true
          → ⊥
      only' i runs pends = elim (is_it i here) [
        | inl e ↦
            joining_running
              (ap (with_value here joining s.phase) e ∙ same_value here joining s.phase) runs
        | inr differ ↦ elim (is_it i (next here)) [
          | inl e ↦
              let first_is = e ∙ ap (λ m. at next first n c m) last ∙ c.closed in
              let starts = waits' 0 (omega (arith, last)) in
              joining_running (ap (with_value here joining s.phase) first_is ∙ starts) runs
          | inr differ' ↦ differ (
              p.only i (sym (other_value here i joining s.phase differ) ∙ runs)
                (sym (other_value (next here) i true s.signalled differ') ∙ pends))
        ]
      ]

      joined' :
          (i : ℕ)
          → with_value here joining s.phase i ≡ joining
          → (j : ℕ) × (j < n) × (i ≡ at next first n c j)
      joined' i joins = elim (is_it i here) [
        | inl e ↦ (k, p.inside, e)
        | inr differ ↦
            let (j, less, e) =
              p.joined i (sym (other_value here i joining s.phase differ) ∙ joins) in
            (j, omega (arith, less, p.inside), e)
      ]

  -- No pthread_join returns.
  pub never_returns :
      (i : ℕ) (s : Threads) → Stuck s → s.phase i ≡ joining → s.phase (next i) ≡ exited → ⊥
  never_returns i s u joins ends =
      let (j, below, e) = u.joined i joins in
      let ends' = ap (λ z. s.phase (next z)) (sym e) ∙ ends in
      elim (dec_lt (suc j) n) [
        | yes less ↦ joining_exited (u.waits (suc j) less) ends'
        | no geq ↦
            let last : suc j ≡ n = omega (arith, below) in
            joining_exited (u.waits 0 (omega (arith, below)))
              (ap s.phase (sym c.closed ∙ ap (λ m. at next first n c m) (sym last)) ∙ ends')
      ]
