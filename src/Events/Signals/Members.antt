-- ===== src/Events/Signals/Members.antt =====
-- events/signal.c and events/sysdep.c: which signals a registration covers, and the calls that their
-- delivery leads to.
use libtorque.Base.{
  ℕ, zero, suc, ◌+◌, ◌<◌, ◌≤◌, ◌≡◌, refl, ap, ◌∙◌, Bool, true, false, ◌&&◌, List, Option, none,
  some, ok, ltb, leb, ◌==◌, ==_iff, if◌then◌else◌, arith, Bool-cases, inl, inr,
}
use libtorque.Events.Sources.{EvSource, setup_evsource}
use libtorque.Events.Registry.{Sources, Reads, setup, register-Reads, register}
use libtorque.Events.Dispatch.Added.{source}
use libtorque.Events.Signals.{setup_signals}

-- The signals that a loop of `left` rounds from `z` on registers.
abbrev pub covered : (ℕ → Bool) → ℕ → ℕ → ℕ → Bool
covered sigs left z y = leb z y && (ltb y (z + left) && sigs y)

if_same : {A : Type 0} (b : Bool) (x : A) → (if b then x else x) ≡ x
if_same true x = refl
if_same false x = refl

nothing_between : (b : Bool) (z y : ℕ) → (leb z y && (ltb y (z + 0) && b)) ≡ false
nothing_between b z y = elim (Bool-cases (leb z y)) [
  | inl e ↦ let beyond : ltb y (z + 0) ≡ false = ground (arith, e) in rw (e, beyond) refl
  | inr e ↦ rw (e) refl
]

covered_next :
    (sigs : ℕ → Bool) (left z y : ℕ) (s old : EvSource)
    → (if covered sigs left (suc z) y
        then s
        else (if sigs z then (if y == z then s else old) else old))
      ≡ (if covered sigs (suc left) z y then s else old)
covered_next sigs left z y s old = elim (Bool-cases (y == z)) [
  | inl e ↦
      let same = (==_iff y z).0 e in
      let before : leb (suc z) y ≡ false = ground (arith, same) in
      let here : leb z y ≡ true = ground (arith, same) in
      let inside : ltb y (z + suc left) ≡ true = ground (arith, same) in
      let member : sigs y ≡ sigs z = ap sigs same in rw (before, here, inside, member, e) refl
  | inr e ↦
      let low : leb (suc z) y ≡ leb z y = ground (arith, e) in
      let high : ltb y (suc z + left) ≡ ltb y (z + suc left) = ground arith in
      rw (low, high, e)
        (ap (λ (o : EvSource). if covered sigs (suc left) z y then s else o) (if_same (sigs z) old))
]

Reads-cong :
    (n : ℕ) (evs : List EvSource) (sources sources' : Sources)
    → ((y : ℕ) → sources y ≡ sources' y)
    → Reads n evs sources
    → Reads n evs sources'
Reads-cong n evs sources sources' same reads = record {
  size = reads.size;
  entries = λ z below. reads.entries z below ∙ ap some (same z);
}

-- One round of the loop.
setup_signal-Reads :
    (n : ℕ) (rfxn : Option ℕ) (v z : ℕ) (evs : List EvSource) (sources : Sources) (member : Bool)
    → Reads n evs sources
    → z < n
    → (evs' : List EvSource) × ((if member then setup_evsource evs z rfxn none v else ok evs)
        ≡ ok evs')
      × Reads n evs'
          (λ y. if member then (if y == z then source rfxn none v else sources y) else sources y)
unfolding register
setup_signal-Reads n rfxn v z evs sources false reads below = (evs, refl, reads)
setup_signal-Reads n rfxn v z evs sources true reads below =
    register-Reads n evs sources (setup z rfxn none v) reads below

pub setup_signals-Reads :
    (n : ℕ) (sigs : ℕ → Bool) (rfxn : Option ℕ) (v left z : ℕ) (evs : List EvSource)
    (sources : Sources)
    → Reads n evs sources
    → z + left ≤ n
    → (evs' : List EvSource) × (setup_signals sigs rfxn v left z evs ≡ ok evs')
      × Reads n evs' (λ y. if covered sigs left z y then source rfxn none v else sources y)
unfolding setup_signals
setup_signals-Reads n sigs rfxn v zero z evs sources reads below =
    (evs, refl, Reads-cong n evs _ _ (λ y. none_covered y) reads)
  where
    none_covered :
        (y : ℕ) → sources y ≡ (if covered sigs 0 z y then source rfxn none v else sources y)
    none_covered y =
        let out : covered sigs 0 z y ≡ false = nothing_between (sigs y) z y in rw (out) refl
setup_signals-Reads n sigs rfxn v (suc left) z evs sources reads below =
    let one = setup_signal-Reads n rfxn v z evs sources (sigs z) reads (omega (arith, below)) in
    let step = one.1 in
    let rest =
      setup_signals-Reads n sigs rfxn v left (suc z) one.0 _ one.2 (omega (arith, below)) in
    (
      rest.0,
      rw (step) rest.1,
      Reads-cong n rest.0 _ _ (λ y. covered_next sigs left z y _ (sources y)) rest.2,
    )
