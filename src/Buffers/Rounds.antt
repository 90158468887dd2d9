-- ===== src/Buffers/Rounds.antt =====
-- buffers.c: how many rounds buffered_rxfxn takes.
use libtorque.Base.{
  ℕ, zero, suc, ◌<◌, Bool, true, false, Option, none, some, arith, ◌==◌, nonzero, Bool-cases, inl,
  inr,
}
use libtorque.Buffers.{RxBuf, minus, rxbuffer_valid}
use libtorque.Buffers.Callbacks.{
  Answer, bytes, end, again, interrupted, broken, Host, Link, Turn, ready, ended, out_of_fuel,
  Ending, growrxbuf, call_rx, rxback, and_then, room, grow_full, enlarged, make_room, restore,
  respond, read_once, buffered_rxfxn,
}

abbrev pub Continues : Answer → Type 0
Continues (bytes bs) = Unit
Continues interrupted = Unit
Continues end = ⊥
Continues again = ⊥
Continues broken = ⊥

abbrev pub Returns : {K C : Type 0} → Turn K C → Type 0
Returns (ready s) = ⊥
Returns (ended e s) = Unit
Returns out_of_fuel = ⊥

-- A turn ends the loop, or goes on with a kernel that satisfies `P`.
abbrev Goes : {K C : Type 0} → (K → Type 0) → Turn K C → Type 0
Goes P (ready s) = P s.kernel
Goes P (ended e s) = Unit
Goes P out_of_fuel = ⊥

module _ {K C : Type 0} (h : Host K C) where
  Goes-then :
      (P Q : K → Type 0) (r : Turn K C) (f : Link K C → Turn K C)
      → Goes P r
      → ((s : Link K C) → P s.kernel → Goes Q (f s))
      → Goes Q (and_then r f)
  Goes-then P Q (ready s) f p k = k s p
  Goes-then P Q (ended e s) f p k = tt
  Goes-then P Q out_of_fuel f p k = p

  restore-Goes :
      (P : K → Type 0) (works : Bool) (e : Ending) (s : Link K C) → Goes P (restore works e s)
  restore-Goes P true e s = tt
  restore-Goes P false e s = tt

  call_rx-Goes : (P : K → Type 0) (s : Link K C) → P s.kernel → Goes P (call_rx h s)
  unfolding call_rx
  call_rx-Goes P s p = elim (Bool-cases (h.rx s.client (rxbuffer_valid s.rxb)).stops) [
    | inl e ↦ rw (e) tt
    | inr e ↦ rw (e) p
  ]

  rxback-Goes : (P : K → Type 0) (s : Link K C) → P s.kernel → Goes P (rxback h s)
  unfolding rxback
  rxback-Goes P s p = elim (Bool-cases (nonzero (minus s.rxb.bufoff s.rxb.bufate))) [
    | inl e ↦ rw (e) (call_rx-Goes P s p)
    | inr e ↦ rw (e) p
  ]

  enlarged-Goes :
      (P : K → Type 0) (s : Link K C) (o : Option RxBuf) → P s.kernel → Goes P (enlarged s o)
  enlarged-Goes P s none p = tt
  enlarged-Goes P s (some rxb) p = p

  make_room-Goes : (P : K → Type 0) (s : Link K C) → P s.kernel → Goes P (make_room h s)
  unfolding make_room grow_full
  make_room-Goes P s p = elim (Bool-cases (room s.rxb == 0)) [
    | inr e ↦ rw (e) p
    | inl e ↦ rw (e) (Goes-then P P _ _ (rxback-Goes P s p) λ s' p'. grown s' p')
  ]
    where
      grown : (s' : Link K C) → P s'.kernel → Goes P (grow_full h s')
      grown s' p' = elim (Bool-cases (room s'.rxb == 0)) [
        | inl e ↦ rw (e) (enlarged-Goes P s' (growrxbuf h s'.rxb) p')
        | inr e ↦ rw (e) p'
      ]

  respond-Goes :
      (P : K → Type 0) (a : Answer) (s : Link K C)
      → (Continues a → P s.kernel)
      → Goes P (respond h a s)
  unfolding respond
  respond-Goes P (bytes bs) s p = p tt
  respond-Goes P interrupted s p = p tt
  respond-Goes P end s p =
      Goes-then (λ _. Unit) P _ _ (call_rx-Goes (λ _. Unit) s tt) λ s' _. restore-Goes P _ _ s'
  respond-Goes P again s p =
      Goes-then (λ _. Unit) P _ _ (rxback-Goes (λ _. Unit) s tt) λ s' _. restore-Goes P _ _ s'
  respond-Goes P broken s p = tt

  next_round :
      (P : K → Type 0) (r : Turn K C) (f : Link K C → Turn K C)
      → Goes P r
      → ((s : Link K C) → P s.kernel → Returns (f s))
      → Returns (and_then r f)
  next_round P (ready s) f p k = k s p
  next_round P (ended e s) f p k = tt
  next_round P out_of_fuel f p k = absurd p

  -- Where each read of bytes and each interruption lowers a measure of the kernel, buffered_rxfxn
  -- returns: one round more than the measure of the kernel at the start is enough.
  pub buffered_rxfxn-Returns :
      (left : K → ℕ)
      → ((k : K) (n : ℕ) → Continues (h.read k n).answer → left (h.read k n).kernel < left k)
      → (fuel : ℕ) (s : Link K C) → left s.kernel < fuel
      → Returns (buffered_rxfxn fuel h s)
  unfolding buffered_rxfxn read_once
  buffered_rxfxn-Returns left less zero s lt = absurd (omega (arith, lt))
  buffered_rxfxn-Returns left less (suc fuel) s lt =
      next_round (λ k. left k < fuel) _ (λ s'. buffered_rxfxn fuel h s') once
        (buffered_rxfxn-Returns left less fuel)
    where
      once : Goes (λ k. left k < fuel) (and_then (make_room h s) (read_once h))
      once =
          Goes-then (λ k. left k < suc fuel) (λ k. left k < fuel) _ _
            (make_room-Goes (λ k. left k < suc fuel) s lt)
            λ s' p.
              respond-Goes (λ k. left k < fuel) _
                (record s' { kernel = (h.read s'.kernel (room s'.rxb)).kernel })
                λ c. omega (arith, p, less s'.kernel (room s'.rxb) c)
