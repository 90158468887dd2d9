-- ===== src/Schedule/Reaped/Ends.antt =====
-- events/thread.c: every order of steps passes the signal once around the ring, and then the threads
-- exit one after the other.
use libtorque.Base.{ℕ, ◌+◌, ◌*◌, ◌≡◌, ◌⊎◌, true, false, Bool}
use libtorque.Schedule.Reaped.{Threads}
use libtorque.Schedule.Reaped.Cycle.{IsCycle}
use libtorque.Schedule.Reaped.Stuck.{Stuck}
use libtorque.Schedule.Reaped.Shape.{Passing, Unwinding}

module _ (reported : ℕ → Bool) (next : ℕ → ℕ) (first n : ℕ) (c : IsCycle next first n) where
  -- Where the threads stand after `len` steps.
  abbrev Stands : ℕ → Threads → Type 0
  Stands len s =
      ((k : ℕ) × (len ≡ k) × Passing next first n c k s)
      ⊎ (((k : ℕ) × (len + k + 1 ≡ 2 * n) × (reported n ≡ true) × Unwinding next first n c k s)
          ⊎ ((len ≡ n) × (reported n ≡ false) × Stuck next first n c s))
