-- ===== src/Schedule/Reaped.antt =====
-- events/thread.c and schedule.c: the end of the threads. reap_threads sends one signal to the
-- process, and rxcommonsignal passes it on along the ring of `nexttid` and joins the next thread.
-- The join of reap_thread itself, which the caller's thread makes, is not part of the states: it waits
-- for one thread of the ring and changes none of them.
pub mod Cycle
pub mod Stuck
pub mod Shape
pub mod Ends
use libtorque.Base.{ℕ, zero, suc, ◌<◌, ◌≡◌, Bool, true, false, ◌==◌, if◌then◌else◌}

-- Where a thread stands: in event_thread, in pthread_join of rxcommonsignal, or after pthread_exit.
pub data Phase : Type 0 where
  running joining exited : Phase

-- The threads, with those that EVTHREAD_TERM is pending for.
pub record Threads : Type 0 where
  pub phase : ℕ → Phase
  pub signalled : ℕ → Bool

abbrev pub with_value : {A : Type 0} → ℕ → A → (ℕ → A) → ℕ → A
with_value i v f z = if z == i then v else f z

-- The thread after `n` others.
abbrev pub iterate : (ℕ → ℕ) → ℕ → ℕ → ℕ
iterate next zero x = x
iterate next (suc n) x = next (iterate next n x)

-- Joining the next thread would close a circle of joins.
abbrev pub Closes : (ℕ → ℕ) → Threads → ℕ → Type 0
Closes next s i =
    (m : ℕ) × (iterate next (suc m) i ≡ i)
    × ((j : ℕ) → j < m → s.phase (iterate next (suc j) i) ≡ joining)

-- pthread_join may report such a circle by EDEADLK, but need not. `reported` is whether it does, by the
-- number of threads in the circle.
abbrev pub Reported : (ℕ → Bool) → (ℕ → ℕ) → Threads → ℕ → Type 0
Reported reported next s i = (c : Closes next s i) × (reported (suc c.0) ≡ true)

-- pthread_kill of the next thread, and pthread_join of it.
abbrev pub passed_on : (ℕ → ℕ) → ℕ → Phase → Threads → Threads
passed_on next i p s = record {
  phase = with_value i p s.phase;
  signalled = with_value (next i) true s.signalled;
}

-- One step of one thread: rxcommonsignal up to pthread_join, which blocks or returns EDEADLK, or the
-- return of pthread_join with the rest of rxcommonsignal.
pub data Step (reported : ℕ → Bool) (next : ℕ → ℕ) (s : Threads) : Threads → Type 0 where
  blocks :
      (i : ℕ)
      → s.phase i ≡ running
      → s.signalled i ≡ true
      → ¬ Reported reported next s i
      → Step reported next s (passed_on next i joining s)
  detects :
      (i : ℕ)
      → s.phase i ≡ running
      → s.signalled i ≡ true
      → Reported reported next s i
      → Step reported next s (passed_on next i exited s)
  returns :
      (i : ℕ)
      → s.phase i ≡ joining
      → s.phase (next i) ≡ exited
      → Step reported next s (record s { phase = with_value i exited s.phase })

-- After kill(2) of reap_thread, where `first` is the thread that takes the signal.
abbrev pub killed : ℕ → Threads
killed first = record { phase = λ i. running; signalled = with_value first true (λ i. false) }

-- The states after a number of steps, in any order.
pub data Reach (reported : ℕ → Bool) (next : ℕ → ℕ) (first : ℕ) : ℕ → Threads → Type 0 where
  start : Reach reported next first 0 (killed first)
  later :
      {n : ℕ} {s t : Threads}
      → Reach reported next first n s
      → Step reported next s t
      → Reach reported next first (suc n) t
