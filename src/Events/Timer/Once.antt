-- ===== src/Events/Timer/Once.antt =====
-- events/timer.c and events/timer.h: what a failed registration gives back, and what the expirations
-- of a timer lead to.
use libtorque.Base.{
  ℕ, suc, ◌+◌, ◌≡◌, refl, Bool, true, false, List, [], ◌∷◌, ◌++◌, Option, none, some, Run, ok, err,
  fault, arith,
}
use libtorque.Events.Sources.{World}
use libtorque.Events.Wait.{Kernel}
use libtorque.Events.Dispatch.{add_fd_to_evhandler}
use libtorque.Events.Timer.{
  Process, Reply, success, refused, syscall, minus_one, crash, Timerfd, opened, einval, enosys,
  other_error, timer_added, add_timer_to_evhandler, TimerCall, timer_curry, expire, malloced,
  opened_fd,
}

-- A success holds one more block and one more descriptor, and an error as many as before.
abbrev pub Balances : Process → Reply → Type 0
Balances p (success p') = (p'.heap ≡ p.heap + 1) × (p'.fds ≡ p.fds + 1)
Balances p (refused e p') = (p'.heap ≡ p.heap) × (p'.fds ≡ p.fds)
Balances p (syscall e p') = ⊥
Balances p (minus_one p') = ⊥
Balances p crash = Unit

timer_added-Balances :
    (p : Process) (r : Run World) → Balances p (timer_added (opened_fd (malloced p)) r)
timer_added-Balances p (ok w) = (refl, refl)
timer_added-Balances p (err w) = (omega arith, omega arith)
timer_added-Balances p Run.fault = tt
timer_added-Balances p Run.out_of_fuel = tt

-- Whatever fails, add_timer_to_evhandler gives back the block and the descriptor that it took, and
-- it returns an error of the library; where it succeeds, it holds one of each.
pub add_timer_to_evhandler-Balances :
    (kernel : Kernel) (passthru : ℕ) (tm : Option ℕ) (t : Timerfd) (settime_works : Bool)
    (p : Process)
    → Balances p (add_timer_to_evhandler kernel passthru tm t settime_works p)
unfolding add_timer_to_evhandler
add_timer_to_evhandler-Balances kernel passthru none t settime_works p = (refl, refl)
add_timer_to_evhandler-Balances kernel passthru (some tm) einval settime_works p =
    (omega arith, refl)
add_timer_to_evhandler-Balances kernel passthru (some tm) enosys settime_works p =
    (omega arith, refl)
add_timer_to_evhandler-Balances kernel passthru (some tm) other_error settime_works p =
    (omega arith, refl)
add_timer_to_evhandler-Balances kernel passthru (some tm) (opened fd) false p =
    (omega arith, omega arith)
add_timer_to_evhandler-Balances kernel passthru (some tm) (opened fd) true p =
    timer_added-Balances p (add_fd_to_evhandler kernel p.world fd (some passthru) none tm _)

-- The first expiration of a timer calls the client's function with its state, and a second one reads
-- the marshal after it was freed.
pub expire_lem :
    (n tfxn cbstate : ℕ) (calls : List TimerCall)
    → (expire 1 (record {
      marshal = record { tfxn = tfxn; cbstate = cbstate; is_freed = false };
      calls = calls;
    })
        ≡ ok (record {
          marshal = record { tfxn = tfxn; cbstate = cbstate; is_freed = true };
          calls = calls ++ (record { fxn = tfxn; state = cbstate } ∷ []);
        }))
      × (expire (n + 2) (record {
        marshal = record { tfxn = tfxn; cbstate = cbstate; is_freed = false };
        calls = calls;
      })
          ≡ fault)
unfolding expire timer_curry
expire_lem n tfxn cbstate calls =
    let more : n + 2 ≡ suc (suc n) = omega arith in (refl, rw (more) refl)
