-- ===== src/Events/Timer.antt =====
-- events/timer.c and events/timer.h: timers by timerfd.
pub mod Once
use libtorque.Base.{
  ℕ, zero, suc, ◌+◌, ◌-◌, Bool, true, false, not, List, [], ◌∷◌, ◌++◌, Option, none, some, Run, ok,
  err, fault, ◌>>=◌, if◌then◌else◌,
}
use libtorque.Errors.{TorqueErr, assert, resource, inval, unavail}
use libtorque.Events.Sources.{World, Request}
use libtorque.Events.Wait.{Kernel}
use libtorque.Events.Dispatch.{add_fd_to_evhandler}
use libtorque.Events.Signals.{no_flags}

-- A process: the tables with what was asked of the kernel, and how many blocks, runs of pages and
-- descriptors the library holds.
pub record Process : Type 0 where
  pub world : World
  pub heap : ℕ
  pub pages : ℕ
  pub fds : ℕ

-- The result of a call of the library: success, an error of it, `TORQUE_ERR_SYSCALL` with `errno`, or
-- -1.
pub data Reply : Type 0 where
  success : Process → Reply
  refused : TorqueErr → Process → Reply
  syscall : ℕ → Process → Reply
  minus_one : Process → Reply
  crash : Reply

-- What timerfd_create returns, with the errors that are told apart.
pub data Timerfd : Type 0 where
  opened : ℕ → Timerfd
  einval enosys other_error : Timerfd

abbrev pub malloced : Process → Process
malloced p = record p { heap = p.heap + 1 }

abbrev pub freed : Process → Process
freed p = record p { heap = p.heap - 1 }

abbrev pub opened_fd : Process → Process
opened_fd p = record p { fds = p.fds + 1 }

abbrev pub close_fd : Process → Process
close_fd p = record p { fds = p.fds - 1 }

-- After add_fd_to_evhandler.
abbrev pub timer_added : Process → Run World → Reply
timer_added p (ok w) = success (record p { world = w })
timer_added p (err w) = refused assert (freed (close_fd (record p { world = w })))
timer_added p Run.fault = crash
timer_added p Run.out_of_fuel = crash

-- After timerfd_create; `passthru` is the address of timer_passthru, and `tm` that of the marshal.
abbrev pub with_timerfd : Kernel → (passthru tm : ℕ) → Bool → Timerfd → Process → Reply
with_timerfd kernel passthru tm settime_works einval p = refused inval (freed p)
with_timerfd kernel passthru tm settime_works enosys p = refused unavail (freed p)
with_timerfd kernel passthru tm settime_works other_error p = refused resource (freed p)
with_timerfd kernel passthru tm settime_works (opened fd) p =
    let p' = opened_fd p in
    if not settime_works
    then refused inval (freed (close_fd p'))
    else timer_added p' (add_fd_to_evhandler kernel p'.world fd (some passthru) none tm no_flags)

-- `tm` is what malloc returns.
unfoldable pub add_timer_to_evhandler : Kernel → ℕ → Option ℕ → Timerfd → Bool → Process → Reply
add_timer_to_evhandler kernel passthru none t settime_works p = refused resource p
add_timer_to_evhandler kernel passthru (some tm) t settime_works p =
    with_timerfd kernel passthru tm settime_works t (malloced p)

-- `timerfd_marshal`, and whether it was freed.
pub record Marshal : Type 0 where
  pub tfxn : ℕ
  pub cbstate : ℕ
  pub is_freed : Bool

-- A call of the timer's callback with the client's state.
pub record TimerCall : Type 0 where
  pub fxn : ℕ
  pub state : ℕ

pub record Fired : Type 0 where
  pub marshal : Marshal
  pub calls : List TimerCall

unfoldable pub timer_curry : Fired → Run Fired
timer_curry f =
    let m = f.marshal in
    if m.is_freed
    then fault
    else ok (record {
      marshal = record m { is_freed = true };
      calls = f.calls ++ (record { fxn = m.tfxn; state = m.cbstate } ∷ []);
    })

-- timer_passthru for each expiration that the descriptor reports.
unfoldable pub expire : ℕ → Fired → Run Fired
expire zero f = ok f
expire (suc n) f = timer_curry f >>= (λ f'. expire n f')
