-- ===== src/Api.antt =====
-- torque.c: the calls by which a client adds event sources, with conn.c and the creation of a
-- receive buffer in buffers.h.
pub mod Owns
mod Tests
use libtorque.Base.{
  ℕ, ◌+◌, ◌-◌, Bool, true, false, ◌||◌, not, Option, none, some, Run, ok, err, fault, if◌then◌else◌,
}
use libtorque.Errors.{TorqueErr, assert, resource, inval, unavail}
use libtorque.Events.Sources.{World, EpollFlags}
use libtorque.Events.Wait.{Kernel}
use libtorque.Events.Dispatch.{add_fd_to_evhandler}
use libtorque.Events.Signals
use libtorque.Events.Signals.{Signalfd, add_signal_to_evhandler, no_flags, evthread_term}
use libtorque.Events.Timer.{
  Process, Reply, success, refused, syscall, minus_one, crash, malloced, freed, Timerfd,
  add_timer_to_evhandler,
}

-- The addresses of the library's callbacks.
pub record Callbacks : Type 0 where
  pub buffered_rxfxn : ℕ
  pub buffered_txfxn : ℕ
  pub conn_unbuffered_txfxn : ℕ
  pub signalfd_demultiplexer : ℕ
  pub timer_passthru : ℕ
  pub ctx : ℕ

-- `EVONESHOT`
abbrev pub oneshot : EpollFlags
oneshot = record no_flags { epolloneshot = true }

abbrev pub reply_of : Process → Run World → Reply
reply_of p (ok w) = success (record p { world = w })
reply_of p (err w) = minus_one (record p { world = w })
reply_of p Run.fault = crash
reply_of p Run.out_of_fuel = crash

-- An int that may be a descriptor: `none` is negative.
abbrev pub with_fd : Option ℕ → Process → (ℕ → Reply) → Reply
with_fd none p k = refused inval p
with_fd (some fd) p k = k fd

unfoldable pub torque_addfd_unbuffered :
    Kernel → Option ℕ → Option ℕ → Option ℕ → ℕ → Process → Reply
torque_addfd_unbuffered kernel fd rx tx state p =
    with_fd fd p (λ n. reply_of p (add_fd_to_evhandler kernel p.world n rx tx state oneshot))

unfoldable pub torque_addfd_concurrent :
    Kernel → Option ℕ → Option ℕ → Option ℕ → ℕ → Process → Reply
torque_addfd_concurrent kernel fd rx tx state p =
    with_fd fd p (λ n. reply_of p (add_fd_to_evhandler kernel p.world n rx tx state no_flags))

-- create_rxbuffercb, by what malloc returns and whether get_big_page finds pages.
abbrev pub create_rxbuffercb : Option ℕ → Bool → Option ℕ
create_rxbuffercb none pages_found = none
create_rxbuffercb (some cbctx) pages_found = if pages_found then some cbctx else none

abbrev pub paged : Process → Process
paged p = record p { pages = p.pages + 1 }

-- free_rxbuffercb
abbrev pub free_rxbuffercb : Process → Process
free_rxbuffercb p = record p { pages = p.pages - 1 }

abbrev pub freed_on_error : (Process → Process) → Reply → Reply
freed_on_error free (success p) = success p
freed_on_error free (refused e p) = refused e (free p)
freed_on_error free (syscall e p) = syscall e (free p)
freed_on_error free (minus_one p) = minus_one (free p)
freed_on_error free crash = crash

-- `rx ? buffered_rxfxn : NULL`
abbrev pub in_place_of : Option ℕ → ℕ → Option ℕ
in_place_of none fxn = none
in_place_of (some f) fxn = some fxn

-- Once the buffer exists or not.
abbrev pub with_rxbuffer : Kernel → Callbacks → Option ℕ → ℕ → Option ℕ → Option ℕ → Process → Reply
with_rxbuffer kernel cb none n rx tx p = refused resource p
with_rxbuffer kernel cb (some cbctx) n rx tx p =
    let p' = paged (malloced p) in
    freed_on_error free_rxbuffercb (
      reply_of p' (
        add_fd_to_evhandler kernel p'.world n (in_place_of rx cb.buffered_rxfxn)
          (in_place_of tx cb.buffered_txfxn) cbctx oneshot))

unfoldable pub torque_addfd :
    Kernel → Callbacks → Option ℕ → Bool → Option ℕ → Option ℕ → Option ℕ → Process → Reply
torque_addfd kernel cb block pages_found fd rx tx p =
    with_fd fd p (λ n. with_rxbuffer kernel cb (create_rxbuffercb block pages_found) n rx tx p)

-- What connect returns.
pub data Connect : Type 0 where
  connected in_progress : Connect
  failing : ℕ → Connect

-- create_conncb, by what malloc returns, and `errno` where it returns NULL; then the registration.
abbrev pub with_conncb : Kernel → Callbacks → Option ℕ → ℕ → ℕ → Process → Reply
with_conncb kernel cb none errno n p = syscall errno p
with_conncb kernel cb (some connctx) errno n p =
    let p' = malloced p in
    freed_on_error freed (
      reply_of p' (
        add_fd_to_evhandler kernel p'.world n none (some cb.conn_unbuffered_txfxn) connctx oneshot))

abbrev pub connecting : Connect → Process → Reply → Reply → Reply
connecting connected p added waiting = added
connecting in_progress p added waiting = waiting
connecting (failing errno) p added waiting = syscall errno p

-- What the calls of torque_addconnector meet: connect, malloc for a `torque_conncb` with `errno`,
-- and malloc and get_big_page for a buffer.
pub record Network : Type 0 where
  pub connect : Connect
  pub conn_block : Option ℕ
  pub conn_errno : ℕ
  pub rx_block : Option ℕ
  pub pages_found : Bool

unfoldable pub torque_addconnector :
    Kernel → Callbacks → Network → Option ℕ → Option ℕ → Option ℕ → Process → Reply
torque_addconnector kernel cb net fd rx tx p = with_fd fd p (λ n.
    connecting net.connect p (torque_addfd kernel cb net.rx_block net.pages_found fd rx tx p)
      (with_conncb kernel cb net.conn_block net.conn_errno n p))

unfoldable pub torque_addconnector_unbuffered :
    Kernel → Callbacks → Network → Option ℕ → Option ℕ → Option ℕ → ℕ → Process → Reply
torque_addconnector_unbuffered kernel cb net fd rx tx state p = with_fd fd p (λ n.
    connecting net.connect p (torque_addfd_unbuffered kernel fd rx tx state p)
      (with_conncb kernel cb net.conn_block net.conn_errno n p))

-- `SIGKILL` and `SIGSTOP`, by their numbers on Linux.
abbrev pub sigkill : ℕ
sigkill = 9

abbrev pub sigstop : ℕ
sigstop = 19

abbrev pub reply_of_answer : Process → Signals.Answer → Reply
reply_of_answer p (Signals.success w) = success (record p { world = w })
reply_of_answer p (Signals.refused e w) = refused e (record p { world = w })
reply_of_answer p (Signals.minus_one w) = minus_one (record p { world = w })
reply_of_answer p Signals.crash = crash

-- `sigs` is what sigismember answers. The signal masks are not part of the state.
unfoldable pub torque_addsignal :
    Kernel → Callbacks → Bool → Signalfd → (ℕ → Bool) → Option ℕ → ℕ → Process → Reply
torque_addsignal kernel cb mask_works s sigs fxn state p =
    if sigs evthread_term || (sigs sigkill || sigs sigstop)
    then refused inval p
    else if not mask_works
    then refused assert p
    else reply_of_answer p
        (add_signal_to_evhandler kernel cb.signalfd_demultiplexer cb.ctx s sigs fxn state p.world)

unfoldable pub torque_addtimer : Kernel → Callbacks → Option ℕ → Timerfd → Bool → Process → Reply
torque_addtimer kernel cb tm t settime_works p =
    add_timer_to_evhandler kernel cb.timer_passthru tm t settime_works p
