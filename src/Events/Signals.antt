-- ===== src/Events/Signals.antt =====
-- events/signal.c, events/sysdep.c and events/thread.c: registration of signals, and their way from
-- a signalfd to the callbacks.
pub mod Members
pub mod Delivered
use libtorque.Base.{
  ℕ, zero, suc, ◌-◌, Bool, true, false, ◌||◌, not, List, [], ◌∷◌, ◌++◌, Option, none, some, Run, ok,
  err, fault, ◌>>=◌, length, ltb, if◌then◌else◌,
}
use libtorque.Errors.{TorqueErr, resource, unavail}
use libtorque.Events.Sources.{
  EvSource, EvTables, EpollFlags, World, Client, setup_evsource, handle_evsource_read,
}
use libtorque.Events.Wait.{Kernel}
use libtorque.Events.Dispatch.{EvThread, handled, add_fd_to_evhandler}

-- One return of `read` on a signalfd: a signal's number, fewer bytes than asked for, or EINTR.
pub data SigRead : Type 0 where
  siginfo : ℕ → SigRead
  short_read interrupted : SigRead

-- By the reads up to the first error other than EINTR, which ends it.
unfoldable pub signalfd_demultiplexer : Client → List SigRead → EvThread → Run EvThread
signalfd_demultiplexer client [] t = ok t
signalfd_demultiplexer client (siginfo sig ∷ rs) t =
    handled t (handle_evsource_read client t.world.tables.sigarray sig t.world)
    >>= (λ t'. signalfd_demultiplexer client rs t')
signalfd_demultiplexer client (short_read ∷ rs) t = signalfd_demultiplexer client rs t
signalfd_demultiplexer client (interrupted ∷ rs) t = signalfd_demultiplexer client rs t

-- The loop of add_signal_to_evhandler, from signal `z` on with `left` of them; `sigs` is what
-- sigismember answers.
unfoldable pub setup_signals :
    (ℕ → Bool) → Option ℕ → ℕ → (left z : ℕ) → List EvSource → Run (List EvSource)
setup_signals sigs rfxn v zero z evs = ok evs
setup_signals sigs rfxn v (suc left) z evs =
    (if sigs z then setup_evsource evs z rfxn none v else ok evs)
    >>= (λ evs'. setup_signals sigs rfxn v left (suc z) evs')

-- What signalfd returns.
pub data Signalfd : Type 0 where
  opened : ℕ → Signalfd
  enosys other_error : Signalfd

-- A result of the library: an error of it, or -1 from a call that has no such errors.
pub data Answer : Type 0 where
  success : World → Answer
  refused : TorqueErr → World → Answer
  minus_one : World → Answer
  crash : Answer

abbrev pub no_flags : EpollFlags
no_flags = record {
  epollin = false;
  epollpri = false;
  epollrdhup = false;
  epollout = false;
  epolloneshot = false;
  epollet = false;
  other = false;
}

abbrev pub answer_of : Run World → Answer
answer_of (ok w) = success w
answer_of (err w) = minus_one w
answer_of Run.fault = crash
answer_of Run.out_of_fuel = crash

abbrev pub with_sigarray : World → Run (List EvSource) → Run World
with_sigarray w (ok evs) = ok (record w { tables = record (w.tables) { sigarray = evs } })
with_sigarray w (err evs) = err (record w { tables = record (w.tables) { sigarray = evs } })
with_sigarray w Run.fault = fault
with_sigarray w Run.out_of_fuel = Run.out_of_fuel

-- The part after the loop; `demux` is the address of signalfd_demultiplexer, and `ctx` that of the
-- context.
abbrev pub add_signalfd : Kernel → (demux ctx : ℕ) → Signalfd → Run World → Answer
add_signalfd kernel demux ctx enosys (ok w) = refused unavail w
add_signalfd kernel demux ctx other_error (ok w) = refused resource w
add_signalfd kernel demux ctx (opened fd) (ok w) =
    answer_of (add_fd_to_evhandler kernel w fd (some demux) none ctx no_flags)
add_signalfd kernel demux ctx s (err w) = minus_one w
add_signalfd kernel demux ctx s Run.fault = crash
add_signalfd kernel demux ctx s Run.out_of_fuel = crash

unfoldable pub add_signal_to_evhandler :
    Kernel → (demux ctx : ℕ) → Signalfd → (ℕ → Bool) → Option ℕ → ℕ → World → Answer
add_signal_to_evhandler kernel demux ctx s sigs rfxn cbstate w =
    let evs = w.tables.sigarray in
    add_signalfd kernel demux ctx s
      (with_sigarray w (setup_signals sigs rfxn cbstate (length evs - 1) 1 evs))

-- `EVTHREAD_INT` and `EVTHREAD_TERM`, by their numbers on Linux.
abbrev pub evthread_int : ℕ
evthread_int = 2

abbrev pub evthread_term : ℕ
evthread_term = 15

-- The addresses of the callbacks that the library registers for itself, and of the context.
pub record Addresses : Type 0 where
  pub signalfd_demultiplexer : ℕ
  pub rxcommonsignal : ℕ
  pub ctx : ℕ

-- After a call of setup_evsource, which returns nothing.
abbrev pub with_table : Run (List EvSource) → (List EvSource → Run EvTables) → Run EvTables
with_table (ok evs) k = k evs
with_table (err evs) k = k evs
with_table Run.fault k = fault
with_table Run.out_of_fuel k = Run.out_of_fuel

-- The tables once the common sources are registered.
unfoldable pub setup_common : Addresses → ℕ → EvTables → Run EvTables
setup_common a common_signalfd t =
    let stop = some a.rxcommonsignal in
    with_table (setup_evsource t.fdarray common_signalfd (some a.signalfd_demultiplexer) none a.ctx)
      (λ fds. with_table (setup_evsource t.sigarray evthread_term stop none a.ctx) (λ sigs.
        with_table (setup_evsource sigs evthread_int stop none a.ctx)
          (λ sigs'. ok (record { fdarray = fds; sigarray = sigs' }))))

-- init_signal_handlers
abbrev pub then_handlers : Bool → EvTables → Run EvTables
then_handlers works t = if works then ok t else err t

abbrev pub registered : Addresses → Bool → EvTables → Signalfd → Run EvTables
registered a handlers_work t (opened fd) = setup_common a fd t >>= then_handlers handlers_work
registered a handlers_work t enosys = err t
registered a handlers_work t other_error = err t

-- Whether sigemptyset with sigaddset works, what signalfd returns, and whether
-- init_signal_handlers works.
unfoldable pub initialize_common_sources :
    Addresses → Bool → Signalfd → Bool → EvTables → Run EvTables
initialize_common_sources a sigset_works s handlers_work t =
    if not (ltb evthread_term (length t.sigarray)) || not (ltb evthread_int (length t.sigarray))
    then err t
    else if not sigset_works
    then err t
    else registered a handlers_work t s
