-- ===== src/Events/Tests.antt =====
-- The theorems on events/ at concrete inputs: a table of eight descriptors and one of four signals.
use libtorque.Base.{
  ℕ, zero, suc, ◌+◌, ◌<◌, ◌≡◌, refl, Bool, true, false, List, [], ◌∷◌, none, some, ok, fault, ◌==◌,
  if◌then◌else◌, arith, set, get_elem?, length,
}
use libtorque.Events.Sources.{
  EvSource, unset, create_evsources, Event, epoll_ctl_add, World, quiet, rx,
}
use libtorque.Events.Registry.{
  Registration, setup, set_rx, set_tx, register_all, Reads, all_recorded, register_all-Reads,
  create_evsources-Reads,
}
use libtorque.Events.Wait.{
  Kernel, ready, failing, eintr, waiting, kevent_retrieve, kevent_retrieve_stays,
}
use libtorque.Events.Dispatch.{EvThread, handle_event, event_thread, add_fd_to_evhandler}
use libtorque.Events.Dispatch.Due.{
  event_thread-due, undisturbed, due_of, due_batches, total_events, then_calls, call_if,
}
use libtorque.Events.Dispatch.Added.{add_fd_to_evhandler-due, entry_of, source}
use libtorque.Events.Signals.{
  siginfo, signalfd_demultiplexer, no_flags, opened, success, add_signal_to_evhandler,
}
use libtorque.Events.Signals.Delivered.{add_signal_to_evhandler-delivers}
use libtorque.Events.Timer
use libtorque.Events.Timer.{Process, Marshal, TimerCall, add_timer_to_evhandler, expire}
use libtorque.Events.Timer.Once.{Balances, add_timer_to_evhandler-Balances}

abbrev registrations : List Registration
registrations = setup 3 (some 10) none 7 ∷ set_tx 3 (some 11) ∷ set_rx 5 (some 12) ∷ []

register_all-Reads_example :
    (evs : List EvSource) × (register_all (create_evsources 8) registrations ≡ ok evs)
    × Reads 8 evs (all_recorded (λ _. unset) registrations)
register_all-Reads_example =
    register_all-Reads 8 registrations (create_evsources 8) (λ _. unset) (create_evsources-Reads 8)
      (omega arith, (omega arith, (omega arith, tt)))

-- Two descriptors that have callbacks, of four.
abbrev table : List EvSource
table =
    unset
    ∷ record { rxfxn = some 10; txfxn = some 11; cbstate = 7 }
    ∷ record { rxfxn = some 12; txfxn = none; cbstate = 8 }
    ∷ unset
    ∷ []

abbrev entry : ℕ → EvSource
entry n =
    if n == 1
    then record { rxfxn = some 10; txfxn = some 11; cbstate = 7 }
    else if n == 2
    then record { rxfxn = some 12; txfxn = none; cbstate = 8 }
    else unset

table-Reads : Reads 4 table entry
table-Reads = record { size = refl; entries = entries }
  where
    entries : (z : ℕ) → z < 4 → get_elem? table z ≡ some (entry z)
    entries zero below = refl
    entries (suc zero) below = refl
    entries (suc (suc zero)) below = refl
    entries (suc (suc (suc zero))) below = refl
    entries (suc (suc (suc (suc z)))) below = absurd (omega (arith, below))

abbrev world : World
world = record { tables = record { fdarray = table; sigarray = table }; asked = []; calls = [] }

abbrev evthread : EvThread
evthread = record { world = world; rounds = 0; events = 0; pollerr = 0 }

abbrev reading : ℕ → Event
reading fd = record { fd = fd; events = record no_flags { epollin = true } }

abbrev both_ways : ℕ → Event
both_ways fd = record { fd = fd; events = record no_flags { epollin = true; epollout = true } }

abbrev batches : List (List Event)
batches = (both_ways 1 ∷ reading 2 ∷ []) ∷ [] ∷ (reading 1 ∷ []) ∷ []

event_thread-due_example :
    event_thread quiet (undisturbed batches) evthread
    ≡ ok (record evthread {
      world = then_calls world (due_batches entry batches);
      rounds = 0 + length batches;
      events = 0 + total_events batches;
    })
event_thread-due_example =
    event_thread-due 4 entry batches evthread table-Reads
      ((omega arith, (omega arith, tt)), (tt, ((omega arith, tt), tt)))

abbrev agreeable : Kernel
agreeable asked r = true

abbrev contrary : Kernel
contrary asked r = false

add_fd_to_evhandler-due_example :
    (w : World) × (add_fd_to_evhandler agreeable world 3 (some 20) none 9 no_flags ≡ ok w)
    × (w.asked ≡ epoll_ctl_add (entry_of 3 (some 20) none no_flags) ∷ [])
    × (w.tables.fdarray ≡ set table 3 (source (some 20) none 9))
    × (w.tables.sigarray ≡ table)
    × ((e : Event)
        → e.fd ≡ 3
        → handle_event quiet e w ≡ ok (then_calls w (due_of (source (some 20) none 9) e)))
add_fd_to_evhandler-due_example =
    add_fd_to_evhandler-due agreeable world 3 (some 20) none 9 no_flags (omega arith) refl refl

kevent_retrieve_stays_example :
    kevent_retrieve eintr (ready (reading 1 ∷ []) ∷ failing eintr ∷ ready [] ∷ []) ≡ waiting
kevent_retrieve_stays_example =
    kevent_retrieve_stays (ready (reading 1 ∷ []) ∷ failing eintr ∷ ready [] ∷ [])
      (tt, (tt, (tt, tt)))

-- The third signal.
abbrev only_third : ℕ → Bool
only_third z = z == 3

add_signal_to_evhandler-delivers_example :
    (w : World) × (add_signal_to_evhandler agreeable 50 60 (opened 0) only_third (some 30) 5 world
      ≡ success w)
    × ((t : EvThread) (sig : ℕ)
        → 0 < sig
        → sig < 4
        → only_third sig ≡ true
        → signalfd_demultiplexer quiet (siginfo sig ∷ []) (record t { world = w })
          ≡ ok (record t {
            world = then_calls w (call_if (λ fxn. rx fxn sig 5) (some 30));
            events = t.events + 1;
          }))
    × ((t : EvThread)
        → signalfd_demultiplexer quiet (siginfo 4 ∷ []) (record t { world = w }) ≡ fault)
add_signal_to_evhandler-delivers_example =
    add_signal_to_evhandler-delivers agreeable 50 60 0 only_third (some 30) 5 world 4 entry
      table-Reads (omega arith) (omega arith) refl

abbrev process : Process
process = record { world = world; heap = 2; pages = 0; fds = 1 }

add_timer_to_evhandler-Balances_example :
    Balances process (add_timer_to_evhandler contrary 40 (some 70) (Timer.opened 3) true process)
add_timer_to_evhandler-Balances_example =
    add_timer_to_evhandler-Balances contrary 40 (some 70) (Timer.opened 3) true process
