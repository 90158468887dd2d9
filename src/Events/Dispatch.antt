-- ===== src/Events/Dispatch.antt =====
-- events/fd.c and events/thread.c: registration of a file descriptor, and what the event threads
-- do with the events that the kernel reports.
pub mod Due
pub mod Added
use libtorque.Base.{
  ℕ, zero, suc, ◌+◌, Bool, true, false, ◌||◌, not, List, [], ◌∷◌, ◌++◌, Option, none, some, Run, ok,
  err, fault, ◌>>=◌, get_elem?, length, ltb, if◌then◌else◌,
}
use libtorque.Events.Sources.{
  EvSource, EvTables, EpollFlags, Event, Request, epoll_ctl_add, epoll_ctl_mod, readable, writable,
  World, Client, setup_evsource, handle_evsource_read, handle_evsource_write,
}
use libtorque.Events.Wait.{
  Errno, Polled, ready, failing, is_eintr, Waited, returned, waiting, kevent_retrieve, Kernel,
  kevent_change,
}

abbrev pub is_some : Option ℕ → Bool
is_some none = false
is_some (some f) = true

-- `ee.events` of add_fd_event.
abbrev pub interest : Option ℕ → Option ℕ → EpollFlags → EpollFlags
interest rfxn tfxn eflags = record {
  epollin = eflags.epollin || is_some rfxn;
  epollpri = true;
  epollrdhup = eflags.epollrdhup || is_some rfxn;
  epollout = eflags.epollout || is_some tfxn;
  epolloneshot = eflags.epolloneshot;
  epollet = true;
  other = eflags.other;
}

-- `eflags & ~(EPOLLONESHOT)`
abbrev pub beyond_oneshot : EpollFlags → Bool
beyond_oneshot f =
    f.epollin || (f.epollpri || (f.epollrdhup || (f.epollout || (f.epollet || f.other))))

abbrev pub result : World × Bool → Run World
result (w, true) = ok w
result (w, false) = err w

unfoldable pub add_fd_event : Kernel → World → ℕ → Option ℕ → Option ℕ → EpollFlags → Run World
add_fd_event kernel w fd rfxn tfxn eflags =
    let entry : Event = record { fd = fd; events = interest rfxn tfxn eflags } in
    if beyond_oneshot eflags
    then err w
    else result (kevent_change kernel w (epoll_ctl_add entry ∷ []))

-- Of a caller that stores what `setup_evsource` makes of the table of descriptors.
abbrev pub with_fdarray : World → Run (List EvSource) → Run World
with_fdarray w (ok evs) = ok (record w { tables = record (w.tables) { fdarray = evs } })
with_fdarray w (err evs) = err (record w { tables = record (w.tables) { fdarray = evs } })
with_fdarray w Run.fault = fault
with_fdarray w Run.out_of_fuel = Run.out_of_fuel

-- `fdarraysize` is the length of the array. A negative descriptor is not below it.
unfoldable pub add_fd_to_evhandler :
    Kernel → World → ℕ → Option ℕ → Option ℕ → ℕ → EpollFlags → Run World
add_fd_to_evhandler kernel w fd rfxn tfxn cbstate eflags =
    let evs = w.tables.fdarray in
    if not (ltb fd (length evs))
    then err w
    else with_fdarray w (setup_evsource evs fd rfxn tfxn cbstate)
      >>= (λ w'. add_fd_event kernel w' fd rfxn tfxn eflags)

-- events/sysdep.c
unfoldable pub restorefd : Kernel → World → ℕ → EpollFlags → Run World
restorefd kernel w fd eflags =
    let flags : EpollFlags = record eflags { epolloneshot = true; epollet = true } in
    result (kevent_change kernel w (epoll_ctl_mod (record { fd = fd; events = flags }) ∷ []))

unfoldable pub handle_event : Client → Event → World → Run World
handle_event client e w =
    (if readable e.events then handle_evsource_read client w.tables.fdarray e.fd w else ok w)
    >>= (λ w'.
        if writable e.events then handle_evsource_write client w'.tables.fdarray e.fd w' else ok w')

-- The counts of `evthreadstats` that the loop keeps.
pub record EvThread : Type 0 where
  pub world : World
  pub rounds : ℕ
  pub events : ℕ
  pub pollerr : ℕ

abbrev pub handled : EvThread → Run World → Run EvThread
handled t (ok w) = ok (record t { world = w; events = t.events + 1 })
handled t (err w) = err (record t { world = w })
handled t Run.fault = fault
handled t Run.out_of_fuel = Run.out_of_fuel

-- `while(events--)`, with the buffer's entries.
unfoldable pub handle_events : Client → List Event → ℕ → EvThread → Run EvThread
handle_events client buffer zero t = ok t
handle_events client buffer (suc n) t = elim (get_elem? buffer n) [
  | none ↦ fault
  | some e ↦ handled t (handle_event client e t.world) >>= (λ t'. handle_events client buffer n t')
]

-- The rest of a round, after Kevent.
abbrev pub event_round : Client → EvThread → Polled → Errno → Run EvThread
event_round client t (failing e) errno =
    if is_eintr errno
    then ok (record t { rounds = t.rounds + 1 })
    else ok (record t { rounds = t.rounds + 1; pollerr = t.pollerr + 1 })
event_round client t (ready es) errno =
    handle_events client es (length es) (record t { rounds = t.rounds + 1 })

-- A thread whose wait has not ended goes no further.
abbrev pub after_wait : Client → EvThread → Waited → (EvThread → Run EvThread) → Run EvThread
after_wait client t waiting later = ok t
after_wait client t (returned p errno rest) later = event_round client t p errno >>= later

-- The rounds of event_thread, by `errno` and by what epoll_wait returns in each. It has no end; the
-- list is the part that is looked at.
unfoldable pub event_thread : Client → List (Errno × List Polled) → EvThread → Run EvThread
event_thread client [] t = ok t
event_thread client (r ∷ rs) t =
    after_wait client t (kevent_retrieve r.0 r.1) (λ t'. event_thread client rs t')
