-- ===== src/Events/Dispatch/Added.antt =====
-- events/fd.c: what registration of a descriptor leaves in the table and asks of the kernel.
use libtorque.Base.{
  ℕ, ◌<◌, ◌≤◌, ◌≡◌, refl, ap, ◌∙◌, Bool, true, false, ◌&&◌, [], ◌∷◌, ◌++◌, Option, some, Run, ok,
  err, ◌>>=◌, get_elem?, set, length, lt→ltb, le→ltb, get_elem?-inside, get_elem?-set_same,
}
use libtorque.Events.Sources.{
  EvSource, EpollFlags, Event, epoll_ctl_add, World, quiet, setup_evsource,
}
use libtorque.Events.Registry.{setup_evsource_lem, update-some}
use libtorque.Events.Wait.{Kernel, kevent_change, make_changes}
use libtorque.Events.Dispatch.{
  handle_event, add_fd_to_evhandler, add_fd_event, with_fdarray, interest, beyond_oneshot, result,
}
use libtorque.Events.Dispatch.Due.{due_of, then_calls, handle_event-due}

abbrev pub source : Option ℕ → Option ℕ → ℕ → EvSource
source rfxn tfxn cbstate = record { rxfxn = rfxn; txfxn = tfxn; cbstate = cbstate }

abbrev pub entry_of : ℕ → Option ℕ → Option ℕ → EpollFlags → Event
entry_of fd rfxn tfxn eflags = record { fd = fd; events = interest rfxn tfxn eflags }

-- The table with the new source.
abbrev pub with_source : World → ℕ → EvSource → World
with_source w fd s = record w { tables = record (w.tables) { fdarray = set w.tables.fdarray fd s } }

module _ (kernel : Kernel) (w : World) (fd : ℕ) (rfxn tfxn : Option ℕ) (cbstate : ℕ)
    (eflags : EpollFlags) where
  registered :
      fd < length w.tables.fdarray
      → with_fdarray w (setup_evsource w.tables.fdarray fd rfxn tfxn cbstate)
        ≡ ok (with_source w fd (source rfxn tfxn cbstate))
  registered inside =
      let old = get_elem?-inside w.tables.fdarray fd inside in
      ap (with_fdarray w) (
        setup_evsource_lem w.tables.fdarray fd rfxn tfxn cbstate
        ∙ update-some w.tables.fdarray fd old.0 _ old.1)

  -- A descriptor beyond the table is refused, and nothing is changed.
  pub add_fd_to_evhandler_beyond :
      length w.tables.fdarray ≤ fd
      → add_fd_to_evhandler kernel w fd rfxn tfxn cbstate eflags ≡ err w
  unfolding add_fd_to_evhandler
  add_fd_to_evhandler_beyond outside =
      let no_room = le→ltb fd (length w.tables.fdarray) outside in rw (no_room) refl

  pub add_fd_to_evhandler_inside :
      fd < length w.tables.fdarray
      → add_fd_to_evhandler kernel w fd rfxn tfxn cbstate eflags
        ≡ add_fd_event kernel (with_source w fd (source rfxn tfxn cbstate)) fd rfxn tfxn eflags
  unfolding add_fd_to_evhandler
  add_fd_to_evhandler_inside inside =
      let room = lt→ltb fd (length w.tables.fdarray) inside in
      rw (room) (
        ap (λ (r : Run World). r >>= (λ w'. add_fd_event kernel w' fd rfxn tfxn eflags))
          (registered inside))

  -- The state once the kernel was asked.
  abbrev asked_for : World
  asked_for = record (with_source w fd (source rfxn tfxn cbstate)) {
    asked = w.asked ++ (epoll_ctl_add (entry_of fd rfxn tfxn eflags) ∷ []);
  }

  added_event :
      (answer : Bool)
      → beyond_oneshot eflags ≡ false
      → kernel w.asked (epoll_ctl_add (entry_of fd rfxn tfxn eflags)) ≡ answer
      → add_fd_event kernel (with_source w fd (source rfxn tfxn cbstate)) fd rfxn tfxn eflags
        ≡ result (asked_for, answer && true)
  unfolding add_fd_event kevent_change make_changes
  added_event answer allowed answers = rw (allowed, add_fd_event, answers) refl

  -- Where the descriptor has an entry, no flag but EPOLLONESHOT is asked for and the kernel agrees,
  -- the registration succeeds: it asks the kernel for one addition, replaces the one entry, and
  -- then every event of the descriptor leads to the registered callbacks, with the registered state.
  pub add_fd_to_evhandler-due :
      fd < length w.tables.fdarray
      → beyond_oneshot eflags ≡ false
      → kernel w.asked (epoll_ctl_add (entry_of fd rfxn tfxn eflags)) ≡ true
      → (w' : World) × (add_fd_to_evhandler kernel w fd rfxn tfxn cbstate eflags ≡ ok w')
        × (w'.asked ≡ w.asked ++ (epoll_ctl_add (entry_of fd rfxn tfxn eflags) ∷ []))
        × (w'.tables.fdarray ≡ set w.tables.fdarray fd (source rfxn tfxn cbstate))
        × (w'.tables.sigarray ≡ w.tables.sigarray)
        × ((e : Event)
            → e.fd ≡ fd
            → handle_event quiet e w' ≡ ok (then_calls w' (due_of (source rfxn tfxn cbstate) e)))
  add_fd_to_evhandler-due inside allowed agrees =
      let old = get_elem?-inside w.tables.fdarray fd inside in
      let w2 = asked_for in
      (
        w2,
        add_fd_to_evhandler_inside inside ∙ added_event true allowed agrees,
        refl,
        refl,
        refl,
        (λ e same. handle_event-due e w2 _ (
            ap (λ (z : ℕ). get_elem? w2.tables.fdarray z) same
            ∙ get_elem?-set_same w.tables.fdarray fd old.0 _ old.1)),
      )

  -- Where the kernel refuses, the registration fails, but the entry is replaced all the same.
  pub add_fd_to_evhandler_refused :
      fd < length w.tables.fdarray
      → beyond_oneshot eflags ≡ false
      → kernel w.asked (epoll_ctl_add (entry_of fd rfxn tfxn eflags)) ≡ false
      → (w' : World) × (add_fd_to_evhandler kernel w fd rfxn tfxn cbstate eflags ≡ err w')
        × (get_elem? w'.tables.fdarray fd ≡ some (source rfxn tfxn cbstate))
  add_fd_to_evhandler_refused inside allowed refuses =
      let old = get_elem?-inside w.tables.fdarray fd inside in
      (
        asked_for,
        add_fd_to_evhandler_inside inside ∙ added_event false allowed refuses,
        get_elem?-set_same w.tables.fdarray fd old.0 _ old.1,
      )
