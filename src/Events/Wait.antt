-- ===== src/Events/Wait.antt =====
-- events/sysdep.h: the emulation of kevent, and the wait for events.
use libtorque.Base.{◌≡◌, refl, Bool, true, false, ◌&&◌, List, [], ◌∷◌, ◌++◌, All, if◌then◌else◌}
use libtorque.Events.Sources.{Event, Request, World}

-- `errno`, as far as the library looks at it there.
pub data Errno : Type 0 where
  eintr different : Errno

-- One return of epoll_wait: the ready events, or an error. A success leaves errno alone.
pub data Polled : Type 0 where
  ready : List Event → Polled
  failing : Errno → Polled

-- How a wait ends: with a return, `errno` after it and the returns of epoll_wait that are still to
-- come, or not at all yet.
pub data Waited : Type 0 where
  returned : Polled → Errno → List Polled → Waited
  waiting : Waited

abbrev pub is_eintr : Errno → Bool
is_eintr eintr = true
is_eintr different = false

-- By what epoll_wait returns. The loop goes on `while(ret < 0 || errno == EINTR)`.
unfoldable pub kevent_retrieve : Errno → List Polled → Waited
kevent_retrieve errno [] = waiting
kevent_retrieve errno (ready es ∷ ps) =
    let again = kevent_retrieve errno ps in
    if is_eintr errno then again else returned (ready es) errno ps
kevent_retrieve errno (failing e ∷ ps) = kevent_retrieve e ps

-- What epoll_ctl answers, by the requests before.
abbrev pub Kernel : Type 0
Kernel = List Request → Request → Bool

abbrev pub ask : World → Request → World
ask w r = record w { asked = w.asked ++ (r ∷ []) }

-- The changes, all of them made, and whether none failed.
unfoldable pub make_changes : Kernel → World → List Request → World × Bool
make_changes kernel w [] = (w, true)
make_changes kernel w (r ∷ rs) =
    let rest = make_changes kernel (ask w r) rs in (rest.0, kernel w.asked r && rest.1)

-- Kevent without a list for events.
unfoldable pub kevent_change : Kernel → World → List Request → World × Bool
kevent_change kernel w changes = make_changes kernel w changes

-- A wait that succeeds or is interrupted.
abbrev pub Mild : Polled → Type 0
Mild (ready es) = Unit
Mild (failing eintr) = Unit
Mild (failing different) = ⊥

-- Once errno is EINTR, kevent_retrieve does not return while epoll_wait succeeds or is
-- interrupted, whatever events it reports.
pub kevent_retrieve_stays : (ps : List Polled) → All Mild ps → kevent_retrieve eintr ps ≡ waiting
unfolding kevent_retrieve
kevent_retrieve_stays [] mild = refl
kevent_retrieve_stays (ready es ∷ ps) mild = kevent_retrieve_stays ps mild.1
kevent_retrieve_stays (failing eintr ∷ ps) mild = kevent_retrieve_stays ps mild.1
kevent_retrieve_stays (failing different ∷ ps) mild = absurd mild.0

-- A wait that succeeds with an errno other than EINTR.
abbrev pub Succeeds : Waited → Type 0
Succeeds (returned (ready es) e ps) = is_eintr e ≡ false
Succeeds (returned (failing e') e ps) = ⊥
Succeeds waiting = Unit

-- kevent_retrieve never returns an error.
pub kevent_retrieve-Succeeds :
    (errno : Errno) (ps : List Polled) → Succeeds (kevent_retrieve errno ps)
unfolding kevent_retrieve
kevent_retrieve-Succeeds errno [] = tt
kevent_retrieve-Succeeds eintr (ready es ∷ ps) = kevent_retrieve-Succeeds eintr ps
kevent_retrieve-Succeeds different (ready es ∷ ps) = refl
kevent_retrieve-Succeeds errno (failing e ∷ ps) = kevent_retrieve-Succeeds e ps
