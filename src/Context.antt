-- ===== src/Context.antt =====
-- torque.c and events/evq.c: how a context comes to its tables and its event queue, and what is held
-- then.
pub mod Held
pub mod Success
mod Tests
use libtorque.Base.{
  ℕ, zero, suc, ◌+◌, ◌-◌, Bool, true, false, ◌&&◌, ◌||◌, not, List, [], ◌∷◌, Option, none, some,
  Run, ok, err, fault, ltb, ◌==◌, length, if◌then◌else◌,
}
use libtorque.Errors.{TorqueErr, resource}
use libtorque.Events.Sources.{
  EvTables, EpollFlags, Event, Request, epoll_ctl_add, World, create_evsources,
}
use libtorque.Events.Wait.{Kernel, kevent_change}
use libtorque.Events.Signals.{
  Signalfd, opened, enosys, other_error, no_flags, Addresses, initialize_common_sources,
  evthread_term, evthread_int,
}

-- What malloc, sysconf and the calls of the kernel and of adns answer.
pub record Answers : Type 0 where
  pub ctx_malloc : Bool
  pub fdarray_malloc : Bool
  pub sigarray_malloc : Bool
  pub max_fds : ℕ
  pub sigrtmax : ℕ
  pub sigset_works : Bool
  pub signalfd : Signalfd
  pub handlers_work : Bool
  pub dns_init : Bool
  pub epoll_create : Option ℕ
  pub load_dns_fds : Bool
  pub kernel : Kernel

-- How many blocks, descriptors and adns states are held.
pub record Ledger : Type 0 where
  pub heap : ℕ
  pub fds : ℕ
  pub dns : ℕ

abbrev pub blocks : ℕ → Ledger → Ledger
blocks n l = record l { heap = l.heap + n }

abbrev pub free_blocks : ℕ → Ledger → Ledger
free_blocks n l = record l { heap = l.heap - n }

abbrev pub opened_fds : ℕ → Ledger → Ledger
opened_fds n l = record l { fds = l.fds + n }

abbrev pub close_fds : ℕ → Ledger → Ledger
close_fds n l = record l { fds = l.fds - n }

abbrev pub dns_started : Ledger → Ledger
dns_started l = record l { dns = l.dns + 1 }

abbrev pub dns_shutdown : Ledger → Ledger
dns_shutdown l = record l { dns = l.dns - 1 }

abbrev pub fd_count : Signalfd → ℕ
fd_count (opened fd) = 1
fd_count enosys = 0
fd_count other_error = 0

-- The descriptors that initialize_common_sources opens, which it does not close on an error.
unfoldable pub common_opened : Answers → EvTables → ℕ
common_opened a t =
    if not (ltb evthread_term (length t.sigarray)) || not (ltb evthread_int (length t.sigarray))
    then 0
    else if not a.sigset_works
    then 0
    else fd_count a.signalfd

-- `common_signalfd`, where there is one.
abbrev pub common_signalfd : Signalfd → ℕ
common_signalfd (opened fd) = fd
common_signalfd enosys = 0
common_signalfd other_error = 0

pub data Etables : Type 0 where
  tables : EvTables → Ledger → Etables
  no_tables : Ledger → Etables
  crash : Etables

abbrev pub destroyed_unless : Run EvTables → Ledger → Etables
destroyed_unless (ok t) l = tables t l
destroyed_unless (err t) l = no_tables (free_blocks 2 l)
destroyed_unless Run.fault l = crash
destroyed_unless Run.out_of_fuel l = crash

unfoldable pub initialize_etables : Answers → Addresses → Ledger → Etables
initialize_etables a addresses l =
    let t : EvTables = record {
      fdarray = create_evsources a.max_fds;
      sigarray = create_evsources a.sigrtmax;
    } in
    if a.max_fds == 0
    then no_tables l
    else if not a.fdarray_malloc
    then no_tables l
    else if not a.sigarray_malloc
    then no_tables (free_blocks 1 (blocks 1 l))
    else destroyed_unless
        (initialize_common_sources addresses a.sigset_works a.signalfd a.handlers_work t)
        (opened_fds (common_opened a t) (blocks 2 l))

unfoldable pub free_etables : Ledger → Ledger
free_etables l = free_blocks 2 (close_fds 1 l)

-- Whether the event queue was made.
pub data Queue : Type 0 where
  queue : World → Ledger → Queue
  no_queue : Ledger → Queue

-- Level-triggered, other than for the client's descriptors.
unfoldable pub add_commonfds_to_evhandler : Kernel → ℕ → World → World × Bool
add_commonfds_to_evhandler kernel fd w =
    let read : EpollFlags = record no_flags {
      epollin = true;
      epollpri = true;
      epollrdhup = true;
    } in
    kevent_change kernel w (epoll_ctl_add (record { fd = fd; events = read }) ∷ [])

abbrev pub queue_unless : World × Bool → Ledger → Queue
queue_unless (w, true) l = queue w l
queue_unless (w, false) l = no_queue (dns_shutdown (close_fds 1 l))

abbrev pub with_efd : Answers → World → Ledger → Option ℕ → Queue
with_efd a w l none = no_queue (dns_shutdown l)
with_efd a w l (some efd) =
    let l' = opened_fds 1 l in
    if not a.load_dns_fds
    then no_queue (dns_shutdown (close_fds 1 l'))
    else queue_unless (add_commonfds_to_evhandler a.kernel (common_signalfd a.signalfd) w) l'

unfoldable pub init_evqueue : Answers → World → Ledger → Queue
init_evqueue a w l =
    if not a.dns_init then no_queue l else with_efd a w (dns_started l) a.epoll_create

-- The context, or `*e` with NULL; `none` is TORQUE_ERR_NONE.
pub data Made : Type 0 where
  made : World → Ledger → Made
  not_made : Option TorqueErr → Ledger → Made
  crash : Made

abbrev pub with_queue : Queue → Made
with_queue (queue w l) = made w l
with_queue (no_queue l) = not_made (some resource) (free_blocks 1 (free_etables l))

abbrev pub with_tables : Answers → Etables → Made
with_tables a (tables t l) =
    with_queue (init_evqueue a (record { tables = t; asked = []; calls = [] }) l)
with_tables a (no_tables l) = not_made (some resource) (free_blocks 1 l)
with_tables a Etables.crash = Made.crash

-- From torque_init, which has stored TORQUE_ERR_NONE.
unfoldable pub create_torque_ctx : Answers → Addresses → Ledger → Made
create_torque_ctx a addresses l =
    if not a.ctx_malloc
    then not_made none l
    else with_tables a (initialize_etables a addresses (blocks 1 l))
