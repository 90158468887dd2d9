-- ===== src/Schedule/Spawn.antt =====
-- schedule.c: setup_thread_stack and spawn_thread, with what they take and give back.
pub mod Balance
use libtorque.Base.{Bool, true, false, ◌&&◌, not, List, all, if◌then◌else◌}
use libtorque.Schedule.{Launch, Status, unlaunched, prefail, started}

-- What the calls answer. `waits` are the returns of pthread_cond_wait until the thread has set the
-- status.
pub record Spawns : Type 0 where
  pub attr_init : Bool
  pub get_stack : Bool
  pub attr_setstack : Bool
  pub mutex_init : Bool
  pub cond_init : Bool
  pub create : Bool
  pub attr_destroy : Bool
  pub lock : Bool
  pub waits : List Bool
  pub unlock : Bool
  pub cond_destroy : Bool
  pub mutex_destroy : Bool

-- What is held.
pub record Held : Type 0 where
  pub attr : Bool
  pub stack : Bool
  pub lock : Bool
  pub cond : Bool

abbrev pub nothing : Held
nothing = record { attr = false; stack = false; lock = false; cond = false }

-- How spawn_thread ends: with 0, with -1, or not at all, in pthread_join of a running thread.
pub data Spawned : Type 0 where
  spawned failed joining : Held → Spawned

abbrev pub dealloc : Held → Held
dealloc h = record h { stack = false }

abbrev pub attr_freed : Held → Held
attr_freed h = record h { attr = false }

abbrev pub lock_freed : Held → Held
lock_freed h = record h { lock = false }

abbrev pub cond_freed : Held → Held
cond_freed h = record h { cond = false }

abbrev pub is_started : Status → Bool
is_started unlaunched = false
is_started prefail = false
is_started started = true

-- The end, where `ret` says whether all went well: `pthread_join` returns once the thread has.
abbrev pub joined : Bool → Status → Held → Spawned
joined true status h = spawned h
joined false unlaunched h = failed h
joined false prefail h = failed h
joined false started h = joining h

-- From `pthread_create` on.
abbrev pub after_create : Spawns → Status → Held → Spawned
after_create s status h =
    let ret =
      s.attr_destroy
      && (s.lock
          && (all (λ w. w) s.waits
              && (is_started status && (s.unlock && (s.cond_destroy && s.mutex_destroy))))) in
    joined ret status (lock_freed (cond_freed (attr_freed h)))

abbrev pub with_lock : Spawns → Status → Held → Spawned
with_lock s status h =
    let h' = record h { cond = true } in
    if not s.cond_init
    then failed (attr_freed (dealloc (lock_freed h)))
    else if not s.create
    then failed (attr_freed (dealloc (cond_freed (lock_freed h'))))
    else after_create s status h'

abbrev pub with_stack : Spawns → Status → Held → Spawned
with_stack s status h =
    if not s.mutex_init
    then failed (attr_freed (dealloc h))
    else with_lock s status (record h { lock = true })

-- `status` is what the new thread sets.
unfoldable pub spawn_thread : Spawns → Status → Spawned
spawn_thread s status =
    let h = record nothing { attr = true } in
    let h' = record h { stack = true } in
    if not s.attr_init
    then failed nothing
    else if not s.get_stack
    then failed (attr_freed h)
    else if not s.attr_setstack
    then failed (attr_freed (dealloc h'))
    else with_stack s status h'
