-- ===== src/Schedule/Spawn/Balance.antt =====
-- schedule.c: what a started thread and its spawner leave behind.
use libtorque.Base.{ℕ, ◌≡◌, refl, Bool, true, false, ◌&&◌, all, if◌then◌else◌, ok, fault}
use libtorque.Schedule.{
  Ring, Starts, Status, started, prefail, unlaunched, live, null, thread, join_ring,
  destroy_evhandler,
}
use libtorque.Schedule.Spawn.{
  Spawns, Held, nothing, spawned, failed, joining, spawn_thread, joined, is_started,
}

-- A thread starts exactly where it can disable cancellation, create its handler and take the lock:
-- then it has joined the ring. Where it cannot take the lock it destroys its handler twice, and on
-- the other errors it leaves the ring alone and has no handler.
pub thread_lem :
    (s : Starts) (self : ℕ) (r : Ring)
    → thread s self r ≡ (
        if s.setcancelstate_works && (s.handler_malloc && (s.events_malloc && s.ctldata_malloc))
        then (if s.lock_works
            then ok (record { ring = join_ring self r; status = started; handler = live })
            else fault)
        else ok (record { ring = r; status = prefail; handler = null }))
unfolding thread destroy_evhandler
thread_lem s self r =
    cases s.setcancelstate_works s.handler_malloc s.events_malloc s.ctldata_malloc s.lock_works
  where
    cases :
        (a b c d e : Bool)
        → thread
            (record {
              setcancelstate_works = a;
              handler_malloc = b;
              events_malloc = c;
              ctldata_malloc = d;
              lock_works = e;
            })
            self
            r
          ≡ (if a && (b && (c && d))
              then (if e
                  then ok (record { ring = join_ring self r; status = started; handler = live })
                  else fault)
              else ok (record { ring = r; status = prefail; handler = null }))
    cases false b c d e = refl
    cases true false c d e = refl
    cases true true false d e = refl
    cases true true true false e = refl
    cases true true true true false = refl
    cases true true true true true = refl

-- All that is needed for the new thread.
abbrev pub prepared : Spawns → Bool
prepared s =
    s.attr_init && (s.get_stack && (s.attr_setstack && (s.mutex_init && (s.cond_init && s.create))))

-- No later call fails.
abbrev pub settled : Spawns → Bool
settled s =
    s.attr_destroy
    && (s.lock && (all (λ w. w) s.waits && (s.unlock && (s.cond_destroy && s.mutex_destroy))))

abbrev pub only_stack : Held
only_stack = record nothing { stack = true }

unstarted : (a b c d : Bool) → (a && (b && (c && (false && d)))) ≡ false
unstarted false b c d = refl
unstarted true false c d = refl
unstarted true true false d = refl
unstarted true true true d = refl

joined_or :
    (b : Bool)
    → joined b started only_stack ≡ (if b then spawned only_stack else joining only_stack)
joined_or true = refl
joined_or false = refl

joined_lem :
    (a b c d : Bool) (status : Status)
    → joined (a && (b && (c && (is_started status && d)))) status only_stack ≡ (
        if is_started status
        then (if a && (b && (c && d)) then spawned only_stack else joining only_stack)
        else failed only_stack)
joined_lem a b c d started = joined_or (a && (b && (c && d)))
joined_lem a b c d prefail = let off = unstarted a b c d in rw (off) refl
joined_lem a b c d unlaunched = let off = unstarted a b c d in rw (off) refl

-- Where spawn_thread fails before there is a thread, it gives back all that it took. It succeeds
-- where the thread starts and no call fails; where the thread does not start, it fails and keeps the
-- stack, and where the thread starts but another call fails, it waits for the thread's end.
pub spawn_thread_lem :
    (s : Spawns) (status : Status)
    → spawn_thread s status ≡ (
        if prepared s
        then (if is_started status
            then (if settled s then spawned only_stack else joining only_stack)
            else failed only_stack)
        else failed nothing)
unfolding spawn_thread
spawn_thread_lem s status =
    cases s.attr_init s.get_stack s.attr_setstack s.mutex_init s.cond_init s.create
  where
    cases :
        (a b c d e f : Bool)
        → spawn_thread
            (record s {
              attr_init = a;
              get_stack = b;
              attr_setstack = c;
              mutex_init = d;
              cond_init = e;
              create = f;
            })
            status
          ≡ (if a && (b && (c && (d && (e && f))))
              then (if is_started status
                  then (if settled s then spawned only_stack else joining only_stack)
                  else failed only_stack)
              else failed nothing)
    cases false b c d e f = refl
    cases true false c d e f = refl
    cases true true false d e f = refl
    cases true true true false e f = refl
    cases true true true true false f = refl
    cases true true true true true false = refl
    cases true true true true true true =
        joined_lem s.attr_destroy s.lock (all (λ w. w) s.waits)
          (s.unlock && (s.cond_destroy && s.mutex_destroy)) status
