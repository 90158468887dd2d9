-- ===== src/Schedule.antt =====
-- schedule.c: how the threads start, the ring that they form, and how one is spawned.
pub mod Joined
pub mod Spawn
pub mod Reaped
mod Tests
use libtorque.Base.{
  ℕ, zero, suc, Bool, true, false, ◌&&◌, not, List, [], ◌∷◌, Option, none, some, Run, ok, err,
  fault, ◌==◌, if◌then◌else◌, all,
}

-- `nexttid` of each thread's handler, by its thread, and the thread of `ctx->ev`.
pub record Ring : Type 0 where
  pub leader : Option ℕ
  pub nexttid : ℕ → ℕ

abbrev pub write : ℕ → ℕ → (ℕ → ℕ) → ℕ → ℕ
write tid next nexttid z = if z == tid then next else nexttid z

-- The part of `thread` under the lock, by `ctx->ev`. The first handler becomes it.
abbrev pub joined : ℕ → (ℕ → ℕ) → Option ℕ → Ring
joined self nexttid none = record { leader = some self; nexttid = write self self nexttid }
joined self nexttid (some ev) = record {
  leader = some ev;
  nexttid = write ev self (write self (nexttid ev) nexttid);
}

unfoldable pub join_ring : ℕ → Ring → Ring
join_ring self r = joined self r.nexttid r.leader

-- What a handler's pointer holds.
pub data Handler : Type 0 where
  null live freed : Handler

unfoldable pub destroy_evhandler : Handler → Run Handler
destroy_evhandler null = ok null
destroy_evhandler live = ok freed
destroy_evhandler freed = fault

-- `status` of `struct tguard`
pub data Status : Type 0 where
  unlaunched prefail started : Status

-- What the library's calls and malloc answer to a starting thread.
pub record Starts : Type 0 where
  pub setcancelstate_works : Bool
  pub handler_malloc : Bool
  pub events_malloc : Bool
  pub ctldata_malloc : Bool
  pub lock_works : Bool

-- create_evhandler, with init_evectors: a part that fails frees what was allocated.
abbrev pub create_evhandler : Starts → Handler
create_evhandler s =
    if s.handler_malloc && (s.events_malloc && s.ctldata_malloc) then live else null

pub record Launch : Type 0 where
  pub ring : Ring
  pub status : Status
  pub handler : Handler

-- From `earlyerr` on.
abbrev pub early_err : Ring → Handler → Run Launch
early_err r ev = ended (destroy_evhandler ev)
  where
    ended : Run Handler → Run Launch
    ended (ok h) = ok (record { ring = r; status = prefail; handler = h })
    ended (err h) = err (record { ring = r; status = prefail; handler = h })
    ended Run.fault = fault
    ended Run.out_of_fuel = Run.out_of_fuel

-- `destroy_evhandler` and `goto earlyerr`, where the lock fails.
abbrev pub unlocked : Ring → Run Handler → Run Launch
unlocked r (ok h) = early_err r h
unlocked r (err h) = early_err r h
unlocked r Run.fault = fault
unlocked r Run.out_of_fuel = Run.out_of_fuel

abbrev pub locked : Starts → ℕ → Ring → Handler → Run Launch
locked s self r ev =
    if not s.lock_works
    then unlocked r (destroy_evhandler ev)
    else ok (record { ring = join_ring self r; status = started; handler = ev })

abbrev pub with_handler : Starts → ℕ → Ring → Handler → Run Launch
with_handler s self r null = early_err r null
with_handler s self r ev = locked s self r ev

-- Up to event_thread, which does not return.
unfoldable pub thread : Starts → ℕ → Ring → Run Launch
thread s self r =
    if not s.setcancelstate_works
    then early_err r null
    else with_handler s self r (create_evhandler s)
