-- ===== src/Schedule/Tests.antt =====
-- The theorems on schedule.c at concrete inputs: four threads, and one that cannot take the lock.
use libtorque.Base.{
  ltb, Bool, List, ℕ, zero, suc, ◌<◌, some, ◌==◌, ◌≡◌, refl, true, false, ◌&&◌, [], ◌∷◌, none, ok,
  fault, if◌then◌else◌, arith,
}
use libtorque.Schedule.{Ring, Starts, thread, join_ring, started, prefail, live, null}
use libtorque.Schedule.Joined.{IsRing, join_rings, join_all, join_rings-IsRing}
use libtorque.Schedule.Reaped.{
  Threads, joining, exited, iterate, Closes, passed_on, killed, with_value,
}
use libtorque.Schedule.Spawn.{Spawns, spawn_thread, spawned, failed, joining, nothing, is_started}
use libtorque.Schedule.Spawn.Balance.{spawn_thread_lem, thread_lem, prepared, settled, only_stack}

abbrev no_ring : Ring
no_ring = record { leader = none; nexttid = λ z. 0 }

join_rings-IsRing_example :
    IsRing (join_rings no_ring (4 ∷ 6 ∷ 5 ∷ 9 ∷ [])) (join_all [] (4 ∷ 6 ∷ 5 ∷ 9 ∷ []))
join_rings-IsRing_example = join_rings-IsRing (4 ∷ 6 ∷ 5 ∷ 9 ∷ []) no_ring [] refl tt (
  tt,
  (
    (omega arith, tt),
    ((omega arith, (omega arith, tt)), ((omega arith, (omega arith, (omega arith, tt))), tt)),
  ),
)

abbrev last_fails : Spawns
last_fails = record {
  attr_init = true;
  get_stack = true;
  attr_setstack = true;
  mutex_init = true;
  cond_init = true;
  create = true;
  attr_destroy = true;
  lock = true;
  waits = true ∷ [];
  unlock = true;
  cond_destroy = true;
  mutex_destroy = false;
}

spawn_thread_lem_example : spawn_thread last_fails started ≡ (
    if prepared last_fails
    then (if is_started started
        then (if settled last_fails then spawned only_stack else joining only_stack)
        else failed only_stack)
    else failed nothing)
spawn_thread_lem_example = spawn_thread_lem last_fails started

abbrev unlocked : Starts
unlocked = record {
  setcancelstate_works = true;
  handler_malloc = true;
  events_malloc = true;
  ctldata_malloc = true;
  lock_works = false;
}

thread_lem_example : thread unlocked 4 no_ring ≡ (
    if true && (true && (true && true))
    then (if false
        then ok (record { ring = join_ring 4 no_ring; status = started; handler = live })
        else fault)
    else ok (record { ring = no_ring; status = prefail; handler = null }))
thread_lem_example = thread_lem unlocked 4 no_ring

-- Two threads, of which the second takes the signal.
abbrev two : Ring
two = record { leader = some 4; nexttid = λ z. if z == 4 then 6 else 4 }

-- A pthread_join that finds two threads which join each other.
abbrev of_two : ℕ → Bool
of_two n = ltb n 3

abbrev six_joins : Threads
six_joins = passed_on two.nexttid 6 joining (killed 6)

abbrev four_exits : Threads
four_exits = passed_on two.nexttid 4 exited six_joins

abbrev six_exits : Threads
six_exits = record four_exits { phase = with_value 6 exited four_exits.phase }

six_joins-Closes : Closes two.nexttid six_joins 4
six_joins-Closes = (1, refl, only_six)
  where
    only_six : (j : ℕ) → j < 1 → six_joins.phase (iterate two.nexttid (suc j) 4) ≡ joining
    only_six zero below = refl
    only_six (suc j) below = absurd (omega (arith, below))

abbrev both_threads : List ℕ
both_threads = 4 ∷ 6 ∷ []
