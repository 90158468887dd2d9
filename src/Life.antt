-- ===== src/Life.antt =====
-- torque.c and schedule.c: the life of a context, from torque_init to torque_stop or torque_block.
pub mod Balance
pub mod Success
mod Tests
use libtorque.Base.{
  ℕ, ◌+◌, ◌-◌, Bool, true, false, ◌&&◌, not, List, [], Option, none, some, if◌then◌else◌,
}
use libtorque.Errors.{TorqueErr, assert}
use libtorque.Events.Signals.{Addresses}
use libtorque.Context
use libtorque.Context.{
  Answers, Ledger, free_blocks, close_fds, dns_shutdown, free_etables, create_torque_ctx,
}
use libtorque.Hardware.Cpuid.Ident.{Fuel}
use libtorque.Hardware.Arch.{System, reaped}
use libtorque.Hardware.Arch.Whole.{Machinery, Found, Cuda, detect_architecture, free_architecture}
use libtorque.Hardware.Memory.Nodes.{MemorySystem}
use libtorque.Events.Sources.{World}

-- A context: its tables with its queue, and what it knows of the machine.
pub record Ctx : Type 0 where
  pub world : World
  pub machinery : Machinery

-- What is held (the ledger of the context, the description of the machine with the threads that run
-- and the stacks that are mapped for threads), and whether the library's signal mask is in force.
pub record Held : Type 0 where
  pub ledger : Ledger
  pub machinery : Machinery
  pub masked : Bool

-- What the calls of torque_init and torque_stop meet, beside those of the context and of the
-- detection. `sigpipe_default` is whether SIGPIPE has its default action, `reap_works` whether
-- kill and pthread_join work in reap_threads, or pthread_join in block_threads, and `remaining` which
-- threads still run after that.
pub record Signals : Type 0 where
  pub sigaction_works : Bool
  pub sigpipe_default : Bool
  pub ignore_works : Bool
  pub makesigmask_works : Bool
  pub block_works : Bool
  pub setmask_works : Bool
  pub torque_sigmask_works : Bool
  pub reap_works : Bool
  pub remaining : List ℕ → List ℕ
  pub close_works : Bool
  pub restore_works : Bool

-- A result of the library beside success: an error of it, or -1.
pub data Failure : Type 0 where
  error : TorqueErr → Failure
  minus_one : Failure

-- What torque_init returns: a context, or NULL with `*e`, which is `none` for TORQUE_ERR_NONE.
pub data Init : Type 0 where
  context : Ctx → Held → Init
  no_context : Option Failure → Held → Init
  crash : Init
  cut_short : Init

-- free_torque_ctx, with destroy_evqueue. The threads are not touched, nor their stacks.
unfoldable pub free_torque_ctx : Held → Held
unfolding free_architecture
free_torque_ctx s = record s {
  ledger = free_blocks 1 (dns_shutdown (close_fds 1 (free_etables s.ledger)));
  machinery = free_architecture s.machinery;
}

abbrev pub result_of : Bool → Option TorqueErr
result_of true = none
result_of false = some assert

-- reap_threads or block_threads, by the threads that are left. Nothing unmaps their stacks.
abbrev pub with_remaining : (List ℕ → List ℕ) → Machinery → Machinery
with_remaining remaining m =
    let d = m.detected in record m { detected = record d { threads = reaped remaining d.threads } }

-- The part of torque_stop and of torque_block after torque_sigmask. The context is freed in any case.
abbrev pub stopped : Signals → Held → Held × Option TorqueErr
stopped g s = (
  record (free_torque_ctx (record s { machinery = with_remaining g.remaining s.machinery })) {
    masked = if g.restore_works then s.masked else true;
  },
  result_of (g.reap_works && (g.close_works && g.restore_works)),
)

-- Of a context. `none` is success.
unfoldable pub torque_stop : Signals → Held → Held × Option TorqueErr
unfolding free_torque_ctx
torque_stop g s = if not g.torque_sigmask_works then (s, some assert) else stopped g s

unfoldable pub torque_block : Signals → Held → Held × Option TorqueErr
unfolding free_torque_ctx
torque_block g s = if not g.torque_sigmask_works then (s, some assert) else stopped g s

-- torque_init_sigmasked, after the detection.
abbrev pub with_machinery : World → Held → Found Machinery → Init
with_machinery w s (Found.ready m) =
    context (record { world = w; machinery = m }) (record s { machinery = m })
with_machinery w s (Found.refused e m) =
    no_context (some (error e)) (free_torque_ctx (record s { machinery = m }))
with_machinery w s (Found.minus_one m) =
    no_context (some minus_one) (free_torque_ctx (record s { machinery = m }))
with_machinery w s Found.crash = crash
with_machinery w s Found.cut_short = cut_short

abbrev pub failure_of : Option TorqueErr → Option Failure
failure_of none = none
failure_of (some e) = some (error e)

abbrev pub with_ctx : Context.Made → Held → Found Machinery → Init
with_ctx (Context.made w l) s found = with_machinery w (record s { ledger = l }) found
with_ctx (Context.not_made e l) s found = no_context (failure_of e) (record s { ledger = l })
with_ctx Context.Made.crash s found = crash

-- The last call, which restores the signal mask; where it fails, torque_stop is called.
abbrev pub unmasked : Signals → Init → Init
unmasked g (context c s) =
    if g.setmask_works
    then context c (record s { masked = false })
    else no_context (some (error assert)) (torque_stop g s).0
unmasked g (no_context e s) =
    if g.setmask_works
    then no_context e (record s { masked = false })
    else no_context (some (error assert)) s
unmasked g crash = crash
unmasked g cut_short = cut_short

-- The answers that the detection meets.
pub record Machine : Type 0 where
  pub fuel : Fuel
  pub cpu_setsize : ℕ
  pub system : System
  pub cuda : Cuda
  pub memory : MemorySystem

abbrev pub detection_of : Machine → Found Machinery
detection_of m = detect_architecture m.fuel m.cpu_setsize m.system m.cuda m.memory

unfoldable pub torque_init : Signals → Answers → Addresses → Machine → Held → Init
unfolding torque_stop
torque_init g a addresses m s =
    let masked = record s { masked = true } in
    if not g.sigaction_works
    then no_context (some (error assert)) s
    else if g.sigpipe_default && not g.ignore_works
    then no_context (some (error assert)) s
    else if not (g.makesigmask_works && g.block_works)
    then no_context (some (error assert)) s
    else unmasked g (with_ctx (create_torque_ctx a addresses s.ledger) masked (detection_of m))
