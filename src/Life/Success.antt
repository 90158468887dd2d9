-- ===== src/Life/Success.antt =====
-- torque.c: torque_init succeeds where nothing is refused.
use libtorque.Base.{ℕ, ◌<◌, subst, ◌≡◌, refl, ap, ◌∙◌, ◌&&◌, Bool, true, false, if◌then◌else◌, some}
use libtorque.Errors.{assert, done}
use libtorque.Events.Signals.{Addresses}
use libtorque.Events.Sources.{World}
use libtorque.Context
use libtorque.Context.{Answers, Ledger, create_torque_ctx}
use libtorque.Hardware.Arch.{Detected, portable_cpuset_count, detect_cputypes}
use libtorque.Hardware.Arch.Whole.{Machinery, Found}
use libtorque.Hardware.Arch.Whole.Success.{HasDevices, detect_architecture-succeeds}
use libtorque.Hardware.Memory.Nodes.Success.{HasMemory}
use libtorque.Context.Success.{Grants, create_torque_ctx-succeeds}
use libtorque.Hardware.Topology.{CpuSet}
use libtorque.Hardware.Arch.Success.{Works, detect_cputypes-succeeds}
use libtorque.Hardware.Arch.Detect.{Detects, detect_cputypes-Detects}
use libtorque.Hardware.Arch.Loop.{members}
use libtorque.Life.{
  Ctx, Held, Signals, error, Init, context, no_context, with_ctx, unmasked, Machine, detection_of,
  torque_stop, torque_init,
}

-- The calls of torque_init on signals work.
pub record Allows (g : Signals) : Type 0 where
  pub sigaction_works : g.sigaction_works ≡ true
  pub ignore_works : g.ignore_works ≡ true
  pub makesigmask_works : g.makesigmask_works ≡ true
  pub block_works : g.block_works ≡ true
  pub setmask_works : g.setmask_works ≡ true

-- The same from the parts.
from_parts :
    (g : Signals) (a : Answers) (addresses : Addresses) (m : Machine) (s : Held) (w : World)
    (l : Ledger) (d : Detected)
    → Allows g
    → create_torque_ctx a addresses s.ledger ≡ Context.made w l
    → detect_cputypes m.fuel m.cpu_setsize m.system ≡ done d
    → HasDevices m.cuda
    → HasMemory m.memory
    → (c : Ctx) × (s' : Held) × (torque_init g a addresses m s ≡ context c s')
      × (s'.machinery.detected.threads ≡ d.threads)
unfolding torque_init
from_parts g a addresses m s w l d allows made cpus devices memory =
    let (k, e, same) =
      detect_architecture-succeeds m.fuel m.cpu_setsize m.system m.cuda m.memory d cpus devices
        memory in
    let masked : Held = record s { masked = true } in
    let found = detection_of m in
    let held : Held = record { ledger = l; machinery = k; masked = false } in
    (
      record { world = w; machinery = k },
      held,
      rw (allows.sigaction_works, allows.ignore_works, allows.makesigmask_works, allows.block_works)
          (no_trouble g.sigpipe_default _ _
            ∙ ap (λ (q : Context.Made). unmasked g (with_ctx q masked found)) made
            ∙ ap (λ (q : Found Machinery). unmasked g (with_ctx (Context.made w l) masked q)) e
            ∙ ap
                (λ (b : Bool).
                  if b
                  then context (record { world = w; machinery = k }) held
                  else no_context (some (error assert))
                      (torque_stop g (record held { masked = true })).0)
                allows.setmask_works),
      same,
    )
  where
    no_trouble : (b : Bool) (x y : Init) → (if b && false then x else y) ≡ y
    no_trouble true x y = refl
    no_trouble false x y = refl

-- Where malloc, the kernel, adns and the calls on signals refuse nothing to torque_init, the tables have
-- entries for the descriptor of signalfd and for the signals of the library, the affinity mask has a
-- CPU and no gaps, the operating system, the allocator, x86cpuid and the start of threads refuse
-- nothing for its CPUs, and CUDA's devices and the memory can be described, torque_init makes a
-- context, with a thread for each CPU of the mask, in order.
pub torque_init-succeeds :
    (g : Signals) (a : Answers) (addresses : Addresses) (m : Machine) (s : Held) (mask : CpuSet)
    → Allows g
    → Grants a
    → m.system.mask ≡ some mask
    → Works m.fuel m.system mask
    → m.system.topmap_works ≡ true
    → m.system.unpin_works ≡ true
    → 0 < portable_cpuset_count m.cpu_setsize mask
    → ((z : ℕ) → mask z ≡ true → z < portable_cpuset_count m.cpu_setsize mask)
    → HasDevices m.cuda
    → HasMemory m.memory
    → (c : Ctx) × (s' : Held) × (torque_init g a addresses m s ≡ context c s')
      × (s'.machinery.detected.threads ≡ members m.cpu_setsize 0 mask)
torque_init-succeeds g a addresses m s mask allows grants given works topmap unpin positive dense
      devices memory =
    let (w, l, made) = create_torque_ctx-succeeds a grants addresses s.ledger in
    let (d, cpus) =
      detect_cputypes-succeeds m.fuel m.cpu_setsize m.system mask given works topmap unpin positive
        dense in
    let (mask', given', complete, _) =
      subst (Detects m.cpu_setsize m.system m.system.mask) cpus
        (detect_cputypes-Detects m.fuel m.cpu_setsize m.system) in
    let same : mask' ≡ mask = cc (given', given) in
    let (c, s', e, threads) = from_parts g a addresses m s w l d allows made cpus devices memory in
    (c, s', e, threads ∙ complete.threads ∙ ap (λ (t : CpuSet). members m.cpu_setsize 0 t) same)
