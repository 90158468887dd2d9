-- ===== src/Life/Balance.antt =====
-- torque.c: what is held, and which threads run, once torque_init returns and after torque_stop.
use libtorque.Base.{
  ◌≡◌, ◌⊎◌, inl, inr, refl, subst, Bool, true, false, ◌&&◌, not, length, Option, none, some, Run,
  if_cases, if◌then◌else◌, ◌∙◌, arith,
}
use libtorque.Errors.{TorqueErr, assert, done}
use libtorque.Events.Signals.{Addresses}
use libtorque.Events.Sources.{World}
use libtorque.Context
use libtorque.Context.{Answers, Ledger, free_etables, create_torque_ctx}
use libtorque.Context.Held.{Gained, NothingBut, Balances, create_torque_ctx-Balances}
use libtorque.Hardware.Arch.{reaped, Detected, detect_cputypes}
use libtorque.Hardware.Arch.Whole.{Machinery, Found, free_architecture}
use libtorque.Hardware.Arch.Whole.Ends.{IsFreed, LeavesThreads, Ends, detect_architecture-Ends}
use libtorque.Hardware.Memory.Nodes.Detected.{OneNode}
use libtorque.Life.{
  Ctx, Held, Signals, with_remaining, Failure, error, Init, context, no_context, crash, cut_short,
  free_torque_ctx, result_of, stopped, torque_stop, torque_block, with_machinery, with_ctx,
  unmasked, Machine, detection_of, torque_init,
}

-- The threads and stacks of detect_cputypes.
abbrev pub RunsThreads : Machine → Machinery → Type 0
RunsThreads m k =
    LeavesThreads m.cpu_setsize m.system (detect_cputypes m.fuel m.cpu_setsize m.system) k.detected

-- An error, unless malloc fails for the context.
abbrev pub Reports : Answers → Option Failure → Type 0
Reports a none = a.ctx_malloc ≡ false
Reports a (some e) = Unit

-- What is left where torque_init returns NULL. The context is still held where the mask is neither
-- restored nor set by torque_stop.
abbrev pub Left : Signals → Answers → Ledger → Held → Type 0
Left g a l s =
    (NothingBut a l s.ledger × IsFreed s.machinery)
    ⊎ ((g.setmask_works ≡ false) × (g.torque_sigmask_works ≡ false) × Gained l 3 2 1 s.ledger)

-- The threads and stacks that are left then: none before the detection, those of detect_cputypes, or
-- what torque_stop leaves of them.
abbrev pub LeftThreads : Signals → Machine → Machinery → Machinery → Type 0
LeftThreads g m before k =
    ((k.detected.threads ≡ before.detected.threads) × (k.detected.stacks ≡ before.detected.stacks))
    ⊎ ((k' : Machinery) × RunsThreads m k'
        × (k.detected.stacks ≡ k'.detected.stacks)
        × ((k.detected.threads ≡ k'.detected.threads)
            ⊎ (k.detected.threads ≡ reaped g.remaining k'.detected.threads)))

-- How torque_init ends, from what was held before.
abbrev pub Begins : Signals → Answers → Machine → Held → Init → Type 0
Begins g a m before (context c s) =
    Gained before.ledger 3 2 1 s.ledger
    × RunsThreads m s.machinery
    × OneNode m.memory s.machinery.detected.types (Run.ok s.machinery.nodes)
    × (s.masked ≡ false)
Begins g a m before (no_context e s) =
    Left g a before.ledger s × Reports a e × LeftThreads g m before.machinery s.machinery
Begins g a m before crash = Unit
Begins g a m before cut_short = Unit

-- The same before the mask is restored.
abbrev Sigmasked : Signals → Answers → Machine → Held → Init → Type 0
Sigmasked g a m before (context c s) =
    Gained before.ledger 3 2 1 s.ledger
    × RunsThreads m s.machinery
    × OneNode m.memory s.machinery.detected.types (Run.ok s.machinery.nodes)
Sigmasked g a m before (no_context e s) =
    (NothingBut a before.ledger s.ledger × IsFreed s.machinery)
    × Reports a e
    × LeftThreads g m before.machinery s.machinery
Sigmasked g a m before crash = Unit
Sigmasked g a m before cut_short = Unit

free_torque_ctx-Gained :
    (l : Ledger) (s : Held)
    → Gained l 3 2 1 s.ledger
    → Gained l 0 0 0 (free_torque_ctx s).ledger × IsFreed (free_torque_ctx s).machinery
unfolding free_torque_ctx free_etables free_architecture
free_torque_ctx-Gained l s (heap, fds, dns) =
    ((omega (arith, heap), omega (arith, fds), omega (arith, dns)), (refl, refl, refl))

free_torque_ctx-threads :
    (s : Held)
    → ((free_torque_ctx s).machinery.detected.threads ≡ s.machinery.detected.threads)
      × ((free_torque_ctx s).machinery.detected.stacks ≡ s.machinery.detected.stacks)
unfolding free_torque_ctx free_architecture
free_torque_ctx-threads s = (refl, refl)

free_torque_ctx-Sigmasked :
    (g : Signals) (a : Answers) (m : Machine) (before s : Held)
    → Gained before.ledger 3 2 1 s.ledger
    → RunsThreads m s.machinery
    → (NothingBut a before.ledger (free_torque_ctx s).ledger
        × IsFreed (free_torque_ctx s).machinery)
      × LeftThreads g m before.machinery (free_torque_ctx s).machinery
free_torque_ctx-Sigmasked g a m before s gained runs =
    let freed = free_torque_ctx-Gained before.ledger s gained in
    let same = free_torque_ctx-threads s in
    ((inl freed.0, freed.1), inr (s.machinery, runs, same.1, inl same.0))

with_machinery-Sigmasked :
    (g : Signals) (a : Answers) (m : Machine) (before s : Held) (w : World)
    (found : Found Machinery)
    → Gained before.ledger 3 2 1 s.ledger
    → Ends m.cpu_setsize m.system m.memory (detect_cputypes m.fuel m.cpu_setsize m.system) found
    → Sigmasked g a m before (with_machinery w s found)
with_machinery-Sigmasked g a m before s w (Found.ready k) gained (threads, one) =
    (gained, threads, one)
with_machinery-Sigmasked g a m before s w (Found.refused e k) gained (gone, threads) =
    let left = free_torque_ctx-Sigmasked g a m before (record s { machinery = k }) gained threads in
    (left.0, tt, left.1)
with_machinery-Sigmasked g a m before s w (Found.minus_one k) gained (gone, threads) =
    let left = free_torque_ctx-Sigmasked g a m before (record s { machinery = k }) gained threads in
    (left.0, tt, left.1)
with_machinery-Sigmasked g a m before s w Found.crash gained ends = tt
with_machinery-Sigmasked g a m before s w Found.cut_short gained ends = tt

with_ctx-Sigmasked :
    (g : Signals) (a : Answers) (m : Machine) (before : Held) (made : Context.Made)
    (found : Found Machinery)
    → IsFreed before.machinery
    → Balances a before.ledger made
    → Ends m.cpu_setsize m.system m.memory (detect_cputypes m.fuel m.cpu_setsize m.system) found
    → Sigmasked g a m before (with_ctx made (record before { masked = true }) found)
with_ctx-Sigmasked g a m before (Context.made w l') found unknown gained ends =
    with_machinery-Sigmasked g a m before (record before { ledger = l'; masked = true }) w found
      gained ends
with_ctx-Sigmasked g a m before (Context.not_made (some e) l') found unknown nothing ends =
    ((nothing, unknown), tt, inl (refl, refl))
with_ctx-Sigmasked g a m before (Context.not_made none l') found unknown (no_memory, gained) ends =
    ((inl gained, unknown), no_memory, inl (refl, refl))
with_ctx-Sigmasked g a m before Context.Made.crash found unknown balances ends = tt

stopped-threads :
    (g : Signals) (s : Held)
    → ((stopped g s).0.machinery.detected.threads ≡ reaped g.remaining s.machinery.detected.threads)
      × ((stopped g s).0.machinery.detected.stacks ≡ s.machinery.detected.stacks)
stopped-threads g s =
    free_torque_ctx-threads (record s { machinery = with_remaining g.remaining s.machinery })

stopped-Gained :
    (g : Signals) (l : Ledger) (s : Held)
    → Gained l 3 2 1 s.ledger
    → Gained l 0 0 0 (stopped g s).0.ledger × IsFreed (stopped g s).0.machinery
stopped-Gained g l s gained =
    free_torque_ctx-Gained l (record s { machinery = with_remaining g.remaining s.machinery })
      gained

unmasked-Begins :
    (g : Signals) (a : Answers) (m : Machine) (before : Held) (i : Init)
    → Sigmasked g a m before i
    → Begins g a m before (unmasked g i)
unfolding torque_stop
unmasked-Begins g a m before (context c s) (gained, threads, one) =
    if_cases (Begins g a m before) g.setmask_works _ _ (λ _. (gained, threads, one, refl))
      (λ e.
        if_cases
          (λ (r : Held × Option TorqueErr).
            Begins g a m before (no_context (some (error assert)) r.0))
          (not g.torque_sigmask_works) _ _
          (λ e'. (
            inr (e, negated g.torque_sigmask_works e', gained),
            tt,
            inr (s.machinery, threads, refl, inl refl),
          ))
          (λ _.
            let freed = stopped-Gained g before.ledger s gained in
            let same = stopped-threads g s in
            (inl (inl freed.0, freed.1), tt, inr (s.machinery, threads, same.1, inr same.0))))
  where
    negated : (b : Bool) → not b ≡ true → b ≡ false
    negated true e = cc e
    negated false e = refl
unmasked-Begins g a m before (no_context e s) (nothing, reports, threads) =
    if_cases (Begins g a m before) g.setmask_works _ _ (λ _. (inl nothing, reports, threads))
      (λ _. (inl nothing, tt, threads))
unmasked-Begins g a m before crash h = tt
unmasked-Begins g a m before cut_short h = tt

pub torque_init-Begins :
    (g : Signals) (a : Answers) (addresses : Addresses) (m : Machine) (s : Held)
    → IsFreed s.machinery
    → Begins g a m s (torque_init g a addresses m s)
unfolding torque_init
torque_init-Begins g a addresses m s unknown =
    let goal = Begins g a m s in
    if_cases goal (not g.sigaction_works) _ _ (λ _. early)
      (λ _.
        if_cases goal (g.sigpipe_default && not g.ignore_works) _ _ (λ _. early)
          (λ _.
            if_cases goal (not (g.makesigmask_works && g.block_works)) _ _ (λ _. early)
              (λ _. unmasked-Begins g a m s _ (
                with_ctx-Sigmasked g a m s (create_torque_ctx a addresses s.ledger) (detection_of m)
                  unknown (create_torque_ctx-Balances a addresses s.ledger)
                  (detect_architecture-Ends m.fuel m.cpu_setsize m.system m.cuda m.memory)))))
  where
    early : Begins g a m s (no_context (some (error assert)) s)
    early = (inl (inl (omega arith, omega arith, omega arith), unknown), tt, inl (refl, refl))

-- The calls of torque_stop that are looked at all work.
pub record Works (g : Signals) : Type 0 where
  pub torque_sigmask_works : g.torque_sigmask_works ≡ true
  pub reap_works : g.reap_works ≡ true
  pub close_works : g.close_works ≡ true
  pub restore_works : g.restore_works ≡ true

-- From a context with these threads, all but the stacks is given back.
abbrev pub GivesBack : Signals → Ledger → Machinery → Held × Option TorqueErr → Type 0
GivesBack g l k (s, e) =
    (e ≡ none)
    × Gained l 0 0 0 s.ledger
    × IsFreed s.machinery
    × (s.machinery.detected.threads ≡ reaped g.remaining k.detected.threads)
    × (s.machinery.detected.stacks ≡ length k.detected.threads)
    × (s.masked ≡ false)

-- After torque_init made a context, torque_stop, or torque_block, succeeds where its calls work. The
-- ledger of the context is what it was before, nothing is left of the description of the machine, and
-- the mask is as it was; of the threads those run that reap_threads or block_threads leaves. But the
-- stack of every thread that torque_init started stays mapped.
pub torque_stop-torque_init :
    (g g' : Signals) (a : Answers) (addresses : Addresses) (m : Machine) (s s' : Held) (c : Ctx)
    (d : Detected)
    → IsFreed s.machinery
    → detect_cputypes m.fuel m.cpu_setsize m.system ≡ done d
    → torque_init g a addresses m s ≡ context c s'
    → Works g'
    → GivesBack g' s.ledger s'.machinery (torque_stop g' s')
      × GivesBack g' s.ledger s'.machinery (torque_block g' s')
unfolding torque_stop torque_block
torque_stop-torque_init g g' a addresses m s s' c d unknown cpus init works =
    let began = subst (Begins g a m s) init (torque_init-Begins g a addresses m s unknown) in
    let runs =
      subst (λ r. LeavesThreads m.cpu_setsize m.system r s'.machinery.detected) cpus began.1 in
    let freed = stopped-Gained g' s.ledger s' began.0 in
    let same = stopped-threads g' s' in
    let ends : GivesBack g' s.ledger s'.machinery (stopped g' s') =
      (reported works, freed.0, freed.1, same.0, same.1 ∙ runs.3, restored works began.3) in
    rw (works.torque_sigmask_works) (ends, ends)
  where
    reported : Works g' → result_of (g'.reap_works && (g'.close_works && g'.restore_works)) ≡ none
    reported w = rw (w.reap_works, w.close_works, w.restore_works) refl

    restored : Works g' → s'.masked ≡ false → (if g'.restore_works then s'.masked else true) ≡ false
    restored w e = rw (w.restore_works) e
