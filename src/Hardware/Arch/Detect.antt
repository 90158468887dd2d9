-- ===== src/Hardware/Arch/Detect.antt =====
-- hardware/arch.c: what detect_cputypes leaves behind.
use libtorque.Base.{
  ℕ, zero, suc, ◌+◌, ◌-◌, ◌≤◌, ◌≡◌, ◌⊎◌, inl, inr, subst, refl, sym, ap, ◌∙◌, false, List, [], ◌∷◌,
  ◌++◌, Option, none, some, length, append_assoc, append_nil, ◌==◌, if_cases, not, arith,
}
use libtorque.Errors.{
  TorqueErr, affinity, resource, Outcome, done, failed, fault, out_of_fuel, and_then,
}
use libtorque.Hardware.Cpuid.Ident.{Fuel}
use libtorque.Hardware.Topology.{CpuSet, TopMap, first_from, null}
use libtorque.Hardware.Topology.Rules.{IsTopology}
use libtorque.Hardware.Arch.{
  System, Detected, count_from, detect_loop, reaped, released, unpinned, detect_cputypes,
  detect_cpudetails, portable_cpuset_count, empty, zeroed, detect_masked,
}
use libtorque.Hardware.Arch.Gains.{elem, IsDetected, Gains, Halted, Ends, counted-Gains}
use libtorque.Hardware.Arch.Loop.{members, count_from-members, first_from-members, total}

-- Where the loop stands: the CPUs of the mask are those with a thread, then those from `aid` on.
pub record Walks (n : ℕ) (mask : CpuSet) (left aid : ℕ) (s : Detected) : Type 0 where
  pub detected : IsDetected n s
  pub inside : aid ≤ n
  pub walked : s.threads ++ members (n - aid) aid mask ≡ members n 0 mask
  pub remaining : count_from (n - aid) aid mask ≡ left

-- A thread for each CPU of the mask.
pub record IsComplete (n : ℕ) (mask : CpuSet) (s : Detected) : Type 0 where
  pub detected : IsDetected n s
  pub threads : s.threads ≡ members n 0 mask

no_members : (n z : ℕ) (s : CpuSet) → count_from n z s ≡ 0 → members n z s ≡ []
no_members n z s h = nothing (members n z s) (sym (count_from-members n z s) ∙ h)
  where
    nothing : (xs : List ℕ) → length xs ≡ 0 → xs ≡ []
    nothing [] h = refl
    nothing (x ∷ xs) h = absurd (omega (arith, h))

-- Where the loop fails: the CPUs of the mask are those with a thread, then others, and there is a stack
-- for each thread, or one more.
record Halts (n : ℕ) (mask : CpuSet) (s : Detected) : Type 0 where
  topology : IsTopology n s.topology.sched_zone
  rest : List ℕ
  walked : s.threads ++ rest ≡ members n 0 mask
  stacks : (s.stacks ≡ length s.threads) ⊎ (s.stacks ≡ suc (length s.threads))

and_then-Ends :
    (Q P Q' P' : Detected → Type 0) (r : Outcome Detected) (k : Detected → Outcome Detected)
    → Ends Q P r
    → ((s : Detected) → Q s → Q' s)
    → ((s : Detected) → P s → Ends Q' P' (k s))
    → Ends Q' P' (and_then r k)
and_then-Ends Q P Q' P' (done s) k p halts step = step s p
and_then-Ends Q P Q' P' (failed e s) k p halts step = halts s p
and_then-Ends Q P Q' P' fault k p halts step = tt
and_then-Ends Q P Q' P' out_of_fuel k p halts step = tt

-- One round of the loop.
pub Walks-next :
    (n : ℕ) (mask : CpuSet) (left aid : ℕ) (s s' : Detected)
    → Walks n mask (suc left) aid s
    → Gains n (first_from (n - aid) aid mask) s.threads s'
    → Walks n mask left (suc (first_from (n - aid) aid mask)) s'
Walks-next n mask left aid s s' w g =
    let next = first_from (n - aid) aid mask in
    let f = first_from-members (n - aid) aid left mask w.remaining in
    let inside = w.inside in
    let whole : n - aid + aid ≡ n = omega (arith, inside) in
    let rest = members (n - suc next) (suc next) mask in
    let parts : members (n - aid) aid mask ≡ next ∷ rest =
      f.2 ∙ ap (λ (t : ℕ). next ∷ members (t - suc next) (suc next) mask) whole in
    let here = f.0 in
    record {
      detected = g.detected;
      inside = omega (arith, whole, here);
      walked =
          ap (λ (t : List ℕ). t ++ rest) g.gained
          ∙ append_assoc s.threads (next ∷ []) rest
          ∙ ap (λ (t : List ℕ). s.threads ++ t) (sym parts)
          ∙ w.walked;
      remaining = omega (
        arith,
        count_from-members (n - aid) aid mask,
        ap length parts,
        w.remaining,
        count_from-members (n - suc next) (suc next) mask,
      );
    }

module _ (fuel : Fuel) (n : ℕ) (h : System) (mask : CpuSet) where
  -- The loop finds a CPU in each round, and it has visited all of them at its end.
  detect_loop-Ends :
      (left aid : ℕ) (s : Detected)
      → Walks n mask left aid s
      → Ends (Halts n mask) (IsComplete n mask) (detect_loop fuel n h mask left aid s)
  unfolding detect_loop
  detect_loop-Ends zero aid s w = record {
    detected = w.detected;
    threads =
        sym (append_nil s.threads)
        ∙ ap (λ (t : List ℕ). s.threads ++ t) (sym (no_members _ _ _ w.remaining))
        ∙ w.walked;
  }
  detect_loop-Ends (suc left) aid s w =
      let next = first_from (n - aid) aid mask in
      let inside = w.inside in
      let here = (first_from-members (n - aid) aid left mask w.remaining).0 in
      let more : (next == n) ≡ false = ground (arith, here, inside) in
      rw (more) (
        and_then-Ends (Halted n s.threads) (Gains n next s.threads) (Halts n mask)
          (IsComplete n mask) _ _
          (counted-Gains n h next s (detect_cpudetails fuel h next) w.detected)
          (λ s' q. record {
            topology = q.topology;
            rest = members (n - aid) aid mask;
            walked = ap (λ (t : List ℕ). t ++ members (n - aid) aid mask) q.same ∙ w.walked;
            stacks =
                subst (λ (t : List ℕ). (s'.stacks ≡ length t) ⊎ (s'.stacks ≡ suc (length t)))
                  (sym q.same) q.stacks;
          })
          (λ s' g. detect_loop-Ends left (suc next) s' (Walks-next n mask left aid s s' w g)))

null-IsTopology : (n : ℕ) → IsTopology n null
null-IsTopology n = record { siblings = tt; packages = tt }

-- What is left on an error: of the threads that were started, which are those of the first CPUs of the
-- mask, those that reap_threads leaves, and a stack for each that was started, or one more.
pub record Reaps (n : ℕ) (h : System) (given : Option CpuSet) (s : Detected) : Type 0 where
  pub started : List ℕ
  pub first_ones :
      (started ≡ [])
      ⊎ ((mask : CpuSet) × (rest : List ℕ) × (given ≡ some mask)
          × (started ++ rest ≡ members n 0 mask))
  pub threads : s.threads ≡ reaped h.remaining started
  pub stacks : (s.stacks ≡ length started) ⊎ (s.stacks ≡ suc (length started))

-- What detect_cputypes leaves: a thread for each CPU of the mask, as many as the mask has, or on an
-- error no type, and the threads that reap_threads leaves.
abbrev pub Detects : ℕ → System → Option CpuSet → Outcome Detected → Type 0
Detects n h given (done s) =
    (mask : CpuSet) × (given ≡ some mask)
    × IsComplete n mask s
    × (total s.types ≡ portable_cpuset_count n mask)
Detects n h given (failed e s) =
    (s.types ≡ []) × Reaps n h given s × IsTopology n s.topology.sched_zone
Detects n h given fault = Unit
Detects n h given out_of_fuel = Unit

released-Detects :
    (n : ℕ) (h : System) (mask : CpuSet) (r : Outcome Detected)
    → Ends (Halts n mask) (IsComplete n mask) r
    → Detects n h (some mask) (released h (unpinned h r))
unfolding portable_cpuset_count
released-Detects n h mask (done s) c =
    if_cases (λ r. Detects n h (some mask) (released h r)) h.unpin_works (done s)
      (failed affinity s)
      (λ _. (
        mask,
        refl,
        c,
        c.detected.elements ∙ ap length c.threads ∙ sym (count_from-members n 0 mask),
      ))
      (λ _. (
        refl,
        record {
          started = s.threads;
          first_ones = inr (mask, [], refl, append_nil s.threads ∙ c.threads);
          threads = refl;
          stacks = inl c.detected.stacks;
        },
        c.detected.topology,
      ))
released-Detects n h mask (failed x s) q = (
  refl,
  record {
    started = s.threads;
    first_ones = inr (mask, q.rest, refl, q.walked);
    threads = refl;
    stacks = q.stacks;
  },
  q.topology,
)
released-Detects n h mask fault c = tt
released-Detects n h mask out_of_fuel c = tt

pub start-Walks :
    (n : ℕ) (mask : CpuSet) (tm : List TopMap)
    → Walks n mask
        (portable_cpuset_count n mask)
        0
        (record empty { topology = record { sched_zone = null; tm = tm } })
unfolding total elem portable_cpuset_count
start-Walks n mask tm =
    let whole : n - 0 ≡ n = omega arith in
    record {
      detected = record {
        topology = null-IsTopology n;
        scheduled = λ z. refl;
        elements = refl;
        described = tt;
        stacks = refl;
      };
      inside = omega arith;
      walked = rw (whole) refl;
      remaining = rw (whole) refl;
    }

early-Detects :
    (n : ℕ) (h : System) (given : Option CpuSet) (e : TorqueErr)
    → Detects n h given (failed e empty)
early-Detects n h given e = (
  refl,
  record { started = []; first_ones = inl refl; threads = refl; stacks = inl refl },
  null-IsTopology n,
)

detect_masked-Detects :
    (fuel : Fuel) (n : ℕ) (h : System) (given : Option CpuSet)
    → Detects n h given (detect_masked fuel n h given)
unfolding detect_masked
detect_masked-Detects fuel n h none = early-Detects n h none affinity
detect_masked-Detects fuel n h (some mask) =
    let count = portable_cpuset_count n mask in
    if_cases (Detects n h (some mask)) (count == 0) _ _
      (λ _. early-Detects n h (some mask) affinity)
      (λ _.
        if_cases (Detects n h (some mask)) (not h.topmap_works) _ _
          (λ _. early-Detects n h (some mask) resource)
          (λ _.
            released-Detects n h mask _
              (detect_loop-Ends fuel n h mask count 0 _ (start-Walks n mask (zeroed count)))))

-- Where detect_cputypes succeeds, it started one thread for each CPU of the affinity mask, in
-- order, with a stack each; the topology keeps its rules and holds exactly these CPUs, and the elements
-- of the types are together as many as the mask has CPUs. On every error it leaves no type, a topology
-- that keeps its rules, a stack for each thread that it started, or one more, and those threads that
-- reap_threads leaves of the ones it started, which are for the first CPUs of the mask.
pub detect_cputypes-Detects :
    (fuel : Fuel) (cpu_setsize : ℕ) (h : System)
    → Detects cpu_setsize h h.mask (detect_cputypes fuel cpu_setsize h)
unfolding detect_cputypes
detect_cputypes-Detects fuel n h = detect_masked-Detects fuel n h h.mask
