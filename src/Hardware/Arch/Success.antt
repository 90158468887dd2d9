-- ===== src/Hardware/Arch/Success.antt =====
-- hardware/arch.c: when detect_cputypes succeeds.
use libtorque.Base.{
  ℕ, zero, suc, ◌-◌, ◌<◌, ◌≡◌, refl, sym, ap, ◌∙◌, subst, Bool, true, false, ◌||◌, not, inl, inr,
  List, [], ◌∷◌, ◌++◌, some, ok, length, length-set, ◌==◌, ==_iff, Bool-cases, Option-cases,
  if◌then◌else◌, arith, ltb,
}
use libtorque.Errors.{affinity, resource, Outcome, done, failed, and_then}
use libtorque.Hardware.Cpuid.Place.{Place}
use libtorque.Hardware.Cpuid.Ident.{Fuel, Identity, x86cpuid}
use libtorque.Hardware.Topology
use libtorque.Hardware.Topology.{
  CpuSet, TopMap, Topt, first_from, Topology, topologize, mapped, null, Allocs,
}
use libtorque.Hardware.Topology.Rules.{IsTopology, Leaves, union}
use libtorque.Hardware.Topology.Success.{working, topologize-succeeds_within}
use libtorque.Hardware.Arch.{
  System, Detected, Details, found, described, detect_cpudetails, match_cputype, count_element,
  spawned, place_cpu, count_cpu, counted, detect_loop, detect_masked, detect_cputypes,
  portable_cpuset_count, released, unpinned, zeroed, empty,
}
use libtorque.Hardware.Arch.Loop.{first_from-members}
use libtorque.Hardware.Arch.Gains.{
  elem, elem-append, IsDetected, Gains, Halted, Ends, counted-Gains,
}
use libtorque.Hardware.Arch.Detect.{Walks, Walks-next, start-Walks}

mapped-length :
    (tm : List TopMap) (aid : ℕ) (seen : TopMap) (r : Topology.Change Topt)
    → Leaves (λ t. length t.tm ≡ length tm) (mapped tm aid seen r)
mapped-length tm aid seen (Topology.done z) = elim (Bool-cases (ltb aid (length tm))) [
  | inl e ↦ rw (e) (length-set tm aid seen)
  | inr e ↦ rw (e) tt
]
mapped-length tm aid seen (Topology.failed e z) = refl
mapped-length tm aid seen Topology.fault = tt

topologize-length :
    (n : ℕ) (a : Allocs) (t : Topology) (aid thread core pkg cputype : ℕ)
    → Leaves (λ t'. length t'.tm ≡ length t.tm) (topologize n a t aid thread core pkg cputype)
unfolding topologize
topologize-length n a t aid thread core pkg cputype = elim (Bool-cases (ltb aid n)) [
  | inl e ↦ rw (e) (mapped-length t.tm aid _ _)
  | inr e ↦ rw (e) refl
]

-- Nothing that the loop asks for is refused, for the CPUs of a mask.
pub record Works (fuel : Fuel) (h : System) (mask : CpuSet) : Type 0 where
  pub pins : (z : ℕ) → mask z ≡ true → h.pin_works z ≡ true
  pub identifies :
      (z : ℕ) → mask z ≡ true → (i : Identity) × (x86cpuid fuel (h.machine z) h.garbage ≡ ok i)
  pub grows : (k : ℕ) → h.grow_types k ≡ true
  pub allocates : (z : ℕ) → h.allocs z ≡ working
  pub spawns : (z : ℕ) → mask z ≡ true → h.spawn_works z ≡ true

-- The maps are as many as the CPUs, whose numbers are below that count.
pub record IsReady (n count : ℕ) (s : Detected) : Type 0 where
  pub size : length s.topology.tm ≡ count
  pub below : (z : ℕ) → elem z s.threads ≡ true → z < count

module _ (fuel : Fuel) (n count : ℕ) (h : System) (mask : CpuSet) (works : Works fuel h mask)
    (aid : ℕ) (member : mask aid ≡ true) (possible : aid < n) (inside : aid < count) where
  -- The end of a round that succeeds.
  abbrev EndsWell : Detected → Outcome Detected → Type 0
  EndsWell s r = (s' : Detected) × (r ≡ done s') × (length s'.topology.tm ≡ length s.topology.tm)

  spawned-done :
      (s : Detected) (t : Topology)
      → h.spawn_works aid ≡ true
      → spawned h aid s (Topology.done t)
        ≡ done (record s { topology = t; threads = s.threads ++ (aid ∷ []); stacks = suc s.stacks })
  spawned-done s t e = rw (e) refl

  place_cpu-succeeds :
      (p : Place) (s : Detected) (cputype : ℕ)
      → IsTopology n s.topology.sched_zone
      → ((z : ℕ) → union s.topology.sched_zone z ≡ elem z s.threads)
      → IsReady n count s
      → EndsWell s (place_cpu n h aid p s cputype)
  unfolding place_cpu
  place_cpu-succeeds p s cputype rules same ready =
      let sized = ready.size in
      let placed =
        topologize-succeeds_within n s.topology aid p.thread p.core p.pkg cputype rules possible
          (omega (arith, inside, sized))
          (λ z e. let low = ready.below z (sym (same z) ∙ e) in omega (arith, low, sized)) in
      let kept =
        subst (Leaves (λ t. length t.tm ≡ length s.topology.tm)) placed.1
          (topologize-length n working s.topology aid p.thread p.core p.pkg cputype) in
      (
        record s { topology = placed.0; threads = s.threads ++ (aid ∷ []); stacks = suc s.stacks },
        ap
              (λ (a : Allocs).
                spawned h aid s (topologize n a s.topology aid p.thread p.core p.pkg cputype))
              (works.allocates aid)
            ∙ ap (spawned h aid s) placed.1
            ∙ spawned-done s placed.0 (works.spawns aid member),
        kept,
      )

  count_cpu-succeeds :
      (i : Identity) (s : Detected)
      → IsDetected n s
      → IsReady n count s
      → EndsWell s (count_cpu n h aid i s)
  unfolding count_cpu
  count_cpu-succeeds i s v ready = elim (Option-cases (match_cputype s.types i.cpu)) [
    | inr f ↦
        rw (f.1, count_cpu)
          (place_cpu-succeeds i.place (record s { types = count_element s.types f.0 }) f.0
            v.topology v.scheduled (record { size = ready.size; below = ready.below }))
    | inl f ↦
        rw (f, count_cpu)
          (let grown = works.grows (length s.types) in
            rw (grown) (
              place_cpu-succeeds i.place _ (length s.types) v.topology v.scheduled
                (record { size = ready.size; below = ready.below })))
  ]

  detected :
      (s : Detected)
      → IsDetected n s
      → IsReady n count s
      → EndsWell s (counted n h aid s (detect_cpudetails fuel h aid))
  unfolding detect_cpudetails
  detected s v ready =
      let i = works.identifies aid member in
      let pinned = works.pins aid member in
      let same : detect_cpudetails fuel h aid ≡ found i.0 = rw (pinned) (ap described i.1) in
      subst (λ (d : Details). EndsWell s (counted n h aid s d)) (sym same)
        (count_cpu-succeeds i.0 s v ready)

length-zeroed : (n : ℕ) → length (zeroed n) ≡ n
length-zeroed zero = refl
length-zeroed (suc n) = ap suc (length-zeroed n)

no_thread : (count z : ℕ) → elem z [] ≡ true → z < count
unfolding elem
no_thread count z e = absurd (cc e)

module _ (fuel : Fuel) (n count : ℕ) (h : System) (mask : CpuSet) (works : Works fuel h mask)
    (dense : (z : ℕ) → mask z ≡ true → z < count) where
  IsReady-next :
      (aid : ℕ) (s s' : Detected)
      → IsReady n count s
      → aid < count
      → Gains n aid s.threads s'
      → length s'.topology.tm ≡ length s.topology.tm
      → IsReady n count s'
  IsReady-next aid s s' ready inside g same = record {
    size = same ∙ ready.size;
    below = λ z e. one_of z (sym (elem-append z aid s.threads) ∙ ap (elem z) (sym g.gained) ∙ e);
  }
    where
      one_of : (z : ℕ) → ((z == aid) || elem z s.threads) ≡ true → z < count
      one_of z e = elim (Bool-cases (z == aid)) [
        | inl f ↦ let same' = (==_iff z aid).0 f in omega (arith, same', inside)
        | inr f ↦ ready.below z (rw (f) at e)
      ]

  detect_loop-succeeds :
      (left aid : ℕ) (s : Detected)
      → Walks n mask left aid s
      → IsReady n count s
      → (s' : Detected) × (detect_loop fuel n h mask left aid s ≡ done s')
  unfolding detect_loop
  detect_loop-succeeds zero aid s w ready = (s, refl)
  detect_loop-succeeds (suc left) aid s w ready =
      let next = first_from (n - aid) aid mask in
      let f = first_from-members (n - aid) aid left mask w.remaining in
      let low = f.0 in
      let high = w.inside in
      let member = f.3 in
      let inside = dense next member in
      let more : (next == n) ≡ false = ground (arith, low, high) in
      let one =
        detected fuel n count h mask works next member (omega (arith, low, high)) inside s
          w.detected ready in
      let gains =
        subst (Ends (Halted n s.threads) (Gains n next s.threads)) one.1
          (counted-Gains n h next s (detect_cpudetails fuel h next) w.detected) in
      let rest =
        detect_loop-succeeds left (suc next) one.0 (Walks-next n mask left aid s one.0 w gains)
          (IsReady-next next s one.0 ready inside gains one.2) in
      (
        rest.0,
        rw (more) (
            ap
              (λ (r : Outcome Detected).
                and_then r (λ s'. detect_loop fuel n h mask left (suc next) s'))
              one.1
            ∙ rest.1),
      )

-- Where the mask has a CPU and no gaps, and the operating system, the allocator, x86cpuid and the
-- start of threads refuse nothing for its CPUs, detect_cputypes succeeds.
pub detect_cputypes-succeeds :
    (fuel : Fuel) (cpu_setsize : ℕ) (h : System) (mask : CpuSet)
    → h.mask ≡ some mask
    → Works fuel h mask
    → h.topmap_works ≡ true
    → h.unpin_works ≡ true
    → 0 < portable_cpuset_count cpu_setsize mask
    → ((z : ℕ) → mask z ≡ true → z < portable_cpuset_count cpu_setsize mask)
    → (s : Detected) × (detect_cputypes fuel cpu_setsize h ≡ done s)
unfolding detect_cputypes detect_masked
detect_cputypes-succeeds fuel n h mask given works topmap unpin positive dense =
    let count = portable_cpuset_count n mask in
    let start : Detected = record empty {
      topology = record { sched_zone = null; tm = zeroed count };
    } in
    let last = released h (unpinned h (detect_loop fuel n h mask count 0 start)) in
    let some_cpu : (count == 0) ≡ false = ground (arith, positive) in
    let loop =
      detect_loop-succeeds fuel n count h mask works dense count 0 start
        (start-Walks n mask (zeroed count))
        (record { size = length-zeroed count; below = no_thread count }) in
    (
      loop.0,
      ap (detect_masked fuel n h) given
          ∙ ap
              (λ (b : Bool).
                if b
                then failed affinity empty
                else if not h.topmap_works
                then failed resource empty
                else last)
              some_cpu
          ∙ ap (λ (b : Bool). if not b then failed resource empty else last) topmap
          ∙ ap (λ (r : Outcome Detected). released h (unpinned h r)) loop.1
          ∙ ap (λ (b : Bool). released h (if b then done loop.0 else failed affinity loop.0)) unpin,
    )
