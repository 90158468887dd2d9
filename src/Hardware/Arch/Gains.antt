-- ===== src/Hardware/Arch/Gains.antt =====
-- hardware/arch.c: what one round of the loop of detect_cputypes adds.
use libtorque.Base.{
  ℕ, suc, ◌<◌, ◌≡◌, refl, sym, ap, ◌∙◌, Bool, true, false, ◌⊎◌, if◌then◌else◌, ◌||◌, inl, inr, List,
  [], ◌∷◌, ◌++◌, length, length-append, ◌==◌, Bool-cases, Option-cases, arith,
}
use libtorque.Errors.{Outcome, done, failed, fault, out_of_fuel}
use libtorque.Hardware.Cpuid.Place.{Place}
use libtorque.Hardware.Cpuid.Ident.{Identity}
use libtorque.Hardware.Topology
use libtorque.Hardware.Topology.{CpuSet, TopMap, first_from, Topology, topologize, change, null}
use libtorque.Hardware.Topology.Rules.{IsTopology, Leaves, Joins, union}
use libtorque.Hardware.Topology.Described.{DescsBelow, DescsBelow_mono, topologize-DescsBelow}
use libtorque.Hardware.Topology.Kept.{topologize-IsTopology, topologize-Joins}
use libtorque.Hardware.Arch.{
  System, Detected, Details, found, refused, crash, cut_short, match_cputype, count_element,
  spawned, place_cpu, count_cpu, counted,
}
use libtorque.Hardware.Arch.Loop.{
  total, total-snoc, count_element-total, match_cputype-inside, length-count_element,
}

unfoldable pub elem : ℕ → List ℕ → Bool
elem z [] = false
elem z (x ∷ xs) = (z == x) || elem z xs

or_swap : (a b c : Bool) → (a || (b || c)) ≡ (b || (a || c))
or_swap true true c = refl
or_swap true false c = refl
or_swap false b c = refl

pub elem-append : (z x : ℕ) (xs : List ℕ) → elem z (xs ++ (x ∷ [])) ≡ ((z == x) || elem z xs)
unfolding elem
elem-append z x [] = refl
elem-append z x (y ∷ ys) =
    ap (λ (b : Bool). (z == y) || b) (elem-append z x ys) ∙ or_swap (z == y) (z == x) (elem z ys)

-- The topology keeps its rules and holds the CPUs that have a thread, and each of them is an
-- element of a type and has a stack.
pub record IsDetected (n : ℕ) (s : Detected) : Type 0 where
  pub topology : IsTopology n s.topology.sched_zone
  pub scheduled : (z : ℕ) → union s.topology.sched_zone z ≡ elem z s.threads
  pub elements : total s.types ≡ length s.threads
  pub described : DescsBelow (length s.types) s.topology.sched_zone
  pub stacks : s.stacks ≡ length s.threads

-- One thread more.
pub record Gains (n aid : ℕ) (threads : List ℕ) (s : Detected) : Type 0 where
  pub detected : IsDetected n s
  pub gained : s.threads ≡ threads ++ (aid ∷ [])

-- Nothing more than a stack, where spawn_thread left one.
pub record Halted (n : ℕ) (threads : List ℕ) (s : Detected) : Type 0 where
  pub topology : IsTopology n s.topology.sched_zone
  pub same : s.threads ≡ threads
  pub stacks : (s.stacks ≡ length threads) ⊎ (s.stacks ≡ suc (length threads))

-- A success satisfies `P`, and a failure `Q`.
abbrev pub Ends : (Q P : Detected → Type 0) → Outcome Detected → Type 0
Ends Q P (done s) = P s
Ends Q P (failed e s) = Q s
Ends Q P fault = Unit
Ends Q P out_of_fuel = Unit

module _ (n : ℕ) (h : System) (aid : ℕ) where
  spawned-Gains :
      (s : Detected) (r : Topology.Change Topology)
      → ((z : ℕ) → union s.topology.sched_zone z ≡ elem z s.threads)
      → total s.types ≡ suc (length s.threads)
      → s.stacks ≡ length s.threads
      → Leaves (λ t. IsTopology n t.sched_zone) r
      → Leaves (λ t. DescsBelow (length s.types) t.sched_zone) r
      → Joins aid (union s.topology.sched_zone) (change (λ t. union t.sched_zone) r)
      → Ends (Halted n s.threads) (Gains n aid s.threads) (spawned h aid s r)
  spawned-Gains s (Topology.done t) same more stacks rules known joins =
      elim (Bool-cases (h.spawn_works aid)) [
        | inr e ↦
            rw (e) (record { topology = rules; same = refl; stacks = left (h.spawn_leaves aid) })
        | inl e ↦ rw (e) (record {
          gained = refl;
          detected = record {
            topology = rules;
            scheduled = λ z.
                joins z
                ∙ ap (λ (b : Bool). (z == aid) || b) (same z)
                ∙ sym (elem-append z aid s.threads);
            elements = omega (arith, more, length-append s.threads (aid ∷ []));
            described = known;
            stacks = omega (arith, stacks, length-append s.threads (aid ∷ []));
          };
        })
      ]
    where
      left :
          (b : Bool)
          → ((if b then suc s.stacks else s.stacks) ≡ length s.threads)
            ⊎ ((if b then suc s.stacks else s.stacks) ≡ suc (length s.threads))
      left true = inr (ap suc stacks)
      left false = inl stacks
  spawned-Gains s (Topology.failed e t) same more stacks rules known joins = record {
    topology = rules;
    same = refl;
    stacks = inl stacks;
  }
  spawned-Gains s Topology.fault same more stacks rules known joins = tt

  place_cpu-Gains :
      (p : Place) (s : Detected) (cputype : ℕ)
      → IsTopology n s.topology.sched_zone
      → ((z : ℕ) → union s.topology.sched_zone z ≡ elem z s.threads)
      → total s.types ≡ suc (length s.threads)
      → s.stacks ≡ length s.threads
      → cputype < length s.types
      → DescsBelow (length s.types) s.topology.sched_zone
      → Ends (Halted n s.threads) (Gains n aid s.threads) (place_cpu n h aid p s cputype)
  unfolding place_cpu
  place_cpu-Gains p s cputype rules same more stacks small known =
      spawned-Gains s _ same more stacks
        (topologize-IsTopology n (h.allocs aid) s.topology aid p.thread p.core p.pkg cputype rules)
        (topologize-DescsBelow (length s.types) cputype small n (h.allocs aid) s.topology aid
          p.thread p.core p.pkg known)
        (topologize-Joins n (h.allocs aid) s.topology aid p.thread p.core p.pkg cputype)

  pub count_cpu-Gains :
      (i : Identity) (s : Detected)
      → IsDetected n s
      → Ends (Halted n s.threads) (Gains n aid s.threads) (count_cpu n h aid i s)
  unfolding count_cpu
  count_cpu-Gains i s v = elim (Option-cases (match_cputype s.types i.cpu)) [
    | inr f ↦
        rw (f.1, count_cpu)
          (place_cpu-Gains i.place (record s { types = count_element s.types f.0 }) f.0 v.topology
            v.scheduled
            (count_element-total s.types f.0 (match_cputype-inside s.types i.cpu f.0 f.1)
              ∙ ap suc v.elements)
            v.stacks
            (omega
              (arith, match_cputype-inside s.types i.cpu f.0 f.1, length-count_element s.types f.0))
            (DescsBelow_mono _ _ s.topology.sched_zone
              (omega (arith, length-count_element s.types f.0)) v.described))
    | inl f ↦
        rw (f, count_cpu)
          (elim (Bool-cases (h.grow_types (length s.types))) [
            | inr e ↦ rw (e) (record { topology = v.topology; same = refl; stacks = inl v.stacks })
            | inl e ↦ rw (e) (
                place_cpu-Gains i.place _ (length s.types) v.topology v.scheduled
                  (total-snoc s.types _ ∙ omega (arith, v.elements)) v.stacks
                  (omega (arith, length-append s.types (record (i.cpu) { elements = 1 } ∷ [])))
                  (DescsBelow_mono _ _ s.topology.sched_zone
                    (omega (arith, length-append s.types (record (i.cpu) { elements = 1 } ∷ [])))
                    v.described))
          ])
  ]

  pub counted-Gains :
      (s : Detected) (d : Details)
      → IsDetected n s
      → Ends (Halted n s.threads) (Gains n aid s.threads) (counted n h aid s d)
  counted-Gains s (found i) v = count_cpu-Gains i s v
  counted-Gains s (refused e) v = record {
    topology = v.topology;
    same = refl;
    stacks = inl v.stacks;
  }
  counted-Gains s crash v = tt
  counted-Gains s cut_short v = tt
