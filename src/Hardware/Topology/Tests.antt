-- ===== src/Hardware/Topology/Tests.antt =====
-- The theorems on the topology at concrete inputs: two cores of one package.
use libtorque.Base.{◌≡◌, [], ◌∷◌, arith}
use libtorque.Hardware.Topology.{
  null, TopMap, Change, done, failed, fault, Topology, topologize, find_sched_group, create_zone,
  join_package, subgroups, share_level, share_from, first_aid, first_from,
}
use libtorque.Hardware.Topology.Rules.{IsTopology, Leaves}
use libtorque.Hardware.Topology.Kept.{topologize-IsTopology}
use libtorque.Hardware.Topology.Success.{working, topologize-succeeds}

abbrev unset : TopMap
unset = record { thread = 0; core = 0; pkg = 0 }

abbrev start : Topology
start = record { sched_zone = null; tm = unset ∷ unset ∷ unset ∷ unset ∷ [] }

start-IsTopology : IsTopology 4 null
start-IsTopology = record { siblings = tt; packages = tt }

-- The state that a call leaves.
abbrev left : Change Topology → Topology
left (done t) = t
left (failed e t) = t
left fault = start

left-IsTopology :
    (r : Change Topology)
    → Leaves (λ t. IsTopology 4 t.sched_zone) r
    → IsTopology 4 (left r).sched_zone
left-IsTopology (done t) v = v
left-IsTopology (failed e t) v = v
left-IsTopology fault v = start-IsTopology

abbrev one_core : Topology
one_core = left (topologize 4 working start 1 0 0 7 3)

one_core-IsTopology : IsTopology 4 one_core.sched_zone
one_core-IsTopology =
    left-IsTopology (topologize 4 working start 1 0 0 7 3)
      (topologize-IsTopology 4 working start 1 0 0 7 3 start-IsTopology)

abbrev two_cores : Topology
two_cores = left (topologize 4 working one_core 2 0 1 7 3)

topologize-IsTopology_example :
    Leaves (λ t. IsTopology 4 t.sched_zone) (topologize 4 working one_core 2 0 1 7 3)
topologize-IsTopology_example =
    topologize-IsTopology 4 working one_core 2 0 1 7 3 one_core-IsTopology

two_cores-IsTopology : IsTopology 4 two_cores.sched_zone
two_cores-IsTopology =
    left-IsTopology (topologize 4 working one_core 2 0 1 7 3)
      (topologize-IsTopology 4 working one_core 2 0 1 7 3 one_core-IsTopology)

topologize-succeeds_example : (t : Topology) × (topologize 4 working one_core 2 0 1 7 3 ≡ done t)
unfolding topologize find_sched_group create_zone join_package subgroups share_level share_from
    first_aid first_from
topologize-succeeds_example =
    topologize-succeeds 4 one_core 2 0 1 7 3 one_core-IsTopology (omega arith) (omega arith)
