-- ===== src/Archdetect/Tests.antt =====
-- The theorems on archdetect at concrete inputs.
use libtorque.Base.{
  ok, ◌≡◌, refl, Bool, true, false, ◌||◌, List, [], ◌∷◌, All, ==_iff, ◌==◌, ◌↔◌, arith,
}
use libtorque.Hardware.Desc.{Mem, memtype_data, Cpu, isa_x86, processor_x86_oem, no_features}
use libtorque.Hardware.Topology.{Topt, null, node}
use libtorque.Hardware.Topology.Rules.{IsTopology, IsUsed}
use libtorque.Hardware.Arch.{Detected, torque_cpu_getdesc, torque_cpu_typecount}
use libtorque.Archdetect.{Text, fprintf_bunit}
use libtorque.Archdetect.Units.{Prints, fprintf_bunit-Prints}
use libtorque.Archdetect.Details.{detail_processing_units}
use libtorque.Archdetect.Complete.{Succeeds, Positive, CpuIsComplete, detail_processing_units_lem}
use libtorque.Archdetect.Sets.{print_topology, print_topology-succeeds}

abbrev terminal : Text → Bool
terminal t = true

-- 1536 kB, which is 1.5 MB.
fprintf_bunit-Prints_example : Prints terminal 1572864 [] (fprintf_bunit terminal "B" 1572864 [])
fprintf_bunit-Prints_example = fprintf_bunit-Prints terminal "B" 1572864 [] (omega arith)

abbrev named : Cpu → Bool
named c = true

abbrev cache : Mem
cache = record {
  totalsize = 32768;
  linesize = 64;
  associativity = 8;
  sharedways = 1;
  memtype = memtype_data;
  level = 1;
}

abbrev processor : Cpu
processor = record {
  elements = 1;
  threadspercore = 1;
  coresperpackage = 1;
  tlbdescs = [];
  strdescription = [];
  memdescs = cache ∷ [];
  spec = isa_x86 (record {
    family = 6;
    model = 15;
    stepping = 1;
    x86type = processor_x86_oem;
    features = no_features;
    apic = 0;
  });
}

-- One package with one core, whose CPU is 1.
abbrev zone : Topt
zone = node 0 0 (λ z. z == 1) (node 3 0 (λ z. z == 1) null null) null

zone-IsUsed : IsUsed 4 (λ z. z == 1)
zone-IsUsed = record {
  first = 1;
  first_in = refl;
  bounded = λ z h. let same = (==_iff z 1).0 h in omega (arith, same);
}

or_false : (b : Bool) → (b || false) ≡ b
or_false true = refl
or_false false = refl

zone-IsTopology : IsTopology 4 zone
zone-IsTopology = record {
  siblings = (tt, tt);
  packages = (
    record {
      used = zone-IsUsed;
      siblings = (tt, tt);
      cores = (record { used = zone-IsUsed; leaf = tt }, tt);
      agrees = λ z. or_false (z == 1);
    },
    tt,
  );
}

print_topology-succeeds_example : (text : List Text) × (print_topology terminal 4 zone [] ≡ ok text)
print_topology-succeeds_example =
    print_topology-succeeds terminal (λ t. refl) 4 zone [] zone-IsTopology

abbrev detected : Detected
detected = record {
  types = processor ∷ [];
  topology = record { sched_zone = zone; tm = [] };
  threads = [];
  stacks = 0;
}

detail_processing_units_lem_example :
    Succeeds (
      detail_processing_units terminal named
        (torque_cpu_getdesc detected)
        (torque_cpu_typecount detected)
        0
        (torque_cpu_typecount detected)
        [])
    ↔ All (λ (c : Cpu). Positive c.elements × CpuIsComplete named c) (processor ∷ [])
detail_processing_units_lem_example =
    detail_processing_units_lem terminal (λ t. refl) named detected
      ((((omega arith, omega arith), tt), tt), tt) []
