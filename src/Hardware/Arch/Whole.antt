-- ===== src/Hardware/Arch/Whole.antt =====
-- hardware/arch.c: detect_architecture and free_architecture, over the three parts of the detection.
pub mod Ends
pub mod Success
use libtorque.Base.{
  ℕ, zero, suc, ◌+◌, Bool, List, [], ◌∷◌, ◌++◌, Option, none, some, Run, length, if◌then◌else◌,
}
use libtorque.Errors.{TorqueErr, gpudetect, memdetect, resource, Outcome, done, failed}
use libtorque.Hardware.Desc.{Cpu, Node}
use libtorque.Hardware.Cpuid.Ident.{Fuel}
use libtorque.Hardware.Topology.{null}
use libtorque.Hardware.Memory.Nodes.{MemorySystem, detect_memories}
use libtorque.Hardware.Arch.{System, Detected, match_cputype, count_element, detect_cputypes}

-- The part of the context that describes the machine.
pub record Machinery : Type 0 where
  pub detected : Detected
  pub nodes : List Node

-- How a step of the detection ends: with success, an error of the library, or -1.
pub data Found (A : Type 0) : Type 0 where
  ready : A → Found A
  refused : TorqueErr → A → Found A
  minus_one : A → Found A
  crash : Found A
  cut_short : Found A

-- CUDA: the number of devices, where it is not negative, what cudaid describes, and malloc's answers
-- for the array of types.
pub record Cuda : Type 0 where
  pub devcount : Option ℕ
  pub cudaid : ℕ → Option Cpu
  pub grow_types : ℕ → Bool

-- A device's description is counted with its type, or added, by match_cputype.
abbrev pub counted_device : Cuda → List Cpu → Cpu → Option ℕ → Found (List Cpu)
counted_device c types cpu (some n) = ready (count_element types n)
counted_device c types cpu none =
    if c.grow_types (length types)
    then ready (types ++ (record cpu { elements = 1 } ∷ []))
    else refused resource types

unfoldable pub count_device : Cuda → List Cpu → Cpu → Found (List Cpu)
count_device c types cpu = counted_device c types cpu (match_cputype types cpu)

abbrev pub and_go_on : {A : Type 0} → Found A → (A → Found A) → Found A
and_go_on (ready a) f = f a
and_go_on (refused e a) f = refused e a
and_go_on (minus_one a) f = minus_one a
and_go_on crash f = crash
and_go_on cut_short f = cut_short

abbrev pub with_device : Cuda → List Cpu → Option Cpu → Found (List Cpu)
with_device c types none = minus_one types
with_device c types (some cpu) = count_device c types cpu

-- The loop over the devices, from `i` on with `left` of them.
unfoldable pub detect_devices : Cuda → (left i : ℕ) → List Cpu → Found (List Cpu)
detect_devices c zero i types = ready types
detect_devices c (suc left) i types =
    and_go_on (with_device c types (c.cudaid i)) (λ types'. detect_devices c left (suc i) types')

abbrev pub with_devcount : Cuda → List Cpu → Option ℕ → Found (List Cpu)
with_devcount c types none = refused gpudetect types
with_devcount c types (some devs) = detect_devices c devs 0 types

unfoldable pub detect_cuda : Cuda → List Cpu → Found (List Cpu)
detect_cuda c types = with_devcount c types c.devcount

-- The threads are not touched.
unfoldable pub free_architecture : Machinery → Machinery
free_architecture m =
    let d = m.detected in
    let t = d.topology in
    record {
      detected = record d { types = []; topology = record t { sched_zone = null } };
      nodes = [];
    }

abbrev pub with_memories : Detected → Run (List Node) → Found Machinery
with_memories d (Run.ok nodes) = ready (record { detected = d; nodes = nodes })
with_memories d (Run.err nodes) =
    refused memdetect (free_architecture (record { detected = d; nodes = nodes }))
with_memories d Run.fault = crash
with_memories d Run.out_of_fuel = cut_short

abbrev pub with_cuda : MemorySystem → Detected → Found (List Cpu) → Found Machinery
with_cuda m d (ready types) =
    with_memories (record d { types = types }) (detect_memories m types [])
with_cuda m d (refused e types) =
    refused e (free_architecture (record { detected = record d { types = types }; nodes = [] }))
with_cuda m d (minus_one types) =
    minus_one (free_architecture (record { detected = record d { types = types }; nodes = [] }))
with_cuda m d crash = crash
with_cuda m d cut_short = cut_short

abbrev pub with_cputypes : Cuda → MemorySystem → Outcome Detected → Found Machinery
with_cputypes c m (done d) = with_cuda m d (detect_cuda c d.types)
with_cputypes c m (failed e d) = refused e (free_architecture (record { detected = d; nodes = [] }))
with_cputypes c m Outcome.fault = crash
with_cputypes c m Outcome.out_of_fuel = cut_short

unfoldable pub detect_architecture : Fuel → ℕ → System → Cuda → MemorySystem → Found Machinery
unfolding free_architecture
detect_architecture fuel cpu_setsize h c m = with_cputypes c m (detect_cputypes fuel cpu_setsize h)
