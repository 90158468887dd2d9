-- ===== src/Hardware/Arch/Whole/Success.antt =====
-- hardware/arch.c: detect_architecture succeeds where nothing is refused.
use libtorque.Base.{
  ℕ, zero, suc, ◌≡◌, refl, ap, ◌∙◌, Bool, true, List, [], ◌∷◌, ◌++◌, Option, none, some, length,
  if◌then◌else◌,
}
use libtorque.Errors.{done, resource}
use libtorque.Hardware.Desc.{Cpu}
use libtorque.Hardware.Cpuid.Ident.{Fuel}
use libtorque.Hardware.Memory.Nodes.{MemorySystem}
use libtorque.Hardware.Memory.Nodes.Success.{HasMemory, detect_memories-succeeds}
use libtorque.Hardware.Arch.{System, Detected, match_cputype, count_element, detect_cputypes}
use libtorque.Hardware.Arch.Whole.{
  Machinery, Found, ready, refused, Cuda, counted_device, count_device, and_go_on, with_device,
  detect_devices, with_devcount, detect_cuda, with_memories, with_cuda, with_cputypes,
  detect_architecture,
}

-- Every device is described, and its type finds memory.
pub record HasDevices (c : Cuda) : Type 0 where
  pub devs : ℕ
  pub devcount : c.devcount ≡ some devs
  pub describe : ℕ → Cpu
  pub cudaid : (i : ℕ) → c.cudaid i ≡ some (describe i)
  pub grows : (n : ℕ) → c.grow_types n ≡ true

module _ (c : Cuda) (has : HasDevices c) where
  abbrev Gives : Found (List Cpu) → Type 0
  Gives r = (types : List Cpu) × (r ≡ ready types)

  count_device-Gives : (types : List Cpu) (cpu : Cpu) → Gives (count_device c types cpu)
  unfolding count_device
  count_device-Gives types cpu = by_match (match_cputype types cpu)
    where
      by_match : (o : Option ℕ) → Gives (counted_device c types cpu o)
      by_match (some n) = (count_element types n, refl)
      by_match none =
          let new = types ++ (record cpu { elements = 1 } ∷ []) in
          (
            new,
            ap (λ (b : Bool). if b then ready new else refused resource types)
                (has.grows (length types)),
          )

  detect_devices-Gives : (left i : ℕ) (types : List Cpu) → Gives (detect_devices c left i types)
  unfolding detect_devices
  detect_devices-Gives zero i types = (types, refl)
  detect_devices-Gives (suc left) i types =
      let (types1, e1) = count_device-Gives types (has.describe i) in
      let (types2, e2) = detect_devices-Gives left (suc i) types1 in
      let rest = λ (t : List Cpu). detect_devices c left (suc i) t in
      (
        types2,
        ap (λ o. and_go_on (with_device c types o) rest) (has.cudaid i)
            ∙ ap (λ (r : Found (List Cpu)). and_go_on r rest) e1
            ∙ e2,
      )

  detect_cuda-Gives : (types : List Cpu) → Gives (detect_cuda c types)
  unfolding detect_cuda
  detect_cuda-Gives types =
      let (types', e) = detect_devices-Gives has.devs 0 types in
      (types', ap (with_devcount c types) has.devcount ∙ e)

-- Where detect_cputypes does, detect_architecture succeeds on a machine whose devices are described
-- and whose memory is known, if malloc does.
pub detect_architecture-succeeds :
    (fuel : Fuel) (n : ℕ) (h : System) (c : Cuda) (s : MemorySystem) (d : Detected)
    → detect_cputypes fuel n h ≡ done d
    → HasDevices c
    → HasMemory s
    → (m : Machinery) × (detect_architecture fuel n h c s ≡ ready m)
      × (m.detected.threads ≡ d.threads)
unfolding detect_architecture
detect_architecture-succeeds fuel n h c s d cpus devices memory =
    let (types, e) = detect_cuda-Gives c devices d.types in
    let d' : Detected = record d { types = types } in
    let (nodes, e') = detect_memories-succeeds s types memory in
    (
      record { detected = d'; nodes = nodes },
      ap (with_cputypes c s) cpus ∙ ap (with_cuda s d) e ∙ ap (with_memories d') e',
      refl,
    )
