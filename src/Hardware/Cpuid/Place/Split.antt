-- ===== src/Hardware/Cpuid/Place/Split.antt =====
-- hardware/x86cpuid.c: where the counts are powers of two, x86topology takes an APIC id apart.
use native.Mathlib.Nat.{pow-suc, one-le-pow, div-div-eq-div-mul, div-add-mod}
use libtorque.Base.{
  ℕ, zero, suc, ◌+◌, ◌*◌, ◌/◌, ◌%◌, ◌^◌, ◌<◌, ◌≡◌, true, false, ok, arith, ◌==◌, nonzero, ap, sym,
  ◌∙◌,
}
use libtorque.Base.Bits.{bit_and_mask}
use libtorque.Hardware.Desc.{Cpu}
use libtorque.Hardware.Cpuid.Place.{shift_by, x86topology, Place, apic_of}

shift_by_pow : (fuel k apic : ℕ) → k < fuel → shift_by fuel (2 ^ k) apic ≡ ok (apic / 2 ^ k)
unfolding shift_by
shift_by_pow zero k apic h = absurd (omega arith)
shift_by_pow (suc fuel) zero apic h = ap ok (omega arith)
shift_by_pow (suc fuel) (suc k) apic h =
    let half : 2 ^ suc k / 2 ≡ 2 ^ k = omega (arith, pow-suc 2 k) in
    let more : nonzero (2 ^ k) ≡ true = ground (arith, one-le-pow k 2) in
    let below : apic / 2 / 2 ^ k ≡ apic / 2 ^ suc k =
      div-div-eq-div-mul apic 2 (2 ^ k) ∙ ap (λ (n : ℕ). apic / n) (omega (arith, pow-suc 2 k)) in
    rw (half, more) (shift_by_pow fuel k (apic / 2) (omega arith) ∙ ap ok below)

-- Where threads per core and cores per package are powers of two below 2 ^ 32, x86topology
-- succeeds: from the bottom the APIC id holds the thread, the core and the package.
pub x86topology_fields :
    (cpu : Cpu) (old : Place) (a b : ℕ)
    → cpu.threadspercore ≡ 2 ^ a
    → cpu.coresperpackage ≡ 2 ^ b
    → a < 32
    → b < 32
    → x86topology cpu old
      ≡ ok (record {
        thread = apic_of cpu.spec % 2 ^ a;
        core = apic_of cpu.spec / 2 ^ a % 2 ^ b;
        pkg = apic_of cpu.spec / 2 ^ a / 2 ^ b;
      })
unfolding x86topology
x86topology_fields cpu old a b ea eb ha hb =
    let apic = apic_of cpu.spec in
    let threads : (2 ^ a == 0) ≡ false = ground (arith, one-le-pow a 2) in
    let cores : (2 ^ b == 0) ≡ false = ground (arith, one-le-pow b 2) in
    rw (
      ea,
      eb,
      threads,
      cores,
      shift_by_pow 32 a apic ha,
      shift_by_pow 32 b (apic / 2 ^ a) hb,
      bit_and_mask a apic,
      bit_and_mask b (apic / 2 ^ a),
    )

-- Put together again, a place gives the APIC id.
pub join_place : ℕ → ℕ → Place → ℕ
join_place tpc cpp p = p.thread + tpc * (p.core + cpp * p.pkg)

join-split : (apic t c : ℕ) → apic % t + t * (apic / t % c + c * (apic / t / c)) ≡ apic
join-split apic t c =
    omega (arith, div-add-mod apic t, ap (λ (n : ℕ). t * n) (div-add-mod (apic / t) c))

-- Where both counts are powers of two below 2 ^ 32, the place that x86topology gives determines
-- the APIC id, so no two processors with these counts and different ids share a place.
pub x86topology_injective :
    (cpu : Cpu) (old p : Place) (a b : ℕ)
    → cpu.threadspercore ≡ 2 ^ a
    → cpu.coresperpackage ≡ 2 ^ b
    → a < 32
    → b < 32
    → x86topology cpu old ≡ ok p
    → join_place cpu.threadspercore cpu.coresperpackage p ≡ apic_of cpu.spec
unfolding join_place
x86topology_injective cpu old p a b ea eb ha hb e =
    let same = ok-injective (sym e ∙ x86topology_fields cpu old a b ea eb ha hb) in
    rw (ea, eb, same) (join-split (apic_of cpu.spec) (2 ^ a) (2 ^ b))
  where
    ok-injective : {q r : Place} → ok q ≡ ok r → q ≡ r
    ok-injective h = cc
