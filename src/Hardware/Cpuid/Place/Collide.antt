-- ===== src/Hardware/Cpuid/Place/Collide.antt =====
-- hardware/x86cpuid.c: where a count is no power of two, x86topology gives one place to two
-- processors. id_intel_topology stores such counts as leaf 0xb reports them.
use libtorque.Base.{ℕ, ◌+◌, ◌*◌, ◌/◌, ◌%◌, ◌<◌, ◌≡◌, bit_and, ok, arith, ap, sym, ◌∙◌}
use libtorque.Base.Bits.{bit_and_step, bit_and_mask}
use libtorque.Hardware.Desc.{Cpu}
use libtorque.Hardware.Cpuid.Place.{x86topology, Place, apic_of}

-- 11 is 0b1011: the third bit is masked out.
mask_eleven :
    (x q : ℕ) → x / 8 ≡ q → bit_and x 11 ≡ (bit_and q 1 * 2 + 0) * 2 * 2 + x / 2 % 2 * 2 + x % 2
mask_eleven x q e =
    let deep : bit_and (x / 2 / 2 / 2) 1 ≡ bit_and q 1 =
      ap (λ (n : ℕ). bit_and n 1) (omega arith) in
    omega (arith, deep, bit_and_step x 11, bit_and_step (x / 2) 5, bit_and_step (x / 2 / 2) 2)

third_bit : (q c : ℕ) → c < 4 → bit_and (8 * q + (c + 4)) 11 ≡ bit_and (8 * q + c) 11
third_bit q c h =
    omega (
      arith,
      mask_eleven (8 * q + (c + 4)) q (omega arith),
      mask_eleven (8 * q + c) q (omega arith),
    )

place_of_six :
    (cpu : Cpu) (old : Place) (q c t : ℕ)
    → cpu.threadspercore ≡ 2
    → cpu.coresperpackage ≡ 12
    → c < 8
    → t < 2
    → apic_of cpu.spec ≡ 2 * (8 * q + c) + t
    → x86topology cpu old ≡ ok (record { thread = t; core = bit_and (8 * q + c) 11; pkg = q })
unfolding x86topology
place_of_six cpu old q c t h k hc ht e =
    let half : (2 * (8 * q + c) + t) / 2 ≡ 8 * q + c = omega arith in
    let bottom : bit_and (2 * (8 * q + c) + t) 1 ≡ t =
      omega (arith, bit_and_mask 1 (2 * (8 * q + c) + t)) in
    let top : (8 * q + c) / 2 / 2 / 2 ≡ q = omega arith in rw (h, k, e, half, bottom, top)

-- With counts of 2 threads per core and 12 cores per package, which leaf 0xb gives for six cores
-- of two threads, x86topology gives the cores 4 to 7 of each eight the places of the cores 0 to 3.
pub x86topology_collides :
    (cpu cpu' : Cpu) (old : Place) (q c t : ℕ)
    → cpu.threadspercore ≡ 2
    → cpu'.threadspercore ≡ 2
    → cpu.coresperpackage ≡ 12
    → cpu'.coresperpackage ≡ 12
    → c < 4
    → t < 2
    → apic_of cpu.spec ≡ 2 * (8 * q + c) + t
    → apic_of cpu'.spec ≡ 2 * (8 * q + (c + 4)) + t
    → x86topology cpu' old ≡ x86topology cpu old
x86topology_collides cpu cpu' old q c t h h' k k' hc ht e e' =
    place_of_six cpu' old q (c + 4) t h' k' (omega arith) ht e'
    ∙ ap (λ (n : ℕ). ok (record { thread = t; core = n; pkg = q })) (third_bit q c hc)
    ∙ sym (place_of_six cpu old q c t h k (omega arith) ht e)
