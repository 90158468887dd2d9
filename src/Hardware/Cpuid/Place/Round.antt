-- ===== src/Hardware/Cpuid/Place/Round.antt =====
-- hardware/x86cpuid.c: the rounding of the threads per core to a power of two.
use libtorque.Base.{
  ℕ, ◌*◌, ◌^◌, ◌≤◌, ◌<◌, ◌≡◌, refl, Bool, true, false, ◌&&◌, Run, ok, err, fault, out_of_fuel,
  arith, ltb, leb, ◌==◌, if◌then◌else◌, all_below, all_below_sound, ap, sym, Bool-cases, inl, inr,
}
use libtorque.Hardware.Cpuid.Place.{threads_rounded}

-- The exponent of a power of two up to 256.
log2 : ℕ → ℕ
log2 p =
    if p == 1
    then 0
    else if p == 2
    then 1
    else if p == 4
    then 2
    else if p == 8
    then 3
    else if p == 16
    then 4
    else if p == 32
    then 5
    else if p == 64
    then 6
    else if p == 128
    then 7
    else 8

rounds_well : ℕ → ℕ → Bool
rounds_well t p = (2 ^ log2 p == p) && (leb t p && ltb p (2 * t))

abbrev good : ℕ → Run ℕ → Bool
good t (ok p) = rounds_well t p
good t (err p) = false
good t fault = false
good t out_of_fuel = false

rounded_table : all_below 256 (λ t. if t == 0 then true else good t (threads_rounded t)) ≡ true
unfolding all_below threads_rounded rounds_well log2
rounded_table = refl

-- A count of 1 to 255 threads is rounded up to the next power of two, in the rounds allowed.
pub threads_rounded_lem :
    (t : ℕ)
    → 0 < t
    → t < 256
    → (k : ℕ) × (threads_rounded t ≡ ok (2 ^ k)) × (t ≤ 2 ^ k) × (2 ^ k < 2 * t)
unfolding rounds_well
threads_rounded_lem t p q = from (threads_rounded t) known
  where
    row : (if t == 0 then true else good t (threads_rounded t)) ≡ true
    row = all_below_sound 256 _ t rounded_table q

    known : good t (threads_rounded t) ≡ true
    known = elim (Bool-cases (t == 0)) [ inl e ↦ absurd (ground arith) | inr e ↦ rw e at row ]

    from :
        (r : Run ℕ) → good t r ≡ true → (k : ℕ) × (r ≡ ok (2 ^ k)) × (t ≤ 2 ^ k) × (2 ^ k < 2 * t)
    from (ok n) g =
        let e : 2 ^ log2 n ≡ n = ground arith in
        (log2 n, ap ok (sym e), rw e (ground arith), rw e (ground arith))
    from (err n) g = cc
    from fault g = cc
    from out_of_fuel g = cc
