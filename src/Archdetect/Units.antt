-- ===== src/Archdetect/Units.antt =====
-- archdetect/archdetect.c: what the numbers that fprintf_bunit prints say.
use Prim.Native.String.{String}
use libtorque.Base.{
  ℕ, zero, suc, ◌/◌, ◌%◌, ◌*◌, ◌^◌, ◌≤◌, ◌<◌, ◌≡◌, refl, sym, ◌∙◌, ap, subst, ◌⊎◌, inl, inr, Bool,
  true, false, ◌&&◌, ◌||◌, not, List, [], ◌∷◌, some, ltb, leb, ◌==◌, if_cases, Run, ok, err, fault,
  out_of_fuel, ◌>>=◌, arith, Bool-cases,
}
use native.Mathlib.Nat.{mul_assoc, mul_left_comm, mul-le-mul_right, mul-one, suc-mul}
use libtorque.Archdetect.{
  to_float, float_exponent, round_to, BinaryUnit, kilo, mega, giga, tera, peta, exa, zetta, yotta,
  units_after_kilo, Text, plain, scaled, about, words, number, bytes, row, fprintf, scale, nearest,
  fprintf_about, fprintf_scaled, fprintf_fraction, fprintf_bunit,
}

-- How much a unit is.
abbrev pub factor : BinaryUnit → ℕ
factor kilo = 1024
factor mega = 1048576
factor giga = 1073741824
factor tera = 1099511627776
factor peta = 1125899906842624
factor exa = 1152921504606846976
factor zetta = 1180591620717411303424
factor yotta = 1208925819614629174706176

-- Each unit is 1024 of the one before it.
abbrev Chain : ℕ → List BinaryUnit → Type 0
Chain f [] = Unit
Chain f (u ∷ units) = (factor u ≡ 1024 * f) × Chain (factor u) units

kilo-Chain : Chain 1024 units_after_kilo
kilo-Chain = (refl, (refl, (refl, (refl, (refl, (refl, (refl, tt)))))))

factor_positive : (u : BinaryUnit) → 0 < factor u
factor_positive kilo = omega arith
factor_positive mega = omega arith
factor_positive giga = omega arith
factor_positive tera = omega arith
factor_positive peta = omega arith
factor_positive exa = omega arith
factor_positive zetta = omega arith
factor_positive yotta = omega arith

abbrev pub Within : ℕ → ℕ → ℕ → Type 0
Within val v f = (v * f ≤ val) × (val < suc v * f)

-- The piece gives the number exactly.
abbrev pub Exact : ℕ → Text → Type 0
Exact val (plain v suffix) = v ≡ val
Exact val (scaled v u suffix) = v * factor u ≡ val
Exact val (about v u suffix) = ⊥
Exact val (words s) = ⊥
Exact val (number n) = ⊥
Exact val (bytes s) = ⊥
Exact val (row r) = ⊥

-- The piece gives the float of the number rounded down to the 1024th of a unit; below 2 ^ 24 of them
-- that is the number itself.
abbrev pub Near : ℕ → Text → Type 0
Near val (plain v suffix) = ⊥
Near val (scaled v u suffix) = ⊥
Near val (about v u suffix) =
    (w : ℕ) × Within (1024 * val) w (factor u) × (v ≡ to_float w) × ((v ≡ w) ⊎ (2 ^ 24 ≤ w))
Near val (words s) = ⊥
Near val (number n) = ⊥
Near val (bytes s) = ⊥
Near val (row r) = ⊥

-- Whether a fraction follows the exact piece: where that is at least 1024 of its unit, and 1024 does not
-- divide it.
abbrev pub has_fraction : Text → Bool
has_fraction (plain v suffix) = false
has_fraction (scaled v u suffix) = leb 1024 v && not (v % 1024 == 0)
has_fraction (about v u suffix) = false
has_fraction (words s) = false
has_fraction (number n) = false
has_fraction (bytes s) = false
has_fraction (row r) = false

-- The number's exact piece follows the text, and exactly where there is a fraction a piece that is near
-- the number follows that.
abbrev pub Shown : ℕ → List Text → List Text → Type 0
Shown val out text =
    (t : Text) × Exact val t
    × (((has_fraction t ≡ false) × (text ≡ t ∷ out))
        ⊎ ((has_fraction t ≡ true) × (t' : Text) × Near val t' × (text ≡ t' ∷ t ∷ out)))

-- A success shows the number, and an error comes from a piece that could not be written.
abbrev pub Prints : (Text → Bool) → ℕ → List Text → Run (List Text) → Type 0
Prints writes val out (ok text) = Shown val out text
Prints writes val out (err text) = (t : Text) × (writes t ≡ false) × (Exact val t ⊎ Near val t)
Prints writes val out fault = ⊥
Prints writes val out out_of_fuel = ⊥

abbrev capacity : List BinaryUnit → ℕ
capacity [] = 1000
capacity (u ∷ units) = 1024 * capacity units

swap_factor : (q v f g : ℕ) → v ≡ q * 1024 → g ≡ 1024 * f → q * g ≡ v * f
swap_factor q v f g e e' = ap (λ t. q * t) e' ∙ sym (mul_assoc q 1024 f) ∙ ap (λ t. t * f) (sym e)

down : (val v f g : ℕ) → g ≡ 1024 * f → Within val v f → Within val (v / 1024) g
down val v f g e (low, high) =
    let q = v / 1024 in
    let same = swap_factor q (q * 1024) f g refl e in
    let same' = swap_factor (suc q) (suc q * 1024) f g refl e in
    let under = mul-le-mul_right {m = q * 1024} {n = v} f (omega arith) in
    let over = mul-le-mul_right {m = suc v} {n = suc q * 1024} f (omega arith) in
    (omega (arith, same, under, low), omega (arith, same', over, high))

in_1024ths : (val v f g : ℕ) → g ≡ 1024 * f → Within val v f → Within (1024 * val) v g
in_1024ths val v f g e (low, high) =
    let same = ap (λ t. v * t) e ∙ mul_left_comm v 1024 f in
    let same' = ap (λ t. suc v * t) e ∙ mul_left_comm (suc v) 1024 f in
    (omega (arith, same, low), omega (arith, same', high))

-- What the first loop finds: the number in a unit, with the letters after that.
scale-finds :
    (val : ℕ) (u : BinaryUnit) (units : List BinaryUnit)
    → Chain (factor u) units
    → val < capacity units
    → (v : ℕ) × (w : BinaryUnit) × (rest : List BinaryUnit) × (scale val u units
        ≡ some (v, w, rest))
      × (v * factor w ≡ val * factor u)
      × Chain (factor w) rest
      × (v < capacity rest)
unfolding scale
scale-finds val u [] chain small = (val, u, [], rw (le_false) refl, refl, tt, small)
  where
    le_false : leb 1024 val ≡ false
    le_false = ground (arith, small)
scale-finds val u (next ∷ units) (steps, chain) small =
    elim (Bool-cases (leb 1024 val && (val % 1024 == 0))) [
      | inl e ↦
          let (v, w, rest, found, same, chain', fits) =
            scale-finds (val / 1024) next units chain (omega (arith, small)) in
          (
            v,
            w,
            rest,
            rw (e) found,
            same ∙ swap_factor (val / 1024) val (factor u) (factor next) (whole e) steps,
            chain',
            fits,
          )
      | inr e ↦ (val, u, next ∷ units, rw (e) refl, refl, (steps, chain), small)
    ]
  where
    whole : (leb 1024 val && (val % 1024 == 0)) ≡ true → val ≡ val / 1024 * 1024
    whole e = ground (arith, e)

-- What the second loop finds, before the units run out, is rounded down to the 1024th of its unit.
nearest-Within :
    (val v f : ℕ) (units : List BinaryUnit)
    → Chain f units
    → Within val v f
    → 1000 ≤ v
    → v < capacity units
    → (w : ℕ) × (u : BinaryUnit) × (nearest v units ≡ some (w, u))
      × Within (1024 * val) w (factor u)
unfolding nearest
nearest-Within val v f [] chain within large small = absurd (omega (arith, large, small))
nearest-Within val v f (u ∷ units) (steps, chain) within large small =
    elim (Bool-cases (leb 1000 (v / 1024) && not (v % 1024 == 0))) [
      | inl e ↦
          let (w, u', found, near) =
            nearest-Within val (v / 1024) (factor u) units chain
              (down val v f (factor u) steps within) (still_large e) (omega (arith, small)) in
          (w, u', rw (e) found, near)
      | inr e ↦ (v, u, rw (e) refl, in_1024ths val v f (factor u) steps within)
    ]
  where
    still_large : (leb 1000 (v / 1024) && not (v % 1024 == 0)) ≡ true → 1000 ≤ v / 1024
    still_large e = ground (arith, e)

-- A float has all digits of a number below 2 ^ 24.
float_exponent_small : (halvings w : ℕ) → ltb w (2 ^ 24) ≡ true → float_exponent halvings w ≡ 0
unfolding float_exponent
float_exponent_small zero w e = refl
float_exponent_small (suc halvings) w e = rw (e) refl

round_to_one : (w : ℕ) → round_to 1 w ≡ w
unfolding round_to
round_to_one w =
    let r : w % 1 ≡ 0 = omega arith in
    let whole : w / 1 * 1 ≡ w = omega arith in
    let fits : (ltb 1 (2 * (w % 1)) || ((2 * (w % 1) == 1) && (w / 1 % 2 == 1))) ≡ false =
      ground (arith, r) in
    rw (fits) whole

to_float_small : (w : ℕ) → (to_float w ≡ w) ⊎ (2 ^ 24 ≤ w)
unfolding to_float
to_float_small w = elim (Bool-cases (ltb w (2 ^ 24))) [
  | inl e ↦ inl (ap (λ k. round_to (2 ^ k) w) (float_exponent_small 40 w e) ∙ round_to_one w)
  | inr e ↦ inr (ground (arith, e))
]

fprintf_about-Prints :
    (writes : Text → Bool) (suffix : String) (val v : ℕ) (u : BinaryUnit) (units : List BinaryUnit)
    (t : Text) (out : List Text)
    → Chain (factor u) units
    → v * factor u ≡ val
    → 1000 ≤ v
    → v < capacity units
    → Exact val t
    → has_fraction t ≡ true
    → Prints writes val out (fprintf_about writes suffix (nearest v units) (t ∷ out))
unfolding fprintf_about fprintf
fprintf_about-Prints writes suffix val v u units t out chain same large small exact has =
    let (w, u', e, within) = nearest-Within val v (factor u) units chain exactly large small in
    let piece = about (to_float w) u' suffix in
    let near : Near val piece = (w, within, refl, to_float_small w) in
    rw (e) (
      if_cases (Prints writes val out) (writes piece) _ _
        (λ _. (t, exact, inr (has, piece, near, refl))) (λ fails. (piece, fails, inr near)))
  where
    exactly : Within val v (factor u)
    exactly = (omega (arith, same), omega (arith, same, suc-mul v (factor u), factor_positive u))

fprintf-Prints :
    (writes : Text → Bool) (t : Text) (val : ℕ) (out : List Text)
    → Exact val t
    → has_fraction t ≡ false
    → Prints writes val out (fprintf writes t out)
unfolding fprintf
fprintf-Prints writes t val out exact alone =
    if_cases (Prints writes val out) (writes t) _ _ (λ _. (t, exact, inl (alone, refl)))
      (λ fails. (t, fails, inl exact))

fprintf_scaled-Prints :
    (writes : Text → Bool) (suffix : String) (val v : ℕ) (u : BinaryUnit) (units : List BinaryUnit)
    (out : List Text)
    → Chain (factor u) units
    → v * factor u ≡ val
    → v < capacity units
    → Prints writes val out (fprintf_scaled writes suffix (some (v, u, units)) out)
unfolding fprintf fprintf_scaled fprintf_fraction
fprintf_scaled-Prints writes suffix val v u units out chain exact small =
    if_cases
      (λ (r : Run (List Text)).
        Prints writes val out (r >>= fprintf_fraction writes suffix v units))
      (writes (scaled v u suffix)) _ _
      (λ _.
        if_cases (Prints writes val out) (leb 1024 v && not (v % 1024 == 0)) _ _
          (λ e.
            fprintf_about-Prints writes suffix val v u units (scaled v u suffix) out chain exact
              (large e) small exact e)
          (λ e. (scaled v u suffix, exact, inl (e, refl))))
      (λ fails. (scaled v u suffix, fails, inl exact))
  where
    large : (leb 1024 v && not (v % 1024 == 0)) ≡ true → 1000 ≤ v
    large e = ground (arith, e)

-- Where the number is a uintmax_t, fprintf_bunit shows it exactly. A second piece follows exactly where
-- the first is 1024 or more of a unit and not divided by 1024: the float of the number rounded down to
-- the 1024th of a unit, which is that number where it is below 2 ^ 24. It fails only where such a
-- piece could not be written: the units are never used up.
pub fprintf_bunit-Prints :
    (writes : Text → Bool) (suffix : String) (val : ℕ) (out : List Text)
    → val < 2 ^ 64
    → Prints writes val out (fprintf_bunit writes suffix val out)
unfolding fprintf_bunit
fprintf_bunit-Prints writes suffix val out small =
    if_cases (Prints writes val out) (ltb val 1024 || not (val % 1024 == 0)) _ _
      (λ _. fprintf-Prints writes (plain val suffix) val out refl refl)
      (λ whole.
        let (v, u, units, found, same, chain, fits) =
          scale-finds (val / 1024) kilo units_after_kilo kilo-Chain (omega (arith, small)) in
        let exact =
          same ∙ swap_factor (val / 1024) val 1 1024 (exact_kilo whole) refl ∙ mul-one val in
        subst (λ o. Prints writes val out (fprintf_scaled writes suffix o out)) (sym found)
          (fprintf_scaled-Prints writes suffix val v u units out chain exact fits))
  where
    exact_kilo : (ltb val 1024 || not (val % 1024 == 0)) ≡ false → val ≡ val / 1024 * 1024
    exact_kilo e = ground (arith, e)
