-- ===== src/Base/Bits.antt =====
-- `x & (2^k - 1)` as a remainder, at every width, from the digit recursion that `bit_and` stands
-- for.
use Prim.Native.Nat.{
  ℕ, zero, suc, ◌+◌, ◌-◌, ◌*◌, ◌/◌, ◌%◌, ◌^◌, ◌≤◌, ◌<◌, min, bit_and, digits, bit_and-bitwise,
}
use mathlib.Core.Path.{◌≡◌, refl, sym, ap, ◌∙◌}
use native.Mathlib.Nat.{pow-suc, one-le-pow}
use native.Mathlib.Omega.{arith}

-- The recursion on the binary digits of a word under a mask, with the rounds that it may take.
abbrev masked : (rounds word mask : ℕ) → ℕ
masked = digits (λ m. 0) min

-- Once there is a round for each unit of the word, one more round changes nothing.
masked-suc : (n w m : ℕ) → w ≤ n → masked (suc n) w m ≡ masked n w m
masked-suc zero zero m h = refl
masked-suc (suc n) zero m h = refl
masked-suc zero (suc w) m h = absurd (omega (arith, h))
masked-suc (suc n) (suc w) m h =
    ap (λ (high : ℕ). high * 2 + min (suc w % 2) (m % 2))
      (masked-suc n (suc w / 2) (m / 2) (omega (arith, h)))

masked_add : (extra n w m : ℕ) → w ≤ n → masked (extra + n) w m ≡ masked n w m
masked_add zero n w m h = let none : 0 + n ≡ n = omega arith in rw (none) refl
masked_add (suc extra) n w m h =
    let one : suc extra + n ≡ suc (extra + n) = omega arith in
    ap (λ (t : ℕ). masked t w m) one
    ∙ masked-suc (extra + n) w m (omega (arith, h))
    ∙ masked_add extra n w m h

-- So the rounds may be counted by the word itself, as `bit_and` does.
masked_enough : (n w m : ℕ) → w ≤ n → masked n w m ≡ bit_and w m
masked_enough n w m h =
    let parts : n ≡ n - w + w = omega (arith, h) in
    ap (λ (t : ℕ). masked t w m) parts
    ∙ masked_add (n - w) w w m (omega arith)
    ∙ sym (bit_and-bitwise w m)

-- The lowest digit is the lesser of the lowest digits, and the others are those of the halves.
pub bit_and_step : (w m : ℕ) → bit_and w m ≡ bit_and (w / 2) (m / 2) * 2 + min (w % 2) (m % 2)
bit_and_step w m = by_word w
  where
    high : (v : ℕ) → masked v (suc v / 2) (m / 2) ≡ bit_and (suc v / 2) (m / 2)
    high v = masked_enough v (suc v / 2) (m / 2) (omega arith)

    by_word : (v : ℕ) → bit_and v m ≡ bit_and (v / 2) (m / 2) * 2 + min (v % 2) (m % 2)
    by_word zero = ground (arith, bit_and-bitwise 0 m, bit_and-bitwise 0 (m / 2))
    by_word (suc v) =
        bit_and-bitwise (suc v) m ∙ ap (λ (t : ℕ). t * 2 + min (suc v % 2) (m % 2)) (high v)

-- The empty mask, by halving the word.
unmasked : (bound w : ℕ) → w < bound → bit_and w 0 ≡ 0
unmasked zero w h = absurd (omega (arith, h))
unmasked (suc bound) zero h = bit_and-bitwise 0 0
unmasked (suc bound) (suc w) h =
    let rest = unmasked bound (suc w / 2) (omega (arith, h)) in
    omega (arith, rest, bit_and_step (suc w) 0)

split_mask : (k q r : ℕ) → r < 2 ^ k → bit_and (q * 2 ^ k + r) (2 ^ k - 1) ≡ r
split_mask zero q r fits = ground (arith, unmasked (suc q) q)
split_mask (suc k) q r fits = ground (
  arith,
  bit_and_step (q * 2 ^ suc k + r) (2 ^ suc k - 1),
  ap (λ (t : ℕ). q * t) (pow-suc 2 k),
  pow-suc 2 k,
  split_mask k q (r / 2) (omega (arith, pow-suc 2 k)),
)

-- A mask of `k` ones keeps the remainder by `2 ^ k`.
pub bit_and_mask : (k a : ℕ) → bit_and a (2 ^ k - 1) ≡ a % 2 ^ k
bit_and_mask k a = ground (arith, one-le-pow k 2, split_mask k (a / 2 ^ k) (a % 2 ^ k))
