-- ===== src/Base/Bits.antt =====
-- Laws of the bitwise operations at variables, for the tagged words of `crates/swip-kernel`, the
-- version word of `crates/hybrid-latch` and the flag words of the page headers.
use Prim.Native.Nat.{
  ℕ, zero, suc, ◌+◌, ◌-◌, ◌*◌, ◌/◌, ◌%◌, ◌^◌, ◌≤◌, ◌<◌, min, max, bit_and, bit_or, digits,
  bit_and-bitwise, bit_or-bitwise,
}
use mathlib.Core.Path.{◌≡◌, refl, sym, ap, ◌∙◌}
use native.Mathlib.Nat.{two-pow-succ, one-le-pow}
use native.Mathlib.Omega.{arith}

-- The recursion on binary digits that both operations are, whatever is done with the digits.
module _ (rest : ℕ → ℕ) (digit : ℕ → ℕ → ℕ)
    (rest_halves : (y : ℕ) → rest y ≡ rest (y / 2) * 2 + digit 0 (y % 2)) where
  nothing_left : (fuel y : ℕ) → digits rest digit fuel 0 y ≡ rest y
  nothing_left zero y = refl
  nothing_left (suc fuel) y = refl

  -- More fuel than the first number changes nothing.
  settled :
      (x y fuel fuel' : ℕ)
      → x ≤ fuel
      → x ≤ fuel'
      → digits rest digit fuel x y ≡ digits rest digit fuel' x y
  settled zero y fuel fuel' h h' = nothing_left fuel y ∙ sym (nothing_left fuel' y)
  settled (suc x) y zero fuel' h h' = absurd (omega arith)
  settled (suc x) y (suc fuel) zero h h' = absurd (omega arith)
  settled (suc x) y (suc fuel) (suc fuel') h h' =
      let below : suc x / 2 ≤ fuel = omega arith in
      let below' : suc x / 2 ≤ fuel' = omega arith in
      ap (λ r. r * 2 + digit (suc x % 2) (y % 2))
        (settled (suc x / 2) (y / 2) fuel fuel' below below')

  halves :
      (x y : ℕ)
      → digits rest digit x x y
        ≡ digits rest digit (x / 2) (x / 2) (y / 2) * 2 + digit (x % 2) (y % 2)
  halves zero y = rest_halves y
  halves (suc x) y =
      let below : suc x / 2 ≤ x = omega arith in
      let same : suc x / 2 ≤ suc x / 2 = omega arith in
      ap (λ r. r * 2 + digit (suc x % 2) (y % 2))
        (settled (suc x / 2) (y / 2) x (suc x / 2) below same)

pub zero-bit_and : (b : ℕ) → bit_and 0 b ≡ 0
zero-bit_and b = bit_and-bitwise 0 b

pub zero-bit_or : (b : ℕ) → bit_or 0 b ≡ b
zero-bit_or b = bit_or-bitwise 0 b

-- One binary digit at a time.
pub bit_and_step : (a b : ℕ) → bit_and a b ≡ bit_and (a / 2) (b / 2) * 2 + min (a % 2) (b % 2)
bit_and_step a b =
    let whole = bit_and-bitwise a b in
    let half = bit_and-bitwise (a / 2) (b / 2) in
    let digits_of = halves (λ y. 0) min (λ y. omega arith) a b in
    whole ∙ digits_of ∙ ap (λ r. r * 2 + min (a % 2) (b % 2)) (sym half)

pub bit_or_step : (a b : ℕ) → bit_or a b ≡ bit_or (a / 2) (b / 2) * 2 + max (a % 2) (b % 2)
bit_or_step a b =
    let whole = bit_or-bitwise a b in
    let half = bit_or-bitwise (a / 2) (b / 2) in
    let digits_of = halves (λ y. y) max (λ y. omega arith) a b in
    whole ∙ digits_of ∙ ap (λ r. r * 2 + max (a % 2) (b % 2)) (sym half)

half_shifted : (a c p : ℕ) → (a * (2 * p) + c) / 2 ≡ a * p + c / 2
half_shifted a c p = omega arith

parity_shifted : (a c p : ℕ) → (a * (2 * p) + c) % 2 ≡ c % 2
parity_shifted a c p = omega arith

pow_double : (k : ℕ) → 2 ^ suc k ≡ 2 * 2 ^ k
pow_double k = omega (arith, two-pow-succ k)

-- 2 ^ (k + 1) - 1 is a one above 2 ^ k - 1.
half_ones : (k : ℕ) → (2 ^ suc k - 1) / 2 ≡ 2 ^ k - 1
half_ones k = omega (arith, pow_double k, one-le-pow k 2 (omega arith))

-- `k` low digits and the rest are combined apart from each other.
pub bit_and-split :
    (k a b c d : ℕ)
    → c < 2 ^ k
    → d < 2 ^ k
    → bit_and (a * 2 ^ k + c) (b * 2 ^ k + d) ≡ bit_and a b * 2 ^ k + bit_and c d
bit_and-split zero a b c d p q =
    let ea : a * 1 + c ≡ a = omega arith in
    let eb : b * 1 + d ≡ b = omega arith in
    let ec : c ≡ 0 = omega arith in
    let ed : d ≡ 0 = omega arith in rw (ea, eb, ec, ed) (omega arith)
bit_and-split (suc k) a b c d p q =
    rw
      (
        pow_double k,
        bit_and_step (a * (2 * 2 ^ k) + c) (b * (2 * 2 ^ k) + d),
        half_shifted a c (2 ^ k),
        half_shifted b d (2 ^ k),
        parity_shifted a c (2 ^ k),
        parity_shifted b d (2 ^ k),
        bit_and-split k a b (c / 2) (d / 2) (omega (arith, pow_double k))
            (omega (arith, pow_double k)),
      )
      (omega (arith, bit_and_step c d))

pub bit_or-split :
    (k a b c d : ℕ)
    → c < 2 ^ k
    → d < 2 ^ k
    → bit_or (a * 2 ^ k + c) (b * 2 ^ k + d) ≡ bit_or a b * 2 ^ k + bit_or c d
bit_or-split zero a b c d p q =
    let ea : a * 1 + c ≡ a = omega arith in
    let eb : b * 1 + d ≡ b = omega arith in
    let ec : c ≡ 0 = omega arith in
    let ed : d ≡ 0 = omega arith in rw (ea, eb, ec, ed) (omega arith)
bit_or-split (suc k) a b c d p q =
    rw
      (
        pow_double k,
        bit_or_step (a * (2 * 2 ^ k) + c) (b * (2 * 2 ^ k) + d),
        half_shifted a c (2 ^ k),
        half_shifted b d (2 ^ k),
        parity_shifted a c (2 ^ k),
        parity_shifted b d (2 ^ k),
        bit_or-split k a b (c / 2) (d / 2) (omega (arith, pow_double k))
            (omega (arith, pow_double k)),
      )
      (omega (arith, bit_or_step c d))

and_nothing : (fuel a : ℕ) → digits (λ y. 0) min fuel a 0 ≡ 0
and_nothing zero a = refl
and_nothing (suc fuel) zero = refl
and_nothing (suc fuel) (suc a) = let up = and_nothing fuel (suc a / 2) in omega (arith, up)

pub bit_and-zero : (a : ℕ) → bit_and a 0 ≡ 0
bit_and-zero a = bit_and-bitwise a 0 ∙ and_nothing a a

or_nothing : (fuel a : ℕ) → a ≤ fuel → digits (λ y. y) max fuel a 0 ≡ a
or_nothing zero a h = omega arith
or_nothing (suc fuel) zero h = refl
or_nothing (suc fuel) (suc a) h =
    let up = or_nothing fuel (suc a / 2) (omega arith) in omega (arith, up)

pub bit_or-zero : (a : ℕ) → bit_or a 0 ≡ a
bit_or-zero a = bit_or-bitwise a 0 ∙ or_nothing a a (omega arith)

-- A mask of `k` ones keeps a number below 2 ^ k.
pub bit_and-ones : (k a : ℕ) → a < 2 ^ k → bit_and a (2 ^ k - 1) ≡ a
bit_and-ones zero a h = let e : a ≡ 0 = omega arith in rw e
bit_and-ones (suc k) a h = omega (
  arith,
  pow_double k,
  one-le-pow k 2 (omega arith),
  bit_and_step a (2 ^ suc k - 1),
  ap (bit_and (a / 2)) (half_ones k),
  bit_and-ones k (a / 2) (omega (arith, pow_double k)),
)

-- The lowest bit, read and cleared.
pub bit_and-one : (a : ℕ) → bit_and a 1 ≡ a % 2
bit_and-one a = omega (arith, bit_and_step a 1, bit_and-zero (a / 2))

pub bit_and-even : (a m : ℕ) → bit_and a (2 * m) % 2 ≡ 0
bit_and-even a m = omega (arith, bit_and_step a (2 * m))

pub bit_or-one : (a : ℕ) → bit_or a 1 ≡ a / 2 * 2 + 1
bit_or-one a = omega (arith, bit_or_step a 1, bit_or-zero (a / 2))
