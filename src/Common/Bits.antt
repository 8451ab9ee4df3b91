-- ===== src/Common/Bits.antt =====
-- Facts about `bit_and` and `bit_or` at variables: shifts, masks and single bits.
use Prim.Native.Nat.{
  ℕ, zero, suc, ◌+◌, ◌-◌, ◌*◌, ◌/◌, ◌%◌, ◌^◌, ◌≤◌, ◌<◌, min, max, bit_and, bit_or, digits,
  bit_and-bitwise, bit_or-bitwise,
}
use mathlib.Core.Path.{◌≡◌, refl, ap, sym, ◌∙◌}
use native.Mathlib.Omega.{arith}
use native.Mathlib.Nat.{pow-suc, mod-lt, mod-eq_of_lt, mul-add-mod_self_right, div-add-mod'}
use greplm.Common.Tests.{◌==◌, if◌then◌else◌}

abbrev pub shr : ℕ → ℕ → ℕ
shr x k = x / 2 ^ k

-- A shift to the left in a word of `w` bits drops what leaves the word.
abbrev pub shl : ℕ → ℕ → ℕ → ℕ
shl w x k = x * 2 ^ k % 2 ^ w

module _ (edge : ℕ → ℕ) (join : ℕ → ℕ → ℕ) where
  -- More rounds than the number asks for change nothing.
  spare_rounds :
      (most least x y : ℕ)
      → least ≤ most
      → x ≤ least
      → digits edge join most x y ≡ digits edge join least x y
  spare_rounds most zero (suc x) y wide enough = absurd (omega arith)
  spare_rounds zero (suc least) x y wide enough = absurd (omega arith)
  spare_rounds zero zero x y wide enough = refl
  spare_rounds (suc most) zero zero y wide enough = refl
  spare_rounds (suc most) (suc least) zero y wide enough = refl
  spare_rounds (suc most) (suc least) (suc x) y wide enough =
      let halves = spare_rounds most least (suc x / 2) (y / 2) (omega arith) (omega arith) in
      rw halves refl

  -- The lowest digit, and the rest of the digits.
  lowest_digit :
      (x y : ℕ)
      → digits edge join (suc x) (suc x) y
        ≡ digits edge join (suc x / 2) (suc x / 2) (y / 2) * 2 + join (suc x % 2) (y % 2)
  lowest_digit x y =
      rw (spare_rounds x (suc x / 2) (suc x / 2) (y / 2) (omega arith) (omega arith)) refl

pub bit_and_step : (x y : ℕ) → bit_and x y ≡ bit_and (x / 2) (y / 2) * 2 + min (x % 2) (y % 2)
bit_and_step zero y = omega (arith, bit_and-bitwise 0 y, bit_and-bitwise 0 (y / 2))
bit_and_step (suc x) y =
    bit_and-bitwise (suc x) y
    ∙ lowest_digit (λ rest. zero) min x y
    ∙ rw (bit_and-bitwise (suc x / 2) (y / 2)) refl

pub zero-bit_or : (y : ℕ) → bit_or 0 y ≡ y
zero-bit_or y = bit_or-bitwise 0 y

pub bit_or_step : (x y : ℕ) → bit_or x y ≡ bit_or (x / 2) (y / 2) * 2 + max (x % 2) (y % 2)
bit_or_step zero y = omega (arith, zero-bit_or y, zero-bit_or (y / 2))
bit_or_step (suc x) y =
    bit_or-bitwise (suc x) y
    ∙ lowest_digit (λ rest. rest) max x y
    ∙ rw (bit_or-bitwise (suc x / 2) (y / 2)) refl

pow_two_suc : (k : ℕ) → 2 ^ suc k ≡ 2 * 2 ^ k
pow_two_suc k = omega (arith, pow-suc 2 k)

pow_two_pos : (k : ℕ) → 0 < 2 ^ k
pow_two_pos zero = omega arith
pow_two_pos (suc k) = omega (arith, pow_two_suc k, pow_two_pos k)

-- Below a power of two, nothing but zero is joined to the digits.
bit_or-zero_below : (k a : ℕ) → a < 2 ^ k → bit_or a 0 ≡ a
bit_or-zero_below zero zero small = zero-bit_or 0
bit_or-zero_below zero (suc a) small = absurd (omega arith)
bit_or-zero_below (suc k) a small =
    let half = bit_or-zero_below k (a / 2) (omega (arith, pow_two_suc k)) in
    omega (arith, bit_or_step a 0, half)

bit_and-zero_below : (k a : ℕ) → a < 2 ^ k → bit_and a 0 ≡ 0
bit_and-zero_below zero zero small = bit_and-bitwise 0 0
bit_and-zero_below zero (suc a) small = absurd (omega arith)
bit_and-zero_below (suc k) a small =
    let half = bit_and-zero_below k (a / 2) (omega (arith, pow_two_suc k)) in
    omega (arith, bit_and_step a 0, half)

lt-pow_two : (a : ℕ) → a < 2 ^ a
lt-pow_two zero = omega arith
lt-pow_two (suc a) = omega (arith, lt-pow_two a, pow_two_suc a)

pub bit_or-zero : (a : ℕ) → bit_or a 0 ≡ a
bit_or-zero a = bit_or-zero_below a a (lt-pow_two a)

pub bit_and-zero : (a : ℕ) → bit_and a 0 ≡ 0
bit_and-zero a = bit_and-zero_below a a (lt-pow_two a)

-- `(a << k) | b` where `b` fits below the shift.
pub bit_or-shift : (k a b : ℕ) → b < 2 ^ k → bit_or (a * 2 ^ k) b ≡ a * 2 ^ k + b
bit_or-shift zero a zero h = omega (arith, bit_or-zero (a * 2 ^ 0))
bit_or-shift zero a (suc b) h = absurd (omega arith)
bit_or-shift (suc k) a b h =
    let shifted : a * 2 ^ suc k / 2 ≡ a * 2 ^ k =
      omega (arith, ap (λ (t : ℕ). a * t) (pow_two_suc k)) in
    let even : a * 2 ^ suc k % 2 ≡ 0 = omega (arith, ap (λ (t : ℕ). a * t) (pow_two_suc k)) in
    let step : bit_or (a * 2 ^ suc k) b
        ≡ bit_or (a * 2 ^ suc k / 2) (b / 2) * 2 + max (a * 2 ^ suc k % 2) (b % 2) =
      bit_or_step (a * 2 ^ suc k) b in
    let rest : bit_or (a * 2 ^ k) (b / 2) ≡ a * 2 ^ k + b / 2 =
      bit_or-shift k a (b / 2) (omega (arith, pow_two_suc k)) in
    omega (arith, rw shifted at step, rest, even, ap (λ (t : ℕ). a * t) (pow_two_suc k))

-- The quotient and the remainder are determined.
pub mod_of_eq : (a q n r : ℕ) → a ≡ q * n + r → r < n → a % n ≡ r
mod_of_eq a q n r e h = rw e (mul-add-mod_self_right q n r ∙ mod-eq_of_lt h)

-- A mask of `k` ones keeps the low digits.
pub bit_and_mask : (k a : ℕ) → bit_and a (2 ^ k - 1) ≡ a % 2 ^ k
bit_and_mask zero a = omega (arith, bit_and-zero a)
bit_and_mask (suc k) a =
    let halved : (2 ^ suc k - 1) / 2 ≡ 2 ^ k - 1 = omega (arith, pow_two_suc k) in
    let odd : (2 ^ suc k - 1) % 2 ≡ 1 = omega (arith, pow_two_suc k, pow_two_pos k) in
    let step : bit_and a (2 ^ suc k - 1)
        ≡ bit_and (a / 2) ((2 ^ suc k - 1) / 2) * 2 + min (a % 2) ((2 ^ suc k - 1) % 2) =
      bit_and_step a (2 ^ suc k - 1) in
    let low : bit_and a (2 ^ suc k - 1) ≡ (a / 2) % 2 ^ k * 2 + a % 2 =
      omega (arith, rw (halved, bit_and_mask k (a / 2)) at step, odd) in
    low
    ∙ sym (
        mod_of_eq a (a / 2 / 2 ^ k) (2 ^ suc k) (a / 2 % 2 ^ k * 2 + a % 2)
          (omega (
            arith,
            div-add-mod' (a / 2) (2 ^ k),
            ap (λ (t : ℕ). a / 2 / 2 ^ k * t) (pow_two_suc k),
          ))
          (omega (arith, pow_two_suc k, mod-lt (a / 2) (pow_two_pos k))))

-- The digit of `a` at place `i`.
pub test_bit : ℕ → ℕ → ℕ
test_bit a zero = a % 2
test_bit a (suc i) = test_bit (a / 2) i

pub zero-test_bit : (i : ℕ) → test_bit 0 i ≡ 0
unfolding test_bit
zero-test_bit zero = refl
zero-test_bit (suc i) = zero-test_bit i

half-bit_or : (a b : ℕ) → bit_or a b / 2 ≡ bit_or (a / 2) (b / 2)
half-bit_or a b = omega (arith, bit_or_step a b)

pub test_bit-bit_or : (a b i : ℕ) → test_bit (bit_or a b) i ≡ max (test_bit a i) (test_bit b i)
unfolding test_bit
test_bit-bit_or a b zero = omega (arith, bit_or_step a b)
test_bit-bit_or a b (suc i) = rw (half-bit_or a b) (test_bit-bit_or (a / 2) (b / 2) i)

half_pow_suc : (j : ℕ) → 2 ^ suc j / 2 ≡ 2 ^ j
half_pow_suc j = omega (arith, pow_two_suc j)

pub test_bit-pow : (j i : ℕ) → test_bit (2 ^ j) i ≡ (if j == i then 1 else 0)
unfolding test_bit
test_bit-pow zero zero = refl
test_bit-pow zero (suc i) = zero-test_bit i ∙ ground arith
test_bit-pow (suc j) zero = ground (arith, pow_two_suc j)
test_bit-pow (suc j) (suc i) = rw (half_pow_suc j) (test_bit-pow j i ∙ ground arith)

pub bit_and-pow : (j a : ℕ) → bit_and a (2 ^ j) ≡ test_bit a j * 2 ^ j
unfolding test_bit
bit_and-pow zero a = omega (arith, bit_and_step a (2 ^ 0), bit_and-zero (a / 2))
bit_and-pow (suc j) a =
    let step : bit_and a (2 ^ suc j)
        ≡ bit_and (a / 2) (2 ^ suc j / 2) * 2 + min (a % 2) (2 ^ suc j % 2) =
      bit_and_step a (2 ^ suc j) in
    omega (
      arith,
      rw (half_pow_suc j, bit_and-pow j (a / 2)) at step,
      pow_two_suc j,
      ap (λ (t : ℕ). test_bit (a / 2) j * t) (pow_two_suc j),
    )

pub test_bit-le-one : (a i : ℕ) → test_bit a i ≤ 1
unfolding test_bit
test_bit-le-one a zero = omega arith
test_bit-le-one a (suc i) = test_bit-le-one (a / 2) i

-- The source's test `w & (1 << j) == 0` looks at one digit.
pub bit_and-pow-eq_zero : (w j : ℕ) → (bit_and w (2 ^ j) == 0) ≡ (test_bit w j == 0)
bit_and-pow-eq_zero w j = rw (bit_and-pow j w) (go (test_bit w j) (test_bit-le-one w j))
  where
    go : (d : ℕ) → d ≤ 1 → (d * 2 ^ j == 0) ≡ (d == 0)
    go zero h = ground arith
    go (suc zero) h = ground (arith, pow_two_pos j)
    go (suc (suc d)) h = absurd (omega arith)
