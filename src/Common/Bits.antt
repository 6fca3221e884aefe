-- ===== src/Common/Bits.antt =====
-- The binary digits of `bit_and`, digit by digit from the lowest.
use Prim.Native.Nat.{
  ℕ, zero, suc, ◌+◌, ◌-◌, ◌*◌, ◌/◌, ◌%◌, ◌^◌, ◌≤◌, ◌<◌, min, bit_and, digits, bit_and-bitwise,
}
use mathlib.Core.Path.{◌≡◌, refl, ap, ap₂, ◌∙◌, subst}
use native.Mathlib.Nat.{two-pow-succ}
use native.Mathlib.Omega.{arith}

-- The digits do not depend on how many are asked for, once there are enough.
digits_enough :
    (i j a b : ℕ) → a ≤ i → a ≤ j → digits (λ y. zero) min i a b ≡ digits (λ y. zero) min j a b
digits_enough zero zero a b h k = refl
digits_enough (suc i) zero zero b h k = refl
digits_enough (suc i) zero (suc a) b h k = absurd (omega arith)
digits_enough zero (suc j) zero b h k = refl
digits_enough zero (suc j) (suc a) b h k = absurd (omega arith)
digits_enough (suc i) (suc j) zero b h k = refl
digits_enough (suc i) (suc j) (suc a) b h k =
    ap (λ n. n * 2 + min (suc a % 2) (b % 2))
      (digits_enough i j (suc a / 2) (b / 2) (omega arith) (omega arith))

bit_and_none : (b : ℕ) → bit_and 0 b ≡ 0
bit_and_none b = bit_and-bitwise 0 b

-- The lowest digit, and the others.
pub bit_and_lowest : (a b : ℕ) → bit_and a b ≡ 2 * bit_and (a / 2) (b / 2) + min (a % 2) (b % 2)
bit_and_lowest zero b = omega (arith, bit_and_none b, bit_and_none (b / 2))
bit_and_lowest (suc a) b =
    let half = suc a / 2 in
    omega (
      arith,
      digits_enough half a half (b / 2) (omega arith) (omega arith),
      bit_and-bitwise half (b / 2),
      bit_and-bitwise (suc a) b,
    )

pub bit_and_double : (a b : ℕ) → bit_and (2 * a) (2 * b) ≡ 2 * bit_and a b
bit_and_double a b =
    let halves : bit_and (2 * a / 2) (2 * b / 2) ≡ bit_and a b =
      ap₂ bit_and (omega arith) (omega arith) in
    omega (arith, bit_and_lowest (2 * a) (2 * b), halves)

-- A number below 2^v and its complement have no digit in common.
bit_and-complement : (v h : ℕ) → h < 2 ^ v → bit_and h (2 ^ v - 1 - h) ≡ 0
bit_and-complement zero h lt =
    let none_left : 0 ≡ h = omega arith in
    subst (λ n. bit_and n (2 ^ 0 - 1 - n) ≡ 0) none_left (bit_and_none 0)
bit_and-complement (suc v) h lt =
    let power = two-pow-succ v in
    let half : (2 ^ suc v - 1 - h) / 2 ≡ 2 ^ v - 1 - h / 2 = omega (arith, power) in
    let ih = bit_and-complement v (h / 2) (omega (arith, power)) in
    let same = ap (bit_and (h / 2)) half in
    omega (arith, power, bit_and_lowest h (2 ^ suc v - 1 - h), same, ih)

-- An odd number and its negation have the lowest digit in common alone.
pub bit_and_negation : (v y : ℕ) → y < 2 ^ suc v → y % 2 ≡ 1 → bit_and y (2 ^ suc v - y) ≡ 1
bit_and_negation v y lt odd =
    let power = two-pow-succ v in
    let half : (2 ^ suc v - y) / 2 ≡ 2 ^ v - 1 - y / 2 = omega (arith, power) in
    let apart = bit_and-complement v (y / 2) (omega (arith, power)) in
    let same = ap (bit_and (y / 2)) half in
    omega (arith, power, bit_and_lowest y (2 ^ suc v - y), same, apart)

pub two_pow_add : (k v : ℕ) → 2 ^ (k + v) ≡ 2 ^ k * 2 ^ v
two_pow_add k zero = let same : k + 0 ≡ k = omega arith in omega (arith, ap (λ n. 2 ^ n) same)
two_pow_add k (suc v) =
    let shifted : k + suc v ≡ suc (k + v) = omega arith in
    ap (λ n. 2 ^ n) shifted ∙ grind (arith, two-pow-succ (k + v), two-pow-succ v, two_pow_add k v)

pub doubled : (k c : ℕ) → 2 ^ suc k * c ≡ 2 * (2 ^ k * c)
doubled k c = grind (arith, two-pow-succ k)

pub two_pow_pos : (k : ℕ) → 0 < 2 ^ k
two_pow_pos zero = omega arith
two_pow_pos (suc k) = omega (arith, two-pow-succ k, two_pow_pos k)

pub bit_and_scaled : (k a b : ℕ) → bit_and (2 ^ k * a) (2 ^ k * b) ≡ 2 ^ k * bit_and a b
bit_and_scaled zero a b =
    let left : 2 ^ 0 * a ≡ a = omega arith in
    let right : 2 ^ 0 * b ≡ b = omega arith in omega (arith, ap₂ bit_and left right)
bit_and_scaled (suc k) a b = omega (
  arith,
  ap₂ bit_and (doubled k a) (doubled k b),
  bit_and_double (2 ^ k * a) (2 ^ k * b),
  bit_and_scaled k a b,
  doubled k (bit_and a b),
)
