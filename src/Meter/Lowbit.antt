-- ===== src/Meter/Lowbit.antt =====
-- Lowbit: the lowest binary digit of a number.
use rpc_bench.Common.{
  ℕ, suc, ◌+◌, ◌-◌, ◌*◌, ◌%◌, ◌^◌, ◌≤◌, ◌<◌, ◌≡◌, sym, ap, ◌∙◌, bit_and, bit_and_negation,
  bit_and_scaled, two_pow_add, two_pow_pos, arith,
}
use native.Mathlib.Nat.{mod-eq_of_lt, two-pow-succ, mul-add}
use rpc_bench.Meter.{lowbit}

-- The negation of p * y modulo p * q.
negated : (p q y n : ℕ) → n ≡ p * q → 0 < p → 0 < y → y < q → (n - p * y) % n ≡ p * (q - y)
negated p q y n whole pos some less =
    let d = q - y in
    let parts : q ≡ y + d = omega arith in
    let sum : p * q ≡ p * y + p * d = ap (◌*◌ p) parts ∙ mul-add p y d in
    let first : 0 < p * y = grind arith in
    let rest : n - p * y ≡ p * d = omega arith in
    let small : p * d < n = omega arith in ap (λ r. r % n) rest ∙ mod-eq_of_lt small

-- The lowest digit of a number that is 2^k times an odd one.
pub lowbit_scaled :
    (k v y : ℕ) → k + suc v ≡ 64 → y % 2 ≡ 1 → y < 2 ^ suc v → lowbit (2 ^ k * y) ≡ 2 ^ k
unfolding lowbit
lowbit_scaled k v y width odd lt =
    let power : 2 ^ 64 ≡ 2 ^ k * 2 ^ suc v = ap (λ n. 2 ^ n) (sym width) ∙ two_pow_add k (suc v) in
    let other : (2 ^ 64 - 2 ^ k * y) % 2 ^ 64 ≡ 2 ^ k * (2 ^ suc v - y) =
      negated (2 ^ k) (2 ^ suc v) y (2 ^ 64) power (two_pow_pos k) (omega arith) lt in
    ap (bit_and (2 ^ k * y)) other
    ∙ bit_and_scaled k y (2 ^ suc v - y)
    ∙ ap (◌*◌ (2 ^ k)) (bit_and_negation v y lt odd)
    ∙ omega arith

pub lowbit_power : (k : ℕ) → k ≤ 63 → lowbit (2 ^ k) ≡ 2 ^ k
lowbit_power k le =
    let v = 63 - k in
    let once : 2 ^ k * 1 ≡ 2 ^ k = omega arith in
    sym (ap lowbit once)
    ∙ lowbit_scaled k v 1 (omega arith) (omega arith) (omega (arith, two-pow-succ v, two_pow_pos v))
