-- ===== src/Meter/Rounding.antt =====
-- RoundUpPower2 against a definition that halves its way up.
use rpc_bench.Common.{
  ℕ, zero, suc, ◌+◌, ◌-◌, ◌*◌, ◌/◌, ◌%◌, ◌^◌, ◌≤◌, ◌<◌, ◌≡◌, refl, sym, ap, ◌∙◌, subst, ◌⊎◌, inl,
  inr, Bool, true, false, done, Post, Bool-cases, ltb, ◌==◌, if◌then◌else◌, two_pow_add,
  two_pow_pos, doubled, arith,
}
use native.Mathlib.Nat.{two-pow-succ, mul-add, mul-le-mul_left, mul-lt-mul_of_pos_left}
use rpc_bench.Meter.{lowbit, round_up_power2, int_suc, new_meter}
use rpc_bench.Meter.Lowbit.{lowbit_scaled, lowbit_power}

-- The least power of two that is no less than `y`, for y of 1 to 2^v.
pub next_power : ℕ → ℕ → ℕ
next_power zero y = 1
next_power (suc v) y = let rest = next_power v ((y + 1) / 2) in if y == 1 then 1 else 2 * rest

-- The loop at a power of two, and at another number.
round_done : (fuel x : ℕ) → 0 < fuel → lowbit x ≡ x → round_up_power2 fuel x ≡ done x
unfolding round_up_power2
round_done zero x pos e = absurd (omega arith)
round_done (suc fuel) x pos e =
    let same : (x == lowbit x) ≡ true = ground (arith, e) in rw (same, round_up_power2) refl

round_step :
    (fuel x l : ℕ)
    → lowbit x ≡ l
    → l < x
    → x + l < 2 ^ 63
    → round_up_power2 (suc fuel) x ≡ round_up_power2 fuel (x + l)
unfolding round_up_power2
round_step fuel x l e less fits =
    let apart : (x == lowbit x) ≡ false = ground (arith, e) in
    let room : ltb (x + lowbit x) (2 ^ 63) ≡ true = ground (arith, e) in
    rw (apart, round_up_power2)
      (rw (room, round_up_power2) (ap (λ n. round_up_power2 fuel (x + n)) e))

round_power : (k fuel : ℕ) → k ≤ 63 → 0 < fuel → round_up_power2 fuel (2 ^ k * 1) ≡ done (2 ^ k * 1)
round_power k fuel le pos =
    let once : 2 ^ k * 1 ≡ 2 ^ k = omega arith in
    round_done fuel (2 ^ k * 1) pos (ap lowbit once ∙ lowbit_power k le ∙ sym once)

-- The number halved, on the next power.
halved : (k y c : ℕ) → y ≡ 2 * c → 2 ^ k * y ≡ 2 ^ suc k * c
halved k y c e = omega (arith, doubled k c, ap (◌*◌ (2 ^ k)) e, twice (2 ^ k) c)
  where
    twice : (p q : ℕ) → p * (2 * q) ≡ 2 * (p * q)
    twice p q = grind arith

-- What a round adds to an odd number.
raised : (k y c : ℕ) → y + 1 ≡ 2 * c → 2 ^ k * y + 2 ^ k ≡ 2 ^ suc k * c
raised k y c e = omega (arith, halved k (y + 1) c e, mul-add (2 ^ k) y 1)

Parity-cases : (y : ℕ) → (y % 2 ≡ 0) ⊎ (y % 2 ≡ 1)
Parity-cases y = elim (Bool-cases (y % 2 == 0)) [
  | inl e ↦ inl (ground arith)
  | inr e ↦ inr (ground arith)
]

more_than_one : (k y : ℕ) → 1 < y → 2 ^ k < 2 ^ k * y
more_than_one k y h = omega (arith, mul-lt-mul_of_pos_left h (two_pow_pos k))

-- From 2^k times `y`, where y is no more than 2^v, v rounds are enough and one more.
round_up-next :
    (v k fuel y : ℕ)
    → k + v ≡ 62
    → 0 < y
    → y ≤ 2 ^ v
    → v < fuel
    → round_up_power2 fuel (2 ^ k * y) ≡ done (2 ^ k * next_power v y)
unfolding next_power
round_up-next zero k fuel y width pos le enough =
    let one : y ≡ 1 = omega arith in
    subst (λ n. round_up_power2 fuel (2 ^ k * n) ≡ done (2 ^ k * 1)) (sym one)
      (round_power k fuel (omega arith) (omega arith))
round_up-next (suc v) k zero y width pos le enough = absurd (omega arith)
round_up-next (suc v) k (suc fuel) y width pos le enough = elim (Bool-cases (y == 1)) [
  | inl e ↦
      let one : y ≡ 1 = ground arith in
      rw (e, next_power)
        (subst (λ n. round_up_power2 (suc fuel) (2 ^ k * n) ≡ done (2 ^ k * 1)) (sym one)
          (round_power k (suc fuel) (omega arith) (omega arith)))
  | inr e ↦
      let c = (y + 1) / 2 in
      let small : c ≤ 2 ^ v = omega (arith, two-pow-succ v) in
      let some_left : 0 < c = omega arith in
      let answer : 2 ^ suc k * next_power v c ≡ 2 ^ k * (2 * next_power v c) =
        sym (halved k (2 * next_power v c) (next_power v c) refl) in
      rw (e, next_power)
        (elim (Parity-cases y) [
          | inl even ↦
              ap (round_up_power2 (suc fuel)) (halved k y c (omega arith))
              ∙ round_up-next v (suc k) (suc fuel) c (omega arith) some_left small (omega arith)
              ∙ ap done answer
          | inr odd ↦
              let up = raised k y c (omega arith) in
              let top : 2 ^ suc k * c ≤ 2 ^ 62 =
                subst (λ n. 2 ^ suc k * c ≤ n)
                  (sym (two_pow_add (suc k) v) ∙ ap (λ n. 2 ^ n) (sum v k width))
                  (mul-le-mul_left (2 ^ suc k) small) in
              round_step fuel (2 ^ k * y) (2 ^ k)
                (lowbit_scaled k (suc (suc v)) y (omega arith) odd (
                  omega
                    (arith, two-pow-succ (suc v), two-pow-succ (suc (suc v)), two_pow_pos (suc v))))
                (more_than_one k y (ground arith)) (omega arith)
              ∙ ap (round_up_power2 fuel) up
              ∙ round_up-next v (suc k) fuel c (omega arith) some_left small (omega arith)
              ∙ ap done answer
        ])
]
  where
    sum : (v k : ℕ) → k + suc v ≡ 62 → suc k + v ≡ 62
    sum v k e = omega arith

two_pow_cases : (j : ℕ) → (2 ^ j ≡ 1) ⊎ (2 ^ j % 2 ≡ 0)
two_pow_cases zero = inl refl
two_pow_cases (suc j) = inr (omega (arith, two-pow-succ j))

-- A power of two up to 2^v that is at least `y` and less than twice it.
pub record IsRounded (v y r : ℕ) : Type 0 where
  pub exponent : ℕ
  pub power : r ≡ 2 ^ exponent
  pub within : exponent ≤ v
  pub above : y ≤ r
  pub close : r < 2 * y

next_power-IsRounded : (v y : ℕ) → 0 < y → y ≤ 2 ^ v → IsRounded v y (next_power v y)
unfolding next_power
next_power-IsRounded zero y pos le = record {
  exponent = 0;
  power = refl;
  within = omega arith;
  above = omega arith;
  close = omega arith;
}
next_power-IsRounded (suc v) y pos le = elim (Bool-cases (y == 1)) [
  | inl e ↦
      rw (e, next_power)
        (record {
          exponent = 0;
          power = refl;
          within = omega arith;
          above = ground arith;
          close = ground arith;
        })
  | inr e ↦
      let c = (y + 1) / 2 in
      let ih = next_power-IsRounded v c (omega arith) (omega (arith, two-pow-succ v)) in
      rw (e, next_power)
        (record {
          exponent = suc ih.exponent;
          power = omega (arith, ih.power, two-pow-succ ih.exponent);
          within = omega (arith, ih.within);
          above = omega (arith, ih.above);
          close = elim (two_pow_cases ih.exponent) [
            | inl e' ↦ ground (arith, ih.power, e')
            | inr e' ↦ ground (arith, ih.power, e', ih.close)
          ];
        })
]

-- RoundUpPower2 of 1 to 2^62 takes at most 64 rounds, does not overflow a long, and gives what halving
-- upwards gives, which is the least power of two that is no less.
pub round_up_power2-next_power :
    (x : ℕ)
    → 0 < x
    → x ≤ 2 ^ 62
    → (round_up_power2 64 x ≡ done (next_power 62 x)) × IsRounded 62 x (next_power 62 x)
round_up_power2-next_power x pos le =
    let once : 2 ^ 0 * x ≡ x = omega arith in
    let once_more : 2 ^ 0 * next_power 62 x ≡ next_power 62 x = omega arith in
    (
      ap (round_up_power2 64) (sym once)
          ∙ round_up-next 62 0 64 x (omega arith) pos le (omega arith)
          ∙ ap done once_more,
      next_power-IsRounded 62 x pos le,
    )

-- A power of two that is less than 2^31 is at most 2^30.
small_power : (k : ℕ) → 2 ^ k < 2 ^ 31 → 2 ^ k ≤ 2 ^ 30
small_power k less = elim (Bool-cases (ltb k 31)) [
  | inl low ↦
      let d = 30 - k in
      let sum : k + d ≡ 30 = ground (arith, low) in
      omega (arith, ap (λ n. 2 ^ n) sum, two_pow_add k d, mul-le-mul_left (2 ^ k) (two_pow_pos d))
  | inr high ↦
      let d = k - 31 in
      let sum : 31 + d ≡ k = ground (arith, high) in
      omega (arith, ap (λ n. 2 ^ n) sum, two_pow_add 31 d, mul-le-mul_left (2 ^ 31) (two_pow_pos d))
]

int_suc-done : (n : ℕ) → n < 2 ^ 31 - 1 → int_suc n ≡ done (n + 1)
unfolding int_suc
int_suc-done n less = let room : ltb n (2 ^ 31 - 1) ≡ true = ground arith in rw (room, int_suc) refl

-- The constructor of a meter, at a sample rate below 2^30, neither loops for ever nor overflows an
-- int or a long nor fails its assertion: the mask and 1 are a power of two, no less than the rate
-- and 1 and less than twice that, and nothing is counted yet.
pub new_meter-IsRounded :
    (now interval_ms sample_ : ℕ) (disable : Bool)
    → sample_ < 2 ^ 30
    → Post
        (λ cause. ⊥)
        (λ m. IsRounded 62 (sample_ + 1) (m.sample + 1) × (m.bytes ≡ 0) × (m.cnt ≡ 0))
        (new_meter now disable interval_ms sample_)
unfolding new_meter
new_meter-IsRounded now interval_ms sample_ disable less =
    let (e, r) = round_up_power2-next_power (sample_ + 1) (omega arith) (omega arith) in
    let v = next_power 62 (sample_ + 1) in
    let bound : v ≤ 2 ^ 30 =
      subst (λ n. n ≤ 2 ^ 30) (sym r.power)
        (small_power r.exponent (subst (λ n. n < 2 ^ 31) r.power (omega (arith, r.close)))) in
    let back : (v - 1) % 2 ^ 32 + 1 ≡ v = omega (arith, r.above) in
    let alone : lowbit v ≡ v =
      subst (λ n. lowbit n ≡ n) (sym r.power) (lowbit_power r.exponent (omega (arith, r.within))) in
    let same : ((v - 1) % 2 ^ 32 + 1 == lowbit ((v - 1) % 2 ^ 32 + 1)) ≡ true =
      subst (λ n. (n == lowbit n) ≡ true) (sym back) (ground (arith, alone)) in
    rw (int_suc-done sample_ (omega arith), e, new_meter)
      (rw (int_suc-done ((v - 1) % 2 ^ 32) (omega (arith, back, bound)), new_meter)
        (rw (same, new_meter) (subst (IsRounded 62 (sample_ + 1)) (sym back) r, refl, refl)))
