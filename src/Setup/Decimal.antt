-- ===== src/Setup/Decimal.antt =====
-- The text of a number, by std::to_string.
use rpc_bench.Common.{
  ℕ, zero, suc, ◌+◌, ◌-◌, ◌*◌, ◌/◌, ◌%◌, ◌^◌, ◌<◌, ◌≡◌, refl, ap, ◌∙◌, ◌==◌, Bool-cases, inl, inr,
  pos, Option, none, some, ltb, ◌||◌, false, if◌then◌else◌, arith,
}
use rpc_bench.Setup.{digit, digits, to_string}
use native.Mathlib.Nat.{pow-suc}
use Prim.Native.Char.{code}
use Prim.Native.String.{String}

-- The number that a text of digits goes on to from `n`; no number where it has another character.
abbrev pub read_from : String → ℕ → Option ℕ
read_from String.[] n = some n
read_from (String.◌∷◌ c s) n =
    let later = read_from s (n * 10 + (code c - 48)) in
    if ltb (code c) 48 || ltb 57 (code c) then none else later

code-digit : (d : ℕ) → d < 10 → code (digit d) ≡ 48 + d
code-digit zero h = refl
code-digit (suc zero) h = refl
code-digit (suc (suc zero)) h = refl
code-digit (suc (suc (suc zero))) h = refl
code-digit (suc (suc (suc (suc zero)))) h = refl
code-digit (suc (suc (suc (suc (suc zero))))) h = refl
code-digit (suc (suc (suc (suc (suc (suc zero)))))) h = refl
code-digit (suc (suc (suc (suc (suc (suc (suc zero))))))) h = refl
code-digit (suc (suc (suc (suc (suc (suc (suc (suc zero)))))))) h = refl
code-digit (suc (suc (suc (suc (suc (suc (suc (suc (suc zero))))))))) h = refl
code-digit (suc (suc (suc (suc (suc (suc (suc (suc (suc (suc n)))))))))) h = absurd (omega arith)

tenth_below : (fuel n : ℕ) → n < 10 ^ suc fuel → n / 10 < 10 ^ fuel
tenth_below fuel n h = omega (arith, h, pow-suc 10 fuel)

-- A digit is read as itself.
read_from-digit :
    (d n : ℕ) (out : String)
    → d < 10
    → read_from (String.◌∷◌ (digit d) out) n ≡ read_from out (n * 10 + d)
read_from-digit d n out h =
    let e = code-digit d h in
    let low : ltb (code (digit d)) 48 ≡ false = ground (arith, e) in
    let high : ltb 57 (code (digit d)) ≡ false = ground (arith, e) in
    rw (low, high) (ap (read_from out) (omega (arith, e)))

-- The digits of `n` in front of a text carry on from zero as the text does from `n`.
read_from-digits :
    (fuel n : ℕ) (out : String) → n < 10 ^ fuel → read_from (digits fuel n out) 0 ≡ read_from out n
unfolding digits
read_from-digits zero n out h = ap (read_from out) (omega arith)
read_from-digits (suc fuel) n out h = elim (Bool-cases (n == 0)) [
  | inl e ↦ rw e (ap (read_from out) (ground (arith, e)))
  | inr e ↦ rw e (
      read_from-digits fuel (n / 10) _ (tenth_below fuel n h)
      ∙ read_from-digit (n % 10) (n / 10) out (omega arith)
      ∙ ap (read_from out) (omega arith))
]

-- The text of a number below 10^10 is its digits.
pub read_from-to_string : (n : ℕ) → n < 10 ^ 10 → read_from (to_string (pos n)) 0 ≡ some n
unfolding to_string
read_from-to_string n h = elim (Bool-cases (n == 0)) [
  | inl e ↦ rw e (ground (arith, e))
  | inr e ↦ rw e (read_from-digits 10 n "" h)
]
