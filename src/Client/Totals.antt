-- ===== src/Client/Totals.antt =====
-- What the bandwidth client counts.
use rpc_bench.Common.{
  ℕ, ◌+◌, ◌%◌, ◌^◌, ◌<◌, ◌≤◌, ◌≡◌, refl, subst, ap, Bool, true, false, List, [], ◌∷◌, ◌++◌, Option,
  some, All, arith, ltb, Bool-cases, inl, inr, if◌then◌else◌,
}
use mathlib.Core.Option.{some-injective}
use rpc_bench.Client.{Round, Tally, count_round, run}

-- The bytes of the rounds that were a success.
abbrev pub credited : ℕ → List Round → ℕ
credited size [] = 0
credited size (r ∷ rest) = (if r.success then size else 0) + credited size rest

-- The loop ended after `last`, the first round past the time, with what was counted since `total`.
pub record IsOver (deadline size total : ℕ) (rounds : List Round) (tally : Tally) : Type 0 where
  pub before : List Round
  pub last : Round
  pub rest : List Round
  pub rounds_are : rounds ≡ before ++ (last ∷ rest)
  pub in_time : All (λ r. r.now ≤ deadline) before
  pub too_late : deadline < last.now
  pub counted : tally.0 % 2 ^ 64 ≡ (total + credited size (before ++ (last ∷ []))) % 2 ^ 64

count_round-total :
    (size : ℕ) (r : Round) (t : Tally)
    → (count_round size r t).0 % 2 ^ 64 ≡ (t.0 + (if r.success then size else 0)) % 2 ^ 64
unfolding count_round
count_round-total size r (total, meter) = elim (Bool-cases r.success) [
  | inl e ↦ rw (e, count_round) (omega arith)
  | inr e ↦ rw (e, count_round) (ap (λ n. n % 2 ^ 64) (omega arith))
]

add_round :
    (a b c d e : ℕ)
    → a % 2 ^ 64 ≡ (b + c) % 2 ^ 64
    → d % 2 ^ 64 ≡ (a + e) % 2 ^ 64
    → d % 2 ^ 64 ≡ (b + (c + e)) % 2 ^ 64
add_round a b c d e p q = omega arith

-- What an if on Booleans gave.
given_true :
    (b : Bool) (x tally : Tally) (o : Option Tally)
    → b ≡ true
    → (if b then some x else o) ≡ some tally
    → x ≡ tally
given_true b x tally o e h =
    some-injective x tally (subst (λ c. (if c then some x else o) ≡ some tally) e h)

given_false :
    (b : Bool) (x tally : Tally) (o : Option Tally)
    → b ≡ false
    → (if b then some x else o) ≡ some tally
    → o ≡ some tally
given_false b x tally o e h = subst (λ c. (if c then some x else o) ≡ some tally) e h

-- When the loop of BwClientApp::Run ends, it ends after the first round past the time, and
-- total_bytes is the size of a message for each success up to there, in 64-bit arithmetic.
pub run-IsOver :
    (start time_dura size : ℕ) (rounds : List Round) (t tally : Tally)
    → run start time_dura size rounds t ≡ some tally
    → IsOver (start + time_dura) size t.0 rounds tally
unfolding run
run-IsOver start time_dura size [] t tally h = cc
run-IsOver start time_dura size (r ∷ rest) t tally h =
    elim (Bool-cases (ltb (start + time_dura) r.now)) [
      | inl late ↦ record {
        before = [];
        last = r;
        rest = rest;
        rounds_are = refl;
        in_time = tt;
        too_late = ground arith;
        counted =
            add_round (count_round size r t).0 t.0 (if r.success then size else 0) tally.0 0
              (count_round-total size r t)
              (ap (λ n. n % 2 ^ 64)
                (omega (arith, ap (λ (u : Tally). u.0) (given_true _ _ tally _ late h))));
      }
      | inr early ↦
          continued
            (run-IsOver start time_dura size rest (count_round size r t) tally
              (given_false _ _ tally _ early h))
            (ground arith)
    ]
  where
    continued :
        IsOver (start + time_dura) size (count_round size r t).0 rest tally
        → r.now ≤ start + time_dura
        → IsOver (start + time_dura) size t.0 (r ∷ rest) tally
    continued over le = record {
      before = r ∷ over.before;
      last = over.last;
      rest = over.rest;
      rounds_are = ap (◌∷◌ r) over.rounds_are;
      in_time = (le, over.in_time);
      too_late = over.too_late;
      counted =
          add_round (count_round size r t).0 t.0 (if r.success then size else 0) tally.0 _
            (count_round-total size r t) over.counted;
    }
