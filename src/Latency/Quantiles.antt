-- ===== src/Latency/Quantiles.antt =====
-- What the client of the latency application prints.
use rpc_bench.Common.{
  ℕ, zero, suc, ◌+◌, ◌-◌, ◌%◌, ◌^◌, ◌≤◌, ◌<◌, ◌≡◌, refl, subst, List, [], ◌∷◌, some, get_elem?,
  true, ltb, done, ◌*◌, length, Post, arith,
}
use rpc_bench.Latency.{Summary, sum_of, sample_at, quantile, print}

abbrev pub IsAscending : List ℕ → Type 0
IsAscending [] = Unit {0}
IsAscending (x ∷ []) = Unit {0}
IsAscending (x ∷ (y ∷ rest)) = (x ≤ y) × IsAscending (y ∷ rest)

-- A way of sorting, by what std::sort promises.
pub record SortLaws (sort : List ℕ → List ℕ) : Type 0 where
  pub ascending : (xs : List ℕ) → IsAscending (sort xs)
  pub same_length : (xs : List ℕ) → length (sort xs) ≡ length xs
  pub same_sum : (xs : List ℕ) → sum_of (sort xs) ≡ sum_of xs

-- The product of q / 10^6 and `len` as doubles, without its fraction: the two roundings raise it by
-- less than one part in 2^51, and a larger share has no smaller product.
pub record ProductLaws (product : ℕ → ℕ → ℕ) : Type 0 where
  pub near :
      (q len : ℕ) → len < 2 ^ 53 → product q len * (1_000_000 * 2 ^ 51) ≤ q * len * (2 ^ 51 + 1)
  pub monotone : (q q' len : ℕ) → q ≤ q' → product q len ≤ product q' len

get_elem?-some : (xs : List ℕ) (i : ℕ) → i < length xs → (a : ℕ) × (get_elem? xs i ≡ some a)
get_elem?-some [] i h = absurd (omega arith)
get_elem?-some (x ∷ xs) zero h = (x, refl)
get_elem?-some (x ∷ xs) (suc i) h = get_elem?-some xs i (omega arith)

-- The first of an ascending list is no larger than the others.
first-least :
    (x : ℕ) (xs : List ℕ) (j b : ℕ) → IsAscending (x ∷ xs) → get_elem? (x ∷ xs) j ≡ some b → x ≤ b
first-least x xs zero b up e = ground arith
first-least x [] (suc j) b up e = cc
first-least x (y ∷ ys) (suc j) b up e = omega (arith, up.0, first-least y ys j b up.1 e)

tail-IsAscending : (x : ℕ) (xs : List ℕ) → IsAscending (x ∷ xs) → IsAscending xs
tail-IsAscending x [] up = tt
tail-IsAscending x (y ∷ ys) up = up.1

get_elem?-mono :
    (xs : List ℕ) (i j a b : ℕ)
    → IsAscending xs
    → i ≤ j
    → get_elem? xs i ≡ some a
    → get_elem? xs j ≡ some b
    → a ≤ b
get_elem?-mono [] i j a b up le e f = cc
get_elem?-mono (x ∷ xs) zero j a b up le e f =
    subst (λ v. v ≤ b) (ground arith) (first-least x xs j b up f)
get_elem?-mono (x ∷ xs) (suc i) zero a b up le e f = absurd (omega arith)
get_elem?-mono (x ∷ xs) (suc i) (suc j) a b up le e f =
    get_elem?-mono xs i j a b (tail-IsAscending x xs up) (omega arith) e f

-- A summary of the samples: as many, with their sum, and the quantiles in order.
pub record Summarizes (latencies : List ℕ) (s : Summary) : Type 0 where
  pub counted : s.samples ≡ length latencies
  pub summed : s.sum ≡ sum_of latencies
  pub low : s.p5 ≤ s.p50
  pub middle : s.p50 ≤ s.p99
  pub high : (s.p99 ≤ s.p999) × (s.p999 ≤ s.p9999) × (s.p9999 ≤ s.p99999) × (s.p99999 ≤ s.p999999)
  pub top : s.p999999 ≤ s.largest

module _ (sort : List ℕ → List ℕ) (product : ℕ → ℕ → ℕ) (sorts : SortLaws sort)
    (products : ProductLaws product) where
  in_range : (q len : ℕ) → q < 1_000_000 → 0 < len → len < 2 ^ 31 → product q len < len
  in_range q len share full small = omega (
    arith,
    products.near 999_999 len (omega arith),
    products.monotone q 999_999 len (omega arith),
  )

  found :
      (xs : List ℕ) (q : ℕ)
      → q < 1_000_000
      → 0 < length xs
      → length xs < 2 ^ 31
      → (a : ℕ) × (quantile product xs q ≡ done a) × (get_elem? xs (product q (length xs)) ≡ some a)
  unfolding quantile sample_at
  found xs q share full small =
      let inside = in_range q (length xs) share full small in
      let (a, at) = get_elem?-some xs (product q (length xs)) inside in
      let fits : ltb (product q (length xs)) (2 ^ 31) ≡ true = ground (arith, inside, small) in
      (a, rw (fits, quantile) (rw at refl), at)

  lower :
      (xs : List ℕ) (q q' a b : ℕ)
      → IsAscending xs
      → q ≤ q'
      → get_elem? xs (product q (length xs)) ≡ some a
      → get_elem? xs (product q' (length xs)) ≡ some b
      → a ≤ b
  lower xs q q' a b up le e f =
      get_elem?-mono xs (product q (length xs)) (product q' (length xs)) a b up
        (products.monotone q q' (length xs) le) e f

  -- print, where there are samples, fewer than 2^31, reads within them: it prints their number and
  -- sum, and quantiles in order.
  pub print-Summarizes :
      (latencies : List ℕ)
      → 0 < length latencies
      → length latencies < 2 ^ 31
      → Post (λ cause. ⊥) (Summarizes latencies) (print sort product latencies)
  unfolding print sample_at
  print-Summarizes latencies pos fits =
      let sorted = sort latencies in
      let len = length sorted in
      let last = (len + 2 ^ 64 - 1) % 2 ^ 64 in
      let full : 0 < len = omega (arith, sorts.same_length latencies) in
      let small : len < 2 ^ 31 = omega (arith, sorts.same_length latencies) in
      let end : last ≡ len - 1 = omega arith in
      let up = sorts.ascending latencies in
      let (a, is_a, at_a) = found sorted 500_000 (omega arith) full small in
      let (b, is_b, at_b) = found sorted 50_000 (omega arith) full small in
      let (c, is_c, at_c) = found sorted 990_000 (omega arith) full small in
      let (d, is_d, at_d) = found sorted 999_000 (omega arith) full small in
      let (e, is_e, at_e) = found sorted 999_900 (omega arith) full small in
      let (f, is_f, at_f) = found sorted 999_990 (omega arith) full small in
      let (g, is_g, at_g) = found sorted 999_999 (omega arith) full small in
      let (h, at_h) = get_elem?-some sorted last (omega arith) in
      rw (is_a, is_b, is_c, is_d, is_e, is_f, is_g, at_h, print)
        (record {
          counted = sorts.same_length latencies;
          summed = sorts.same_sum latencies;
          low = lower sorted 50_000 500_000 b a up (omega arith) at_b at_a;
          middle = lower sorted 500_000 990_000 a c up (omega arith) at_a at_c;
          high = (
            lower sorted 990_000 999_000 c d up (omega arith) at_c at_d,
            lower sorted 999_000 999_900 d e up (omega arith) at_d at_e,
            lower sorted 999_900 999_990 e f up (omega arith) at_e at_f,
            lower sorted 999_990 999_999 f g up (omega arith) at_f at_g,
          );
          top =
              get_elem?-mono sorted (product 999_999 len) last g h up
                (omega (arith, in_range 999_999 len (omega arith) full small)) at_g at_h;
        })
