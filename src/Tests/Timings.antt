-- ===== src/Tests/Timings.antt =====
-- The theorems on the latency application at concrete inputs.
use rpc_bench.Common.{ℕ, ◌*◌, ◌/◌, ◌≡◌, refl, true, false, List, [], ◌∷◌, none, leb, if◌then◌else◌}
use rpc_bench.Latency.{LatCall, LatRun, lat_run}
use rpc_bench.Latency.Timing.{lat_run-failing}

abbrev calls : List LatCall
calls =
    record { ok = true; now = 5; later = 6 }
    ∷ (record { ok = false; now = 9; later = 9 }
        ∷ (record { ok = true; now = 12; later = 13 } ∷ []))

abbrev lost_calls : List LatCall
lost_calls =
    record { ok = false; now = 5; later = 6 } ∷ (record { ok = false; now = 99; later = 99 } ∷ [])

abbrev two_samples : LatRun
two_samples = record { overlimit = 1; latencies = 5 ∷ 6 ∷ []; last = 13 }

lat_run-failing_example : lat_run 0 10 lost_calls ≡ none
lat_run-failing_example = lat_run-failing 0 10 lost_calls (refl, (refl, tt))

abbrev insert : ℕ → List ℕ → List ℕ
insert x [] = x ∷ []
insert x (y ∷ ys) = let rest = insert x ys in if leb x y then x ∷ (y ∷ ys) else y ∷ rest

abbrev sort : List ℕ → List ℕ
sort [] = []
sort (x ∷ xs) = insert x (sort xs)

share : ℕ → ℕ → ℕ
share q len = q * len / 1_000_000
