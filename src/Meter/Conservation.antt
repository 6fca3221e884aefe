-- ===== src/Meter/Conservation.antt =====
-- What a meter reports over a run of AddBytes and AddQps.
use rpc_bench.Common.{
  ℕ, ◌+◌, ◌%◌, ◌^◌, ◌≤◌, ◌≡◌, ap, subst, All, false, List, [], ◌∷◌, Option, none, some, arith,
}
use rpc_bench.Meter.{Meter, Report, is_due, add_bytes, add_qps}

-- A call at the time `now`.
pub data Call : Type 0 where
  bytes_call : (now add : ℕ) → Call
  qps_call : (now bytes_add qps_add : ℕ) → Call

abbrev pub call : Call → Meter → Option Report × Meter
call (bytes_call now add) m = add_bytes now add m
call (qps_call now bytes_add qps_add) m = add_qps now bytes_add qps_add m

abbrev pub bytes_of_call : Call → ℕ
bytes_of_call (bytes_call now add) = add
bytes_of_call (qps_call now bytes_add qps_add) = bytes_add

abbrev pub reported : Option Report → ℕ
reported none = 0
reported (some r) = r.bytes

-- The bytes of all the reports of a run, and the meter after it.
unfoldable pub run : List Call → Meter → ℕ × Meter
run [] m = (0, m)
run (c ∷ cs) m =
    let first = call c m in let rest = run cs first.1 in (reported first.0 + rest.0, rest.1)

abbrev pub all_bytes : List Call → ℕ
all_bytes [] = 0
all_bytes (c ∷ cs) = bytes_of_call c + all_bytes cs

call_keeps :
    (c : Call) (m : Meter)
    → m.disable ≡ false
    → ((reported (call c m).0 + (call c m).1.bytes) % 2 ^ 64 ≡ (m.bytes + bytes_of_call c) % 2 ^ 64)
      × ((call c m).1.disable ≡ false)
unfolding add_bytes add_qps
call_keeps (bytes_call now add) m e = (ground arith, ground arith)
call_keeps (qps_call now bytes_add qps_add) m e = (ground arith, ground arith)

-- Whatever the calls and their times: the bytes that an enabled meter reported and those that it
-- still holds are the bytes that were added, in 64-bit arithmetic.
pub run-Conserved :
    (cs : List Call) (m : Meter)
    → m.disable ≡ false
    → ((run cs m).0 + (run cs m).1.bytes) % 2 ^ 64 ≡ (m.bytes + all_bytes cs) % 2 ^ 64
unfolding run
run-Conserved [] m e = ap (λ n. n % 2 ^ 64) (omega arith)
run-Conserved (c ∷ cs) m e =
    omega (arith, (call_keeps c m e).0, run-Conserved cs (call c m).1 (call_keeps c m e).1)

-- The reports of a run, and the time that they say has passed.
abbrev pub and_then : Option Report → List Report → List Report
and_then none rs = rs
and_then (some r) rs = r ∷ rs

unfoldable pub reports : List Call → Meter → List Report
reports [] m = []
reports (c ∷ cs) m = let first = call c m in let rest = reports cs first.1 in and_then first.0 rest

abbrev pub time_of : List Report → ℕ
time_of [] = 0
time_of (r ∷ rs) = r.dura + time_of rs

-- What one call makes of the time of the last report.
abbrev Ticks : Meter → Option Report × Meter → Type 0
Ticks m (none, m') = (m'.interval ≡ m.interval) × (m'.tp ≡ m.tp)
Ticks m (some r, m') = (m'.interval ≡ m.interval) × (m'.tp ≡ m.tp + r.dura) × (m.interval ≤ r.dura)

call-Ticks : (c : Call) (m : Meter) → Ticks m (call c m)
unfolding add_bytes add_qps is_due
call-Ticks (bytes_call now add) m = ground arith
call-Ticks (qps_call now bytes_add qps_add) m = ground arith

-- Whatever the calls and their times: each report says that no less than the interval has passed,
-- and all of them together the time from the start of the meter to its last report.
pub run-Timely :
    (cs : List Call) (m : Meter)
    → All (λ r. m.interval ≤ r.dura) (reports cs m)
      × (m.tp + time_of (reports cs m) ≡ (run cs m).1.tp)
unfolding run reports
run-Timely [] m = (tt, omega arith)
run-Timely (c ∷ cs) m = from (call c m) (call-Ticks c m) (run-Timely cs (call c m).1)
  where
    from :
        (r : Option Report × Meter)
        → Ticks m r
        → All (λ x. r.1.interval ≤ x.dura) (reports cs r.1)
          × (r.1.tp + time_of (reports cs r.1) ≡ (run cs r.1).1.tp)
        → All (λ x. m.interval ≤ x.dura) (and_then r.0 (reports cs r.1))
          × (m.tp + time_of (and_then r.0 (reports cs r.1)) ≡ (run cs r.1).1.tp)
    from (none, m') (same, still) (all, sum) =
        (subst (λ i. All (λ x. i ≤ x.dura) (reports cs m')) same all, omega (arith, still, sum))
    from (some x, m') (same, moved, long) (all, sum) = (
      (long, subst (λ i. All (λ y. i ≤ y.dura) (reports cs m')) same all),
      omega (arith, moved, sum),
    )
