-- ===== src/Tests/Tools.antt =====
-- The theorems on the meter, the CPU counters, the command line and the choice of an application
-- at concrete inputs.
use rpc_bench.Common.{
  All, ◌+◌, ◌-◌, ◌%◌, ◌^◌, ◌≤◌, ◌≡◌, refl, ℤ, pos, false, List, [], ◌∷◌, Option, none, some, Post,
  done, arith, if◌then◌else◌,
}
use rpc_bench.CpuStat.{CpuSnapshot, CpuStats, get_cpu_interval, average_idle, snapshot}
use rpc_bench.CpuStat.Interval.{
  IsCounted, IsLater, elapsed, get_cpu_interval-elapsed, average_idle-IsShare,
}
use rpc_bench.Meter.Rounding.{
  next_power, IsRounded, round_up_power2-next_power, new_meter-IsRounded,
}
use rpc_bench.Program.{main}
use rpc_bench.Program.Outcomes.{Ended, main-Ended}
use rpc_bench.Meter.{round_up_power2, new_meter, Meter}
use rpc_bench.Meter.Conservation.{
  Call, bytes_call, qps_call, run, all_bytes, run-Conserved, reports, time_of, run-Timely,
}
use rpc_bench.Options.{CommandOpts, Flag, app, rpc, port, parse_argument}
use rpc_bench.Options.Last.{Explained}
use rpc_bench.Options.Parse.{parse_argument-Explained}
use Prim.Native.String.{String}
use text.Mathlib.Text.{◌==◌}

abbrev before : CpuSnapshot
before = record {
  utime = 1;
  stime = 1;
  user = 50;
  nice = 0;
  sys = 3;
  idle = 100;
  iowait = 0;
  hardirq = 0;
  softirq = 1;
  steal = 0;
  guest = 10;
  guest_nice = 0;
}

-- The guest counter grew by more than `user`.
abbrev after : CpuSnapshot
after = record before { user = 51; guest = 14; idle = 105 }

before-IsCounted : IsCounted before
before-IsCounted = record {
  guest_within = omega arith;
  guest_nice_within = omega arith;
  fits = omega arith;
}

after-IsCounted : IsCounted after
after-IsCounted = record {
  guest_within = omega arith;
  guest_nice_within = omega arith;
  fits = omega arith;
}

after-IsLater : IsLater before after
after-IsLater = record {
  guest = omega arith;
  guest_nice = omega arith;
  sys = omega arith;
  idle = omega arith;
  iowait = omega arith;
  hardirq = omega arith;
  softirq = omega arith;
  steal = omega arith;
}

get_cpu_interval-elapsed_example : get_cpu_interval before after ≡ elapsed before after
get_cpu_interval-elapsed_example =
    get_cpu_interval-elapsed before after before-IsCounted after-IsCounted after-IsLater

abbrev one_snapshot : CpuStats
one_snapshot = record { prev = before; curr = before }

average_idle-IsShare_example :
    Post
      (λ cause. after.idle ≡ 0)
      (λ r.
        (r.numerator ≡ after.idle - before.idle)
        × (r.denominator ≡ elapsed before after)
        × (r.numerator ≤ r.denominator))
      (average_idle (snapshot after one_snapshot))
average_idle-IsShare_example =
    average_idle-IsShare after one_snapshot before-IsCounted after-IsCounted after-IsLater

abbrev meter : Meter
meter = record { sample = 0; cnt = 0; bytes = 0; qps = 0; tp = 5; interval = 1000; disable = false }

abbrev calls : List Call
calls = bytes_call 10 64 ∷ bytes_call 2000 64 ∷ qps_call 2001 8 1 ∷ []

run-Conserved_example :
    ((run calls meter).0 + (run calls meter).1.bytes) % 2 ^ 64
    ≡ (meter.bytes + all_bytes calls) % 2 ^ 64
run-Conserved_example = run-Conserved calls meter refl

run-Timely_example :
    All (λ r. meter.interval ≤ r.dura) (reports (bytes_call 2000 64 ∷ []) meter)
    × (meter.tp + time_of (reports (bytes_call 2000 64 ∷ []) meter)
        ≡ (run (bytes_call 2000 64 ∷ []) meter).1.tp)
run-Timely_example = run-Timely (bytes_call 2000 64 ∷ []) meter

-- "7" is the only number.
abbrev pub read_int : String → Option ℤ
read_int s = if s == "7" then some (pos 7) else none

abbrev flags : List Flag
flags = app "latency" ∷ app "bandwidth" ∷ port "7" ∷ rpc "socket" ∷ []

abbrev options : CommandOpts ℤ
options = record {
  is_server = none;
  host = none;
  port = pos 18000;
  app = none;
  rpc = none;
  proto = none;
  data_size = 0;
  concurrency = pos 32;
  thread = pos 1;
  persistent = false;
  time_duration_sec = pos 10;
  monitor_time_sec = none;
  monitor_warmup_sec = pos 1;
}

parse_argument-Explained_example :
    Explained ℤ
      (λ n. n)
      read_int
      read_int
      options
      flags
      ("host" ∷ [])
      (parse_argument ℤ (λ n. n) read_int read_int options flags ("host" ∷ []))
parse_argument-Explained_example =
    parse_argument-Explained ℤ (λ n. n) read_int read_int options flags ("host" ∷ []) refl

round_up_power2-next_power_example :
    (round_up_power2 64 5 ≡ done (next_power 62 5)) × IsRounded 62 5 (next_power 62 5)
round_up_power2-next_power_example = round_up_power2-next_power 5 (omega arith) (omega arith)

new_meter-IsRounded_example :
    Post
      (λ cause. ⊥)
      (λ m. IsRounded 62 16 (m.sample + 1) × (m.bytes ≡ 0) × (m.cnt ≡ 0))
      (new_meter 3 false 1000 15)
new_meter-IsRounded_example = new_meter-IsRounded 3 1000 15 false (omega arith)

main-Ended_example :
    Ended ℤ
      (λ n. n)
      read_int
      read_int
      (λ x. 0)
      flags
      ("host" ∷ [])
      (main ℤ (λ n. n) read_int read_int (λ x. 0) flags ("host" ∷ []))
main-Ended_example = main-Ended ℤ (λ n. n) read_int read_int (λ x. 0) flags ("host" ∷ [])
