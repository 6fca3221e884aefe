-- ===== src/Program.antt =====
-- main and CpuMonitor of src/rpc_bench.cc. How App::Run of an application returns is a parameter,
-- and so is the clock. The monitor runs in a thread of its own.
pub mod Outcomes
use rpc_bench.Common.{
  ℕ, zero, suc, ◌+◌, ℤ, Bool, true, false, List, [], ◌∷◌, Option, none, some, Outcome, done, ◌>>=◌,
  deref, ltb, if◌then◌else◌,
}
use rpc_bench.Options.{
  CommandOpts, Flag, Parsed, returned, exited, thrown, default_opts, parse_argument,
}
use rpc_bench.App.{App, create}
use rpc_bench.CpuStat.{CpuSnapshot, CpuStats, Ratio, snapshot, cpu_util}
use Prim.Native.String.{String}

-- How the process ends: the usage and 1, the usage and 0, an exception that nothing catches, or
-- the return of an application's Run, after a monitor was started or not.
pub data End : Type 0 where
  usage_shown help_shown uncaught : End
  ran : Bool → App → ℕ → End

abbrev has_value : {A : Type 0} → Option A → Bool
has_value none = false
has_value (some a) = true

module _ {D : Type 0} (run : App → ℕ) where
  -- main after ParseArgument.
  unfoldable pub run_app : Parsed (CommandOpts D) → Outcome End
  run_app (returned zero opts) = do
    made ← create opts
    app ← deref made
    done (ran (has_value opts.monitor_time_sec) app (run app))
  run_app (returned (suc err) opts) = done usage_shown
  run_app exited = done help_shown
  run_app thrown = done uncaught

module _ (D : Type 0) (of_int : ℤ → D) (stoi : String → Option ℤ) (stof : String → Option D) where
  -- main, over the answers of getopt_long and what it leaves of the line.
  unfoldable pub main : (App → ℕ) → List Flag → List String → Outcome End
  main run flags rest =
      run_app run (parse_argument D of_int stoi stof (default_opts D of_int stoi stof) flags rest)

-- A round of the monitor's loop: what /proc shows, and the clock at the end.
pub record MonitorRound : Type 0 where
  pub taken : CpuSnapshot
  pub now : ℕ

-- The lines that the loop prints until it ends; `none` while it goes on.
unfoldable pub monitor_loop : ℕ → ℕ → ℕ → List MonitorRound → CpuStats → Option (List Ratio)
monitor_loop core_cnt start monitor_time [] stats = none
monitor_loop core_cnt start monitor_time (r ∷ rest) stats =
    let stats' = snapshot r.taken stats in
    let later = monitor_loop core_cnt start monitor_time rest stats' in
    if ltb (start + monitor_time) r.now
    then some (cpu_util core_cnt stats' ∷ [])
    else elim later [ none ↦ none | some lines ↦ some (cpu_util core_cnt stats' ∷ lines) ]

-- CpuMonitor: the constructor takes a snapshot, `warm` is taken after the warmup.
unfoldable pub cpu_monitor :
    ℕ → CpuStats → CpuSnapshot → ℕ → ℕ → List MonitorRound → Option (List Ratio)
cpu_monitor core_cnt constructed warm start monitor_time rounds =
    monitor_loop core_cnt start monitor_time rounds (snapshot warm constructed)
