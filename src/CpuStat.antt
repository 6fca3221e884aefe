-- ===== src/CpuStat.antt =====
-- CpuSnapshot and CpuStats of src/cpu_stat.{h,cc}, over what Snapshot() reads from /proc/stat and
-- /proc/self/stat. The fields that DebugString alone reads are left out, and a quotient of doubles
-- is the pair of integers that it divides.
pub mod Interval
use rpc_bench.Common.{
  ℕ, ◌+◌, ◌-◌, ◌%◌, ◌^◌, ◌*◌, Outcome, done, check, ◌>>=◌, ◌>>◌, require, deref, Option, ltb, ◌==◌,
  if◌then◌else◌,
}

-- Every field is a uint64_t.
pub record CpuSnapshot : Type 0 where
  pub utime : ℕ
  pub stime : ℕ
  pub user : ℕ
  pub nice : ℕ
  pub sys : ℕ
  pub idle : ℕ
  pub iowait : ℕ
  pub hardirq : ℕ
  pub softirq : ℕ
  pub steal : ℕ
  pub guest : ℕ
  pub guest_nice : ℕ

-- The sum that Total() cuts to uint64_t.
abbrev pub sum : CpuSnapshot → ℕ
sum s = s.user + s.nice + s.sys + s.idle + s.iowait + s.hardirq + s.softirq + s.steal

unfoldable pub total : CpuSnapshot → ℕ
total s = sum s % 2 ^ 64

-- Subtraction of uint64_t.
unfoldable pub sub64 : ℕ → ℕ → ℕ
sub64 a b = (a + 2 ^ 64 - b) % 2 ^ 64

-- What `ishift` grows by for one of the two counters.
unfoldable pub shift_of : ℕ → ℕ → ℕ
unfolding sub64
shift_of prev curr = if ltb curr prev then sub64 prev curr else 0

unfoldable pub get_cpu_interval : CpuSnapshot → CpuSnapshot → ℕ
get_cpu_interval prev curr =
    let ishift = shift_of (sub64 prev.user prev.guest) (sub64 curr.user curr.guest) in
    let ishift' =
      (ishift + shift_of (sub64 prev.nice prev.guest_nice) (sub64 curr.nice curr.guest_nice))
      % 2 ^ 64 in
    (sub64 (total curr) (total prev) + ishift') % 2 ^ 64

-- What fscanf does with an open file: the number of items that it read, and what it stores.
pub record Scan : Type 0 where
  pub nread : ℕ
  pub store : CpuSnapshot → CpuSnapshot

-- CpuSnapshot::Snapshot() over /proc/stat and /proc/self/stat; `none` is a file that fopen does not
-- open, whose null pointer fscanf is given.
unfoldable pub read_snapshot : Option Scan → Option Scan → CpuSnapshot → Outcome CpuSnapshot
read_snapshot proc_stat self_stat s = do
  cpu ← deref proc_stat
  require (cpu.nread == 10) check
  self ← deref self_stat
  require (self.nread == 17) check
  done (self.store (cpu.store s))

pub record CpuStats : Type 0 where
  pub prev : CpuSnapshot
  pub curr : CpuSnapshot

-- CpuStats::Snapshot(), where /proc shows `taken`.
unfoldable pub snapshot : CpuSnapshot → CpuStats → CpuStats
snapshot taken stats = record { prev = stats.curr; curr = taken }

pub record Ratio : Type 0 where
  pub numerator : ℕ
  pub denominator : ℕ

unfoldable pub average_idle : CpuStats → Outcome Ratio
average_idle s = do
  require (ltb 0 s.curr.idle) check
  done (
      if ltb s.curr.idle s.prev.idle then record { numerator = 0; denominator = 1 } else record {
        numerator = sub64 s.curr.idle s.prev.idle;
        denominator = get_cpu_interval s.prev s.curr;
      })

-- CpuUtil(), on `core_cnt` cores.
unfoldable pub cpu_util : ℕ → CpuStats → Ratio
cpu_util core_cnt s =
    let u = sub64 s.curr.utime s.prev.utime in
    let t = sub64 s.curr.stime s.prev.stime in
    record {
      numerator = (u + t) % 2 ^ 64 * core_cnt;
      denominator = sub64 (total s.curr) (total s.prev);
    }
