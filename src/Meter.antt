-- ===== src/Meter.antt =====
-- struct Meter of src/meter.h. The clock's reading is an argument; `disable` comes from the
-- environment, and what a report prints is a value.
pub mod Conservation
pub mod Lowbit
pub mod Rounding
use rpc_bench.Common.{
  ℕ, zero, suc, ◌+◌, ◌-◌, ◌%◌, ◌*◌, ◌^◌, ◌&&◌, Bool, true, false, bit_and, Option, none, some,
  Outcome, done, fault, hung, check, ◌>>=◌, ◌>>◌, require, ltb, leb, ◌==◌, if◌then◌else◌,
}

-- `sample` and `cnt` are int, `bytes` and `qps` are ssize_t: their bits. Times are in nanoseconds.
pub record Meter : Type 0 where
  pub sample : ℕ
  pub cnt : ℕ
  pub bytes : ℕ
  pub qps : ℕ
  pub tp : ℕ
  pub interval : ℕ
  pub disable : Bool

-- A line of output: the bytes and the operations since `tp`, in `dura`.
pub record Report : Type 0 where
  pub bytes : ℕ
  pub qps : ℕ
  pub dura : ℕ

-- Lowbit, on the bits of a long.
unfoldable pub lowbit : ℕ → ℕ
lowbit x = bit_and x ((2 ^ 64 - x) % 2 ^ 64)

-- RoundUpPower2 of a number that is not negative, with fuel; a sum that no long holds is undefined.
unfoldable pub round_up_power2 : ℕ → ℕ → Outcome ℕ
round_up_power2 zero x = hung
round_up_power2 (suc fuel) x = elim (x == lowbit x) [
  | true ↦ done x
  | false ↦ elim (ltb (x + lowbit x) (2 ^ 63)) [
    | true ↦ round_up_power2 fuel (x + lowbit x)
    | false ↦ fault
  ]
]

-- `n + 1` in an int, for an `n` that is not negative.
unfoldable pub int_suc : ℕ → Outcome ℕ
int_suc n = elim (ltb n (2 ^ 31 - 1)) [ true ↦ done (n + 1) | false ↦ fault ]

-- Meter(interval_ms, name, _sample) at the time `now`, for a rate that is not negative; `sample` is
-- an int.
unfoldable pub new_meter : ℕ → Bool → ℕ → ℕ → Outcome Meter
new_meter now disable interval_ms sample_ = do
  wanted ← int_suc sample_
  rounded ← round_up_power2 64 wanted
  let sample = (rounded - 1) % 2 ^ 32
  above ← int_suc sample
  require (above == lowbit above) check
  done (record {
    sample = sample;
    cnt = 0;
    bytes = 0;
    qps = 0;
    tp = now;
    interval = interval_ms * 1_000_000;
    disable = disable;
  })

-- (++cnt & sample) == sample, and (now - tp) >= interval.
unfoldable pub is_due : ℕ → Meter → Bool
is_due now m = (bit_and m.cnt m.sample == m.sample) && leb (m.tp + m.interval) now

-- AddBytes; the report shows no operations, and `qps` stays.
unfoldable pub add_bytes : ℕ → ℕ → Meter → Option Report × Meter
add_bytes now add m =
    if m.disable
    then (none, m)
    else let m' = record m { bytes = (m.bytes + add) % 2 ^ 64; cnt = (m.cnt + 1) % 2 ^ 32 } in
      if is_due now m'
      then (
        some (record { bytes = m'.bytes; qps = 0; dura = now - m'.tp }),
        record m' { bytes = 0; tp = now },
      )
      else (none, m')

unfoldable pub add_qps : ℕ → ℕ → ℕ → Meter → Option Report × Meter
add_qps now bytes_add qps_add m =
    if m.disable
    then (none, m)
    else let m' = record m {
      bytes = (m.bytes + bytes_add) % 2 ^ 64;
      qps = (m.qps + qps_add) % 2 ^ 64;
      cnt = (m.cnt + 1) % 2 ^ 32;
    } in
      if is_due now m'
      then (
        some (record { bytes = m'.bytes; qps = m'.qps; dura = now - m'.tp }),
        record m' { bytes = 0; qps = 0; tp = now },
      )
      else (none, m')
